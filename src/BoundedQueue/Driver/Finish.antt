-- ===== src/BoundedQueue/Driver/Finish.antt =====
-- Part 6 of main in recitation/threads/thread_test.c comes to its end: all values arrive, in their order.
use csci_3753_operating_syst.Prelude.{
  ℕ, ◌+◌, ◌-◌, ◌*◌, ◌≤◌, ◌≡◌, ap, subst, ◌≢◌, ◌⊎◌, inl, inr, none, some, List, [], ◌∷◌, ◌++◌, arith,
  ltb, leb, ltb→lt, leb→le, length, get_elem?, get_or,
}
use csci_3753_operating_syst.BoundedQueue.{
  qsize, Queue, Thread, advance, ready, push_wait, pop_wait,
}
use csci_3753_operating_syst.BoundedQueue.Accounts.{stored}
use csci_3753_operating_syst.BoundedQueue.Driver.{
  Role, produces, consumes, begins, Driver, Turn, Turns, begin, go, no_turn, one_more, part_6,
}
use csci_3753_operating_syst.BoundedQueue.Driver.Phases.{
  advance-after_line, lines_left, lines_left-after_line, waits_or_goes,
}
use csci_3753_operating_syst.BoundedQueue.Driver.Invariant.{up_to, IsDriven}
use csci_3753_operating_syst.BoundedQueue.Driver.Begun.{test_inv, Turn-IsDriven, part_6-IsDriven}
use csci_3753_operating_syst.Ring.{items}
use csci_3753_operating_syst.Prelude.Sums.{total, total-set}
use csci_3753_operating_syst.BoundedQueue.Driver.Waiting.{both_wait}

-- The turns that a loop still has, besides those of the call that it is in.
abbrev calls_left : Role → ℕ
calls_left (produces count i) = 7 * (count + 1 - i)
calls_left (consumes count taken) = 7 * (count - taken)

abbrev turns_left : Driver → ℕ
turns_left d = total calls_left d.roles + total lines_left d.system.threads

begins_left :
    (r r' : Role) (t : Thread)
    → begins r ≡ some (t, r')
    → calls_left r' + lines_left t + 1 ≡ calls_left r
unfolding begins
begins_left (produces count i) r' t e =
    let (more, call, role) =
      test_inv (leb i count) (push_wait i, produces count (i + 1)) (t, r') e in
    omega (arith, leb→le i count more, ap lines_left call, ap calls_left role)
begins_left (consumes count k) r' t e =
    let (more, call, role) = test_inv (ltb k count) (pop_wait, consumes count (k + 1)) (t, r') e in
    omega (arith, ltb→lt k count more, ap lines_left call, ap calls_left role)

advance-ready : (t : Thread) (q : Queue) (y : Thread × Queue) → advance t q ≡ some y → t ≢ ready
unfolding advance
advance-ready t q y e same =
    let gone : none ≡ some y = subst (λ u. advance u q ≡ some y) same e in absurd (cc)

turn_left : (d d' : Driver) → Turn d d' → turns_left d' + 1 ≡ turns_left d
turn_left d d' (begin _ i r r' t at_r at_t e) = omega (
  arith,
  begins_left r r' t e,
  total-set calls_left d.roles i r r' at_r,
  total-set lines_left d.system.threads i ready t at_t,
)
turn_left d d' (go _ i t t' q' at e) =
    let v = get_or d.system.queue.data_slots d.system.queue.head 0 in
    let phase = advance-after_line t d.system.queue (t', q') e in
    omega (
      arith,
      lines_left-after_line t v (advance-ready t d.system.queue (t', q') e),
      ap lines_left phase,
      total-set lines_left d.system.threads i t t' at,
    )

Turns-left : (n : ℕ) (d d' : Driver) → Turns n d d' → n + turns_left d' ≡ turns_left d
Turns-left n d d' (no_turn _) = omega arith
Turns-left n d d' (one_more m _ d1 _ before turn) =
    omega (arith, Turns-left m d d1 before, turn_left d1 d' turn)

Turns-IsDriven : (count n : ℕ) (d d' : Driver) → Turns n d d' → IsDriven count d → IsDriven count d'
Turns-IsDriven count n d d' (no_turn _) h = h
Turns-IsDriven count n d d' (one_more m _ d1 _ before turn) h =
    Turn-IsDriven count d1 d' turn (Turns-IsDriven count m d d1 before h)

-- Part 6 of main, for any count, on storage that holds anything, in any order of the turns: no run has more
-- than 14 turns for each value; at each moment what the consumer has popped is the start of what the
-- producer has pushed; and either some thread can go on, or both are done and the consumer has popped
-- `1 .. count` in this order.
pub produced_consumed :
    (slots : List ℕ) (count n : ℕ) (d : Driver)
    → length slots ≡ qsize
    → Turns n (part_6 slots count) d
    → (n ≤ 14 * count)
      × ((waiting : List ℕ) × (d.system.pushed ≡ d.system.popped ++ waiting))
      × (((d' : Driver) × Turn d d')
          ⊎ (d.system.threads ≡ ready ∷ ready ∷ []) × (d.system.popped ≡ up_to count))
unfolding part_6 total
produced_consumed slots count n d len walk =
    let h = Turns-IsDriven count n (part_6 slots count) d walk (part_6-IsDriven slots count len) in
    let s = d.system in
    let q = s.queue in
    (
      omega (arith, Turns-left n (part_6 slots count) d walk),
      (items qsize 0 q.data_slots q.head (stored s), h.sound.fifo),
      elim (waits_or_goes h.tp q) [
        | inr (y, e) ↦ inl (_, go d 0 h.tp y.0 y.1 (ap (λ ts. get_elem? ts 0) h.threads_are) e)
        | inl wp ↦ elim (waits_or_goes h.tc q) [
          | inr (y, e) ↦ inl (_, go d 1 h.tc y.0 y.1 (ap (λ ts. get_elem? ts 1) h.threads_are) e)
          | inl wc ↦ both_wait count d h wp wc
        ]
      ],
    )
