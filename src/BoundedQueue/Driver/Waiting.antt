-- ===== src/BoundedQueue/Driver/Waiting.antt =====
-- When the producer and the consumer of part 6 (recitation/threads/thread_test.c) both cannot go on.
use csci_3753_operating_syst.Prelude.{
  ℕ, zero, suc, ◌+◌, ◌<◌, ◌≡◌, refl, sym, ap, ◌∙◌, subst, ◌⊎◌, inl, inr, true, false, some, [], ◌∷◌,
  ◌++◌, arith, dec_lt, leb, lt→ltb, length, get_elem?, length-append,
}
use csci_3753_operating_syst.BoundedQueue.{qsize, Queue, Thread, ready, push_wait, pop_wait}
use csci_3753_operating_syst.BoundedQueue.Accounts.{
  inside, reserved, unposted, claimed, unreleased, stored, bit,
}
use csci_3753_operating_syst.BoundedQueue.Driver.{produces, consumes, begins, Driver, Turn, begin}
use csci_3753_operating_syst.BoundedQueue.Driver.Phases.{
  Stalled, outside_call, no_room, no_value, push_locked, pop_locked,
}
use csci_3753_operating_syst.BoundedQueue.Driver.Invariant.{
  up_to, in_flight, to_take, is_pusher, is_popper, IsDriven,
}
use csci_3753_operating_syst.Ring.{items, length-items}
use csci_3753_operating_syst.Prelude.Sums.{total}
use mathlib.Core.List.{append-nil}

length-up_to : (n : ℕ) → length (up_to n) ≡ n
unfolding up_to
length-up_to zero = refl
length-up_to (suc n) = omega (arith, length-append (up_to n) (suc n ∷ []), length-up_to n)

-- A thread that waits is not inside, nor between its line on the slots and its post.
waits_apart :
    (q : Queue) (t : Thread) → Stalled q t → (inside t ≡ 0) × (unposted t ≡ 0) × (unreleased t ≡ 0)
waits_apart q t outside_call = (refl, refl, refl)
waits_apart q t (no_room v e) = (refl, refl, refl)
waits_apart q t (no_value e) = (refl, refl, refl)
waits_apart q t (push_locked v e) = (refl, refl, refl)
waits_apart q t (pop_locked e) = (refl, refl, refl)

pusher_waits :
    (q : Queue) (t : Thread)
    → Stalled q t
    → q.qlock ≡ false
    → is_pusher t ≡ true
    → (t ≡ ready) ⊎ (q.empty ≡ 0) × (v : ℕ) × (t ≡ push_wait v)
pusher_waits q t outside_call free h = inl refl
pusher_waits q t (no_room v e) free h = inr (e, v, refl)
pusher_waits q t (no_value e) free h = absurd (cc)
pusher_waits q t (push_locked v e) free h = absurd (cc)
pusher_waits q t (pop_locked e) free h = absurd (cc)

popper_waits :
    (q : Queue) (t : Thread)
    → Stalled q t
    → q.qlock ≡ false
    → is_popper t ≡ true
    → (t ≡ ready) ⊎ (q.full ≡ 0) × (t ≡ pop_wait)
popper_waits q t outside_call free h = inl refl
popper_waits q t (no_room v e) free h = absurd (cc)
popper_waits q t (no_value e) free h = inr (e, refl)
popper_waits q t (push_locked v e) free h = absurd (cc)
popper_waits q t (pop_locked e) free h = absurd (cc)

waits_empty :
    (q : Queue) (t : Thread)
    → Stalled q t
    → q.qlock ≡ false
    → (reserved t ≡ 0) × (unposted t ≡ 0) × (unreleased t ≡ 0) × (claimed t ≡ 0)
waits_empty q t outside_call free = (refl, refl, refl, refl)
waits_empty q t (no_room v e) free = (refl, refl, refl, refl)
waits_empty q t (no_value e) free = (refl, refl, refl, refl)
waits_empty q t (push_locked v e) free = absurd (cc)
waits_empty q t (pop_locked e) free = absurd (cc)

-- While no thread is inside a call but to wait.
record IsStill (d : Driver) : Type 0 where
  tokens : d.system.queue.full + d.system.queue.empty ≡ qsize
  logged : length d.system.pushed ≡ length d.system.popped + d.system.queue.full
  value : stored d.system ≡ d.system.queue.full

still :
    (count : ℕ) (d : Driver) (h : IsDriven count d)
    → (reserved h.tp ≡ 0) × (unposted h.tp ≡ 0) × (unreleased h.tp ≡ 0) × (claimed h.tp ≡ 0)
    → (reserved h.tc ≡ 0) × (unposted h.tc ≡ 0) × (unreleased h.tc ≡ 0) × (claimed h.tc ≡ 0)
    → IsStill d
unfolding total
still count d h p c =
    let s = d.system in
    let all : (w : Thread → ℕ) → total w s.threads ≡ w h.tp + (w h.tc + 0) =
      λ w. ap (total w) h.threads_are in
    let value : stored s ≡ s.queue.full = omega (arith, all claimed, all unposted, p, c) in
    record {
      tokens = omega (arith, h.sound.tokens, value, all reserved, all unreleased, p, c);
      logged =
          ap length h.sound.fifo
          ∙ length-append s.popped (items qsize 0 s.queue.data_slots s.queue.head (stored s))
          ∙ ap (λ k. length s.popped + k)
              (length-items qsize 0 s.queue.data_slots s.queue.head (stored s) ∙ value);
      value = value;
    }

-- All that was pushed has been popped.
emptied :
    (count : ℕ) (d : Driver) (h : IsDriven count d)
    → h.tp ≡ ready
    → h.made ≡ count
    → stored d.system ≡ 0
    → d.system.popped ≡ up_to count
emptied count d h free all none_stored =
    let s = d.system in
    let fifo : s.pushed ≡ s.popped ++ [] =
      h.sound.fifo
      ∙ ap (λ k. s.popped ++ items qsize 0 s.queue.data_slots s.queue.head k) none_stored in
    sym (append-nil s.popped)
    ∙ sym fifo
    ∙ sym (append-nil s.pushed)
    ∙ ap (λ t. s.pushed ++ in_flight t) (sym free)
    ∙ h.log
    ∙ ap up_to all

producer_begins :
    (count : ℕ) (d : Driver) (h : IsDriven count d)
    → h.tp ≡ ready
    → h.made < count
    → (d' : Driver) × Turn d d'
unfolding begins
producer_begins count d h free more =
    let i = h.made + 1 in
    let test : leb i count ≡ true = ground (arith, more) in
    (
      _,
      begin d 0 (produces count i) (produces count (i + 1)) (push_wait i) (rw h.roles_are refl)
          (subst (λ ts. get_elem? ts 0 ≡ some ready) (sym h.threads_are) (ap some free))
          (rw test refl),
    )

consumer_begins :
    (count : ℕ) (d : Driver) (h : IsDriven count d)
    → h.tc ≡ ready
    → h.taken < count
    → (d' : Driver) × Turn d d'
unfolding begins
consumer_begins count d h free more = (
  _,
  begin d 1 (consumes count h.taken) (consumes count (h.taken + 1)) pop_wait (rw h.roles_are refl)
      (subst (λ ts. get_elem? ts 1 ≡ some ready) (sym h.threads_are) (ap some free))
      (rw (lt→ltb h.taken count more) refl),
)

-- Where both threads wait.
pub both_wait :
    (count : ℕ) (d : Driver) (h : IsDriven count d)
    → Stalled d.system.queue h.tp
    → Stalled d.system.queue h.tc
    → ((d' : Driver) × Turn d d')
      ⊎ (d.system.threads ≡ ready ∷ ready ∷ []) × (d.system.popped ≡ up_to count)
unfolding total
both_wait count d h wp wc =
    let s = d.system in
    let q = s.queue in
    let ap_ = waits_apart q h.tp wp in
    let ac = waits_apart q h.tc wc in
    let locks : bit q.qlock ≡ 0 =
      omega (arith, h.sound.lock, ap (total inside) h.threads_are, ap_, ac) in
    let free : q.qlock ≡ false = ground (arith, locks) in
    let logged = ap length h.log ∙ length-up_to h.made in
    let sum = length-append s.pushed (in_flight h.tp) in
    let st = still count d h (waits_empty q h.tp wp free) (waits_empty q h.tc wc free) in
    let flight : h.tp ≡ ready → length s.pushed ≡ h.made =
      λ tp. omega (arith, logged, sum, ap (λ t. length (in_flight t)) tp) in
    elim (pusher_waits q h.tp wp free h.pusher) [
      | inl tp ↦ elim (dec_lt h.made count) [
        | yes more ↦ inl (producer_begins count d h tp more)
        | no made_all ↦ elim (popper_waits q h.tc wc free h.popper) [
          | inl tc ↦ elim (dec_lt h.taken count) [
            | yes more ↦ inl (consumer_begins count d h tc more)
            | no taken_all ↦
                let none_stored : stored s ≡ 0 = omega (
                  arith,
                  st.value,
                  st.logged,
                  flight tp,
                  h.made_in,
                  h.count_taken,
                  ap to_take tc,
                ) in
                inr (
                  h.threads_are ∙ rw (tp, tc) refl,
                  emptied count d h tp (omega (arith, h.made_in)) none_stored,
                )
          ]
          | inr (none_full, tc) ↦
              absurd (omega (arith, st.logged, flight tp, h.count_taken, h.taken_in, ap to_take tc))
        ]
      ]
      | inr (none_empty, v, tp) ↦ elim (popper_waits q h.tc wc free h.popper) [
        | inl tc ↦ elim (dec_lt h.taken count) [
          | yes more ↦ inl (consumer_begins count d h tc more)
          | no taken_all ↦ absurd (
              omega
                (arith, st.tokens, st.logged, logged, sum, h.made_in, h.count_taken, ap to_take tc))
        ]
        | inr (none_full, tc) ↦ absurd (omega (arith, st.tokens))
      ]
    ]
