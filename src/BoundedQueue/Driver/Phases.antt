-- ===== src/BoundedQueue/Driver/Phases.antt =====
-- The lines of q_push and q_pop (recitation/threads/thread_test.c) one after the other.
use csci_3753_operating_syst.Prelude.{
  ℕ, zero, suc, ◌+◌, ◌-◌, ◌≡◌, refl, sym, ap, ◌≢◌, ◌⊎◌, inl, inr, true, some, arith, ℕ_discrete,
  Bool-cases, get_or,
}
use csci_3753_operating_syst.BoundedQueue.{
  Queue, Thread, advance, semc_wait, mutex_lock, ready, push_wait, push_lock, push_write,
  push_advance, push_unlock, push_post, pop_wait, pop_lock, pop_read, pop_advance, pop_unlock,
  pop_post,
}
use csci_3753_operating_syst.BoundedQueue.Fifo.{semc_wait_inv, mutex_lock_inv}

-- The phase behind a line; `v` is the value that `pop_read` finds.
abbrev pub after_line : Thread → ℕ → Thread
after_line ready v = ready
after_line (push_wait w) v = push_lock w
after_line (push_lock w) v = push_write w
after_line (push_write w) v = push_advance w
after_line (push_advance w) v = push_unlock
after_line push_unlock v = push_post
after_line push_post v = ready
after_line pop_wait v = pop_lock
after_line pop_lock v = pop_read
after_line pop_read v = pop_advance v
after_line (pop_advance w) v = pop_unlock w
after_line (pop_unlock w) v = pop_post w
after_line (pop_post w) v = ready

phase_of : (x y : Thread × Queue) → some x ≡ some y → y.0 ≡ x.0
phase_of x y e = let same : x ≡ y = cc in ap (λ (z : Thread × Queue). z.0) (sym same)

pub advance-after_line :
    (t : Thread) (q : Queue) (y : Thread × Queue)
    → advance t q ≡ some y
    → y.0 ≡ after_line t (get_or q.data_slots q.head 0)
unfolding advance
advance-after_line ready q y e = absurd (cc)
advance-after_line (push_wait v) q y e =
    let (m, k, x) =
      semc_wait_inv q.empty (λ count. (push_lock v, record q { empty = count })) y e in
    ap (λ (z : Thread × Queue). z.0) (sym x)
advance-after_line (push_lock v) q y e =
    let (free, x) =
      mutex_lock_inv q.qlock (λ held. (push_write v, record q { qlock = held })) y e in
    ap (λ (z : Thread × Queue). z.0) (sym x)
advance-after_line (push_write v) q y e = phase_of _ y e
advance-after_line (push_advance v) q y e = phase_of _ y e
advance-after_line push_unlock q y e = phase_of _ y e
advance-after_line push_post q y e = phase_of _ y e
advance-after_line pop_wait q y e =
    let (m, k, x) = semc_wait_inv q.full (λ count. (pop_lock, record q { full = count })) y e in
    ap (λ (z : Thread × Queue). z.0) (sym x)
advance-after_line pop_lock q y e =
    let (free, x) = mutex_lock_inv q.qlock (λ held. (pop_read, record q { qlock = held })) y e in
    ap (λ (z : Thread × Queue). z.0) (sym x)
advance-after_line pop_read q y e = phase_of _ y e
advance-after_line (pop_advance v) q y e = phase_of _ y e
advance-after_line (pop_unlock v) q y e = phase_of _ y e
advance-after_line (pop_post v) q y e = phase_of _ y e

-- How many lines of its call a thread has still to run.
abbrev pub lines_left : Thread → ℕ
lines_left ready = 0
lines_left (push_wait w) = 6
lines_left (push_lock w) = 5
lines_left (push_write w) = 4
lines_left (push_advance w) = 3
lines_left push_unlock = 2
lines_left push_post = 1
lines_left pop_wait = 6
lines_left pop_lock = 5
lines_left pop_read = 4
lines_left (pop_advance w) = 3
lines_left (pop_unlock w) = 2
lines_left (pop_post w) = 1

pub lines_left-after_line :
    (t : Thread) (v : ℕ) → t ≢ ready → lines_left (after_line t v) + 1 ≡ lines_left t
lines_left-after_line ready v ne = absurd (ne refl)
lines_left-after_line (push_wait w) v ne = refl
lines_left-after_line (push_lock w) v ne = refl
lines_left-after_line (push_write w) v ne = refl
lines_left-after_line (push_advance w) v ne = refl
lines_left-after_line push_unlock v ne = refl
lines_left-after_line push_post v ne = refl
lines_left-after_line pop_wait v ne = refl
lines_left-after_line pop_lock v ne = refl
lines_left-after_line pop_read v ne = refl
lines_left-after_line (pop_advance w) v ne = refl
lines_left-after_line (pop_unlock w) v ne = refl
lines_left-after_line (pop_post w) v ne = refl

-- Why a thread cannot go on: it is outside a call, or waits for a token or for the lock.
pub data Stalled (q : Queue) : Thread → Type 0 where
  outside_call : Stalled q ready
  no_room : (v : ℕ) → q.empty ≡ 0 → Stalled q (push_wait v)
  no_value : q.full ≡ 0 → Stalled q pop_wait
  push_locked : (v : ℕ) → q.qlock ≡ true → Stalled q (push_lock v)
  pop_locked : q.qlock ≡ true → Stalled q pop_lock

semc_wait_go : (n : ℕ) → n ≢ 0 → semc_wait n ≡ some (n - 1)
unfolding semc_wait
semc_wait_go zero ne = absurd (ne refl)
semc_wait_go (suc m) ne = ap some (omega arith)

pub waits_or_goes :
    (t : Thread) (q : Queue) → Stalled q t ⊎ (y : Thread × Queue) × (advance t q ≡ some y)
unfolding advance mutex_lock
waits_or_goes ready q = inl outside_call
waits_or_goes (push_wait v) q = elim (ℕ_discrete q.empty 0) [
  | yes e ↦ inl (no_room v e)
  | no ne ↦ inr ((push_lock v, record q { empty = q.empty - 1 }), rw (semc_wait_go q.empty ne) refl)
]
waits_or_goes (push_lock v) q = elim (Bool-cases q.qlock) [
  | inl taken ↦ inl (push_locked v taken)
  | inr free ↦ inr ((push_write v, record q { qlock = true }), rw free refl)
]
waits_or_goes (push_write v) q = inr (_, refl)
waits_or_goes (push_advance v) q = inr (_, refl)
waits_or_goes push_unlock q = inr (_, refl)
waits_or_goes push_post q = inr (_, refl)
waits_or_goes pop_wait q = elim (ℕ_discrete q.full 0) [
  | yes e ↦ inl (no_value e)
  | no ne ↦ inr ((pop_lock, record q { full = q.full - 1 }), rw (semc_wait_go q.full ne) refl)
]
waits_or_goes pop_lock q = elim (Bool-cases q.qlock) [
  | inl taken ↦ inl (pop_locked taken)
  | inr free ↦ inr ((pop_read, record q { qlock = true }), rw free refl)
]
waits_or_goes pop_read q = inr (_, refl)
waits_or_goes (pop_advance v) q = inr (_, refl)
waits_or_goes (pop_unlock v) q = inr (_, refl)
waits_or_goes (pop_post v) q = inr (_, refl)
