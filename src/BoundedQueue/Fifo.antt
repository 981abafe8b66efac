-- ===== src/BoundedQueue/Fifo.antt =====
-- The bounded queue of recitation/threads/thread_test.c under any number of threads that take turns
-- in any order.
use csci_3753_operating_syst.Prelude.{
  ℕ, zero, suc, ◌+◌, ◌≤◌, ◌≡◌, refl, ap, subst, Bool, true, false, some, List, ◌++◌, arith, length,
  get_elem?, get_or, set, replicate, All-get_elem?, All-replicate,
}
use csci_3753_operating_syst.BoundedQueue.{
  qsize, Queue, Thread, System, Step, Steps, call_push, call_pop, run, stay, next, moved, initial,
  advance, enters, leaves, ready, push_wait, push_lock, push_write, push_advance, push_unlock,
  push_post, pop_wait, pop_lock, pop_read, pop_advance, pop_unlock, pop_post, q_init, semc_wait,
  semc_post, mutex_lock,
}
use csci_3753_operating_syst.BoundedQueue.Moves.{
  quiet, write-IsSound, push-IsSound, pop-IsSound, call-IsSound,
}
use csci_3753_operating_syst.BoundedQueue.Accounts.{
  inside, reserved, unposted, claimed, unreleased, stored, bit, IsSound, Held-outside,
}
use csci_3753_operating_syst.Ring.{items, after, length-items}
use csci_3753_operating_syst.Prelude.Sums.{total, total-elem-le, total-replicate_zero}
use csci_3753_operating_syst.Prelude.Opt.{◌>>=◌}

-- Where a line leads.
arrive :
    (s : System) (i : ℕ) (t : Thread) (x : Thread × Queue) (t' : Thread) (q' : Queue)
    → ◌≡◌ {A = Thread × Queue} x (t', q')
    → IsSound (moved s i t x.0 x.1)
    → IsSound (moved s i t t' q')
arrive s i t x t' q' e h = subst (λ (y : Thread × Queue). IsSound (moved s i t y.0 y.1)) e h

line_lem : (x y : Thread × Queue) → some x ≡ some y → x ≡ y
line_lem x y e = cc

-- A wait that ends has taken a token.
pub semc_wait_inv :
    (n : ℕ) (f : ℕ → Thread × Queue) (x : Thread × Queue)
    → (semc_wait n >>= λ count. some (f count)) ≡ some x
    → (m : ℕ) × (n ≡ suc m) × (f m ≡ x)
unfolding semc_wait
semc_wait_inv zero f x e = absurd (cc)
semc_wait_inv (suc m) f x e = (m, refl, line_lem (f m) x e)

-- A lock that is taken was free.
pub mutex_lock_inv :
    (b : Bool) (f : Bool → Thread × Queue) (x : Thread × Queue)
    → (mutex_lock b >>= λ held. some (f held)) ≡ some x
    → (b ≡ false) × (f true ≡ x)
unfolding mutex_lock
mutex_lock_inv true f x e = absurd (cc)
mutex_lock_inv false f x e = (refl, line_lem (f true) x e)

-- A thread inside has the lock.
locked :
    (s : System) (i : ℕ) (t : Thread)
    → IsSound s
    → get_elem? s.threads i ≡ some t
    → inside t ≡ 1
    → bit s.queue.qlock ≡ 1
locked s i t h at one = let le = total-elem-le inside s.threads i t at in ground (arith, h.lock)

run-IsSound :
    (s : System) (i : ℕ) (t t' : Thread) (q' : Queue)
    → IsSound s
    → get_elem? s.threads i ≡ some t
    → advance t s.queue ≡ some (t', q')
    → IsSound (moved s i t t' q')
unfolding advance enters leaves semc_post
run-IsSound s i ready t' q' h at e = absurd (cc)
run-IsSound s i (push_wait v) t' q' h at e =
    let (m, k, x) =
      semc_wait_inv s.queue.empty (λ count. (push_lock v, record s.queue { empty = count }))
        (t', q') e in
    arrive s i (push_wait v) (push_lock v, record s.queue { empty = m }) t' q' x
      (quiet s i (push_wait v) (push_lock v) m s.queue.full s.queue.qlock h at (refl, refl)
        (omega arith) (omega arith) (omega arith) tt)
run-IsSound s i (push_lock v) t' q' h at e =
    let (free, x) =
      mutex_lock_inv s.queue.qlock (λ held. (push_write v, record s.queue { qlock = held }))
        (t', q') e in
    arrive s i (push_lock v) (push_write v, record s.queue { qlock = true }) t' q' x
      (quiet s i (push_lock v) (push_write v) s.queue.empty s.queue.full true h at (refl, refl)
        (omega arith) (omega arith) (omega (arith, ap bit free)) tt)
run-IsSound s i (push_write v) t' q' h at e =
    arrive s i (push_write v)
      (push_advance v, record s.queue { data_slots = set s.queue.data_slots s.queue.tail v }) t' q'
      (line_lem _ (t', q') e) (write-IsSound s i v h at)
run-IsSound s i (push_advance v) t' q' h at e =
    arrive s i (push_advance v) (push_unlock, record s.queue { tail = after qsize s.queue.tail }) t'
      q' (line_lem _ (t', q') e) (push-IsSound s i v h at)
run-IsSound s i push_unlock t' q' h at e =
    arrive s i push_unlock (push_post, record s.queue { qlock = false }) t' q'
      (line_lem _ (t', q') e)
      (quiet s i push_unlock push_post s.queue.empty s.queue.full false h at (refl, refl)
        (omega arith) (omega arith) (omega (arith, locked s i push_unlock h at refl)) tt)
run-IsSound s i push_post t' q' h at e =
    arrive s i push_post (ready, record s.queue { full = s.queue.full + 1 }) t' q'
      (line_lem _ (t', q') e)
      (quiet s i push_post ready s.queue.empty (s.queue.full + 1) s.queue.qlock h at (refl, refl)
        (omega arith) (omega arith) (omega arith) tt)
run-IsSound s i pop_wait t' q' h at e =
    let (m, k, x) =
      semc_wait_inv s.queue.full (λ count. (pop_lock, record s.queue { full = count })) (t', q')
        e in
    arrive s i pop_wait (pop_lock, record s.queue { full = m }) t' q' x
      (quiet s i pop_wait pop_lock s.queue.empty m s.queue.qlock h at (refl, refl) (omega arith)
        (omega arith) (omega arith) tt)
run-IsSound s i pop_lock t' q' h at e =
    let (free, x) =
      mutex_lock_inv s.queue.qlock (λ held. (pop_read, record s.queue { qlock = held })) (t', q')
        e in
    arrive s i pop_lock (pop_read, record s.queue { qlock = true }) t' q' x
      (quiet s i pop_lock pop_read s.queue.empty s.queue.full true h at (refl, refl) (omega arith)
        (omega arith) (omega (arith, ap bit free)) tt)
run-IsSound s i pop_read t' q' h at e =
    let v = get_or s.queue.data_slots s.queue.head 0 in
    arrive s i pop_read (pop_advance v, s.queue) t' q' (line_lem _ (t', q') e)
      (quiet s i pop_read (pop_advance v) s.queue.empty s.queue.full s.queue.qlock h at (refl, refl)
        (omega arith) (omega arith) (omega arith) refl)
run-IsSound s i (pop_advance v) t' q' h at e =
    arrive s i (pop_advance v) (pop_unlock v, record s.queue { head = after qsize s.queue.head }) t'
      q' (line_lem _ (t', q') e) (pop-IsSound s i v h at)
run-IsSound s i (pop_unlock v) t' q' h at e =
    arrive s i (pop_unlock v) (pop_post v, record s.queue { qlock = false }) t' q'
      (line_lem _ (t', q') e)
      (quiet s i (pop_unlock v) (pop_post v) s.queue.empty s.queue.full false h at (refl, refl)
        (omega arith) (omega arith) (omega (arith, locked s i (pop_unlock v) h at refl)) tt)
run-IsSound s i (pop_post v) t' q' h at e =
    arrive s i (pop_post v) (ready, record s.queue { empty = s.queue.empty + 1 }) t' q'
      (line_lem _ (t', q') e)
      (quiet s i (pop_post v) ready (s.queue.empty + 1) s.queue.full s.queue.qlock h at (refl, refl)
        (omega arith) (omega arith) (omega arith) tt)

Step-IsSound : (s s' : System) → Step s s' → IsSound s → IsSound s'
Step-IsSound s s' (call_push _ i v at) h =
    call-IsSound s i (push_wait v) h at (refl, refl, refl, refl)
Step-IsSound s s' (call_pop _ i at) h = call-IsSound s i pop_wait h at (refl, refl, refl, refl)
Step-IsSound s s' (run _ i t t' q' at e) h = run-IsSound s i t t' q' h at e

pub initial-IsSound : (slots : List ℕ) (n : ℕ) → length slots ≡ qsize → IsSound (initial slots n)
unfolding q_init
initial-IsSound slots n len =
    let c = total-replicate_zero claimed n ready refl in
    let u = total-replicate_zero unposted n ready refl in
    let r = total-replicate_zero reserved n ready refl in
    let l = total-replicate_zero unreleased n ready refl in
    let k = total-replicate_zero inside n ready refl in
    let nothing : stored (initial slots n) ≡ 0 = omega arith in
    record {
      sized = len;
      head_in = omega arith;
      tail_at = omega (arith, nothing);
      tokens = omega arith;
      lock = k;
      fifo = rw nothing refl;
      held = λ j u at. Held-outside (q_init slots) u (
          All-get_elem? (λ (x : Thread). inside x ≡ 0) (replicate n ready) j u
            (All-replicate (λ (x : Thread). inside x ≡ 0) n ready refl) at);
    }

pub Steps-IsSound : (s s' : System) → Steps s s' → IsSound s → IsSound s'
Steps-IsSound s s' (stay _) h = h
Steps-IsSound s s' (next _ s1 _ steps step) h = Step-IsSound s1 s' step (Steps-IsSound s s1 steps h)

-- From a queue that `q_init` has set up, used by any number of threads that push and pop in any
-- order and take turns line by line: at each moment the values that were pushed are the ones that
-- were popped, in their order, followed by at most QSIZE values that are stored, and at most one
-- thread is between the lock and the unlock.
pub bounded_fifo :
    (slots : List ℕ) (n : ℕ) (s : System)
    → length slots ≡ qsize
    → Steps (initial slots n) s
    → (waiting : List ℕ) × (s.pushed ≡ s.popped ++ waiting)
      × (length waiting ≤ qsize)
      × (total inside s.threads ≤ 1)
bounded_fifo slots n s len steps =
    let h = Steps-IsSound (initial slots n) s steps (initial-IsSound slots n len) in
    let waiting = items qsize 0 s.queue.data_slots s.queue.head (stored s) in
    (
      waiting,
      h.fifo,
      omega (arith, h.tokens, length-items qsize 0 s.queue.data_slots s.queue.head (stored s)),
      ground (arith, h.lock),
    )
