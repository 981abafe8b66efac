-- ===== src/BoundedQueue/Moves.antt =====
-- What each kind of line of q_push and q_pop (recitation/threads/thread_test.c) does to the invariant.
use csci_3753_operating_syst.Prelude.{
  ℕ, suc, ◌+◌, ◌%◌, ◌<◌, ◌≡◌, refl, sym, ap, ◌∙◌, subst, ◌≢◌, Bool, some, [], ◌∷◌, ◌++◌, arith,
  get_elem?, get_or, set, length-set, get_or-set_self,
}
use csci_3753_operating_syst.BoundedQueue.{
  qsize, Queue, Thread, System, moved, enters, leaves, ready, push_wait, push_lock, push_write,
  push_advance, push_unlock, push_post, pop_wait, pop_lock, pop_read, pop_advance, pop_unlock,
  pop_post,
}
use csci_3753_operating_syst.BoundedQueue.Accounts.{
  inside, reserved, unposted, claimed, unreleased, Held, stored, bit, IsSound, others-outside,
  Held-outside, Held-set,
}
use csci_3753_operating_syst.Ring.{items, items-set, items-snoc, after}
use csci_3753_operating_syst.Prelude.Sums.{total, total-set, total-elem-le}
use mathlib.Core.List.{append_assoc, append-nil}

-- What a thread relies on is not about the counts and the lock.
Held-tokens :
    (q : Queue) (u : Thread) (empty full : ℕ) (held : Bool)
    → Held q u
    → Held (record q { empty = empty; full = full; qlock = held }) u
Held-tokens q (push_advance v) empty full held h = h
Held-tokens q (pop_advance v) empty full held h = h
Held-tokens q ready empty full held h = tt
Held-tokens q (push_wait v) empty full held h = tt
Held-tokens q (push_lock v) empty full held h = tt
Held-tokens q (push_write v) empty full held h = tt
Held-tokens q push_unlock empty full held h = tt
Held-tokens q push_post empty full held h = tt
Held-tokens q pop_wait empty full held h = tt
Held-tokens q pop_lock empty full held h = tt
Held-tokens q pop_read empty full held h = tt
Held-tokens q (pop_unlock v) empty full held h = tt
Held-tokens q (pop_post v) empty full held h = tt

-- A step that leaves the slots and their places alone, and moves tokens and the lock only between
-- the counts and the thread.
pub quiet :
    (s : System) (i : ℕ) (t t' : Thread) (empty full : ℕ) (held : Bool)
    → IsSound s
    → get_elem? s.threads i ≡ some t
    → (enters t ≡ []) × (leaves t ≡ [])
    → full + claimed t' + unposted t' ≡ s.queue.full + claimed t + unposted t
    → empty + reserved t' + unreleased t' ≡ s.queue.empty + reserved t + unreleased t
    → inside t' + bit s.queue.qlock ≡ inside t + bit held
    → Held s.queue t'
    → IsSound (moved s i t t' (record s.queue { empty = empty; full = full; qlock = held }))
quiet s i t t' empty full held h at log more room lock new =
    let c = total-set claimed s.threads i t t' at in
    let u = total-set unposted s.threads i t t' at in
    let r = total-set reserved s.threads i t t' at in
    let l = total-set unreleased s.threads i t t' at in
    let n = total-set inside s.threads i t t' at in
    let s' = moved s i t t' (record s.queue { empty = empty; full = full; qlock = held }) in
    let same : stored s' ≡ stored s = omega arith in
    record {
      sized = h.sized;
      head_in = h.head_in;
      tail_at = h.tail_at ∙ ap (λ k. (s.queue.head + k) % qsize) (sym same);
      tokens = omega (arith, h.tokens);
      lock = omega (arith, h.lock);
      fifo = rw (log.0, log.1, append-nil s.pushed, append-nil s.popped, same) h.fifo;
      held =
          Held-set s.threads i t t' s'.queue at (Held-tokens s.queue t' empty full held new)
            (λ j u ne at'. Held-tokens s.queue u empty full held (h.held j u at'));
    }

-- While a thread is inside, what the others rely on holds of any queue.
others-Held :
    (s : System) (i : ℕ) (t : Thread) (q' : Queue)
    → IsSound s
    → get_elem? s.threads i ≡ some t
    → inside t ≡ 1
    → (j : ℕ) (u : Thread) → i ≢ j
    → get_elem? s.threads j ≡ some u
    → Held q' u
others-Held s i t q' h at one j u ne at' =
    Held-outside q' u (others-outside s i j t u h.lock at one ne at')

-- The write of a push: the slot is behind the stored values.
pub write-IsSound :
    (s : System) (i v : ℕ)
    → IsSound s
    → get_elem? s.threads i ≡ some (push_write v)
    → IsSound (
        moved s i
          (push_write v)
          (push_advance v)
          (record s.queue { data_slots = set s.queue.data_slots s.queue.tail v }))
unfolding enters leaves total
write-IsSound s i v h at =
    let t = push_write v in
    let t' = push_advance v in
    let c = total-set claimed s.threads i t t' at in
    let u = total-set unposted s.threads i t t' at in
    let r = total-set reserved s.threads i t t' at in
    let l = total-set unreleased s.threads i t t' at in
    let n = total-set inside s.threads i t t' at in
    let one = total-elem-le reserved s.threads i t at in
    let q' = record s.queue { data_slots = set s.queue.data_slots s.queue.tail v } in
    let s' = moved s i t t' q' in
    let same : stored s' ≡ stored s = omega arith in
    let room : stored s < qsize = omega (arith, h.tokens) in
    let kept : items qsize 0 (set s.queue.data_slots s.queue.tail v) s.queue.head (stored s)
        ≡ items qsize 0 s.queue.data_slots s.queue.head (stored s) =
      items-set qsize 0 s.queue.data_slots v (stored s) s.queue.head s.queue.tail h.head_in room
        h.tail_at in
    record {
      sized = length-set s.queue.data_slots s.queue.tail v ∙ h.sized;
      head_in = h.head_in;
      tail_at = h.tail_at ∙ ap (λ k. (s.queue.head + k) % qsize) (sym same);
      tokens = omega (arith, h.tokens);
      lock = omega (arith, h.lock);
      fifo = rw (append-nil s.pushed, append-nil s.popped, same, kept) h.fifo;
      held =
          Held-set s.threads i t t' q' at
            (get_or-set_self s.queue.data_slots s.queue.tail v 0
              (omega (arith, h.sized, h.tail_at)))
            (others-Held s i t q' h at refl);
    }

-- The tail's move in a push: one value more is stored.
pub push-IsSound :
    (s : System) (i v : ℕ)
    → IsSound s
    → get_elem? s.threads i ≡ some (push_advance v)
    → IsSound (
        moved s i (push_advance v) push_unlock (record s.queue { tail = after qsize s.queue.tail }))
unfolding enters leaves total
push-IsSound s i v h at =
    let t = push_advance v in
    let c = total-set claimed s.threads i t push_unlock at in
    let u = total-set unposted s.threads i t push_unlock at in
    let r = total-set reserved s.threads i t push_unlock at in
    let l = total-set unreleased s.threads i t push_unlock at in
    let n = total-set inside s.threads i t push_unlock at in
    let q' = record s.queue { tail = after qsize s.queue.tail } in
    let s' = moved s i t push_unlock q' in
    let more : stored s' ≡ suc (stored s) = omega arith in
    let last : get_or s.queue.data_slots ((s.queue.head + stored s) % qsize) 0 ≡ v =
      subst (λ k. get_or s.queue.data_slots k 0 ≡ v) h.tail_at (h.held i t at) in
    let longer : items qsize 0 s.queue.data_slots s.queue.head (suc (stored s))
        ≡ items qsize 0 s.queue.data_slots s.queue.head (stored s) ++ (v ∷ []) =
      items-snoc qsize 0 s.queue.data_slots (stored s) s.queue.head h.head_in
      ∙ ap (λ x. items qsize 0 s.queue.data_slots s.queue.head (stored s) ++ (x ∷ [])) last in
    record {
      sized = h.sized;
      head_in = h.head_in;
      tail_at = omega (arith, h.tail_at, more);
      tokens = omega (arith, h.tokens);
      lock = omega (arith, h.lock);
      fifo =
          rw (append-nil s.popped, more)
            (ap (λ xs. xs ++ (v ∷ [])) h.fifo
              ∙ append_assoc s.popped (items qsize 0 s.queue.data_slots s.queue.head (stored s))
                  (v ∷ [])
              ∙ ap (λ ys. s.popped ++ ys) (sym longer));
      held = Held-set s.threads i t push_unlock q' at tt (others-Held s i t q' h at refl);
    }

-- The head's move in a pop: the oldest value leaves.
pub pop-IsSound :
    (s : System) (i v : ℕ)
    → IsSound s
    → get_elem? s.threads i ≡ some (pop_advance v)
    → IsSound (
        moved s i
          (pop_advance v)
          (pop_unlock v)
          (record s.queue { head = after qsize s.queue.head }))
unfolding enters leaves total
pop-IsSound s i v h at =
    let t = pop_advance v in
    let t' = pop_unlock v in
    let c = total-set claimed s.threads i t t' at in
    let u = total-set unposted s.threads i t t' at in
    let r = total-set reserved s.threads i t t' at in
    let l = total-set unreleased s.threads i t t' at in
    let n = total-set inside s.threads i t t' at in
    let one = total-elem-le claimed s.threads i t at in
    let q' = record s.queue { head = after qsize s.queue.head } in
    let s' = moved s i t t' q' in
    let fewer : stored s ≡ suc (stored s') = omega arith in
    let rest = items qsize 0 s.queue.data_slots (after qsize s.queue.head) (stored s') in
    record {
      sized = h.sized;
      head_in = omega arith;
      tail_at = omega (arith, h.tail_at, fewer);
      tokens = omega (arith, h.tokens);
      lock = omega (arith, h.lock);
      fifo =
          append-nil s.pushed
          ∙ h.fifo
          ∙ ap (λ k. s.popped ++ items qsize 0 s.queue.data_slots s.queue.head k) fewer
          ∙ ap (λ x. s.popped ++ (x ∷ rest)) (h.held i t at)
          ∙ sym (append_assoc s.popped (v ∷ []) rest);
      held = Held-set s.threads i t t' q' at tt (others-Held s i t q' h at refl);
    }

-- A call begins.
pub call-IsSound :
    (s : System) (i : ℕ) (t' : Thread)
    → IsSound s
    → get_elem? s.threads i ≡ some ready
    → (inside t' ≡ 0) × (reserved t' ≡ 0) × (unreleased t' ≡ 0) × (claimed t' + unposted t' ≡ 0)
    → IsSound (record s { threads = set s.threads i t' })
unfolding enters leaves
call-IsSound s i t' h at z =
    let sound =
      quiet s i ready t' s.queue.empty s.queue.full s.queue.qlock h at (refl, refl) (omega arith)
        (omega arith) (omega arith) (Held-outside s.queue t' z.0) in
    subst IsSound (rw (append-nil s.pushed, append-nil s.popped) refl) sound
