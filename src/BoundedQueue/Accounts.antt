-- ===== src/BoundedQueue/Accounts.antt =====
-- The invariant of the bounded queue of recitation/threads/thread_test.c: each token of the two
-- semaphores is in the count or with a thread that is inside a call.
use csci_3753_operating_syst.Prelude.{
  ℕ, ◌+◌, ◌%◌, ◌<◌, ◌≡◌, sym, ◌∙◌, subst, ◌≢◌, Bool, some, List, ◌++◌, arith, ℕ_discrete,
  if◌then◌else◌, length, get_elem?, get_or, set, get_elem?_lt, get_elem?-set_ne,
}
use csci_3753_operating_syst.BoundedQueue.{
  qsize, Queue, Thread, System, ready, push_wait, push_lock, push_write, push_advance, push_unlock,
  push_post, pop_wait, pop_lock, pop_read, pop_advance, pop_unlock, pop_post,
}
use csci_3753_operating_syst.Ring.{items}
use csci_3753_operating_syst.Prelude.Sums.{total, total-two}
use csci_3753_operating_syst.Prelude.Writes.{get_elem?-set}

-- The thread holds `qlock`.
abbrev pub inside : Thread → ℕ
inside (push_write v) = 1
inside (push_advance v) = 1
inside push_unlock = 1
inside pop_read = 1
inside (pop_advance v) = 1
inside (pop_unlock v) = 1
inside _ = 0

-- The thread has taken a token of `empty` and not yet put its value in.
abbrev pub reserved : Thread → ℕ
reserved (push_lock v) = 1
reserved (push_write v) = 1
reserved (push_advance v) = 1
reserved _ = 0

-- The thread has put its value in and not yet posted `full`.
abbrev pub unposted : Thread → ℕ
unposted push_unlock = 1
unposted push_post = 1
unposted _ = 0

-- The thread has taken a token of `full` and not yet taken a value out.
abbrev pub claimed : Thread → ℕ
claimed pop_lock = 1
claimed pop_read = 1
claimed (pop_advance v) = 1
claimed _ = 0

-- The thread has taken a value out and not yet posted `empty`.
abbrev pub unreleased : Thread → ℕ
unreleased (pop_unlock v) = 1
unreleased (pop_post v) = 1
unreleased _ = 0

-- What a thread in the middle of its work on the slots relies on.
abbrev pub Held : Queue → Thread → Type 0
Held q (push_advance v) = get_or q.data_slots q.tail 0 ≡ v
Held q (pop_advance v) = get_or q.data_slots q.head 0 ≡ v
Held q _ = Unit

-- How many values the queue stores.
abbrev pub stored : System → ℕ
stored s = s.queue.full + total claimed s.threads + total unposted s.threads

abbrev pub bit : Bool → ℕ
bit b = if b then 1 else 0

-- The invariant.
pub record IsSound (s : System) : Type 0 where
  pub sized : length s.queue.data_slots ≡ qsize
  pub head_in : s.queue.head < qsize
  pub tail_at : s.queue.tail ≡ (s.queue.head + stored s) % qsize
  pub tokens :
      stored s + s.queue.empty + total reserved s.threads + total unreleased s.threads ≡ qsize
  pub lock : total inside s.threads ≡ bit s.queue.qlock
  pub fifo : s.pushed ≡ s.popped ++ items qsize 0 s.queue.data_slots s.queue.head (stored s)
  pub held : (j : ℕ) (u : Thread) → get_elem? s.threads j ≡ some u → Held s.queue u

-- A thread that is not inside relies on nothing.
pub Held-outside : (q : Queue) (u : Thread) → inside u ≡ 0 → Held q u
Held-outside q (push_advance v) h = absurd (omega arith)
Held-outside q (pop_advance v) h = absurd (omega arith)
Held-outside q ready h = tt
Held-outside q (push_wait v) h = tt
Held-outside q (push_lock v) h = tt
Held-outside q (push_write v) h = tt
Held-outside q push_unlock h = tt
Held-outside q push_post h = tt
Held-outside q pop_wait h = tt
Held-outside q pop_lock h = tt
Held-outside q pop_read h = tt
Held-outside q (pop_unlock v) h = tt
Held-outside q (pop_post v) h = tt

-- With a thread inside, every other one is outside.
pub others-outside :
    (s : System) (i j : ℕ) (t u : Thread)
    → total inside s.threads ≡ bit s.queue.qlock
    → get_elem? s.threads i ≡ some t
    → inside t ≡ 1
    → i ≢ j
    → get_elem? s.threads j ≡ some u
    → inside u ≡ 0
others-outside s i j t u lock at one ne at' =
    let two = total-two inside s.threads i j t u ne at at' in ground (arith, lock)

pub Held-set :
    (ts : List Thread) (i : ℕ) (t t' : Thread) (q' : Queue)
    → get_elem? ts i ≡ some t
    → Held q' t'
    → ((j : ℕ) (u : Thread) → i ≢ j → get_elem? ts j ≡ some u → Held q' u)
    → (j : ℕ) (u : Thread) → get_elem? (set ts i t') j ≡ some u
    → Held q' u
Held-set ts i t t' q' at new old j u at' = elim (ℕ_discrete i j) [
  | yes e ↦
      let here : some t' ≡ some u =
        ground (arith, get_elem?-set ts i j t' (get_elem?_lt ts i at)) in
      let same : t' ≡ u = cc in subst (Held q') same new
  | no ne ↦ old j u ne (sym (get_elem?-set_ne ts i j t' ne) ∙ at')
]
