-- ===== src/BoundedQueue.antt =====
-- The bounded queue between producers and consumers in recitation/threads/thread_test.c,
-- part 6: q_init, q_push and q_pop on the counting semaphores semc_t. A thread's call is a sequence
-- of phases, and threads take turns phase by phase. The body of semc_wait and semc_post is under
-- the semaphore's own mutex, so that each is one phase; a wait on a count of 0 makes no step.
pub mod Accounts
pub mod Moves
pub mod Fifo
pub mod Driver
use csci_3753_operating_syst.Prelude.{
  ℕ, zero, suc, ◌+◌, ◌-◌, ◌*◌, ◌/◌, ◌%◌, ◌^◌, ◌≤◌, ◌<◌, min, ◌≡◌, refl, sym, ap, ◌∙◌, subst, ◌≢◌,
  ◌↔◌, ◌⊎◌, inl, inr, Bool, true, false, not, ◌&&◌, ◌||◌, Option, none, some, List, [], ◌∷◌, ◌++◌,
  map, arith, dec_lt, ℕ_discrete, ltb, leb, ◌==◌, if◌then◌else◌, ltb→lt, lt→ltb, leb→le, ==_iff,
  tests, Bool-cases, bool_eq, Option-cases, if_keeps, length, get_elem?, get_or, set, take, drop,
  replicate, length-append, length-set, set-set, length-replicate, get_elem?_lt,
  get_elem?-eq-get_or, get_elem?-set_self, get_elem?-set_ne, get_or-set_self, get_or-set_ne,
  length-take, length-drop, take-append-drop, length-map, get_elem?-map, get_elem?_of_lt,
  drop-eq-cons, get_elem?-take, get_or-take, get_or-eq_get_elem?, All, All-set, All-get_or,
  All-take, All-get_elem?, All-replicate,
}
use csci_3753_operating_syst.Ring.{after}
use csci_3753_operating_syst.Prelude.Opt.{◌>>=◌}

abbrev pub qsize : ℕ
qsize = 4

pub record Queue : Type 0 where
  pub data_slots : List ℕ
  pub head : ℕ
  pub tail : ℕ
  pub qlock : Bool
  pub empty : ℕ
  pub full : ℕ

-- `q_init`, on storage that holds anything.
unfoldable pub q_init : List ℕ → Queue
q_init slots = record {
  data_slots = slots;
  head = 0;
  tail = 0;
  qlock = false;
  empty = qsize;
  full = 0;
}

-- What a thread does next: it is outside a call, or at a line of `q_push` or of `q_pop`.
pub data Thread : Type 0 where
  ready : Thread
  push_wait : ℕ → Thread
  push_lock : ℕ → Thread
  push_write : ℕ → Thread
  push_advance : ℕ → Thread
  push_unlock : Thread
  push_post : Thread
  pop_wait : Thread
  pop_lock : Thread
  pop_read : Thread
  pop_advance : ℕ → Thread
  pop_unlock : ℕ → Thread
  pop_post : ℕ → Thread

-- `semc_wait` of a count; `none` while it waits.
unfoldable pub semc_wait : ℕ → Option ℕ
semc_wait zero = none
semc_wait (suc count) = some count

-- `semc_post` of a count.
unfoldable pub semc_post : ℕ → ℕ
semc_post count = count + 1

-- `pthread_mutex_lock`
unfoldable pub mutex_lock : Bool → Option Bool
mutex_lock held = if held then none else some true

-- The next line of a call.
unfoldable pub advance : Thread → Queue → Option (Thread × Queue)
unfolding semc_wait semc_post mutex_lock
advance ready q = none
advance (push_wait v) q =
    semc_wait q.empty >>= λ count. some (push_lock v, record q { empty = count })
advance (push_lock v) q =
    mutex_lock q.qlock >>= λ held. some (push_write v, record q { qlock = held })
advance (push_write v) q =
    some (push_advance v, record q { data_slots = set q.data_slots q.tail v })
advance (push_advance v) q = some (push_unlock, record q { tail = after qsize q.tail })
advance push_unlock q = some (push_post, record q { qlock = false })
advance push_post q = some (ready, record q { full = semc_post q.full })
advance pop_wait q = semc_wait q.full >>= λ count. some (pop_lock, record q { full = count })
advance pop_lock q = mutex_lock q.qlock >>= λ held. some (pop_read, record q { qlock = held })
advance pop_read q = some (pop_advance (get_or q.data_slots q.head 0), q)
advance (pop_advance v) q = some (pop_unlock v, record q { head = after qsize q.head })
advance (pop_unlock v) q = some (pop_post v, record q { qlock = false })
advance (pop_post v) q = some (ready, record q { empty = semc_post q.empty })

-- The value that a thread's next line puts into the queue, and the one that it takes out.
unfoldable pub enters : Thread → List ℕ
enters (push_advance v) = v ∷ []
enters _ = []

unfoldable pub leaves : Thread → List ℕ
leaves (pop_advance v) = v ∷ []
leaves _ = []

-- The queue, the threads that use it, and the values that have been pushed and popped so far.
pub record System : Type 0 where
  pub queue : Queue
  pub threads : List Thread
  pub pushed : List ℕ
  pub popped : List ℕ

-- The system after the next line of thread `i`.
abbrev pub moved : System → ℕ → Thread → Thread → Queue → System
moved s i t t' q' = record {
  queue = q';
  threads = set s.threads i t';
  pushed = s.pushed ++ enters t;
  popped = s.popped ++ leaves t;
}

-- A step of the system: some thread begins a call, or runs its next line.
pub data Step : System → System → Type 0 where
  call_push :
      (s : System) (i v : ℕ)
      → get_elem? s.threads i ≡ some ready
      → Step s (record s { threads = set s.threads i (push_wait v) })
  call_pop :
      (s : System) (i : ℕ)
      → get_elem? s.threads i ≡ some ready
      → Step s (record s { threads = set s.threads i pop_wait })
  run :
      (s : System) (i : ℕ) (t t' : Thread) (q' : Queue)
      → get_elem? s.threads i ≡ some t
      → advance t s.queue ≡ some (t', q')
      → Step s (moved s i t t' q')

-- Any number of steps.
pub data Steps : System → System → Type 0 where
  stay : (s : System) → Steps s s
  next : (s s1 s2 : System) → Steps s s1 → Step s1 s2 → Steps s s2

-- `n` threads outside a call, on a queue that `q_init` has set up.
abbrev pub initial : List ℕ → ℕ → System
initial slots n = record {
  queue = q_init slots;
  threads = replicate n ready;
  pushed = [];
  popped = [];
}
