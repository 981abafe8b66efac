-- ===== src/Counters.antt =====
-- The counters of recitation/threads/thread_test.c: inc_no_lock (part 1) and inc_with_lock (part 2), run by any number
-- of threads that take turns access by access to the shared memory. sched_yield and busy_spin change nothing.
pub mod Locked
pub mod Finish
pub mod Race
-- `counter` and `g_lock`.
use csci_3753_operating_syst.Prelude.{
  ℕ, zero, suc, ◌+◌, ◌-◌, ◌*◌, ◌/◌, ◌%◌, ◌^◌, ◌≤◌, ◌<◌, min, ◌≡◌, refl, sym, ap, ◌∙◌, subst, ◌≢◌,
  ◌↔◌, ◌⊎◌, inl, inr, Bool, true, false, not, ◌&&◌, ◌||◌, Option, none, some, List, [], ◌∷◌, ◌++◌,
  map, arith, dec_lt, ℕ_discrete, ltb, leb, ◌==◌, if◌then◌else◌, ltb→lt, lt→ltb, leb→le, ==_iff,
  tests, Bool-cases, bool_eq, Option-cases, if_keeps, length, get_elem?, get_or, set, take, drop,
  replicate, length-append, length-set, set-set, length-replicate, get_elem?_lt,
  get_elem?-eq-get_or, get_elem?-set_self, get_elem?-set_ne, get_or-set_self, get_or-set_ne,
  length-take, length-drop, take-append-drop, length-map, get_elem?-map, get_elem?_of_lt,
  drop-eq-cons, get_elem?-take, get_or-take, get_or-eq_get_elem?, All, All-set, All-get_or,
  All-take, All-get_elem?, All-replicate,
}

pub record Memory : Type 0 where
  pub counter : ℕ
  pub g_lock : Bool

-- Where a thread is in the loop, with `i`, and with its value of `counter` where it has one.
pub data Worker : Type 0 where
  at_loop : ℕ → Worker
  locked : ℕ → Worker
  loaded : ℕ → ℕ → Worker
  added : ℕ → ℕ → Worker
  stored : ℕ → Worker
  finished : Worker

-- The next access of `inc_no_lock`, for a number of iterations.
unfoldable pub inc_no_lock : ℕ → Worker → Memory → Option (Worker × Memory)
inc_no_lock iterations (at_loop i) m =
    some (if ltb i iterations then loaded i m.counter else finished, m)
inc_no_lock iterations (loaded i tmp) m = some (added i (tmp + 1), m)
inc_no_lock iterations (added i tmp) m = some (at_loop (i + 1), record m { counter = tmp })
inc_no_lock iterations _ m = none

-- The next access of `inc_with_lock`; `none` is a thread that waits, or has returned.
unfoldable pub inc_with_lock : ℕ → Worker → Memory → Option (Worker × Memory)
inc_with_lock iterations (at_loop i) m =
    if ltb i iterations
    then (if m.g_lock then none else some (locked i, record m { g_lock = true }))
    else some (finished, m)
inc_with_lock iterations (locked i) m = some (loaded i m.counter, m)
inc_with_lock iterations (loaded i value) m = some (added i (value + 1), m)
inc_with_lock iterations (added i value) m = some (stored i, record m { counter = value })
inc_with_lock iterations (stored i) m = some (at_loop (i + 1), record m { g_lock = false })
inc_with_lock iterations finished m = none

-- The memory and the threads.
pub record Machine : Type 0 where
  pub memory : Memory
  pub threads : List Worker

-- A step of the machine: thread `i` makes its next access.
pub data Step (line : Worker → Memory → Option (Worker × Memory)) : Machine → Machine → Type 0 where
  run :
      (s : Machine) (i : ℕ) (t t' : Worker) (m' : Memory)
      → get_elem? s.threads i ≡ some t
      → line t s.memory ≡ some (t', m')
      → Step line s (record { memory = m'; threads = set s.threads i t' })

-- A number of steps.
pub data Steps (line : Worker → Memory → Option (Worker × Memory))
    : ℕ → Machine → Machine → Type 0 where
  stay : (s : Machine) → Steps line 0 s s
  next : (n : ℕ) (s s1 s2 : Machine) → Steps line n s s1 → Step line s1 s2 → Steps line (suc n) s s2

-- `counter = 0`, and `n` threads that have been created.
unfoldable pub created : ℕ → Machine
created n = record {
  memory = record { counter = 0; g_lock = false };
  threads = replicate n (at_loop 0);
}
