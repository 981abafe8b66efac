-- ===== src/BoundedQueue/Driver.antt =====
-- Part 6 of main in recitation/threads/thread_test.c: a producer and a consumer on the bounded queue. A turn begins
-- the next call of a thread's loop, or runs the next line of its call. usleep and printf change nothing.
pub mod Phases
pub mod Invariant
pub mod Begun
pub mod Waiting
pub mod Finish
use csci_3753_operating_syst.Prelude.{
  ℕ, zero, suc, ◌+◌, ◌-◌, ◌*◌, ◌/◌, ◌%◌, ◌^◌, ◌≤◌, ◌<◌, min, ◌≡◌, refl, sym, ap, ◌∙◌, subst, ◌≢◌,
  ◌↔◌, ◌⊎◌, inl, inr, Bool, true, false, not, ◌&&◌, ◌||◌, Option, none, some, List, [], ◌∷◌, ◌++◌,
  map, arith, dec_lt, ℕ_discrete, ltb, leb, ◌==◌, if◌then◌else◌, ltb→lt, lt→ltb, leb→le, ==_iff,
  tests, Bool-cases, bool_eq, Option-cases, if_keeps, length, get_elem?, get_or, set, take, drop,
  replicate, length-append, length-set, set-set, length-replicate, get_elem?_lt,
  get_elem?-eq-get_or, get_elem?-set_self, get_elem?-set_ne, get_or-set_self, get_or-set_ne,
  length-take, length-drop, take-append-drop, length-map, get_elem?-map, get_elem?_of_lt,
  drop-eq-cons, get_elem?-take, get_or-take, get_or-eq_get_elem?, All, All-set, All-get_or,
  All-take, All-get_elem?, All-replicate,
}
use csci_3753_operating_syst.BoundedQueue.{
  Thread, Queue, System, ready, push_wait, pop_wait, advance, moved, initial,
}

-- Where the loop of `producer` or of `consumer` is: the count, and `i` or `taken`.
pub data Role : Type 0 where
  produces : ℕ → ℕ → Role
  consumes : ℕ → ℕ → Role

-- The next call of the loop, if there is one.
unfoldable pub begins : Role → Option (Thread × Role)
begins (produces count i) = if leb i count then some (push_wait i, produces count (i + 1)) else none
begins (consumes count taken) =
    if ltb taken count then some (pop_wait, consumes count (taken + 1)) else none

pub record Driver : Type 0 where
  pub system : System
  pub roles : List Role

-- A turn of some thread.
pub data Turn : Driver → Driver → Type 0 where
  begin :
      (d : Driver) (i : ℕ) (r r' : Role) (t : Thread)
      → get_elem? d.roles i ≡ some r
      → get_elem? d.system.threads i ≡ some ready
      → begins r ≡ some (t, r')
      → Turn d (record {
        system = record d.system { threads = set d.system.threads i t };
        roles = set d.roles i r';
      })
  go :
      (d : Driver) (i : ℕ) (t t' : Thread) (q' : Queue)
      → get_elem? d.system.threads i ≡ some t
      → advance t d.system.queue ≡ some (t', q')
      → Turn d (record d { system = moved d.system i t t' q' })

-- A number of turns.
pub data Turns : ℕ → Driver → Driver → Type 0 where
  no_turn : (d : Driver) → Turns 0 d d
  one_more : (n : ℕ) (d d1 d2 : Driver) → Turns n d d1 → Turn d1 d2 → Turns (suc n) d d2

-- The threads that main creates, for the same count.
unfoldable pub part_6 : List ℕ → ℕ → Driver
part_6 slots count = record {
  system = initial slots 2;
  roles = produces count 1 ∷ consumes count 0 ∷ [];
}
