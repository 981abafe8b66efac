-- ===== src/HostArray.antt =====
-- The shared circular array of host names: assignments/pa4/array.h and assignments/pa4/array.c. A
-- string is the list of its bytes before the terminator; a slot is `none` until malloc fills it.
-- The semaphores are counters, as sem_wait and sem_post document them: a wait at 0 blocks.
pub mod Fifo
pub mod Failures
pub mod Races
use csci_3753_operating_syst.Prelude.{
  ℕ, zero, suc, ◌+◌, ◌-◌, ◌*◌, ◌/◌, ◌%◌, ◌^◌, ◌≤◌, ◌<◌, min, ◌≡◌, refl, sym, ap, ◌∙◌, subst, ◌≢◌,
  ◌↔◌, ◌⊎◌, inl, inr, Bool, true, false, not, ◌&&◌, ◌||◌, Option, none, some, List, [], ◌∷◌, ◌++◌,
  map, arith, dec_lt, ℕ_discrete, ltb, leb, ◌==◌, if◌then◌else◌, ltb→lt, lt→ltb, leb→le, ==_iff,
  tests, Bool-cases, bool_eq, Option-cases, if_keeps, length, get_elem?, get_or, set, take, drop,
  replicate, length-append, length-set, length-replicate, get_elem?_lt, get_elem?-eq-get_or,
  get_elem?-set_self, get_elem?-set_ne, get_or-set_self, get_or-set_ne, length-take, length-drop,
  take-append-drop, length-map, get_elem?-map, get_elem?_of_lt, drop-eq-cons, get_elem?-take,
  get_or-eq_get_elem?, All, All-set, All-get_or, All-take, All-get_elem?, All-replicate,
}
use csci_3753_operating_syst.Ring.{after}

abbrev pub array_size : ℕ
array_size = 8

abbrev pub max_name_length : ℕ
max_name_length = 18

abbrev pub Text : Type 0
Text = List ℕ

pub record Shared : Type 0 where
  pub arr : List (Option Text)
  pub head : ℕ
  pub tail : ℕ
  pub mutex : ℕ
  pub full : ℕ
  pub empty : ℕ

-- How a call ends: it waits on a semaphore for ever unless another thread posts it, it reads or
-- writes through a NULL slot, it returns -1, or it returns 0.
pub data Outcome (A : Type 0) : Type 0 where
  blocked : Shared → Outcome A
  fault : Outcome A
  failed : Shared → Outcome A
  done : A → Shared → Outcome A

infixl 5 ◌>>=◌
abbrev pub ◌>>=◌ : {A B : Type 0} → Outcome A → (A → Shared → Outcome B) → Outcome B
blocked s >>= f = blocked s
fault >>= f = fault
failed s >>= f = failed s
done a s >>= f = f a s

-- `sem_wait` on each of the three.
unfoldable pub wait_mutex : Shared → Outcome (Unit {0})
wait_mutex s = if s.mutex == 0 then blocked s else done tt (record s { mutex = s.mutex - 1 })

unfoldable pub wait_full : Shared → Outcome (Unit {0})
wait_full s = if s.full == 0 then blocked s else done tt (record s { full = s.full - 1 })

unfoldable pub wait_empty : Shared → Outcome (Unit {0})
wait_empty s = if s.empty == 0 then blocked s else done tt (record s { empty = s.empty - 1 })

-- `sem_post` on each of the three.
unfoldable pub post_mutex : Shared → Shared
post_mutex s = record s { mutex = s.mutex + 1 }

unfoldable pub post_full : Shared → Shared
post_full s = record s { full = s.full + 1 }

unfoldable pub post_empty : Shared → Shared
post_empty s = record s { empty = s.empty + 1 }

-- `synchronize_init`
unfoldable pub synchronize_init : Shared → Shared
synchronize_init s = record s { mutex = 1; full = 0; empty = array_size }

-- The loop of `array_init`, with `n` slots to go: `malloc` says which allocations succeed.
unfoldable pub fill_slots : (ℕ → Bool) → ℕ → ℕ → Shared → Outcome (Unit {0})
fill_slots malloc zero i s = done tt s
fill_slots malloc (suc n) i s =
    let rest = fill_slots malloc n (i + 1) (record s { arr = set s.arr i (some []) }) in
    if malloc i then rest else failed s

-- `array_init`
unfoldable pub array_init : (ℕ → Bool) → Shared → Outcome (Unit {0})
array_init malloc s = wait_mutex (synchronize_init s) >>= λ _ s1.
    fill_slots malloc array_size 0 (record s1 { head = 0; tail = 0 }) >>= λ _ s2.
    done tt (post_mutex s2)

-- The part of `array_put` between the waits and the posts. sem_getvalue of a valid semaphore does not
-- fail, and gives the count.
unfoldable pub put_body : Text → Shared → Outcome (Unit {0})
put_body hostname s =
    if leb max_name_length (length hostname)
    then failed s
    else (let tail = (s.head + s.full) % array_size in
        elim (get_or s.arr tail none) [
          | none ↦ fault
          | some _ ↦ done tt (record s { tail = tail; arr = set s.arr tail (some hostname) })
        ])

-- `array_put`
unfoldable pub array_put : Text → Shared → Outcome (Unit {0})
unfolding wait_empty wait_mutex put_body post_mutex post_full
array_put hostname s = wait_empty s >>= λ _ s1.
    wait_mutex s1 >>= λ _ s2. put_body hostname s2 >>= λ _ s3. done tt (post_full (post_mutex s3))

-- `strncpy(dst, src, n)`: the bytes of `src`, at most `n`, and zeros up to `n`. The bytes of `dst` behind
-- them stay.
unfoldable pub strncpy : List ℕ → Text → ℕ → List ℕ
strncpy dst src n = take n (src ++ replicate n 0) ++ drop n dst

-- The part of `array_get` between the waits and the posts; `buffer` holds the bytes that the caller's
-- `hostname` points to, unless it is NULL. The result is what they are afterwards.
unfoldable pub get_body : Option (List ℕ) → Shared → Outcome (List ℕ)
unfolding strncpy
get_body buffer s = elim (get_or s.arr s.head none) [
  | none ↦ fault
  | some host ↦ elim buffer [
    | none ↦ failed s
    | some bytes ↦
        done (strncpy bytes host (max_name_length - 1))
          (record s { head = (s.head + 1) % array_size })
  ]
]

-- `array_get`
unfoldable pub array_get : Option (List ℕ) → Shared → Outcome (List ℕ)
unfolding wait_full wait_mutex get_body post_mutex post_empty
array_get buffer s = wait_full s >>= λ _ s1. wait_mutex s1 >>= λ _ s2.
    get_body buffer s2 >>= λ bytes s3. done bytes (post_empty (post_mutex s3))

-- `array_free`, up to `synchronize_free`, behind which no semaphore may be used.
unfoldable pub array_free : Shared → Outcome (Unit {0})
unfolding wait_mutex post_mutex
array_free s =
    wait_mutex s >>= λ _ s1. done tt (post_mutex (record s1 { arr = map (λ _. none) s1.arr }))
