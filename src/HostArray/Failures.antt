-- ===== src/HostArray/Failures.antt =====
-- The calls of the array that return -1 keep its mutex.
use csci_3753_operating_syst.Prelude.{
  ℕ, zero, suc, ◌+◌, ◌-◌, ◌≤◌, ◌<◌, ◌≡◌, refl, sym, ap, ◌∙◌, ◌≢◌, inl, inr, Bool, true, false,
  Option, some, List, [], arith, ◌==◌, if◌then◌else◌, Bool-cases, length, set,
}
use csci_3753_operating_syst.HostArray.{
  array_size, max_name_length, Text, Shared, blocked, failed, array_put, array_get, array_init,
  array_free, fill_slots, synchronize_init, wait_mutex,
}
use csci_3753_operating_syst.HostArray.Fifo.{IsIdle}

-- Every call on the array waits, with any arguments.
pub record IsDead (s : Shared) : Type 0 where
  pub put : (name : Text) → (s' : Shared) × (array_put name s ≡ blocked s')
  pub get : (buffer : Option (List ℕ)) → (s' : Shared) × (array_get buffer s ≡ blocked s')
  pub free : array_free s ≡ blocked s

-- The state in which `array_put` waits while another thread has the mutex.
abbrev put_stuck : Shared → Shared
put_stuck s = if s.empty == 0 then s else record s { empty = s.empty - 1 }

put_locked : (name : Text) (s : Shared) → s.mutex ≡ 0 → array_put name s ≡ blocked (put_stuck s)
unfolding array_put
put_locked name s held = ground arith

abbrev get_stuck : Shared → Shared
get_stuck s = if s.full == 0 then s else record s { full = s.full - 1 }

get_locked :
    (buffer : Option (List ℕ)) (s : Shared)
    → s.mutex ≡ 0
    → array_get buffer s ≡ blocked (get_stuck s)
unfolding array_get
get_locked buffer s held = ground arith

free_locked : (s : Shared) → s.mutex ≡ 0 → array_free s ≡ blocked s
unfolding array_free
free_locked s held = ground arith

IsDead-of_locked : (s : Shared) → s.mutex ≡ 0 → IsDead s
IsDead-of_locked s held = record {
  put = λ name. (put_stuck s, put_locked name s held);
  get = λ buffer. (get_stuck s, get_locked buffer s held);
  free = free_locked s held;
}

too_long_runs :
    (hostname : Text) (s : Shared)
    → s.mutex ≡ 1
    → 0 < s.empty
    → max_name_length ≤ length hostname
    → array_put hostname s ≡ failed (record s { mutex = 0; empty = s.empty - 1 })
unfolding array_put
too_long_runs hostname s free room long = ground arith

-- A name of MAX_NAME_LENGTH bytes or more makes `array_put` on an idle array with room return -1
-- with the mutex held and a free slot gone: from then on every call on the array waits for ever.
pub array_put_too_long :
    (hostname : Text) (s : Shared)
    → IsIdle s
    → s.full < array_size
    → max_name_length ≤ length hostname
    → (s' : Shared) × (array_put hostname s ≡ failed s')
      × (s'.full + s'.empty + 1 ≡ array_size)
      × IsDead s'
array_put_too_long hostname s h room long =
    let s' : Shared = record s { mutex = 0; empty = s.empty - 1 } in
    (
      s',
      too_long_runs hostname s h.free (omega (arith, h.counted)) long,
      omega (arith, h.counted),
      IsDead-of_locked s' refl,
    )

fill_fails :
    (malloc : ℕ → Bool) (n i j : ℕ) (s : Shared)
    → s.mutex ≡ 0
    → j < n
    → malloc (i + j) ≡ false
    → (s' : Shared) × (fill_slots malloc n i s ≡ failed s') × (s'.mutex ≡ 0)
unfolding fill_slots
fill_fails malloc zero i j s held lt bad = absurd (omega arith)
fill_fails malloc (suc n) i j s held lt bad = elim (Bool-cases (malloc i)) [
  | inr now ↦ (s, rw now refl, held)
  | inl good ↦
      let later : j ≢ 0 = λ z. bool_clash (sym good ∙ ap malloc (omega arith) ∙ bad) in
      let e : i + 1 + (j - 1) ≡ i + j = omega arith in
      let (s', runs, held') =
        fill_fails malloc n (i + 1) (j - 1) (record s { arr = set s.arr i (some []) }) held
          (omega arith) (ap malloc e ∙ bad) in
      (s', rw good runs, held')
]
  where
    bool_clash : true ≡ false → ⊥
    bool_clash e = cc

-- If one of the allocations fails, `array_init` returns -1 with the mutex held, so the `array_free`
-- that assignments/pa4/test.c then calls waits for ever.
pub array_init_failed :
    (malloc : ℕ → Bool) (j : ℕ) (s : Shared)
    → j < array_size
    → malloc j ≡ false
    → (s' : Shared) × (array_init malloc s ≡ failed s') × (array_free s' ≡ blocked s')
unfolding array_init synchronize_init wait_mutex
array_init_failed malloc j s lt bad =
    let s0 : Shared = record s { head = 0; tail = 0; mutex = 0; full = 0; empty = array_size } in
    let e : 0 + j ≡ j = omega arith in
    let (s', runs, held) = fill_fails malloc array_size 0 j s0 refl lt (ap malloc e ∙ bad) in
    (s', rw runs refl, free_locked s' held)
