-- ===== src/HostArray/Fifo.antt =====
-- Calls of array_put and array_get of assignments/pa4/array.c that run alone, and array_init.
use csci_3753_operating_syst.Prelude.{
  ℕ, zero, suc, ◌+◌, ◌-◌, ◌%◌, ◌≤◌, ◌<◌, ◌≡◌, refl, sym, ap, ◌∙◌, subst, ◌⊎◌, inl, inr, Bool, true,
  false, Option, none, some, List, [], ◌∷◌, ◌++◌, arith, dec_lt, ℕ_discrete, ◌==◌, length, get_or,
  set, take, drop, replicate, length-set, get_or-set_self, get_or-set_ne, All, All-set,
}
use csci_3753_operating_syst.Ring.{items, items-push}
use csci_3753_operating_syst.HostArray.{
  get_body, array_size, max_name_length, Text, Shared, blocked, done, array_put, array_get, strncpy,
  array_init, fill_slots, synchronize_init, wait_mutex, post_mutex,
}

abbrev pub IsAllocated : Option Text → Type 0
IsAllocated slot = (t : Text) × (slot ≡ some t)

-- No call is under way.
pub record IsIdle (s : Shared) : Type 0 where
  pub free : s.mutex ≡ 1
  pub counted : s.full + s.empty ≡ array_size
  pub inside : s.head < array_size
  pub whole : length s.arr ≡ array_size
  pub allocated : All IsAllocated s.arr

-- The names that are stored, oldest first.
abbrev pub contents : Shared → List (Option Text)
contents s = items array_size none s.arr s.head s.full

pub slot_at :
    (arr : List (Option Text)) (i : ℕ)
    → i < length arr
    → All IsAllocated arr
    → IsAllocated (get_or arr i none)
slot_at [] i lt h = absurd (omega arith)
slot_at (x ∷ arr) zero lt h = h.0
slot_at (x ∷ arr) (suc i) lt h = slot_at arr i (omega arith) h.1

pub put_runs :
    (hostname old : Text) (s : Shared)
    → s.mutex ≡ 1
    → 0 < s.empty
    → length hostname < max_name_length
    → get_or s.arr ((s.head + s.full) % array_size) none ≡ some old
    → array_put hostname s
      ≡ done tt (record s {
        tail = (s.head + s.full) % array_size;
        arr = set s.arr ((s.head + s.full) % array_size) (some hostname);
        full = s.full + 1;
        empty = s.empty - 1;
      })
unfolding array_put
put_runs hostname old s free room short at = ground arith

put_waits : (hostname : Text) (s : Shared) → s.empty ≡ 0 → array_put hostname s ≡ blocked s
unfolding array_put
put_waits hostname s full = ground arith

put_appends :
    (hostname : Text) (s : Shared)
    → IsIdle s
    → length hostname < max_name_length
    → s.full < array_size
    → (s' : Shared) × (array_put hostname s ≡ done tt s')
      × IsIdle s'
      × (contents s' ≡ contents s ++ (some hostname ∷ []))
put_appends hostname s h short room =
    let i = (s.head + s.full) % array_size in
    let (old, at) = slot_at s.arr i (omega (arith, h.whole)) h.allocated in
    let count : s.full + 1 ≡ suc s.full = omega arith in
    (
      record s {
        tail = i;
        arr = set s.arr i (some hostname);
        full = s.full + 1;
        empty = s.empty - 1;
      },
      put_runs hostname old s h.free (omega (arith, h.counted)) short at,
      record {
        free = h.free;
        counted = omega (arith, h.counted);
        inside = h.inside;
        whole = length-set s.arr i (some hostname) ∙ h.whole;
        allocated = All-set IsAllocated s.arr i (some hostname) h.allocated (hostname, refl);
      },
      rw count (
          items-push array_size none s.arr (some hostname) s.full s.head i h.whole h.inside room
            refl),
    )

-- With no other call under way and a name of less than MAX_NAME_LENGTH bytes, `array_put` blocks if
-- the array is full; else it returns 0 and the name is behind the others.
pub array_put_lem :
    (hostname : Text) (s : Shared)
    → IsIdle s
    → length hostname < max_name_length
    → (s.full ≡ array_size) × (array_put hostname s ≡ blocked s)
      ⊎ (s.full < array_size)
        × ((s' : Shared) × (array_put hostname s ≡ done tt s')
            × IsIdle s'
            × (contents s' ≡ contents s ++ (some hostname ∷ [])))
array_put_lem hostname s h short = elim (dec_lt s.full array_size) [
  | yes room ↦ inr (room, put_appends hostname s h short room)
  | no full ↦ inl (omega (arith, h.counted), put_waits hostname s (omega (arith, h.counted)))
]

get_runs :
    (buffer : List ℕ) (host : Text) (s : Shared)
    → s.mutex ≡ 1
    → 0 < s.full
    → get_or s.arr s.head none ≡ some host
    → array_get (some buffer) s
      ≡ done
          (strncpy buffer host (max_name_length - 1))
          (record s { head = (s.head + 1) % array_size; full = s.full - 1; empty = s.empty + 1 })
unfolding array_get get_body
get_runs buffer host s free some_full at =
    let waits : (s.full == 0) ≡ false = ground arith in
    let enters : (s.mutex == 0) ≡ false = ground arith in
    let held : s.mutex - 1 + 1 ≡ s.mutex = omega arith in
    rw (waits, enters) (rw (get_body, at) (rw held refl))

get_waits : (buffer : List ℕ) (s : Shared) → s.full ≡ 0 → array_get (some buffer) s ≡ blocked s
unfolding array_get
get_waits buffer s none_full = ground arith

take_within : (n : ℕ) (xs ys : List ℕ) → n ≤ length xs → take n (xs ++ ys) ≡ take n xs
take_within zero xs ys h = refl
take_within (suc n) [] ys h = absurd (omega arith)
take_within (suc n) (x ∷ xs) ys h = ap (λ l. x ∷ l) (take_within n xs ys (omega arith))

-- A name with room for its terminator is copied with it.
copied_whole :
    (k : ℕ) (xs zs : List ℕ)
    → length xs < k
    → take (suc (length xs)) (take k (xs ++ replicate k 0) ++ zs) ≡ xs ++ 0 ∷ []
copied_whole k xs zs h = go k k xs h (omega arith)
  where
    go :
        (k m : ℕ) (xs : List ℕ)
        → length xs < k
        → k ≤ m
        → take (suc (length xs)) (take k (xs ++ replicate m 0) ++ zs) ≡ xs ++ 0 ∷ []
    go zero m xs h le = absurd (omega arith)
    go (suc k) zero xs h le = absurd (omega arith)
    go (suc k) (suc m) [] h le = refl
    go (suc k) (suc m) (x ∷ xs) h le = ap (λ l. x ∷ l) (go k (suc m) xs (omega arith) (omega arith))

-- What the caller's buffer holds once the name `host` has been copied to it: the name and its terminator if the name
-- is shorter than MAX_NAME_LENGTH - 1 bytes, and else the first MAX_NAME_LENGTH - 1 bytes of the name and
-- behind them what was there before.
pub record Copied (host : Text) (before after : List ℕ) : Type 0 where
  pub short : length host + 1 < max_name_length → take (suc (length host)) after ≡ host ++ 0 ∷ []
  pub long :
      max_name_length ≤ length host + 1
      → after ≡ take (max_name_length - 1) host ++ drop (max_name_length - 1) before

strncpy-Copied :
    (host : Text) (buffer : List ℕ) → Copied host buffer (strncpy buffer host (max_name_length - 1))
unfolding strncpy
strncpy-Copied host buffer = record {
  short = λ h. copied_whole 17 host (drop 17 buffer) (omega arith);
  long = λ h. ap (λ l. l ++ drop 17 buffer) (take_within 17 host (replicate 17 0) (omega arith));
}

items_first :
    (arr : List (Option Text)) (at n : ℕ)
    → 0 < n
    → items array_size none arr at n
      ≡ get_or arr at none ∷ items array_size none arr ((at + 1) % array_size) (n - 1)
items_first arr at zero h = absurd (omega arith)
items_first arr at (suc n) h =
    ap (λ k. get_or arr at none ∷ items array_size none arr ((at + 1) % array_size) k) (omega arith)

get_takes :
    (buffer : List ℕ) (s : Shared)
    → IsIdle s
    → 0 < s.full
    → (host : Text) × (bytes : List ℕ) × (s' : Shared) × (array_get (some buffer) s ≡ done bytes s')
      × Copied host buffer bytes
      × IsIdle s'
      × (contents s ≡ some host ∷ contents s')
get_takes buffer s h some_full =
    let (host, at) = slot_at s.arr s.head (omega (arith, h.whole, h.inside)) h.allocated in
    (
      host,
      strncpy buffer host (max_name_length - 1),
      record s { head = (s.head + 1) % array_size; full = s.full - 1; empty = s.empty + 1 },
      get_runs buffer host s h.free some_full at,
      strncpy-Copied host buffer,
      record {
        free = h.free;
        counted = omega (arith, h.counted);
        inside = omega arith;
        whole = h.whole;
        allocated = h.allocated;
      },
      rw (← at) (items_first s.arr s.head s.full some_full),
    )

-- With no other call under way and a buffer of the caller, `array_get` blocks if the array is empty; else it
-- returns 0 and takes the oldest name out, and the others stay. The buffer then begins with that name and its terminator
-- if the name has fewer than MAX_NAME_LENGTH - 1 bytes. With a longer one the first MAX_NAME_LENGTH - 1
-- bytes of it are written, without a terminator, and nothing behind them.
pub array_get_lem :
    (buffer : List ℕ) (s : Shared)
    → IsIdle s
    → (s.full ≡ 0) × (array_get (some buffer) s ≡ blocked s)
      ⊎ (0 < s.full)
        × ((host : Text) × (bytes : List ℕ) × (s' : Shared) × (array_get (some buffer) s
              ≡ done bytes s')
            × Copied host buffer bytes
            × IsIdle s'
            × (contents s ≡ some host ∷ contents s'))
array_get_lem buffer s h = elim (ℕ_discrete s.full 0) [
  | yes none_full ↦ inl (none_full, get_waits buffer s none_full)
  | no ne ↦
      let some_full : 0 < s.full = omega arith in inr (some_full, get_takes buffer s h some_full)
]

-- The first `n` slots are allocated.
AllocatedBelow : List (Option Text) → ℕ → Type 0
AllocatedBelow arr n = (j : ℕ) → j < n → IsAllocated (get_or arr j none)

AllocatedBelow-set :
    (arr : List (Option Text)) (i : ℕ)
    → i < length arr
    → AllocatedBelow arr i
    → AllocatedBelow (set arr i (some [])) (i + 1)
unfolding AllocatedBelow
AllocatedBelow-set arr i lt old j below = elim (ℕ_discrete i j) [
  | yes e ↦ (
    [],
    subst (λ k. get_or (set arr i (some [])) k none ≡ some []) e
        (get_or-set_self arr i (some []) none lt),
  )
  | no ne ↦ let (t, at) = old j (ground arith) in (t, get_or-set_ne arr i j (some []) none ne ∙ at)
]

AllocatedBelow-All :
    (arr : List (Option Text)) → AllocatedBelow arr (length arr) → All IsAllocated arr
unfolding AllocatedBelow
AllocatedBelow-All [] h = tt
AllocatedBelow-All (x ∷ arr) h =
    (h 0 (omega arith), AllocatedBelow-All arr (λ j lt. h (suc j) (omega arith)))

fill_done :
    (malloc : ℕ → Bool) (n i : ℕ) (s : Shared)
    → ((j : ℕ) → malloc j ≡ true)
    → length s.arr ≡ i + n
    → AllocatedBelow s.arr i
    → (arr : List (Option Text)) × (fill_slots malloc n i s ≡ done tt (record s { arr = arr }))
      × (length arr ≡ i + n)
      × AllocatedBelow arr (i + n)
unfolding fill_slots
fill_done malloc zero i s ok len old =
    let e : i + 0 ≡ i = omega arith in (s.arr, refl, len, rw e old)
fill_done malloc (suc n) i s ok len old =
    let e : i + suc n ≡ i + 1 + n = omega arith in
    let (arr, runs, len', below) =
      fill_done malloc n (i + 1) (record s { arr = set s.arr i (some []) }) ok
        (length-set s.arr i (some []) ∙ len ∙ e)
        (AllocatedBelow-set s.arr i (omega (arith, len)) old) in
    (arr, rw (ok i) runs, len' ∙ sym e, rw e below)

-- If every allocation succeeds, `array_init` returns 0 with an idle and empty array.
pub array_init_lem :
    (malloc : ℕ → Bool) (s : Shared)
    → ((j : ℕ) → malloc j ≡ true)
    → length s.arr ≡ array_size
    → (s' : Shared) × (array_init malloc s ≡ done tt s') × IsIdle s' × (contents s' ≡ [])
unfolding array_init synchronize_init wait_mutex post_mutex AllocatedBelow
array_init_lem malloc s ok len =
    let s0 : Shared = record s { head = 0; tail = 0; mutex = 0; full = 0; empty = array_size } in
    let (arr, runs, len', below) =
      fill_done malloc array_size 0 s0 ok len (λ j lt. absurd (omega arith)) in
    (
      record s0 { arr = arr; mutex = 1 },
      rw runs refl,
      record {
        free = refl;
        counted = refl;
        inside = omega arith;
        whole = len';
        allocated = AllocatedBelow-All arr (subst (AllocatedBelow arr) (sym len') below);
      },
      refl,
    )
