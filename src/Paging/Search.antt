-- ===== src/Paging/Search.antt =====
-- The binary search that process_step of assignments/pa7/simulator.c makes twice: over the exits of
-- a program, and over the places where its branches start.
pub mod Correct
use csci_3753_operating_syst.Prelude.{
  ℕ, zero, suc, ◌+◌, ◌-◌, ◌*◌, ◌/◌, ◌%◌, ◌^◌, ◌≤◌, ◌<◌, min, ◌≡◌, refl, sym, ap, ◌∙◌, subst, ◌≢◌,
  ◌↔◌, ◌⊎◌, inl, inr, Bool, true, false, not, ◌&&◌, ◌||◌, Option, none, some, List, [], ◌∷◌, ◌++◌,
  map, arith, dec_lt, ℕ_discrete, ltb, leb, ◌==◌, if◌then◌else◌, ltb→lt, lt→ltb, leb→le, ==_iff,
  tests, Bool-cases, bool_eq, Option-cases, if_keeps, length, get_elem?, get_or, set, take, drop,
  replicate, length-append, length-set, length-replicate, get_elem?_lt, get_elem?-eq-get_or,
  get_elem?-set_self, get_elem?-set_ne, get_or-set_self, get_or-set_ne, length-take, length-drop,
  take-append-drop, length-map, drop-eq-cons, get_elem?-take, get_or-eq_get_elem?, All, All-set,
  All-get_elem?, All-replicate,
}
use csci_3753_operating_syst.Prelude.Opt.{◌>>=◌}

-- How the loop ends: at an entry equal to `pc`, or with two places left to look at.
pub data Probe : Type 0 where
  hit : ℕ → Probe
  pair : ℕ → ℕ → Probe

-- `while (min+1<max)`, on fuel. A read outside the array is a fault.
unfoldable pub probe : ℕ → List ℕ → ℕ → ℕ → ℕ → Option Probe
probe zero keys pc lo hi = none
probe (suc fuel) keys pc lo hi =
    let mid = (lo + hi) / 2 in
    let lower = probe fuel keys pc lo mid in
    let upper = probe fuel keys pc mid hi in
    if ltb (lo + 1) hi
    then (get_elem? keys mid >>= λ key.
        if pc == key then some (hit mid) else if ltb pc key then lower else upper)
    else some (pair lo hi)

-- The two tests behind the loop, in their order: the second place is read only if the first fails.
unfoldable pub settle : List ℕ → ℕ → Probe → Option (Option ℕ)
settle keys pc (hit i) = some (some i)
settle keys pc (pair lo hi) = get_elem? keys lo >>= λ low.
    if pc == low
    then some (some lo)
    else (get_elem? keys hi >>= λ high. if pc == high then some (some hi) else some none)

-- The search among the first `n` entries. With no entry `max` is -1: the loop is not entered, the
-- entry at 0 is read all the same, and the read at -1 is a fault.
unfoldable pub find_key : List ℕ → ℕ → ℕ → Option (Option ℕ)
find_key keys zero pc = get_elem? keys 0 >>= λ low. if pc == low then some (some 0) else none
find_key keys (suc m) pc = probe (suc m) keys pc 0 m >>= settle keys pc
