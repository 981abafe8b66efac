-- ===== src/Paging/Pager.antt =====
-- What a pager sees of the simulator and what it can do: `Pentry` and the calls of
-- assignments/pa7/simulator.h. A pager's run is a tree of calls that branches on their answers; the
-- simulator is its handler.
pub mod Basic
pub mod Predict
pub mod Flow
pub mod Entries
use csci_3753_operating_syst.Prelude.{
  ℕ, zero, suc, ◌+◌, ◌-◌, ◌*◌, ◌/◌, ◌%◌, ◌^◌, ◌≤◌, ◌<◌, min, ◌≡◌, refl, sym, ap, ◌∙◌, subst, ◌≢◌,
  ◌↔◌, ◌⊎◌, inl, inr, Bool, true, false, not, ◌&&◌, ◌||◌, Option, none, some, List, [], ◌∷◌, ◌++◌,
  map, arith, dec_lt, ℕ_discrete, ltb, leb, ◌==◌, if◌then◌else◌, ltb→lt, lt→ltb, leb→le, ==_iff,
  tests, Bool-cases, bool_eq, Option-cases, if_keeps, length, get_elem?, get_or, set, take, drop,
  replicate, length-append, length-set, length-replicate, get_elem?_lt, get_elem?-eq-get_or,
  get_elem?-set_self, get_elem?-set_ne, get_or-set_self, get_or-set_ne, length-take, length-drop,
  take-append-drop, length-map, get_elem?-map, get_elem?_of_lt, drop-eq-cons, get_elem?-take,
  get_or-eq_get_elem?, All, All-set, All-get_elem?, All-replicate,
}
use csci_3753_operating_syst.Paging.{Sim}
use csci_3753_operating_syst.Paging.Frames.{pagein, pageout}
use csci_3753_operating_syst.Prelude.Int.{ℤ}

pub record Pentry : Type 0 where
  pub active : Bool
  pub pc : ℕ
  pub npages : ℕ
  pub pages : List Bool

pub data Calls (A : Type 0) : Type 0 where
  finish : A → Calls A
  ask_in : ℤ → ℤ → (Bool → Calls A) → Calls A
  ask_out : ℤ → ℤ → (Bool → Calls A) → Calls A

-- One call, and the pager's run up to its return.
unfoldable pub run_calls : {A : Type 0} → Calls A → Sim → A × Sim
run_calls (finish a) s = (a, s)
run_calls (ask_in process page next) s =
    let (b, s') = pagein process page s in run_calls (next b) s'
run_calls (ask_out process page next) s =
    let (b, s') = pageout process page s in run_calls (next b) s'
