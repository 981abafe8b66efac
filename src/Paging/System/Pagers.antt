-- ===== src/Paging/System/Pagers.antt =====
-- The whole run with a pager that keeps an invariant of its own: the loop of main in
-- assignments/pa7/simulator.c with pageit of assignments/pa8/pager-predict.c.
use csci_3753_operating_syst.Prelude.{
  ℕ, zero, suc, ◌≡◌, refl, sym, ◌⊎◌, subst, inl, inr, Option, none, some, List, map, Bool-cases,
}
use csci_3753_operating_syst.Paging.{Sim}
use csci_3753_operating_syst.Paging.Pager.{Pentry, Calls}
use csci_3753_operating_syst.Paging.Pager.Entries.{IsEntries}
use csci_3753_operating_syst.Paging.Pager.Flow.{Ends, and_then, Ends-run_calls}
use csci_3753_operating_syst.Paging.Pager.Predict.Working.{PageData}
use csci_3753_operating_syst.Paging.Pager.Predict.Memory.{Memory}
use csci_3753_operating_syst.Paging.Pager.Predict.Tables.{IsMemory}
use csci_3753_operating_syst.Paging.Pager.Predict.Pageit.{pageit}
use csci_3753_operating_syst.Paging.System.{pentry, callyou, simulate, alldone}
use csci_3753_operating_syst.Paging.System.Shape.{Running}
use csci_3753_operating_syst.Paging.System.Entries.{pentries-IsEntries}
use csci_3753_operating_syst.Paging.System.Steps.{tick-Running, Loses, Loses-now, Loses-later}

module _ {P : Type 0} (Keeps : P → Type 0) (pager : List Pentry → P → Calls P)
    (keeps : (q : List Pentry) (memory : P)
      → IsEntries q
      → Keeps memory
      → Ends Keeps (pager q memory)) where
  callyou-Keeps :
      (memory : P) (s : Sim) → Running s → Keeps memory → Keeps (callyou pager memory s).0
  unfolding callyou
  callyou-Keeps memory s h hm =
      Ends-run_calls Keeps (pager (map (pentry s) s.processes) memory) _
        (keeps _ memory (pentries-IsEntries s h.shape) hm)

  -- The run is lost behind a state in which the pager's memory is what it should be.
  abbrev pub LosesKeeping : ℕ → P → Sim → Type 0
  LosesKeeping n memory s =
      (simulate pager n memory s ≡ none) × (lost : Loses pager n memory s) × Keeps lost.last.0

  -- In any number of rounds of the loop of `main` the pager's memory keeps what every run of the pager keeps.
  pub simulate-Keeps :
      (n : ℕ) (memory : P) (s : Sim)
      → Running s
      → Keeps memory
      → (LosesKeeping n memory s)
        ⊎ (out : P × Sim) × (simulate pager n memory s ≡ some out) × Running out.1 × Keeps out.0
  unfolding simulate
  simulate-Keeps zero memory s h hm = inr ((memory, s), refl, h, hm)
  simulate-Keeps (suc n) memory s h hm = elim (Bool-cases (alldone s)) [
    | inl done ↦ inr ((memory, s), rw done refl, h, hm)
    | inr more ↦ elim (tick-Running pager memory s h) [
      | inl (lost, loses) ↦
          let (lost_now, e) = Loses-now pager n memory s h more loses in
          inl (rw more (rw lost refl), lost_now, subst (λ (out : P × Sim). Keeps out.0) (sym e) hm)
      | inr (next, runs, h', (at, ha, called)) ↦
          let hm' : Keeps next.0 = subst Keeps (sym called) (callyou-Keeps memory at ha hm) in
          elim (simulate-Keeps n next.0 next.1 h' hm') [
            | inl (lost, later, kept) ↦
                let (lost_later, e) = Loses-later pager n memory s next more runs later in
                inl (
                  rw more (rw runs lost),
                  lost_later,
                  subst (λ (out : P × Sim). Keeps out.0) (sym e) kept,
                )
            | inr (out, runs', h'', hm'') ↦ inr (out, rw more (rw runs runs'), h'', hm'')
          ]
    ]
  ]

-- `pageit` on its static variables, which a fault has lost.
abbrev pub predictive :
    (List PageData → List PageData) → (ℕ → ℕ) → List Pentry → Option Memory → Calls (Option Memory)
predictive sort scale q memory = and_then (pageit sort scale q) memory

-- How the predictive pager and the simulator run together. Either no fault is made: the simulator is in
-- a running state and the pager's tables are whole, or no run has begun. Or the run is lost in the simulator, by the read
-- of `branches[-1]` for a process of a program without a branch, and until then the pager has made no
-- fault.
abbrev pub PredictiveEnd : (List PageData → List PageData) → (ℕ → ℕ) → ℕ → Memory → Sim → Type 0
PredictiveEnd sort scale n m s =
    ((simulate (predictive sort scale) n (some m) s ≡ none)
      × ((lost : Loses (predictive sort scale) n (some m) s) × ((m' : Memory) × (lost.last.0
              ≡ some m')
            × IsMemory m')))
    ⊎ (m' : Memory) × (s' : Sim) × (simulate (predictive sort scale) n (some m) s
        ≡ some (some m', s'))
      × Running s'
      × IsMemory m'
