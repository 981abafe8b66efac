-- ===== src/Paging/Execution/Unbranched.antt =====
-- The programs of assignments/pa7/programs.c that have no branch, as its fourth, in process_step of
-- assignments/pa7/simulator.c: a step of one either keeps the process loaded or is the read of `branches[-1]`.
use csci_3753_operating_syst.Prelude.{
  ℕ, zero, suc, ◌+◌, ◌*◌, ◌/◌, ◌≤◌, ◌<◌, ◌≡◌, refl, ◌∙◌, ◌⊎◌, inl, inr, Bool, true, false, Option,
  none, some, List, arith, leb, Bool-cases, Option-cases, if◌then◌else◌, get_elem?, set,
  get_elem?_of_lt, ◌==◌,
}
use csci_3753_operating_syst.Paging.{
  Program, Process, max_proc_pages, page_size, max_branches, max_exits,
}
use csci_3753_operating_syst.Paging.Branching.{bcontext_decide}
use csci_3753_operating_syst.Paging.Search.{find_key}
use csci_3753_operating_syst.Paging.Search.Correct.{IsSorted, find_key_answer, Answer-cases}
use csci_3753_operating_syst.Paging.Execution.{process_dobranch, run_step, process_step}
use csci_3753_operating_syst.Paging.Execution.Step.{
  IsProgram, IsLoaded, IsLoaded-blocked, starts, process_step_in, process_step-loaded,
}
use csci_3753_operating_syst.Prelude.Int.{ℤ, pos, negsuc}

-- A program with an exit but no branch.
pub record IsUnbranched (p : Program) : Type 0 where
  pub exits_sorted : IsSorted p.exits p.nexits
  pub exits_some : (0 < p.nexits) × (p.nexits ≤ max_exits)
  pub no_branch : p.nbranches ≡ 0
  pub small : p.size < max_proc_pages * page_size

-- A program that `process_load` loads.
abbrev pub IsLoadable : Program → Type 0
IsLoadable p = IsProgram p ⊎ IsUnbranched p

pub IsLoadable-small : (p : Program) → IsLoadable p → p.size < max_proc_pages * page_size
IsLoadable-small p (inl hp) = hp.small
IsLoadable-small p (inr hp) = hp.small

-- How one step of code on a process of a program without a branch ends: with the process
-- loaded and its pages as they were, or by the fault.
abbrev Kept : Program → Process → Option (Bool × Process) → Type 0
Kept p q o =
    (o ≡ none)
    ⊎ (out : Bool × Process) × (o ≡ some out)
      × IsLoaded p out.1
      × (out.1.pages ≡ q.pages)
      × (out.1.npages ≡ q.npages)

dobranch-Kept :
    (p : Program) (q : Process) (i : ℕ)
    → p.nbranches ≡ 0
    → IsLoaded p q
    → (process_dobranch q p i ≡ none)
      ⊎ (q' : Process) × (process_dobranch q p i ≡ some q')
        × IsLoaded p q'
        × (q'.pages ≡ q.pages)
        × (q'.npages ≡ q.npages)
unfolding process_dobranch
dobranch-Kept p q i none_at h = elim (Option-cases (get_elem? p.branches i)) [
  | inl e ↦ inl (rw e refl)
  | inr (b, e) ↦ elim (Option-cases (get_elem? q.bcontexts i)) [
    | inl e1 ↦ inl (rw (e, e1) refl)
    | inr (c, e1) ↦ elim (Option-cases (bcontext_decide c)) [
      | inl e2 ↦ inl (rw (e, e1, e2) refl)
      | inr (d, e2) ↦
          let pc = if d.0 then b.whereto else q.pc + 1 in
          inr (
            record q { bcontexts = set q.bcontexts i d.1; pc = if leb p.size pc then 0 else pc },
            rw (e, e1, e2) refl,
            record {
              program = h.program;
              inside = ground arith;
              paged = h.paged;
              contexts = omega (arith, none_at);
              ready = λ j c' lt at. absurd (omega (arith, none_at, lt));
            },
            refl,
            refl,
          )
    ]
  ]
]

-- The search among no branches finds the unused entry at 0, or faults.
find_none :
    (keys : List ℕ) (n pc : ℕ)
    → n ≡ 0
    → (find_key keys n pc ≡ none) ⊎ (find_key keys n pc ≡ some (some 0))
unfolding find_key
find_none keys (suc n) pc e = absurd (omega arith)
find_none keys zero pc e = elim (Option-cases (get_elem? keys 0)) [
  | inl none_there ↦ inl (rw none_there refl)
  | inr (low, at) ↦ elim (Bool-cases (pc == low)) [
    | inl same ↦ inr (rw (at, same) refl)
    | inr other ↦ inl (rw (at, other) refl)
  ]
]

run_step-Kept :
    (p : Program) (q : Process) → IsUnbranched p → IsLoaded p q → Kept p q (run_step q p)
unfolding run_step
run_step-Kept p q hp h =
    let exits_ok : leb p.nexits max_exits ≡ true = ground (arith, hp.exits_some) in
    let branches_ok : leb p.nbranches max_branches ≡ true = ground (arith, hp.no_branch) in
    rw exits_ok
      (elim (Answer-cases (find_key_answer p.exits p.nexits q.pc hp.exits_sorted hp.exits_some.0)) [
        | inl (i, e, lt, at) ↦ inr ((false, q), rw e refl, h, refl, refl)
        | inr (e, none_of) ↦
            rw (e, branches_ok)
              (elim (find_none (starts p) p.nbranches q.pc hp.no_branch) [
                | inl lost ↦ inl (rw lost refl)
                | inr first ↦ elim (dobranch-Kept p q 0 hp.no_branch h) [
                  | inl lost ↦ inl (rw (first, lost) refl)
                  | inr (q', runs, loaded, pages, npages) ↦
                      inr ((true, q'), rw (first, runs) refl, loaded, pages, npages)
                ]
              ])
      ])

-- The process of a program without a branch is active, at a page that is in memory: its step comes to the
-- search among the exits and the branches.
pub record IsReading (q : Process) : Type 0 where
  pub active : q.active ≡ true
  pub unbranched : (p : Program) × (q.program ≡ some p) × IsUnbranched p
  pub resident : get_elem? q.pages (q.pc / page_size) ≡ some (pos 0)

-- A step keeps the process loaded, or is the fault of a program without a branch.
abbrev pub StepEnd : Program → Process → Type 0
StepEnd p q =
    ((process_step q ≡ none) × IsReading q)
    ⊎ (out : Bool × Process) × (process_step q ≡ some out)
      × IsLoaded p out.1
      × (out.1.pages ≡ q.pages)
      × (out.1.npages ≡ q.npages)

step_away :
    (p : Program) (q : Process) (age : ℤ) (flag : Bool)
    → IsUnbranched p
    → IsLoaded p q
    → q.active ≡ true
    → get_elem? q.pages (q.pc / page_size) ≡ some age
    → get_elem? q.blocked (q.pc / page_size) ≡ some flag
    → StepEnd p q
unfolding process_step
step_away p q (pos zero) flag hp h on at at' =
    let q1 : Process = record q {
      blocked = set q.blocked (q.pc / page_size) false;
      compute = q.compute + 1;
    } in
    let runs = process_step_in p q flag on at at' h.program in
    elim (run_step-Kept p q1 hp
      (IsLoaded-blocked p q (q.pc / page_size) false (q.compute + 1) q.block h)) [
        | inl lost ↦
            inl
              (runs ∙ lost, record { active = on; unbranched = (p, h.program, hp); resident = at })
        | inr (out, runs', loaded, pages, npages) ↦ inr (out, runs ∙ runs', loaded, pages, npages)
      ]
step_away p q (pos (suc n)) flag hp h on at at' = inr (
  (true, record q { blocked = set q.blocked (q.pc / page_size) true; block = q.block + 1 }),
  ground arith,
  IsLoaded-blocked p q (q.pc / page_size) true q.compute (q.block + 1) h,
  refl,
  refl,
)
step_away p q (negsuc n) flag hp h on at at' = inr (
  (true, record q { blocked = set q.blocked (q.pc / page_size) true; block = q.block + 1 }),
  ground arith,
  IsLoaded-blocked p q (q.pc / page_size) true q.compute (q.block + 1) h,
  refl,
  refl,
)

step_inactive : (q : Process) → q.active ≡ false → process_step q ≡ some (false, q)
unfolding process_step
step_inactive q off = ground arith

-- A step of a process that is loaded with a program of any kind, active or not.
pub step-IsLoadable : (p : Program) (q : Process) → IsLoadable p → IsLoaded p q → StepEnd p q
step-IsLoadable p q hp h = elim (Bool-cases q.active) [
  | inr off ↦ inr ((false, q), step_inactive q off, h, refl, refl)
  | inl on ↦ elim hp [
    | inl runnable ↦
        let (out, runs, stepped, ticked) = process_step-loaded p q runnable h on in
        inr (out, runs, stepped.loaded, stepped.pages, stepped.npages)
    | inr unbranched ↦
        let (age, at) =
          get_elem?_of_lt q.pages (q.pc / page_size)
            (omega (arith, h.inside, unbranched.small, h.paged)) in
        let (flag, at') =
          get_elem?_of_lt q.blocked (q.pc / page_size)
            (omega (arith, h.inside, unbranched.small, h.paged)) in
        step_away p q age flag unbranched h on at at'
  ]
]
