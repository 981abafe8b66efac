-- ===== src/Paging/System/Steps.antt =====
-- The whole run: what a tick keeps, under any pager, and the one fault that it can make.
use csci_3753_operating_syst.Prelude.{
  ℕ, zero, suc, ◌+◌, ◌/◌, ◌<◌, ◌≡◌, refl, ◌⊎◌, inl, inr, Bool, true, false, ◌&&◌, Option, none,
  some, List, [], ◌∷◌, map, arith, ltb, ◌==◌, if◌then◌else◌, Bool-cases, get_elem?, take, replicate,
  get_elem?_of_lt, All, All-take, All-get_elem?,
}
use csci_3753_operating_syst.Paging.{Process, Sim, max_processes, page_size}
use csci_3753_operating_syst.Paging.Frames.{allage}
use csci_3753_operating_syst.Paging.Frames.Conservation.{allage-Conserved}
use csci_3753_operating_syst.Paging.Execution.Unbranched.{IsLoadable-small}
use csci_3753_operating_syst.Paging.Pager.{Pentry, Calls}
use csci_3753_operating_syst.Paging.System.{
  pentry, allstep, callyou, tick, simulate, allblocked, count_slots, count_page, Tally, alldone,
}
use csci_3753_operating_syst.Paging.System.Shape.{
  IsRunnable, InQueue, Shape, Running, Running-slots, run_calls-Running, allage-Shape,
}
use csci_3753_operating_syst.Prelude.Int.{ℤ}
use csci_3753_operating_syst.Prelude.Opt.{◌>>=◌}
use csci_3753_operating_syst.Paging.System.Slots.{LostIn, step_slots-Running}

-- The rest of the count, behind the test of one process.
abbrev count_one : Sim → List (Option ℕ) → Tally → Process → Option Tally
count_one s slots t q =
    (if q.active
      then (get_elem? q.pages (q.pc / page_size) >>= λ stat. some (count_page stat t))
      else some t)
    >>= λ t'. count_slots s slots t'

count_active :
    (s : Sim) (slots : List (Option ℕ)) (t : Tally) (q : Process) (stat : ℤ)
    → q.active ≡ true
    → get_elem? q.pages (q.pc / page_size) ≡ some stat
    → (t' : Tally) × (count_slots s slots (count_page stat t) ≡ some t')
    → (t' : Tally) × (count_one s slots t q ≡ some t')
count_active s slots t q stat on at (t', runs) = (t', rw on (rw at runs))

count_inactive :
    (s : Sim) (slots : List (Option ℕ)) (t : Tally) (q : Process)
    → q.active ≡ false
    → (t' : Tally) × (count_slots s slots t ≡ some t')
    → (t' : Tally) × (count_one s slots t q ≡ some t')
count_inactive s slots t q off (t', runs) = (t', rw off runs)

count_slots_runs :
    (s : Sim) (slots : List (Option ℕ)) (t : Tally)
    → Shape s
    → All InQueue slots
    → (t' : Tally) × (count_slots s slots t ≡ some t')
unfolding count_slots
count_slots_runs s [] t h inq = (t, refl)
count_slots_runs s (none ∷ slots) t h inq = count_slots_runs s slots t h inq.1
count_slots_runs s (some k ∷ slots) t h inq =
    let (q, at) = get_elem?_of_lt s.queue k (omega (arith, inq.0, h.size)) in
    let (p, hp, loaded) = All-get_elem? IsRunnable s.queue k q h.runnable at in
    let (stat, at') =
      get_elem?_of_lt q.pages (q.pc / page_size)
        (omega (arith, loaded.inside, IsLoadable-small p hp, loaded.paged)) in
    rw at (elim (Bool-cases q.active) [
      | inl on ↦
          count_active s slots t q stat on at'
            (count_slots_runs s slots (count_page stat t) h inq.1)
      | inr off ↦ count_inactive s slots t q off (count_slots_runs s slots t h inq.1)
    ])

allblocked_runs : (s : Sim) → Running s → (b : Bool) × (allblocked s ≡ some b)
unfolding allblocked
allblocked_runs s h =
    let start : Tally = record { allfree = 0; runnable = 0; memwait = 0; freewait = 0 } in
    let (t, runs) =
      count_slots_runs s (take s.procs s.processes) start h.shape
        (All-take InQueue s.procs s.processes h.shape.slots) in
    (ltb 0 t.allfree && (t.memwait == 0) && (t.runnable == 0) && (t.freewait == 0), rw runs refl)

callyou-Running :
    {P : Type 0} (pageit : List Pentry → P → Calls P) (memory : P) (s : Sim)
    → Running s
    → Running (callyou pageit memory s).1
unfolding callyou
callyou-Running pageit memory s h =
    run_calls-Running (pageit (map (pentry s) s.processes) memory) _ (
      Running-slots s (record s { pageouts = replicate max_processes 0 }) h refl refl h.shape.places
        h.shape.slots)

-- One round of the loop of `main`: it keeps the invariant, and the pager runs in a state that has it, or the
-- round is lost in the step of a process of a program without a branch.
pub tick-Running :
    {P : Type 0} (pageit : List Pentry → P → Calls P) (memory : P) (s : Sim)
    → Running s
    → ((tick pageit memory s ≡ none) × LostIn s.procs 0 s)
      ⊎ (out : P × Sim) × (tick pageit memory s ≡ some out)
        × Running out.1
        × ((at : Sim) × Running at × (out.0 ≡ (callyou pageit memory at).0))
unfolding tick allstep
tick-Running pageit memory s h = elim (step_slots-Running s.procs 0 s h) [
  | inl (lost, loses) ↦ inl (rw lost refl, loses)
  | inr (s1, runs, h1) ↦
      let h2 : Running (allage s1) = record {
        conserved = allage-Conserved s1 h1.conserved;
        shape = allage-Shape s1 h1.shape;
      } in
      let (memory', s2) = callyou pageit memory (allage s1) in
      let h3 : Running s2 = callyou-Running pageit memory (allage s1) h2 in
      let s3 : Sim = record s2 { sysclock = s2.sysclock + 1 } in
      let h4 : Running s3 = Running-slots s2 s3 h3 refl refl h3.shape.places h3.shape.slots in
      let (blocked, counted) = allblocked_runs s3 h4 in
      inr ((memory', s3), rw runs (rw counted refl), h4, (allage s1, h2, refl))
]

-- The run of `n` rounds that is lost: after fewer rounds it comes to a state with the invariant, with
-- a process that is active, and there the next round steps some of the slots and then reads `branches[-1]`
-- for the process in the next slot, an active one of a program without a branch, at a page in memory.
pub record Loses {P : Type 0} (pageit : List Pentry → P → Calls P) (n : ℕ) (memory : P) (s : Sim)
    : Type 0 where
  pub rounds : ℕ
  pub fewer : rounds < n
  pub last : P × Sim
  pub reaches : simulate pageit rounds memory s ≡ some last
  pub running : Running last.1
  pub more : alldone last.1 ≡ false
  pub loses : LostIn last.1.procs 0 last.1

pub Loses-later :
    {P : Type 0} (pageit : List Pentry → P → Calls P) (n : ℕ) (memory : P) (s : Sim)
    (next : P × Sim)
    → alldone s ≡ false
    → tick pageit memory s ≡ some next
    → (later : Loses pageit n next.0 next.1)
    → (lost : Loses pageit (suc n) memory s) × (lost.last ≡ later.last)
unfolding simulate
Loses-later pageit n memory s next more runs later = (
  record {
    rounds = suc later.rounds;
    fewer = omega (arith, later.fewer);
    last = later.last;
    reaches = rw more (rw runs later.reaches);
    running = later.running;
    more = later.more;
    loses = later.loses;
  },
  refl,
)

pub Loses-now :
    {P : Type 0} (pageit : List Pentry → P → Calls P) (n : ℕ) (memory : P) (s : Sim)
    → Running s
    → alldone s ≡ false
    → LostIn s.procs 0 s
    → (lost : Loses pageit (suc n) memory s) × (lost.last ≡ (memory, s))
unfolding simulate
Loses-now pageit n memory s h more loses = (
  record {
    rounds = 0;
    fewer = omega arith;
    last = (memory, s);
    reaches = refl;
    running = h;
    more = more;
    loses = loses;
  },
  refl,
)

pub simulate-Running :
    {P : Type 0} (pageit : List Pentry → P → Calls P) (n : ℕ) (memory : P) (s : Sim)
    → Running s
    → ((simulate pageit n memory s ≡ none) × Loses pageit n memory s)
      ⊎ (out : P × Sim) × (simulate pageit n memory s ≡ some out) × Running out.1
unfolding simulate
simulate-Running pageit zero memory s h = inr ((memory, s), refl, h)
simulate-Running pageit (suc n) memory s h = elim (Bool-cases (alldone s)) [
  | inl done ↦ inr ((memory, s), rw done refl, h)
  | inr more ↦ elim (tick-Running pageit memory s h) [
    | inl (lost, loses) ↦ inl (rw more (rw lost refl), (Loses-now pageit n memory s h more loses).0)
    | inr (next, runs, h', at) ↦ elim (simulate-Running pageit n next.0 next.1 h') [
      | inl (lost, later) ↦
          inl (rw more (rw runs lost), (Loses-later pageit n memory s next more runs later).0)
      | inr (out, runs', h'') ↦ inr (out, rw more (rw runs runs'), h'')
    ]
  ]
]
