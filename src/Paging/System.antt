-- ===== src/Paging/System.antt =====
-- The whole simulator: initqueue, dequeue, empty, allinit, allstep, alldone, allblocked, callyou and
-- the loop of main, in assignments/pa7/simulator.c. `none` is a fault or a failed assertion.
pub mod Shape
pub mod Entries
pub mod Slots
pub mod Steps
pub mod Start
pub mod Pagers
use csci_3753_operating_syst.Prelude.{
  ℕ, zero, suc, ◌+◌, ◌-◌, ◌*◌, ◌/◌, ◌%◌, ◌^◌, ◌≤◌, ◌<◌, min, ◌≡◌, refl, sym, ap, ◌∙◌, subst, ◌≢◌,
  ◌↔◌, ◌⊎◌, inl, inr, Bool, true, false, not, ◌&&◌, ◌||◌, Option, none, some, List, [], ◌∷◌, ◌++◌,
  map, arith, dec_lt, ℕ_discrete, ltb, leb, ◌==◌, if◌then◌else◌, ltb→lt, lt→ltb, leb→le, ==_iff,
  tests, Bool-cases, bool_eq, Option-cases, if_keeps, length, get_elem?, get_or, set, take, drop,
  replicate, length-append, length-set, length-replicate, get_elem?_lt, get_elem?-eq-get_or,
  get_elem?-set_self, get_elem?-set_ne, get_or-set_self, get_or-set_ne, length-take, length-drop,
  take-append-drop, length-map, get_elem?-map, get_elem?_of_lt, drop-eq-cons, get_elem?-take,
  get_or-eq_get_elem?, All, All-set, All-get_elem?, All-replicate,
}
use csci_3753_operating_syst.Paging.{
  Program, Process, Sim, max_processes, max_proc_pages, page_size, physical_pages, queue_size,
}
use csci_3753_operating_syst.Paging.Frames.{allage, process_unload, neg_wait}
use csci_3753_operating_syst.Paging.Execution.{process_clear, process_load, process_step}
use csci_3753_operating_syst.Paging.Pager.{Pentry, Calls, run_calls}
use csci_3753_operating_syst.Prelude.Int.{ℤ, pos, negsuc, ltb_ℤ}
use csci_3753_operating_syst.Prelude.Opt.{◌>>=◌}

-- `dequeue`
unfoldable pub dequeue : Sim → Option ℕ × Sim
dequeue s =
    if ltb s.queueend queue_size
    then (some s.queueend, record s { queueend = s.queueend + 1 })
    else (none, s)

-- `empty`
unfoldable pub empty : Sim → Bool
empty s = leb queue_size s.queueend

-- `if (!empty()) processes[i]=dequeue();`
unfoldable pub refill : ℕ → Sim → Sim
refill i s =
    if empty s
    then s
    else (let (k, s') = dequeue s in record s' { processes = set s'.processes i k })

-- The slots `i`, `i+1`, … of `allinit`, with `n` to go.
unfoldable pub fill_slots : ℕ → ℕ → Sim → Sim
fill_slots zero i s = s
fill_slots (suc n) i s = fill_slots n (i + 1) (refill i s)

module _ {R : Type 0} (drand_lt : ℕ → R → Bool × R) (lrand48 : R → ℕ × R)
    (programs : List Program) where
  -- `initqueue` from entry `i` on.
  unfoldable pub load_queue : ℕ → ℕ → List Process → R → Option (List Process × R)
  load_queue fuel i [] r = some ([], r)
  load_queue fuel i (q ∷ queue) r = get_elem? programs (i % 5) >>= λ p.
      process_load drand_lt lrand48 fuel (process_clear q) p i (i % 5) r >>= λ first.
      load_queue fuel (i + 1) queue first.1 >>= λ rest. some (first.0 ∷ rest.0, rest.1)

  -- `allinit`
  unfoldable pub allinit : ℕ → Sim → R → Option (Sim × R)
  allinit fuel s r = load_queue fuel 0 s.queue r >>= λ loaded. some (
    fill_slots s.procs 0
        (record s { queue = loaded.0; queueend = 0; processes = replicate max_processes none }),
    loaded.1,
  )

-- `if (processes[i] && processes[i]->active) process_unload(i,processes[i])`
unfoldable pub unload_slot : Option ℕ → Sim → Sim
unload_slot none s = s
unload_slot (some k) s = elim (get_elem? s.queue k) [
  | none ↦ s
  | some q ↦ if q.active then process_unload k q s else s
]

-- One slot of `allstep` when its process cannot go on: unload it, and load the next.
unfoldable pub replace_slot : ℕ → Option ℕ → Sim → Sim
replace_slot i slot s =
    let s' = unload_slot slot s in refill i (record s' { processes = set s'.processes i none })

-- One slot of `allstep`.
unfoldable pub step_slot : ℕ → Sim → Option Sim
step_slot i s = elim (get_or s.processes i none) [
  | none ↦ some (replace_slot i none s)
  | some k ↦ get_elem? s.queue k >>= λ q. process_step q >>= λ out.
      let s' : Sim = record s { queue = set s.queue k out.1 } in
      some (if out.0 then s' else replace_slot i (some k) s')
]

-- `allstep` from slot `i` on, with `n` slots to go.
unfoldable pub step_slots : ℕ → ℕ → Sim → Option Sim
step_slots zero i s = some s
step_slots (suc n) i s = step_slot i s >>= λ s'. step_slots n (i + 1) s'

unfoldable pub allstep : Sim → Option Sim
allstep s = step_slots s.procs 0 s

-- A slot with a process that is active.
unfoldable pub busy : Sim → Option ℕ → Bool
busy s none = false
busy s (some k) = elim (get_elem? s.queue k) [ none ↦ false | some q ↦ q.active ]

unfoldable pub any_busy : Sim → List (Option ℕ) → Bool
any_busy s [] = false
any_busy s (slot ∷ slots) = if busy s slot then true else any_busy s slots

-- `alldone`
unfoldable pub alldone : Sim → Bool
alldone s = not (any_busy s (take s.procs s.processes))

-- `pages[j]==0`
unfoldable pub is_in : ℤ → Bool
is_in (pos zero) = true
is_in _ = false

-- The entry of a slot that is NULL.
abbrev pub absent : Pentry
absent = record { active = false; pc = 0; npages = 0; pages = replicate max_proc_pages false }

-- `pentry[i]`
unfoldable pub pentry : Sim → Option ℕ → Pentry
pentry s slot = elim slot [
  | none ↦ absent
  | some k ↦ elim (get_elem? s.queue k) [
    | none ↦ absent
    | some q ↦ record {
      active = q.active;
      pc = q.pc;
      npages = q.npages;
      pages = map is_in (take q.npages q.pages) ++ replicate (max_proc_pages - q.npages) false;
    }
  ]
]

-- `callyou`, for a pager with state `P`.
unfoldable pub callyou : {P : Type 0} → (List Pentry → P → Calls P) → P → Sim → P × Sim
callyou pageit memory s =
    let s' : Sim = record s { pageouts = replicate max_processes 0 } in
    run_calls (pageit (map (pentry s) s.processes) memory) s'

-- What `allblocked` counts.
pub record Tally : Type 0 where
  pub allfree : ℕ
  pub runnable : ℕ
  pub memwait : ℕ
  pub freewait : ℕ

-- The page of one active process, by its age.
unfoldable pub count_page : ℤ → Tally → Tally
count_page stat t =
    if ltb_ℤ (pos 0) stat
    then record t { memwait = t.memwait + 1 }
    else if not (ltb_ℤ stat (pos 0))
    then record t { runnable = t.runnable + 1 }
    else if ltb_ℤ stat neg_wait
    then record t { allfree = t.allfree + 1 }
    else record t { freewait = t.freewait + 1 }

unfoldable pub count_slots : Sim → List (Option ℕ) → Tally → Option Tally
unfolding count_page
count_slots s [] t = some t
count_slots s (none ∷ slots) t = count_slots s slots t
count_slots s (some k ∷ slots) t = get_elem? s.queue k >>= λ q.
    (if q.active
      then (get_elem? q.pages (q.pc / page_size) >>= λ stat. some (count_page stat t))
      else some t)
    >>= λ t'. count_slots s slots t'

-- `allblocked`
unfoldable pub allblocked : Sim → Option Bool
allblocked s =
    count_slots s (take s.procs s.processes)
      (record { allfree = 0; runnable = 0; memwait = 0; freewait = 0 })
    >>= λ t. some (ltb 0 t.allfree && (t.memwait == 0) && (t.runnable == 0) && (t.freewait == 0))

-- One round of the loop of `main`. The answer of `allblocked` is not used.
unfoldable pub tick : {P : Type 0} → (List Pentry → P → Calls P) → P → Sim → Option (P × Sim)
tick pageit memory s = allstep s >>= λ s'.
    let (memory', s'') = callyou pageit memory (allage s') in
    let s3 : Sim = record s'' { sysclock = s''.sysclock + 1 } in
    allblocked s3 >>= λ blocked. some (memory', s3)

-- The loop of `main`, for `n` rounds at most.
unfoldable pub simulate :
    {P : Type 0} → (List Pentry → P → Calls P) → ℕ → P → Sim → Option (P × Sim)
simulate pageit zero memory s = some (memory, s)
simulate pageit (suc n) memory s =
    let rest = tick pageit memory s >>= λ next. simulate pageit n next.0 next.1 in
    if alldone s then some (memory, s) else rest
