-- ===== src/Paging/Execution.antt =====
-- One simulated process: process_clear, process_load, process_dobranch and process_step of
-- assignments/pa7/simulator.c. What they print is left out; a failed assertion, a NULL program and
-- an access outside an array are faults, `none`.
pub mod Step
pub mod Unbranched
pub mod Load
use csci_3753_operating_syst.Prelude.{
  ℕ, zero, suc, ◌+◌, ◌-◌, ◌*◌, ◌/◌, ◌%◌, ◌^◌, ◌≤◌, ◌<◌, min, ◌≡◌, refl, sym, ap, ◌∙◌, subst, ◌≢◌,
  ◌↔◌, ◌⊎◌, inl, inr, Bool, true, false, not, ◌&&◌, ◌||◌, Option, none, some, List, [], ◌∷◌, ◌++◌,
  map, arith, dec_lt, ℕ_discrete, ltb, leb, ◌==◌, if◌then◌else◌, ltb→lt, lt→ltb, leb→le, ==_iff,
  tests, Bool-cases, bool_eq, Option-cases, if_keeps, length, get_elem?, get_or, set, take, drop,
  replicate, length-append, length-set, length-replicate, get_elem?_lt, get_elem?-eq-get_or,
  get_elem?-set_self, get_elem?-set_ne, get_or-set_self, get_or-set_ne, length-take, length-drop,
  take-append-drop, length-map, drop-eq-cons, get_elem?-take, get_or-eq_get_elem?, All, All-set,
  All-get_elem?, All-replicate,
}
use csci_3753_operating_syst.Paging.{
  Branch, Program, Bcontext, Process, max_proc_pages, page_size, max_branches, max_exits,
}
use csci_3753_operating_syst.Paging.Frames.{out}
use csci_3753_operating_syst.Paging.Branching.{bcontext_clear, bcontext_init, bcontext_decide}
use csci_3753_operating_syst.Paging.Search.{find_key}
use csci_3753_operating_syst.Prelude.Int.{ℤ, pos, negsuc}
use csci_3753_operating_syst.Prelude.Opt.{◌>>=◌, ◌>>◌, guard}

-- `process_clear`
unfoldable pub process_clear : Process → Process
process_clear q = record q {
  pc = 0;
  compute = 0;
  block = 0;
  program = none;
  pid = negsuc 0;
  kind = negsuc 0;
  nbcontexts = 0;
  bcontexts = map bcontext_clear q.bcontexts;
  npages = 0;
  pages = replicate max_proc_pages out;
  blocked = replicate max_proc_pages false;
  active = false;
}

module _ {R : Type 0} (drand_lt : ℕ → R → Bool × R) (lrand48 : R → ℕ × R) where
  -- `for (i=0; i<p->nbranches; i++) bcontext_init(q->bcontexts+i, p->branches+i)`
  unfoldable pub init_contexts :
      ℕ → ℕ → List Branch → List Bcontext → R → Option (List Bcontext × R)
  init_contexts fuel zero branches contexts r = some (contexts, r)
  init_contexts fuel (suc n) (b ∷ branches) (c ∷ contexts) r =
      bcontext_init drand_lt lrand48 fuel c b r >>= λ done.
      init_contexts fuel n branches contexts done.2 >>= λ rest. some (done.0 ∷ rest.0, rest.1)
  init_contexts fuel (suc n) _ contexts r = none

  -- `process_load`; `fuel` is for `bcontext_init`.
  unfoldable pub process_load : ℕ → Process → Program → ℕ → ℕ → R → Option (Process × R)
  process_load fuel q p pid kind r = do
    guard (ltb p.nbranches max_branches)
    loaded ← init_contexts fuel p.nbranches p.branches q.bcontexts r
    some (
      record q {
        pc = 0;
        compute = 0;
        block = 0;
        program = some p;
        pid = pos pid;
        kind = pos kind;
        nbcontexts = p.nbranches;
        bcontexts = loaded.0;
        npages = max_proc_pages;
        pages = replicate max_proc_pages out;
        blocked = replicate max_proc_pages false;
        active = true;
      },
      loaded.1,
    )

-- `process_dobranch`, for the branch and the context at index `i`.
unfoldable pub process_dobranch : Process → Program → ℕ → Option Process
process_dobranch q p i = do
  b ← get_elem? p.branches i
  c ← get_elem? q.bcontexts i
  d ← bcontext_decide c
  let pc = if d.0 then b.whereto else q.pc + 1
  some (record q { bcontexts = set q.bcontexts i d.1; pc = if leb p.size pc then 0 else pc })

-- `process_step` once the page is in memory: exit, branch, or go on.
unfoldable pub run_step : Process → Program → Option (Bool × Process)
run_step q p = do
  guard (leb p.nexits max_exits)
  exit ← find_key p.exits p.nexits q.pc
  elim exit [
    | some i ↦ some (false, q)
    | none ↦
        (guard (leb p.nbranches max_branches)
          >> find_key (map (λ b. b.wherefrom) p.branches) p.nbranches q.pc)
        >>= λ at. elim at [
          | some i ↦ process_dobranch q p i >>= λ q'. some (true, q')
          | none ↦ some (true, record q { pc = if ltb p.size (q.pc + 1) then 0 else q.pc + 1 })
        ]
  ]

-- `process_step` of a process that is not NULL.
unfoldable pub process_step : Process → Option (Bool × Process)
process_step q =
    let page = q.pc / page_size in
    if not q.active then some (false, q) else (do
      age ← get_elem? q.pages page
      flag ← get_elem? q.blocked page
      elim age [
        | pos zero ↦ q.program >>= λ p.
            run_step (record q { blocked = set q.blocked page false; compute = q.compute + 1 }) p
        | _ ↦ some (true, record q { blocked = set q.blocked page true; block = q.block + 1 })
      ])
