-- ===== src/Paging/Execution/Load.antt =====
-- Loading a program into a process of the queue, and the programs that a step cannot run.
use csci_3753_operating_syst.Prelude.{
  ℕ, zero, suc, ◌+◌, ◌*◌, ◌/◌, ◌≤◌, ◌<◌, ◌≡◌, refl, ap, ◌∙◌, subst, ◌≢◌, inl, inr, Bool, true,
  false, Option, none, some, List, [], ◌∷◌, map, arith, ltb, leb, Bool-cases, length, get_elem?,
  get_or, replicate, length-map, get_elem?-map, All,
}
use csci_3753_operating_syst.Paging.{
  Branch, Program, Bcontext, BranchType, goto, for, nfor, branch_if, Process, max_proc_pages,
  page_size, max_branches, max_exits, max_brings,
}
use csci_3753_operating_syst.Paging.Branching.{bcontext_clear, bcontext_init}
use csci_3753_operating_syst.Paging.Branching.Decide.{IsReady}
use csci_3753_operating_syst.Paging.Branching.Init.{bcontext_init-loop}
use csci_3753_operating_syst.Paging.Branching.Init.Forks.{Turns, bcontext_init-branch_if}
use csci_3753_operating_syst.Paging.Search.{find_key}
use csci_3753_operating_syst.Paging.Search.Correct.{IsSorted, find_key_answer, Answer-cases}
use csci_3753_operating_syst.Paging.Execution.{
  process_clear, init_contexts, process_load, run_step, process_step,
}
use csci_3753_operating_syst.Paging.Execution.Step.{IsProgram, IsLoaded, starts, process_step_in}
use csci_3753_operating_syst.Paging.Execution.Unbranched.{IsLoadable}
use csci_3753_operating_syst.Prelude.Int.{pos, negsuc}

branches_inside : (p : Program) → IsProgram p → p.nbranches ≤ length p.branches
branches_inside p hp =
    omega (arith, hp.branches_sorted.inside, length-map p.branches (λ (b : Branch). b.wherefrom))

pub IsLoadable-inside : (p : Program) → IsLoadable p → p.nbranches ≤ length p.branches
IsLoadable-inside p (inl hp) = branches_inside p hp
IsLoadable-inside p (inr hp) = omega (arith, hp.no_branch)

-- A context whose array has its full length.
abbrev pub IsWhole : Bcontext → Type 0
IsWhole c = length c.brings ≡ max_brings

module _ {R : Type 0} (drand_lt : ℕ → R → Bool × R) (lrand48 : R → ℕ × R) where
  -- The draws of a branch turn: both outcomes come up within `k` draws, if it is an `IF`.
  abbrev pub FairBranch : ℕ → Branch → Type 0
  FairBranch k b = b.btype ≡ branch_if → (v : Bool) (r : R) → Turns drand_lt lrand48 k b.prob v r

  goto_runs :
      (fuel : ℕ) (c : Bcontext) (b : Branch) (r : R)
      → b.btype ≡ goto
      → bcontext_init drand_lt lrand48 fuel c b r
        ≡ some (
          record {
            btype = b.btype;
            bcount = 0;
            boffset = 0;
            bsize = 1;
            bvalue = true;
            brings = 0x7fffffff ∷ replicate 99 0;
          },
          none,
          r,
        )
  unfolding bcontext_init
  goto_runs fuel c b r e = ground arith

  -- `bcontext_init` makes a context ready, for every kind of branch.
  init-IsReady :
      (k : ℕ) (t : BranchType) (c : Bcontext) (b : Branch) (r : R)
      → b.btype ≡ t
      → FairBranch k b
      → IsWhole c
      → (out : Bcontext × Option ℕ × R) × (bcontext_init drand_lt lrand48 (100 * k + 1) c b r
          ≡ some out)
        × IsReady out.0
  init-IsReady k for c b r e fair whole =
      let (c', r', runs, context, value) =
        bcontext_init-loop drand_lt lrand48 (100 * k + 1) c b r true whole e in
      ((c', none, r'), runs, context.ready)
  init-IsReady k nfor c b r e fair whole =
      let (c', r', runs, context, value) =
        bcontext_init-loop drand_lt lrand48 (100 * k + 1) c b r false whole e in
      ((c', none, r'), runs, context.ready)
  init-IsReady k branch_if c b r e fair whole =
      let (c', r', runs, ready, full, kind, start) =
        bcontext_init-branch_if drand_lt lrand48 k c b r (fair e) whole e in
      ((c', some 1, r'), runs, ready)
  init-IsReady k goto c b r e fair whole = (
    (
      record {
        btype = b.btype;
        bcount = 0;
        boffset = 0;
        bsize = 1;
        bvalue = true;
        brings = 0x7fffffff ∷ replicate 99 0;
      },
      none,
      r,
    ),
    goto_runs (100 * k + 1) c b r e,
    record { inside = omega arith; sized = omega arith; whole = refl },
  )

  init_contexts-IsReady :
      (k n : ℕ) (branches : List Branch) (contexts : List Bcontext) (r : R)
      → n ≤ length branches
      → n ≤ length contexts
      → All (FairBranch k) branches
      → All IsWhole contexts
      → (out : List Bcontext × R) × (init_contexts drand_lt lrand48
            (100 * k + 1)
            n
            branches
            contexts
            r
          ≡ some out)
        × (length out.0 ≡ length contexts)
        × ((i : ℕ) (c : Bcontext) → i < n → get_elem? out.0 i ≡ some c → IsReady c)
  unfolding init_contexts
  init_contexts-IsReady k zero branches contexts r hb hc fair whole =
      ((contexts, r), refl, refl, λ i c lt at. absurd (omega arith))
  init_contexts-IsReady k (suc n) [] contexts r hb hc fair whole = absurd (omega arith)
  init_contexts-IsReady k (suc n) (b ∷ branches) [] r hb hc fair whole = absurd (omega arith)
  init_contexts-IsReady k (suc n) (b ∷ branches) (c ∷ contexts) r hb hc fair whole =
      let (first, runs, ready) = init-IsReady k b.btype c b r refl fair.0 whole.0 in
      let (rest, runs', same, readies) =
        init_contexts-IsReady k n branches contexts first.2 (omega arith) (omega arith) fair.1
          whole.1 in
      (
        (first.0 ∷ rest.0, rest.1),
        rw runs (rw runs' refl),
        ap suc same,
        cons_ready n first.0 rest.0 ready readies,
      )
    where
      cons_ready :
          (n : ℕ) (c : Bcontext) (cs : List Bcontext)
          → IsReady c
          → ((i : ℕ) (c : Bcontext) → i < n → get_elem? cs i ≡ some c → IsReady c)
          → (i : ℕ) (c' : Bcontext) → i < suc n
          → get_elem? (c ∷ cs) i ≡ some c'
          → IsReady c'
      cons_ready n c cs ready readies zero c' lt at =
          let same : c ≡ c' = cc in subst IsReady same ready
      cons_ready n c cs ready readies (suc i) c' lt at = readies i c' (omega arith) at

  cleared-IsWhole : (contexts : List Bcontext) → All IsWhole (map bcontext_clear contexts)
  unfolding bcontext_clear
  cleared-IsWhole [] = tt
  cleared-IsWhole (c ∷ contexts) = (refl, cleared-IsWhole contexts)

  -- `process_clear` and then `process_load`, for branches that are inside their table.
  pub load_fits :
      (k : ℕ) (q : Process) (p : Program) (pid kind : ℕ) (r : R)
      → p.nbranches ≤ length p.branches
      → p.nbranches < max_branches
      → length q.bcontexts ≡ max_branches
      → All (FairBranch k) p.branches
      → (out : Process × R) × (process_load drand_lt lrand48
            (100 * k + 1)
            (process_clear q)
            p
            pid
            kind
            r
          ≡ some out)
        × IsLoaded p out.0
        × (out.0.active ≡ true)
        × (out.0.pc ≡ 0)
        × (out.0.npages ≡ max_proc_pages)
        × (out.0.pages ≡ replicate max_proc_pages (negsuc 100))
        × (out.0.compute + out.0.block ≡ 0)
  unfolding process_load process_clear
  load_fits k q p pid kind r whole few full fair =
      let fits : ltb p.nbranches max_branches ≡ true = ground arith in
      let contexts = map bcontext_clear q.bcontexts in
      let size : length contexts ≡ max_branches = length-map q.bcontexts bcontext_clear ∙ full in
      let (out, runs, same, readies) =
        init_contexts-IsReady k p.nbranches p.branches contexts r whole (omega (arith, size)) fair
          (cleared-IsWhole q.bcontexts) in
      (
        (
          record q {
            pc = 0;
            compute = 0;
            block = 0;
            program = some p;
            pid = pos pid;
            kind = pos kind;
            nbcontexts = p.nbranches;
            bcontexts = out.0;
            npages = max_proc_pages;
            pages = replicate max_proc_pages (negsuc 100);
            blocked = replicate max_proc_pages false;
            active = true;
          },
          out.1,
        ),
        rw fits (rw runs refl),
        record {
          program = refl;
          inside = omega arith;
          paged = (refl, refl);
          contexts = omega (arith, same, size);
          ready = readies;
        },
        refl,
        refl,
        refl,
        refl,
        refl,
      )

  -- `process_clear` and then `process_load` of a runnable program with fewer than MAXBRANCHES
  -- branches always succeed, given fair draws for its `IF` branches: the process is loaded, active,
  -- at the first instruction, with all pages out and no tick counted.
  pub load-clear :
      (k : ℕ) (q : Process) (p : Program) (pid kind : ℕ) (r : R)
      → IsProgram p
      → p.nbranches < max_branches
      → length q.bcontexts ≡ max_branches
      → All (FairBranch k) p.branches
      → (out : Process × R) × (process_load drand_lt lrand48
            (100 * k + 1)
            (process_clear q)
            p
            pid
            kind
            r
          ≡ some out)
        × IsLoaded p out.0
        × (out.0.active ≡ true)
        × (out.0.pc ≡ 0)
        × (out.0.npages ≡ max_proc_pages)
        × (out.0.pages ≡ replicate max_proc_pages (negsuc 100))
        × (out.0.compute + out.0.block ≡ 0)
  load-clear k q p pid kind r hp few full fair =
      load_fits k q p pid kind r (branches_inside p hp) few full fair

no_branch_key :
    (keys : List ℕ) (n pc key : ℕ)
    → n ≡ 0
    → get_elem? keys 0 ≡ some key
    → pc ≢ key
    → find_key keys n pc ≡ none
unfolding find_key
no_branch_key keys zero pc key e at ne = rw at (ground arith)
no_branch_key keys (suc n) pc key e at ne = absurd (omega arith)

no_branch_run :
    (p : Program) (q : Process) (b : Branch)
    → find_key p.exits p.nexits q.pc ≡ some none
    → p.nexits ≤ max_exits
    → find_key (starts p) p.nbranches q.pc ≡ none
    → run_step q p ≡ none
unfolding run_step
no_branch_run p q b e few at =
    let exits_ok : leb p.nexits max_exits ≡ true = ground arith in
    rw (exits_ok, e)
      (rw at (elim (Bool-cases (leb p.nbranches max_branches)) [
        | inl ok ↦ rw ok refl
        | inr bad ↦ rw bad refl
      ]))

-- A program with no branch (as the fourth of assignments/pa7/programs.c): at an instruction that is
-- no exit and is not the start of the unused branch entry at index 0, with its page in memory, a
-- step faults, since it reads the branch table at index -1.
pub no_branch_step :
    (p : Program) (q : Process) (b : Branch) (flag : Bool)
    → IsSorted p.exits p.nexits
    → (0 < p.nexits) × (p.nexits ≤ max_exits)
    → p.nbranches ≡ 0
    → q.active ≡ true
    → q.program ≡ some p
    → get_elem? q.pages (q.pc / page_size) ≡ some (pos 0)
    → get_elem? q.blocked (q.pc / page_size) ≡ some flag
    → ((i : ℕ) → i < p.nexits → get_or p.exits i 0 ≢ q.pc)
    → get_elem? p.branches 0 ≡ some b
    → q.pc ≢ b.wherefrom
    → process_step q ≡ none
no_branch_step p q b flag sorted few no_branch on prog at at' no_exit first other =
    let key : find_key (starts p) p.nbranches q.pc ≡ none =
      no_branch_key (starts p) p.nbranches q.pc b.wherefrom no_branch
        (get_elem?-map p.branches 0 (λ (b : Branch). b.wherefrom) b first) other in
    let exit : find_key p.exits p.nexits q.pc ≡ some none =
      elim (Answer-cases (find_key_answer p.exits p.nexits q.pc sorted few.0)) [
        | inl (i, e, lt, found) ↦ absurd (no_exit i lt found)
        | inr (e, no_place) ↦ e
      ] in
    process_step_in p q flag on at at' prog ∙ no_branch_run p _ b exit few.1 key
