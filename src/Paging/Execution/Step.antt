-- ===== src/Paging/Execution/Step.antt =====
-- A step of a loaded process faults on nothing, keeps the process loaded and leaves its page table
-- alone.
use csci_3753_operating_syst.Prelude.{
  ℕ, zero, suc, ◌+◌, ◌*◌, ◌/◌, ◌≤◌, ◌<◌, ◌≡◌, refl, sym, ◌∙◌, subst, ◌≢◌, ◌⊎◌, inl, inr, Bool, true,
  false, some, List, map, arith, ℕ_discrete, ltb, leb, if◌then◌else◌, if_keeps, length, get_elem?,
  get_or, set, length-set, get_elem?-set_ne, length-map, get_elem?_of_lt, get_or-eq_get_elem?,
}
use csci_3753_operating_syst.Prelude.Writes.{get_elem?-set}
use csci_3753_operating_syst.Paging.{
  Branch, Program, Bcontext, Process, max_proc_pages, page_size, max_branches, max_exits,
}
use csci_3753_operating_syst.Paging.Branching.{bcontext_decide}
use csci_3753_operating_syst.Paging.Branching.Decide.{IsReady, decide_ready, turned-IsReady}
use csci_3753_operating_syst.Paging.Search.Correct.{Answer-cases, IsSorted, find_key_answer}
use csci_3753_operating_syst.Paging.Execution.{process_dobranch, run_step, process_step}
use csci_3753_operating_syst.Prelude.Int.{ℤ, pos, negsuc}

abbrev pub starts : Program → List ℕ
starts p = map (λ b. b.wherefrom) p.branches

-- A program that the simulator can run: its tables are sorted, hold at least one entry each and
-- fit their arrays, and its last page is inside the page table.
pub record IsProgram (p : Program) : Type 0 where
  pub exits_sorted : IsSorted p.exits p.nexits
  pub exits_some : (0 < p.nexits) × (p.nexits ≤ max_exits)
  pub branches_sorted : IsSorted (starts p) p.nbranches
  pub branches_some : (0 < p.nbranches) × (p.nbranches ≤ max_branches)
  pub small : p.size < max_proc_pages * page_size

-- A process that `process_load` has set up for `p`.
pub record IsLoaded (p : Program) (q : Process) : Type 0 where
  pub program : q.program ≡ some p
  pub inside : q.pc ≤ p.size
  pub paged : (length q.pages ≡ max_proc_pages) × (length q.blocked ≡ max_proc_pages)
  pub contexts : p.nbranches ≤ length q.bcontexts
  pub ready :
      (i : ℕ) (c : Bcontext) → i < p.nbranches → get_elem? q.bcontexts i ≡ some c → IsReady c

decided :
    (c : Bcontext)
    → IsReady c
    → (v : Bool) × (c' : Bcontext) × (bcontext_decide c ≡ some (v, c')) × IsReady c'
decided c h = (
  c.bvalue,
  _,
  decide_ready c h,
  if_keeps IsReady (leb (get_or c.brings c.boffset 0) (c.bcount + 1)) (turned-IsReady c h)
      (record { inside = h.inside; sized = h.sized; whole = h.whole }),
)

-- A context that is written back keeps the others ready.
IsReady-set :
    (n i : ℕ) (contexts : List Bcontext) (c' : Bcontext)
    → i < length contexts
    → IsReady c'
    → ((j : ℕ) (c : Bcontext) → j < n → get_elem? contexts j ≡ some c → IsReady c)
    → (j : ℕ) (c : Bcontext) → j < n
    → get_elem? (set contexts i c') j ≡ some c
    → IsReady c
IsReady-set n i contexts c' lt new old j c jn at = elim (ℕ_discrete i j) [
  | yes e ↦
      let here : some c' ≡ some c = ground (arith, get_elem?-set contexts i j c' lt) in
      let same : c' ≡ c = cc in subst IsReady same new
  | no ne ↦ old j c jn (sym (get_elem?-set_ne contexts i j c' ne) ∙ at)
]

-- A branch of a loaded process.
dobranch-IsLoaded :
    (p : Program) (q : Process) (i : ℕ)
    → IsLoaded p q
    → i < p.nbranches
    → p.nbranches ≤ length p.branches
    → (q' : Process) × (process_dobranch q p i ≡ some q')
      × IsLoaded p q'
      × (q'.pages ≡ q.pages)
      × (q'.npages ≡ q.npages)
      × (q'.active ≡ q.active)
      × (q'.compute ≡ q.compute)
      × (q'.block ≡ q.block)
unfolding process_dobranch
dobranch-IsLoaded p q i h lt fits =
    let (b, at_b) = get_elem?_of_lt p.branches i (omega arith) in
    let (c, at_c) = get_elem?_of_lt q.bcontexts i (omega (arith, h.contexts)) in
    let (v, c', runs, ready) = decided c (h.ready i c lt at_c) in
    let pc = if v then b.whereto else q.pc + 1 in
    let pc' = if leb p.size pc then 0 else pc in
    let q' : Process = record q { bcontexts = set q.bcontexts i c'; pc = pc' } in
    (
      q',
      rw (at_b, at_c, runs) refl,
      record {
        program = h.program;
        inside = ground arith;
        paged = h.paged;
        contexts = omega (arith, length-set q.bcontexts i c', h.contexts);
        ready = IsReady-set p.nbranches i q.bcontexts c' (omega (arith, h.contexts)) ready h.ready;
      },
      refl,
      refl,
      refl,
      refl,
      refl,
    )

-- Beside that a step counts one tick, computing or blocked.
pub record Stepped (p : Program) (q : Process) (out : Bool × Process) : Type 0 where
  pub loaded : IsLoaded p out.1
  pub pages : out.1.pages ≡ q.pages
  pub npages : out.1.npages ≡ q.npages
  pub active : out.1.active ≡ q.active

run_step_loaded :
    (p : Program) (q : Process)
    → IsProgram p
    → IsLoaded p q
    → (out : Bool × Process) × (run_step q p ≡ some out)
      × Stepped p q out
      × (out.1.compute ≡ q.compute)
      × (out.1.block ≡ q.block)
unfolding run_step
run_step_loaded p q hp h =
    let exits_ok : leb p.nexits max_exits ≡ true = ground (arith, hp.exits_some) in
    let branches_ok : leb p.nbranches max_branches ≡ true = ground (arith, hp.branches_some) in
    rw exits_ok
      (elim (Answer-cases (find_key_answer p.exits p.nexits q.pc hp.exits_sorted hp.exits_some.0)) [
        | inl (i, e, lt, at) ↦ (
          (false, q),
          rw e refl,
          record { loaded = h; pages = refl; npages = refl; active = refl },
          refl,
          refl,
        )
        | inr (e, none_of) ↦
            rw (e, branches_ok)
              (elim (Answer-cases (
                find_key_answer (starts p) p.nbranches q.pc hp.branches_sorted
                  hp.branches_some.0)) [
                    | inl (i, at, lt, start) ↦
                        let (q', runs, loaded, pages, npages, active, compute, block) =
                          dobranch-IsLoaded p q i h lt (
                            omega (
                              arith,
                              length-map p.branches (λ (b : Branch). b.wherefrom),
                              hp.branches_sorted.inside,
                            )) in
                        (
                          (true, q'),
                          rw (at, runs) refl,
                          record {
                            loaded = loaded;
                            pages = pages;
                            npages = npages;
                            active = active;
                          },
                          compute,
                          block,
                        )
                    | inr (none_at, no_start) ↦ (
                      (true, record q { pc = if ltb p.size (q.pc + 1) then 0 else q.pc + 1 }),
                      rw none_at refl,
                      record {
                        loaded = record {
                          program = h.program;
                          inside = ground arith;
                          paged = h.paged;
                          contexts = h.contexts;
                          ready = h.ready;
                        };
                        pages = refl;
                        npages = refl;
                        active = refl;
                      },
                      refl,
                      refl,
                    )
                  ])
      ])

-- The flag of the page is written, and the process stays loaded.
pub IsLoaded-blocked :
    (p : Program) (q : Process) (page : ℕ) (flag : Bool) (compute block : ℕ)
    → IsLoaded p q
    → IsLoaded p (record q { blocked = set q.blocked page flag; compute = compute; block = block })
IsLoaded-blocked p q page flag compute block h = record {
  program = h.program;
  inside = h.inside;
  paged = (h.paged.0, length-set q.blocked page flag ∙ h.paged.1);
  contexts = h.contexts;
  ready = h.ready;
}

-- What a step does, by the age of the page.
abbrev Ticked : ℤ → Process → Bool × Process → Type 0
Ticked (pos zero) q out = (out.1.compute ≡ q.compute + 1) × (out.1.block ≡ q.block)
Ticked _ q out = (out.1.compute ≡ q.compute) × (out.1.block ≡ q.block + 1) × (out.0 ≡ true)

pub process_step_in :
    (p : Program) (q : Process) (flag : Bool)
    → q.active ≡ true
    → get_elem? q.pages (q.pc / page_size) ≡ some (pos 0)
    → get_elem? q.blocked (q.pc / page_size) ≡ some flag
    → q.program ≡ some p
    → process_step q
      ≡ run_step
          (record q { blocked = set q.blocked (q.pc / page_size) false; compute = q.compute + 1 })
          p
unfolding process_step
process_step_in p q flag on at at' prog = ground arith

step_at :
    (p : Program) (q : Process) (age : ℤ) (flag : Bool)
    → IsProgram p
    → IsLoaded p q
    → q.active ≡ true
    → get_elem? q.pages (q.pc / page_size) ≡ some age
    → get_elem? q.blocked (q.pc / page_size) ≡ some flag
    → (out : Bool × Process) × (process_step q ≡ some out) × Stepped p q out × Ticked age q out
unfolding process_step
step_at p q (pos zero) flag hp h on at at' =
    let q1 : Process = record q {
      blocked = set q.blocked (q.pc / page_size) false;
      compute = q.compute + 1;
    } in
    let (out, runs, stepped, compute, block) =
      run_step_loaded p q1 hp
        (IsLoaded-blocked p q (q.pc / page_size) false (q.compute + 1) q.block h) in
    (
      out,
      process_step_in p q flag on at at' h.program ∙ runs,
      record {
        loaded = stepped.loaded;
        pages = stepped.pages;
        npages = stepped.npages;
        active = stepped.active;
      },
      (compute, block),
    )
step_at p q (pos (suc n)) flag hp h on at at' =
    let q1 : Process = record q {
      blocked = set q.blocked (q.pc / page_size) true;
      block = q.block + 1;
    } in
    (
      (true, q1),
      ground arith,
      record {
        loaded = IsLoaded-blocked p q (q.pc / page_size) true q.compute (q.block + 1) h;
        pages = refl;
        npages = refl;
        active = refl;
      },
      (refl, refl, refl),
    )
step_at p q (negsuc n) flag hp h on at at' =
    let q1 : Process = record q {
      blocked = set q.blocked (q.pc / page_size) true;
      block = q.block + 1;
    } in
    (
      (true, q1),
      ground arith,
      record {
        loaded = IsLoaded-blocked p q (q.pc / page_size) true q.compute (q.block + 1) h;
        pages = refl;
        npages = refl;
        active = refl;
      },
      (refl, refl, refl),
    )

Ticked-in :
    (age : ℤ) (q : Process) (out : Bool × Process)
    → Ticked age q out
    → age ≡ pos 0
    → (out.1.compute ≡ q.compute + 1) × (out.1.block ≡ q.block)
Ticked-in (pos zero) q out t e = t
Ticked-in (pos (suc n)) q out t e = absurd (cc)
Ticked-in (negsuc n) q out t e = absurd (cc)

Ticked-out :
    (age : ℤ) (q : Process) (out : Bool × Process)
    → Ticked age q out
    → age ≢ pos 0
    → (out.1.compute ≡ q.compute) × (out.1.block ≡ q.block + 1) × (out.0 ≡ true)
Ticked-out (pos zero) q out t ne = absurd (ne refl)
Ticked-out (pos (suc n)) q out t ne = t
Ticked-out (negsuc n) q out t ne = t

in_or_not : (age : ℤ) → (age ≡ pos 0) ⊎ (age ≢ pos 0)
in_or_not (pos zero) = inl refl
in_or_not (pos (suc n)) = inr (λ e. let z : suc n ≡ 0 = cc in absurd (omega arith))
in_or_not (negsuc n) = inr (λ e. absurd (cc))

-- A step of an active process that is loaded with a runnable program faults on nothing, whatever
-- pages are in: it keeps the process loaded, with its program counter inside the program, leaves
-- its pages alone, and counts one tick, as computing exactly if the page of the program counter
-- is in memory.
pub process_step-loaded :
    (p : Program) (q : Process)
    → IsProgram p
    → IsLoaded p q
    → q.active ≡ true
    → (out : Bool × Process) × (process_step q ≡ some out)
      × Stepped p q out
      × ((get_or q.pages (q.pc / page_size) (pos 1) ≡ pos 0)
            × (out.1.compute ≡ q.compute + 1)
            × (out.1.block ≡ q.block)
          ⊎ (get_or q.pages (q.pc / page_size) (pos 1) ≢ pos 0)
            × (out.1.compute ≡ q.compute)
            × (out.1.block ≡ q.block + 1)
            × (out.0 ≡ true))
process_step-loaded p q hp h on =
    let (age, at) =
      get_elem?_of_lt q.pages (q.pc / page_size) (omega (arith, h.inside, hp.small, h.paged)) in
    let (flag, at') =
      get_elem?_of_lt q.blocked (q.pc / page_size) (omega (arith, h.inside, hp.small, h.paged)) in
    let (out, runs, stepped, ticked) = step_at p q age flag hp h on at at' in
    let same : get_or q.pages (q.pc / page_size) (pos 1) ≡ age =
      get_or-eq_get_elem? q.pages (q.pc / page_size) (pos 1) at in
    (
      out,
      runs,
      stepped,
      rw same (elim (in_or_not age) [
        | inl here ↦
            let (computed, blocked) = Ticked-in age q out ticked here in
            inl (here, computed, blocked)
        | inr gone ↦
            let (computed, blocked, on') = Ticked-out age q out ticked gone in
            inr (gone, computed, blocked, on')
      ]),
    )
