-- ===== src/Paging/Pager/Predict/Tables.antt =====
-- The shape of the static variables of pageit in assignments/pa8/pager-predict.c, and that each
-- access to them keeps it and is inside the tables.
use csci_3753_operating_syst.Prelude.{
  ℕ, zero, suc, ◌+◌, ◌<◌, ◌≡◌, refl, sym, ap, ◌∙◌, subst, ◌⊎◌, inl, inr, Bool, true, Option, none,
  some, List, [], ◌∷◌, map, arith, length, get_elem?, set, replicate, length-set, length-replicate,
  length-map, get_elem?_of_lt, All, All-set, All-get_elem?, All-replicate,
}
use csci_3753_operating_syst.Paging.{max_processes, max_proc_pages}
use csci_3753_operating_syst.Paging.Pager.Flow.{Sure}
use csci_3753_operating_syst.Paging.Pager.Predict.{finish_wait, set_pending_page_op, finish_waits}
use csci_3753_operating_syst.Paging.Pager.Predict.Working.{
  PageData, init_row, init_transition, init_workset,
}
use csci_3753_operating_syst.Paging.Pager.Predict.Memory.{
  Memory, idle, static_memory, initialize, update_waits, mark, touch, set_type,
}
use csci_3753_operating_syst.Prelude.Indexed.{AllAt, AllAt-replicate}

-- A table with an entry for each page of each process.
abbrev pub IsGrid : {A : Type 0} → List (List A) → Type 0
IsGrid table = (length table ≡ max_processes) × All (λ row. length row ≡ max_proc_pages) table

-- The entry of the transitions of process `p` from page `f` to page `t`: it names its page, no page
-- follows itself, and nothing is counted for process 0.
abbrev pub Cell : ℕ → ℕ → ℕ → PageData → Type 0
Cell p f t d = (d.page ≡ t) × (f ≡ t → d.freq ≡ 0) × (p ≡ 0 → d.freq ≡ 0)

abbrev pub Row : ℕ → ℕ → List PageData → Type 0
Row p f row = (length row ≡ max_proc_pages) × AllAt (Cell p f) 0 row

abbrev pub Table : ℕ → List (List PageData) → Type 0
Table p table = (length table ≡ max_proc_pages) × AllAt (Row p) 0 table

-- The last page of process `p`, which is -1 for process 0 for ever.
abbrev pub Last : ℕ → Option ℕ → Type 0
Last p last = (p ≡ 0 → last ≡ none) × ((page : ℕ) → last ≡ some page → page < max_proc_pages)

pub record IsWhole (m : Memory) : Type 0 where
  pub ready : m.initialized ≡ true
  pub times : IsGrid m.timestamps
  pub tables : (length m.transitions ≡ max_processes) × AllAt Table 0 m.transitions
  pub lasts : (length m.pg_last ≡ max_processes) × AllAt Last 0 m.pg_last
  pub waits : IsGrid m.proc_wait
  pub works : length m.workset ≡ max_processes

-- What `pageit` may be called with: the static variables as they start, or as a run leaves them.
abbrev pub IsMemory : Memory → Type 0
IsMemory m = (m ≡ static_memory) ⊎ IsWhole m

init_row-AllAt : (p f n to : ℕ) → AllAt (Cell p f) to (init_row n to)
unfolding init_row
init_row-AllAt p f zero to = tt
init_row-AllAt p f (suc n) to =
    let e : to + 1 ≡ suc to = omega arith in
    ((refl, λ h. refl, λ h. refl), rw e (init_row-AllAt p f n (suc to)))

length-init_row : (n to : ℕ) → length (init_row n to) ≡ n
unfolding init_row
length-init_row zero to = refl
length-init_row (suc n) to = ap suc (length-init_row n (to + 1))

length-init_workset : (n proc : ℕ) → length (init_workset n proc) ≡ n
unfolding init_workset
length-init_workset zero proc = refl
length-init_workset (suc n) proc = ap suc (length-init_workset n (proc + 1))

init_transition-Table : (p : ℕ) → Table p (replicate max_proc_pages (init_row max_proc_pages 0))
init_transition-Table p = (
  length-replicate max_proc_pages (init_row max_proc_pages 0),
  AllAt-replicate (Row p) max_proc_pages 0 (init_row max_proc_pages 0)
      (λ f le. (length-init_row max_proc_pages 0, init_row-AllAt p f max_proc_pages 0)),
)

IsGrid-replicate :
    {A : Type 0} (x : A) → IsGrid (replicate max_processes (replicate max_proc_pages x))
IsGrid-replicate x = (
  length-replicate max_processes (replicate max_proc_pages x),
  All-replicate (λ row. length row ≡ max_proc_pages) max_processes (replicate max_proc_pages x)
      (length-replicate max_proc_pages x),
)

some_inj : (a b : ℕ) → some a ≡ some b → a ≡ b
some_inj a b p = cc

first_tables : IsWhole (initialize static_memory)
unfolding initialize init_transition static_memory
first_tables = record {
  ready = refl;
  times = IsGrid-replicate {A = ℕ} 0;
  tables = (
    length-replicate max_processes (replicate max_proc_pages (init_row max_proc_pages 0)),
    AllAt-replicate Table max_processes 0 (replicate max_proc_pages (init_row max_proc_pages 0))
        (λ p le. init_transition-Table p),
  );
  lasts = (
    refl,
    (
      ((λ z. refl), (λ page p. absurd (cc))),
      AllAt-replicate Last 19 1 (some 0)
          (λ j le. ((λ z. absurd (omega arith)), (λ page p. omega (arith, some_inj 0 page p)))),
    ),
  );
  waits = IsGrid-replicate idle;
  works = length-init_workset max_processes 0;
}

-- The first run sets the tables up.
pub initialize-IsWhole : (m : Memory) → IsMemory m → IsWhole (initialize m)
unfolding initialize
initialize-IsWhole m (inl e) = subst (λ n. IsWhole (initialize n)) (sym e) first_tables
initialize-IsWhole m (inr h) = subst IsWhole (sym (kept (h.ready))) h
  where
    kept : m.initialized ≡ true → initialize m ≡ m
    kept e = simp e

-- A row of a grid.
pub IsGrid-row :
    {A : Type 0} (table : List (List A)) (p : ℕ)
    → IsGrid table
    → p < max_processes
    → (row : List A) × (get_elem? table p ≡ some row) × (length row ≡ max_proc_pages)
IsGrid-row table p h lt =
    let (row, at) = get_elem?_of_lt table p (omega (arith, h.0)) in
    (row, at, All-get_elem? (λ r. length r ≡ max_proc_pages) table p row h.1 at)

pub IsGrid-set :
    {A : Type 0} (table : List (List A)) (p : ℕ) (row : List A)
    → IsGrid table
    → length row ≡ max_proc_pages
    → IsGrid (set table p row)
IsGrid-set table p row h len =
    (length-set table p row ∙ h.0, All-set (λ r. length r ≡ max_proc_pages) table p row h.1 len)

IsGrid-map :
    {A : Type 0} (f : List A → List A) (table : List (List A))
    → ((row : List A) → length (f row) ≡ length row)
    → IsGrid table
    → IsGrid (map f table)
IsGrid-map {A} f table same h = (length-map table f ∙ h.0, rows table h.1)
  where
    rows :
        (t : List (List A))
        → All (λ r. length r ≡ max_proc_pages) t
        → All (λ r. length r ≡ max_proc_pages) (map f t)
    rows [] k = tt
    rows (r ∷ t) k = (same r ∙ k.0, rows t k.1)

pub update_waits-IsWhole : (m : Memory) → IsWhole m → IsWhole (update_waits m)
unfolding update_waits finish_waits
update_waits-IsWhole m h = record {
  ready = h.ready;
  times = h.times;
  tables = h.tables;
  lasts = h.lasts;
  waits =
      IsGrid-map (finish_waits m.tick) m.proc_wait (λ row. length-map row (finish_wait m.tick))
        h.waits;
  works = h.works;
}

pub mark-IsWhole :
    (proc page : ℕ) (b : Bool) (m : Memory)
    → IsWhole m
    → proc < max_processes
    → page < max_proc_pages
    → Sure IsWhole (mark proc page b m)
unfolding mark set_pending_page_op
mark-IsWhole proc page b m h pr pg =
    let (row, at, len) = IsGrid-row m.proc_wait proc h.waits pr in
    let (old, at') = get_elem?_of_lt row page (omega (arith, len)) in
    rw (at, at')
      (record {
        ready = h.ready;
        times = h.times;
        tables = h.tables;
        lasts = h.lasts;
        waits = IsGrid-set m.proc_wait proc _ h.waits (length-set row page _ ∙ len);
        works = h.works;
      })

pub touch-IsWhole :
    (proc page : ℕ) (m : Memory)
    → IsWhole m
    → proc < max_processes
    → page < max_proc_pages
    → Sure IsWhole (touch proc page m)
unfolding touch
touch-IsWhole proc page m h pr pg =
    let (row, at, len) = IsGrid-row m.timestamps proc h.times pr in
    let (old, at') = get_elem?_of_lt row page (omega (arith, len)) in
    rw (at, at')
      (record {
        ready = h.ready;
        times = IsGrid-set m.timestamps proc _ h.times (length-set row page m.tick ∙ len);
        tables = h.tables;
        lasts = h.lasts;
        waits = h.waits;
        works = h.works;
      })

pub set_type-IsWhole :
    (proc kind : ℕ) (m : Memory)
    → IsWhole m
    → proc < max_processes
    → Sure IsWhole (set_type proc kind m)
unfolding set_type
set_type-IsWhole proc kind m h pr =
    let (w, at) = get_elem?_of_lt m.workset proc (omega (arith, h.works)) in
    rw at (record {
      ready = h.ready;
      times = h.times;
      tables = h.tables;
      lasts = h.lasts;
      waits = h.waits;
      works = length-set m.workset proc _ ∙ h.works;
    })
