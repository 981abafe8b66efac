-- ===== src/Paging/Pager/Predict/Transitions.antt =====
-- The tables of transitions of assignments/pa8/pager-predict.c: that a change of page and the decay keep
-- their shape, and what the entries that are sorted first can be.
use csci_3753_operating_syst.Prelude.{
  ℕ, ◌+◌, ◌/◌, ◌%◌, ◌<◌, ◌≡◌, refl, sym, ap, ◌∙◌, ◌≢◌, inl, inr, some, List, [], ◌∷◌, arith, ◌==◌,
  tests, Bool-cases, Option-cases, if_keeps, length, get_elem?, set, length-set, get_elem?_lt,
  length-map, get_elem?_of_lt, All,
}
use csci_3753_operating_syst.Paging.{max_processes, max_proc_pages, page_size}
use csci_3753_operating_syst.Paging.Pager.{Pentry}
use csci_3753_operating_syst.Paging.Pager.Flow.{Sure}
use csci_3753_operating_syst.Paging.Pager.Entries.{IsEntry}
use csci_3753_operating_syst.Paging.Pager.Predict.Working.{PageData}
use csci_3753_operating_syst.Paging.Pager.Predict.Memory.{
  write_at, read_at, Memory, likely_of, decay, apply_decay, count_transition, moved_on,
  update_transition, update_transitions, decay_interval,
}
use csci_3753_operating_syst.Paging.Pager.Predict.Tables.{Cell, Row, Table, Last, IsWhole}
use csci_3753_operating_syst.Prelude.Indexed.{
  AllAt, AllAt-get_elem?_start, AllAt-set_start, AllAt-map,
}
use csci_3753_operating_syst.Paging.Pager.Predict.Steps.{Sure->>=}

-- An entry of the tables of transitions.
pub transition_at :
    (m : Memory) (proc from to : ℕ)
    → IsWhole m
    → proc < max_processes
    → from < max_proc_pages
    → to < max_proc_pages
    → (table : List (List PageData)) × (row : List PageData) × (d : PageData) × (get_elem?
          m.transitions proc
        ≡ some table)
      × (get_elem? table from ≡ some row)
      × (get_elem? row to ≡ some d)
      × Table proc table
      × Row proc from row
      × Cell proc from to d
transition_at m proc from to h pr fr lt =
    let (table, at) = get_elem?_of_lt m.transitions proc (omega (arith, h.tables.0)) in
    let ht : Table proc table =
      AllAt-get_elem?_start Table m.transitions proc table h.tables.1 at in
    let (row, at') = get_elem?_of_lt table from (omega (arith, ht.0)) in
    let hr : Row proc from row = AllAt-get_elem?_start (Row proc) table from row ht.1 at' in
    let (d, at'') = get_elem?_of_lt row to (omega (arith, hr.0)) in
    (
      table,
      row,
      d,
      at,
      at',
      at'',
      ht,
      hr,
      AllAt-get_elem?_start (Cell proc from) row to d hr.1 at'',
    )

-- A change of the page leaves a table of transitions.
pub count_transition-Table :
    (m : Memory) (proc from to : ℕ)
    → IsWhole m
    → proc < max_processes
    → proc ≢ 0
    → from < max_proc_pages
    → to < max_proc_pages
    → from ≢ to
    → Sure
        (λ tables. (length tables ≡ max_processes) × AllAt Table 0 tables)
        (count_transition proc from to m.transitions)
unfolding count_transition read_at write_at
count_transition-Table m proc from to h pr user fr lt ne =
    let (table, row, d, at, at', at'', ht, hr, hd) = transition_at m proc from to h pr fr lt in
    let d' : PageData = record { page = to; freq = d.freq + 1 } in
    let hd' : Cell proc from to d' = (refl, λ e. absurd (ne e), λ e. absurd (user e)) in
    let row' = set row to d' in
    let hr' : Row proc from row' =
      (length-set row to d' ∙ hr.0, AllAt-set_start (Cell proc from) row to d' hr.1 hd') in
    let ht' : Table proc (set table from row') =
      (length-set table from row' ∙ ht.0, AllAt-set_start (Row proc) table from row' ht.1 hr') in
    rw (at, at', at'')
      (
        length-set m.transitions proc _ ∙ h.tables.0,
        AllAt-set_start Table m.transitions proc (set table from row') h.tables.1 ht',
      )

module _ (scale : ℕ → ℕ) (none_left : scale 0 ≡ 0) where
  decay-Cell : (p f t : ℕ) (d : PageData) → Cell p f t d → Cell p f t (decay scale d)
  unfolding decay
  decay-Cell p f t d h =
      (h.0, (λ e. ap scale (h.1 e) ∙ none_left), λ e. ap scale (h.2 e) ∙ none_left)

  -- The decay leaves tables of transitions.
  pub apply_decay-Table :
      (tables : List (List (List PageData)))
      → (length tables ≡ max_processes) × AllAt Table 0 tables
      → let tables' = apply_decay scale tables in
        (length tables' ≡ max_processes) × AllAt Table 0 tables'
  unfolding apply_decay
  apply_decay-Table tables h = (
    length-map tables _ ∙ h.0,
    AllAt-map Table _ 0 tables
        (λ p table ht. (
          length-map table _ ∙ ht.0,
          AllAt-map (Row p) _ 0 table
              (λ f row hr. (
                length-map row _ ∙ hr.0,
                AllAt-map (Cell p f) (decay scale) 0 row (decay-Cell p f) hr.1,
              ))
              ht.1,
        ))
        h.1,
  )

  moved_on-IsWhole :
      (proc from to : ℕ) (m : Memory)
      → IsWhole m
      → proc < max_processes
      → proc ≢ 0
      → from < max_proc_pages
      → to < max_proc_pages
      → from ≢ to
      → Sure IsWhole (moved_on scale proc from to m)
  unfolding moved_on
  moved_on-IsWhole proc from to m h pr user fr lt ne =
      Sure->>= (λ tables. (length tables ≡ max_processes) × AllAt Table 0 tables) IsWhole
        (count_transition proc from to m.transitions) _
        (count_transition-Table m proc from to h pr user fr lt ne)
        (λ counted good. record {
          ready = h.ready;
          times = h.times;
          tables =
              if_keeps (λ tables. (length tables ≡ max_processes) × AllAt Table 0 tables)
                (m.tick % decay_interval == 0) (apply_decay-Table counted good) good;
          lasts = (
            length-set m.pg_last proc (some to) ∙ h.lasts.0,
            AllAt-set_start Last m.pg_last proc (some to) h.lasts.1
                ((λ z. absurd (user z)), λ page p. let q : to ≡ page = cc in omega (arith, lt, q)),
          );
          waits = h.waits;
          works = h.works;
        })

  update_transition-IsWhole :
      (proc : ℕ) (e : Pentry) (m : Memory)
      → IsWhole m
      → proc < max_processes
      → IsEntry e
      → Sure IsWhole (update_transition scale proc e m)
  unfolding update_transition
  update_transition-IsWhole proc e m h pr he =
      let (last, at) = get_elem?_of_lt m.pg_last proc (omega (arith, h.lasts.0)) in
      let hl = AllAt-get_elem?_start Last m.pg_last proc last h.lasts.1 at in
      elim (Bool-cases e.active) [
        | inr off ↦ rw off h
        | inl on ↦
            rw (on, at)
              (elim (Option-cases last) [
                | inl null ↦ rw null h
                | inr (from, known) ↦ rw known (elim (Bool-cases (from == e.pc / page_size)) [
                  | inl same ↦ rw same h
                  | inr ne ↦ rw ne (
                      moved_on-IsWhole proc from (e.pc / page_size) m h pr
                        (λ z. absurd (cc (hl.0 z))) (hl.1 from known) (he.1 on)
                        (λ eq. absurd (grind (tests, ne, eq))))
                ])
              ])
      ]

  -- "Update transition matrix" keeps the tables whole.
  pub update_transitions-IsWhole :
      (proc : ℕ) (q : List Pentry) (m : Memory)
      → IsWhole m
      → proc + length q ≡ max_processes
      → All IsEntry q
      → Sure IsWhole (update_transitions scale proc q m)
  unfolding update_transitions
  update_transitions-IsWhole proc [] m h len he = h
  update_transitions-IsWhole proc (e ∷ q) m h len he =
      Sure->>= IsWhole IsWhole (update_transition scale proc e m) _
        (update_transition-IsWhole proc e m h (omega arith) he.0)
        (λ m' h'. update_transitions-IsWhole (proc + 1) q m' h' (omega arith) he.1)

-- `qsort` leaves as many entries as there were, each of them one that was there.
abbrev pub IsSorter : (List PageData → List PageData) → Type 0
IsSorter sort =
    (row : List PageData)
    → (length (sort row) ≡ length row)
      × ((i : ℕ) (d : PageData)
          → get_elem? (sort row) i ≡ some d
          → (j : ℕ) × (get_elem? row j ≡ some d))

-- A page that the transitions of `proc` from `page` name: one of the pages, and not the page itself
-- if it was ever counted; for process 0 none ever was.
pub record Target (proc page : ℕ) (d : PageData) : Type 0 where
  pub inside : d.page < max_proc_pages
  pub moves : d.freq ≢ 0 → d.page ≢ page
  pub user : proc ≡ 0 → d.freq ≡ 0

module _ (sort : List PageData → List PageData) (sorts : IsSorter sort) where
  Target-of :
      (proc page : ℕ) (row : List PageData) (i : ℕ)
      → Row proc page row
      → i < max_proc_pages
      → (d : PageData) × (get_elem? (sort row) i ≡ some d) × Target proc page d
  Target-of proc page row i hr lt =
      let (d, at) = get_elem?_of_lt (sort row) i (omega (arith, (sorts row).0, hr.0)) in
      let (j, from) = (sorts row).1 i d at in
      let hd = AllAt-get_elem?_start (Cell proc page) row j d hr.1 from in
      (
        d,
        at,
        record {
          inside = omega (arith, get_elem?_lt row j from, hd.0, hr.0);
          moves = λ counted same. counted (hd.1 (sym same ∙ hd.0));
          user = hd.2;
        },
      )

  -- What the first two entries of the sorted transitions name.
  pub likely_of_lem :
      (m : Memory) (proc page : ℕ)
      → IsWhole m
      → proc < max_processes
      → page < max_proc_pages
      → (first : PageData) × (alt : PageData) × (likely_of sort proc page m.transitions
          ≡ some (first, alt))
        × Target proc page first
        × Target proc page alt
  unfolding likely_of read_at
  likely_of_lem m proc page h pr pg =
      let (table, row, d, at, at', at'', ht, hr, hd) =
        transition_at m proc page 0 h pr pg (omega arith) in
      let (first, is_first, t1) = Target-of proc page row 0 hr (omega arith) in
      let (alt, is_alt, t2) = Target-of proc page row 1 hr (omega arith) in
      (first, alt, rw (at, at', is_first, is_alt) refl, t1, t2)
