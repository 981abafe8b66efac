-- ===== src/Paging/Pager/Predict/Safe.antt =====
-- pageit of assignments/pa8/pager-predict.c stays inside its tables, phase by phase.
use csci_3753_operating_syst.Prelude.{
  ℕ, zero, suc, ◌+◌, ◌/◌, ◌%◌, ◌≤◌, ◌<◌, ◌≡◌, refl, ap, ◌∙◌, inl, inr, Bool, true, false, Option,
  none, some, List, [], ◌∷◌, map, arith, ltb, ◌==◌, if◌then◌else◌, Bool-cases, Option-cases,
  if_keeps, length, length-set, get_elem?_of_lt, All,
}
use csci_3753_operating_syst.Paging.{max_processes, max_proc_pages, page_size, physical_pages}
use csci_3753_operating_syst.Paging.Pager.{Pentry, Calls, finish, ask_in, ask_out}
use csci_3753_operating_syst.Paging.Pager.Entries.{IsEntry}
use csci_3753_operating_syst.Paging.Pager.Flow.{Run, Ends, Sure, Ends-bind, Ends->>=, ◌>>=◌}
use csci_3753_operating_syst.Paging.Pager.Predict.{
  Pending, find_lru_page_global, set_pending_page_op,
}
use csci_3753_operating_syst.Paging.Pager.Predict.Working.{
  PageData, WorkSet, window_size, update_pages, update_procs, update_working_set,
}
use csci_3753_operating_syst.Paging.Pager.Predict.Memory.{
  Memory, in_mem_count, mark, touch, local_victim,
}
use csci_3753_operating_syst.Paging.Pager.Predict.Tables.{
  IsGrid, IsWhole, mark-IsWhole, touch-IsWhole,
}
use csci_3753_operating_syst.Paging.Pager.Predict.Steps.{global_bound, local_victim_bound}
use csci_3753_operating_syst.Paging.Pager.Predict.Pageit.{
  freebuf, want, evict, keep_free, current_pages, want_range, working_sets,
}
use csci_3753_operating_syst.Prelude.Int.{pos}

-- The run makes no fault, and leaves the tables whole.
abbrev pub IsSafe : Run Memory → Type 0
IsSafe run = Ends (Sure IsWhole) run

pub IsSafe->>= :
    (run : Run Memory) (next : Memory → Run Memory)
    → IsSafe run
    → ((m : Memory) → IsWhole m → IsSafe (next m))
    → IsSafe (run >>= next)
IsSafe->>= run next h k = Ends->>= IsWhole (Sure IsWhole) run next h k

pub want-IsSafe :
    (proc page : ℕ) (m : Memory)
    → IsWhole m
    → proc < max_processes
    → page < max_proc_pages
    → IsSafe (want proc page m)
unfolding want
want-IsSafe proc page m h pr pg true = mark-IsWhole proc page true m h pr pg
want-IsSafe proc page m h pr pg false = h

evict-IsSafe : (n : ℕ) (q : List Pentry) (m : Memory) → IsWhole m → IsSafe (evict n q m)
unfolding evict
evict-IsSafe zero q m h = h
evict-IsSafe (suc n) q m h =
    let place = (find_lru_page_global (map (λ e. e.pages) q) m.proc_wait m.timestamps).place in
    elim (Option-cases place) [
      | inl nowhere ↦ rw (nowhere, evict) h
      | inr ((proc, page), found) ↦
          let b =
            global_bound (map (λ e. e.pages) q) m.proc_wait m.timestamps proc page h.waits found in
          rw (found, evict)
            (λ going.
              if_keeps IsSafe going
                (IsSafe->>= (finish (mark proc page false m)) (evict n q)
                  (mark-IsWhole proc page false m h b.0 b.1) (evict-IsSafe n q))
                h)
    ]

pub keep_free-IsSafe : (q : List Pentry) (m : Memory) → IsWhole m → IsSafe (keep_free q m)
unfolding keep_free
keep_free-IsSafe q m h =
    let count = in_mem_count (map (λ e. e.pages) q) m.proc_wait in
    if_keeps IsSafe (ltb physical_pages (count + freebuf)) (evict-IsSafe _ q m h) h

current_page-IsSafe :
    (proc : ℕ) (e : Pentry) (m : Memory) (next : Memory → Run Memory)
    → IsWhole m
    → proc < max_processes
    → e.pc / page_size < max_proc_pages
    → ((m' : Memory) → IsWhole m' → IsSafe (next m'))
    → IsSafe (
        ask_in (pos proc) (pos (e.pc / page_size)) (λ started.
          if started
          then finish (mark proc (e.pc / page_size) true m) >>= next
          else (finish (local_victim proc e.pages m) >>= λ victim. elim victim [
            | none ↦ next m
            | some page ↦
                ask_out
                  (pos proc)
                  (pos page)
                  (λ going. if going then finish (mark proc page false m) else next m)
          ])))
current_page-IsSafe proc e m next h pr pg k true =
    IsSafe->>= (finish (mark proc (e.pc / page_size) true m)) next
      (mark-IsWhole proc (e.pc / page_size) true m h pr pg) k
current_page-IsSafe proc e m next h pr pg k false =
    Ends->>= (λ victim. (page : ℕ) → victim ≡ some page → page < max_proc_pages) (Sure IsWhole)
      (finish (local_victim proc e.pages m)) _ (local_victim_bound proc e.pages m h pr) found
  where
    found :
        (victim : Option ℕ)
        → ((page : ℕ) → victim ≡ some page → page < max_proc_pages)
        → IsSafe (elim victim [
          | none ↦ next m
          | some page ↦
              ask_out
                (pos proc)
                (pos page)
                (λ going. if going then finish (mark proc page false m) else next m)
        ])
    found none b = k m h
    found (some page) b =
        λ going. if_keeps IsSafe going (mark-IsWhole proc page false m h pr (b page refl)) (k m h)

pub current_pages-IsSafe :
    (proc : ℕ) (q : List Pentry) (m : Memory)
    → IsWhole m
    → proc + length q ≡ max_processes
    → All IsEntry q
    → IsSafe (current_pages proc q m)
unfolding current_pages
current_pages-IsSafe proc [] m h len he = h
current_pages-IsSafe proc (e ∷ q) m h len he =
    let next = λ (m' : Memory) (h' : IsWhole m').
      current_pages-IsSafe (proc + 1) q m' h' (omega arith) he.1 in
    elim (Bool-cases e.active) [
      | inr off ↦ rw off (next m h)
      | inl on ↦
          let pg = he.0.1 on in
          let (here, at) = get_elem?_of_lt e.pages (e.pc / page_size) (omega (arith, he.0.0)) in
          rw on (
            IsSafe->>= (finish (touch proc (e.pc / page_size) m)) _
              (touch-IsWhole proc (e.pc / page_size) m h (omega arith) pg)
              (λ m1 h1. rw at (
                if_keeps IsSafe here (next m1 h1) (
                  current_page-IsSafe proc e m1 (current_pages (proc + 1) q) h1 (omega arith) pg
                    next))))
    ]

pub want_range-IsSafe :
    (proc page n : ℕ) (m : Memory)
    → IsWhole m
    → proc < max_processes
    → page + n ≤ max_proc_pages
    → IsSafe (want_range proc page n m)
unfolding want_range
want_range-IsSafe proc page zero m h pr le = h
want_range-IsSafe proc page (suc n) m h pr le =
    IsSafe->>= (want proc page m) _ (want-IsSafe proc page m h pr (omega arith))
      (λ m' h'. want_range-IsSafe proc (page + 1) n m' h' pr (omega arith))

update_pages-Ends :
    {A : Type 0} (P : A → Type 0) (proc page tick : ℕ) (pages : List Bool) (times : List ℕ)
    (wait : List Pending) (pg_count : ℕ) (rest : ℕ → List Pending → Calls A)
    → ((count : ℕ) (wait' : List Pending) → length wait' ≡ length wait → Ends P (rest count wait'))
    → Ends P (update_pages proc page tick pages times wait pg_count rest)
unfolding update_pages set_pending_page_op
update_pages-Ends P proc page tick [] times wait pg_count rest k = k pg_count wait refl
update_pages-Ends P proc page tick (here ∷ pages) [] wait pg_count rest k = k pg_count wait refl
update_pages-Ends P proc page tick (here ∷ pages) (t ∷ times) wait pg_count rest k =
    if_keeps (Ends P) (ltb tick (t + window_size))
      (if_keeps (Ends P) here
        (update_pages-Ends P proc (page + 1) tick pages times wait (pg_count + 1) rest k)
        (λ started.
          if_keeps
            (λ w. Ends P (update_pages proc (page + 1) tick pages times w (pg_count + 1) rest))
            started
            (update_pages-Ends P proc (page + 1) tick pages times _ (pg_count + 1) rest
              (λ count w e. k count w (e ∙ length-set wait page _)))
            (update_pages-Ends P proc (page + 1) tick pages times wait (pg_count + 1) rest k)))
      (update_pages-Ends P proc (page + 1) tick pages times wait pg_count rest k)

update_procs-Ends :
    {A : Type 0} (P : A → Type 0) (proc tick : ℕ) (pages : List (List Bool)) (times : List (List ℕ))
    (wait : List (List Pending)) (work : List WorkSet)
    (rest : List (List Pending) → List WorkSet → Calls A)
    → All (λ row. length row ≡ max_proc_pages) wait
    → ((wait' : List (List Pending)) (work' : List WorkSet)
        → length wait' ≡ length wait
        → All (λ row. length row ≡ max_proc_pages) wait'
        → length work' ≡ length work
        → Ends P (rest wait' work'))
    → Ends P (update_procs proc tick pages times wait work rest)
unfolding update_procs
update_procs-Ends P proc tick (p ∷ pages) (t ∷ times) (w ∷ wait) (j ∷ work) rest h k =
    update_pages-Ends P proc 0 tick p t w 0 _ (λ count w' e.
      update_procs-Ends P (proc + 1) tick pages times wait work _ h.1
        (λ wait' work' len rows lens. k (w' ∷ wait') _ (ap suc len) (e ∙ h.0, rows) (ap suc lens)))
update_procs-Ends P proc tick [] times wait work rest h k = k wait work refl h refl
update_procs-Ends P proc tick (p ∷ pages) [] wait work rest h k = k wait work refl h refl
update_procs-Ends P proc tick (p ∷ pages) (t ∷ times) [] work rest h k = k [] work refl h refl
update_procs-Ends P proc tick (p ∷ pages) (t ∷ times) (w ∷ wait) [] rest h k =
    k (w ∷ wait) [] refl h refl

pub working_sets-IsSafe :
    (sort : List PageData → List PageData) (scale : ℕ → ℕ) (q : List Pentry) (m : Memory)
    → IsWhole m
    → IsSafe (working_sets sort scale q m)
unfolding working_sets update_working_set
working_sets-IsSafe sort scale q m h =
    Ends-bind (λ out. IsGrid out.0 × (length out.1 ≡ max_processes)) (Sure IsWhole)
      (update_working_set m.tick (map (λ e. e.pages) q) m.timestamps m.proc_wait m.workset) _
      (if_keeps (Ends (λ out. IsGrid out.0 × (length out.1 ≡ max_processes)))
        (m.tick % window_size == 0)
        (update_procs-Ends _ 0 m.tick (map (λ e. e.pages) q) m.timestamps m.proc_wait m.workset _
          h.waits.1 (λ wait work len rows lens. ((len ∙ h.waits.0, rows), lens ∙ h.works)))
        (h.waits, h.works))
      (λ out good. record {
        ready = h.ready;
        times = h.times;
        tables = h.tables;
        lasts = h.lasts;
        waits = good.0;
        works = good.1;
      })
