-- ===== src/Paging/Pager/Predict/Whole.antt =====
-- pageit of assignments/pa8/pager-predict.c as a whole: it stays inside its tables, and what its
-- predictions can be.
use csci_3753_operating_syst.Prelude.{
  ℕ, ◌+◌, ◌-◌, ◌/◌, ◌<◌, ◌≡◌, refl, inl, inr, true, not, ◌&&◌, some, List, [], ◌∷◌, arith, ltb,
  ◌==◌, if◌then◌else◌, tests, Bool-cases, if_keeps, length, All,
}
use csci_3753_operating_syst.Paging.{max_processes, max_proc_pages, page_size}
use csci_3753_operating_syst.Paging.Pager.{Pentry, finish, ask_in}
use csci_3753_operating_syst.Paging.Pager.Entries.{IsEntry, IsEntries}
use csci_3753_operating_syst.Paging.Pager.Flow.{Run, Ends, Sure, Ends->>=, ◌>>=◌}
use csci_3753_operating_syst.Paging.Pager.Predict.Working.{PageData}
use csci_3753_operating_syst.Paging.Pager.Predict.Memory.{
  Memory, initialize, update_waits, mark, set_type, update_transitions,
}
use csci_3753_operating_syst.Paging.Pager.Predict.Tables.{
  IsWhole, IsMemory, initialize-IsWhole, update_waits-IsWhole, mark-IsWhole, set_type-IsWhole,
}
use csci_3753_operating_syst.Paging.Pager.Predict.Transitions.{
  update_transitions-IsWhole, IsSorter, Target, likely_of_lem,
}
use csci_3753_operating_syst.Paging.Pager.Predict.Pageit.{
  want, keep_free, current_pages, want_range, likely, prefetch, predict_one, predict, working_sets,
  pageit,
}
use csci_3753_operating_syst.Paging.Pager.Predict.Safe.{
  IsSafe, IsSafe->>=, want-IsSafe, keep_free-IsSafe, current_pages-IsSafe, want_range-IsSafe,
  working_sets-IsSafe,
}
use csci_3753_operating_syst.Prelude.Int.{pos}

module _ (sort : List PageData → List PageData) where
  -- The prediction for a process without the case for a branch.
  abbrev pub predict_two_ways : ℕ → Pentry → Memory → Run Memory
  predict_two_ways proc e m =
      if not e.active
      then finish (some m)
      else (finish (likely sort proc (e.pc / page_size) m) >>= λ first.
          if first.0.freq == 0
          then finish (some m)
          else (finish (likely sort proc first.0.page m) >>= λ second.
              if ltb (e.pc / page_size) first.0.page
              then (finish (set_type proc 0 m) >>= λ m1.
                  want proc first.0.page m1 >>= want proc second.0.page)
              else (finish (set_type proc 1 m)
                  >>= want_range proc first.0.page (e.pc / page_size - first.0.page))))

module _ (sort : List PageData → List PageData) (sorts : IsSorter sort) where
  -- The two pages that are predicted, by the transitions from `page`.
  abbrev Predicted : ℕ → ℕ → PageData × PageData → Type 0
  Predicted proc page d = Target proc page d.0 × Target proc page d.1

  likely-Predicted :
      (proc page : ℕ) (m : Memory)
      → IsWhole m
      → proc < max_processes
      → page < max_proc_pages
      → Sure (Predicted proc page) (likely sort proc page m)
  unfolding likely
  likely-Predicted proc page m h pr pg =
      let (first, alt, found, t1, t2) = likely_of_lem sort sorts m proc page h pr pg in
      rw found (t1, t2)

  branch-IsSafe :
      (proc : ℕ) (alt : PageData) (m : Memory)
      → IsWhole m
      → proc < max_processes
      → alt.page < max_proc_pages
      → IsSafe (
          ask_in (pos proc) (pos alt.page) (λ started.
            if started
            then (finish (mark proc alt.page true m) >>= λ m2.
                finish (likely sort proc alt.page m2) >>= λ branch. want proc branch.0.page m2)
            else finish (some m)))
  branch-IsSafe proc alt m h pr pg = λ started.
      if_keeps IsSafe started
        (IsSafe->>= (finish (mark proc alt.page true m)) _
          (mark-IsWhole proc alt.page true m h pr pg)
          (λ m2 h2.
            Ends->>= (Predicted proc alt.page) (Sure IsWhole)
              (finish (likely sort proc alt.page m2)) _ (likely-Predicted proc alt.page m2 h2 pr pg)
              (λ branch good. want-IsSafe proc branch.0.page m2 h2 pr good.0.inside)))
        h

  prefetch-IsSafe :
      (proc cur_page : ℕ) (next alt second : PageData) (m : Memory)
      → IsWhole m
      → proc < max_processes
      → cur_page < max_proc_pages
      → next.page < max_proc_pages
      → alt.page < max_proc_pages
      → second.page < max_proc_pages
      → IsSafe (prefetch sort proc cur_page next alt second m)
  unfolding prefetch
  prefetch-IsSafe proc cur_page next alt second m h pr pg pn pa ps =
      if_keeps IsSafe (ltb cur_page next.page)
        (IsSafe->>= (finish (set_type proc 0 m)) _ (set_type-IsWhole proc 0 m h pr) (λ m1 h1.
          IsSafe->>= (want proc next.page m1) _ (want-IsSafe proc next.page m1 h1 pr pn)
            (λ m2 h2. want-IsSafe proc second.page m2 h2 pr ps)))
        (if_keeps IsSafe (ltb next.page cur_page)
          (IsSafe->>= (finish (set_type proc 1 m)) _ (set_type-IsWhole proc 1 m h pr) (λ m1 h1.
            want_range-IsSafe proc next.page (cur_page - next.page) m1 h1 pr (omega arith)))
          (if_keeps IsSafe (ltb 0 next.freq && ltb 0 alt.freq)
            (IsSafe->>= (ask_in (pos proc) (pos next.page) _) _
              (λ started.
                if_keeps IsSafe started
                  (IsSafe->>= (finish (mark proc next.page true m)) _
                    (mark-IsWhole proc next.page true m h pr pn)
                    (λ m1 h1. want-IsSafe proc second.page m1 h1 pr ps))
                  h)
              (λ m1 h1. branch-IsSafe proc alt m1 h1 pr pa))
            h))

  predict_one-IsSafe :
      (proc : ℕ) (e : Pentry) (m : Memory)
      → IsWhole m
      → proc < max_processes
      → IsEntry e
      → IsSafe (predict_one sort proc e m)
  unfolding predict_one
  predict_one-IsSafe proc e m h pr he = elim (Bool-cases e.active) [
    | inr off ↦ rw off h
    | inl on ↦
        let cur_page = e.pc / page_size in
        rw on (
          Ends->>= (Predicted proc cur_page) (Sure IsWhole) (finish (likely sort proc cur_page m)) _
            (likely-Predicted proc cur_page m h pr (he.1 on))
            (λ first good. if_keeps IsSafe (first.0.freq == 0) h (
              Ends->>= (Predicted proc first.0.page) (Sure IsWhole)
                (finish (likely sort proc first.0.page m)) _
                (likely-Predicted proc first.0.page m h pr good.0.inside)
                (λ second good'.
                  prefetch-IsSafe proc cur_page first.0 first.1 second.0 m h pr (he.1 on)
                    good.0.inside good.1.inside good'.0.inside))))
  ]

  predict-IsSafe :
      (proc : ℕ) (q : List Pentry) (m : Memory)
      → IsWhole m
      → proc + length q ≡ max_processes
      → All IsEntry q
      → IsSafe (predict sort proc q m)
  unfolding predict
  predict-IsSafe proc [] m h len he = h
  predict-IsSafe proc (e ∷ q) m h len he =
      IsSafe->>= (predict_one sort proc e m) _ (predict_one-IsSafe proc e m h (omega arith) he.0)
        (λ m' h'. predict-IsSafe (proc + 1) q m' h' (omega arith) he.1)

  -- In whole tables the prediction for a process is the one without the case for a branch: the page
  -- that is predicted to follow the page of the process comes before or behind that page in the
  -- program, so the case for a branch is not reached.
  pub predict_one-predict_two_ways :
      (proc : ℕ) (e : Pentry) (m : Memory)
      → IsWhole m
      → proc < max_processes
      → IsEntry e
      → predict_one sort proc e m ≡ predict_two_ways sort proc e m
  unfolding predict_one prefetch likely
  predict_one-predict_two_ways proc e m h pr he = elim (Bool-cases e.active) [
    | inr off ↦ rw off refl
    | inl on ↦
        let cur_page = e.pc / page_size in
        let (first, alt, found, t1, t2) = likely_of_lem sort sorts m proc cur_page h pr (he.1 on) in
        let (second, alt', found', t3, t4) =
          likely_of_lem sort sorts m proc first.page h pr t1.inside in
        rw (on, found)
          (elim (Bool-cases (first.freq == 0)) [
            | inl never ↦ rw never refl
            | inr counted ↦
                rw (counted, found')
                  (elim (Bool-cases (ltb cur_page first.page)) [
                    | inl ahead ↦ rw ahead refl
                    | inr behind ↦
                        let apart = t1.moves (λ z. absurd (grind (tests, z, counted))) in
                        let back : ltb first.page cur_page ≡ true = grind (tests, behind, apart) in
                        rw (behind, back) refl
                  ])
          ])
  ]

  -- For process 0 nothing is ever predicted: in whole tables its prediction makes no call and changes
  -- nothing, whatever its entry is.
  pub predict_one-idle :
      (e : Pentry) (m : Memory) → IsWhole m → IsEntry e → predict_one sort 0 e m ≡ finish (some m)
  unfolding predict_one likely
  predict_one-idle e m h he = elim (Bool-cases e.active) [
    | inr off ↦ rw off refl
    | inl on ↦
        let (first, alt, found, t1, t2) =
          likely_of_lem sort sorts m 0 (e.pc / page_size) h (omega arith) (he.1 on) in
        rw (on, found, t1.user refl) refl
  ]

  -- For entries of 20 processes with 20 pages each, whose active ones are in one of their pages, a
  -- run of `pageit` on its static variables, as they start or as a run leaves them, makes no
  -- access outside a table, whatever the calls answer, and leaves the variables so that this holds
  -- again. qsort leaves the entries it is given, and ALPHA leaves the frequency 0.
  pub pageit-IsSafe :
      (scale : ℕ → ℕ) (q : List Pentry) (m : Memory)
      → scale 0 ≡ 0
      → IsEntries q
      → IsMemory m
      → Ends (Sure IsWhole) (pageit sort scale q m)
  unfolding pageit
  pageit-IsSafe scale q m none_left he hm =
      IsSafe->>= (keep_free q (update_waits (initialize m))) _
        (keep_free-IsSafe q _ (update_waits-IsWhole _ (initialize-IsWhole m hm)))
        (λ m1 h1.
          IsSafe->>= (finish (update_transitions scale 0 q m1)) _
            (update_transitions-IsWhole scale none_left 0 q m1 h1 (omega (arith, he.0)) he.1)
            (λ m2 h2.
              IsSafe->>= (working_sets sort scale q m2) _ (working_sets-IsSafe sort scale q m2 h2)
                (λ m3 h3.
                  IsSafe->>= (current_pages 0 q m3) _
                    (current_pages-IsSafe 0 q m3 h3 (omega (arith, he.0)) he.1)
                    (λ m4 h4.
                      IsSafe->>= (predict sort 0 q m4) _
                        (predict-IsSafe 0 q m4 h4 (omega (arith, he.0)) he.1)
                        (λ m5 h5. record {
                          ready = h5.ready;
                          times = h5.times;
                          tables = h5.tables;
                          lasts = h5.lasts;
                          waits = h5.waits;
                          works = h5.works;
                        })))))
