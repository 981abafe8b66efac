-- ===== src/Paging/Pager/Predict/Working.antt =====
-- The working sets and the count of frames in assignments/pa8/pager-predict.c: init_workset,
-- update_working_set, init_transition and the count of pages in memory of its pageit.
use csci_3753_operating_syst.Prelude.{
  ℕ, zero, suc, ◌+◌, ◌%◌, ◌≡◌, ap, ◌∙◌, inl, inr, Bool, true, false, ◌&&◌, Option, none, some, List,
  [], ◌∷◌, arith, ltb, ◌==◌, if◌then◌else◌, Bool-cases, length, replicate,
}
use csci_3753_operating_syst.Paging.{Sim, max_processes, max_proc_pages}
use csci_3753_operating_syst.Paging.Pager.{Calls, finish, ask_in, run_calls}
use csci_3753_operating_syst.Paging.Pager.Predict.{Pending, set_pending_page_op}
use csci_3753_operating_syst.Paging.Frames.{pagein}
use csci_3753_operating_syst.Prelude.Int.{pos}

abbrev pub window_size : ℕ
window_size = 1000

pub record PageData : Type 0 where
  pub page : ℕ
  pub freq : ℕ

-- A row of `init_transition`: the pages from `to` on, `n` of them.
unfoldable pub init_row : ℕ → ℕ → List PageData
init_row zero to = []
init_row (suc n) to = record { page = to; freq = 0 } ∷ init_row n (to + 1)

-- `init_transition`
unfoldable pub init_transition : List (List (List PageData))
unfolding init_row
init_transition = replicate max_processes (replicate max_proc_pages (init_row max_proc_pages 0))

-- `WorkSet`, where `none` is -1.
pub record WorkSet : Type 0 where
  pub proc : ℕ
  pub proc_type : Option ℕ
  pub set_size : Option ℕ

-- `init_workset`, for the processes from `proc` on, `n` of them.
unfoldable pub init_workset : ℕ → ℕ → List WorkSet
init_workset zero proc = []
init_workset (suc n) proc =
    record { proc = proc; proc_type = none; set_size = none } ∷ init_workset n (proc + 1)

-- The inner loop of `update_working_set`, from `page` on, with `pg_count` so far and `rest` behind it.
unfoldable pub update_pages :
    {A : Type 0}
    → ℕ
    → ℕ
    → ℕ
    → List Bool
    → List ℕ
    → List Pending
    → ℕ
    → (ℕ → List Pending → Calls A)
    → Calls A
update_pages proc page tick (here ∷ pages) (t ∷ times) wait pg_count rest =
    let counted =
      λ (w : List Pending). update_pages proc (page + 1) tick pages times w (pg_count + 1) rest in
    let passed = update_pages proc (page + 1) tick pages times wait pg_count rest in
    if ltb tick (t + window_size)
    then (if here
        then counted wait
        else ask_in (pos proc) (pos page) (λ started.
          counted (if started then set_pending_page_op wait page tick true else wait)))
    else passed
update_pages proc page tick _ _ wait pg_count rest = rest pg_count wait

-- The outer loop, from `proc` on; `rest` takes the rows.
unfoldable pub update_procs :
    {A : Type 0}
    → ℕ
    → ℕ
    → List (List Bool)
    → List (List ℕ)
    → List (List Pending)
    → List WorkSet
    → (List (List Pending) → List WorkSet → Calls A)
    → Calls A
update_procs proc tick (p ∷ pages) (t ∷ times) (w ∷ wait) (k ∷ work) rest =
    update_pages proc 0 tick p t w 0 (λ pg_count w'.
      update_procs (proc + 1) tick pages times wait work
        (λ wait' work'. rest (w' ∷ wait') (record k { set_size = some pg_count } ∷ work')))
update_procs proc tick _ _ wait work rest = rest wait work

-- `update_working_set`
unfoldable pub update_working_set :
    ℕ
    → List (List Bool)
    → List (List ℕ)
    → List (List Pending)
    → List WorkSet
    → Calls (List (List Pending) × List WorkSet)
update_working_set tick pages times wait work =
    if tick % window_size == 0
    then update_procs 0 tick pages times wait work (λ wait' work'. finish (wait', work'))
    else finish (wait, work)

-- The count of pages in memory or on their way in, over the row of a process.
unfoldable pub count_row : List Bool → List Pending → ℕ
count_row (here ∷ pages) (w ∷ wait) =
    (if here then 1 else if w.waiting && coming w.is_pagein then 1 else 0) + count_row pages wait
  where
    coming : Option Bool → Bool
    coming (some false) = false
    coming _ = true
count_row _ _ = 0

-- How many pages were used less than WINDOWSIZE ticks ago.
abbrev pub recent : ℕ → List ℕ → ℕ
recent tick [] = 0
recent tick (t ∷ times) = (if ltb tick (t + window_size) then 1 else 0) + recent tick times

-- The inner loop of `update_working_set` counts the pages of the process that were used less than
-- WINDOWSIZE ticks ago, in whatever state it runs and whatever `pagein` answers.
pub update_pages_lem :
    {A : Type 0} (proc page tick : ℕ) (pages : List Bool) (times : List ℕ) (wait : List Pending)
    (pg_count : ℕ) (rest : ℕ → List Pending → Calls A) (s : Sim)
    → length pages ≡ length times
    → (wait' : List Pending) × (s' : Sim) × (run_calls
          (update_pages proc page tick pages times wait pg_count rest)
          s
        ≡ run_calls (rest (pg_count + recent tick times) wait') s')
unfolding update_pages run_calls
update_pages_lem proc page tick [] [] wait pg_count rest s len =
    (wait, s, ap (λ k. run_calls (rest k wait) s) (omega arith))
update_pages_lem proc page tick [] (t ∷ times) wait pg_count rest s len = absurd (omega arith)
update_pages_lem proc page tick (here ∷ pages) [] wait pg_count rest s len = absurd (omega arith)
update_pages_lem proc page tick (here ∷ pages) (t ∷ times) wait pg_count rest s len =
    elim (Bool-cases (ltb tick (t + window_size))) [
      | inr old ↦
          let (w, s', runs) =
            update_pages_lem proc (page + 1) tick pages times wait pg_count rest s (omega arith) in
          (w, s', rw old (runs ∙ ap (λ k. run_calls (rest k w) s') (omega arith)))
      | inl new ↦ elim (Bool-cases here) [
        | inl inside ↦
            let (w, s', runs) =
              update_pages_lem proc (page + 1) tick pages times wait (pg_count + 1) rest s
                (omega arith) in
            (w, s', rw (new, inside) (runs ∙ ap (λ k. run_calls (rest k w) s') (omega arith)))
        | inr outside ↦
            let answer = pagein (pos proc) (pos page) s in
            let (w, s', runs) =
              update_pages_lem proc (page + 1) tick pages times
                (if answer.0 then set_pending_page_op wait page tick true else wait) (pg_count + 1)
                rest answer.1 (omega arith) in
            (w, s', rw (new, outside) (runs ∙ ap (λ k. run_calls (rest k w) s') (omega arith)))
      ]
    ]
