-- ===== src/Paging/Pager/Predict/Pageit.antt =====
-- pageit of assignments/pa8/pager-predict.c, phase by phase. qsort, as `sort` calls it, is the
-- parameter `sort`; `scale` is the product of a frequency with ALPHA, cut to an int.
use csci_3753_operating_syst.Prelude.{
  ℕ, zero, suc, ◌+◌, ◌-◌, ◌/◌, true, false, not, ◌&&◌, Option, none, some, List, [], ◌∷◌, map, ltb,
  ◌==◌, if◌then◌else◌, get_elem?,
}
use csci_3753_operating_syst.Paging.{page_size, physical_pages}
use csci_3753_operating_syst.Paging.Pager.{Pentry, finish, ask_in, ask_out}
use csci_3753_operating_syst.Paging.Pager.Flow.{Run, bind, ◌>>=◌}
use csci_3753_operating_syst.Paging.Pager.Predict.{find_lru_page_global}
use csci_3753_operating_syst.Paging.Pager.Predict.Working.{PageData, update_working_set}
use csci_3753_operating_syst.Paging.Pager.Predict.Memory.{
  Memory, initialize, update_waits, in_mem_count, mark, touch, local_victim, likely_of, set_type,
  update_transitions,
}
use csci_3753_operating_syst.Prelude.Int.{pos}

abbrev pub freebuf : ℕ
freebuf = 18

-- `if (pagein(proc, page)) set_pending_page_op(proc_wait, proc, page, tick, TRUE);`
unfoldable pub want : ℕ → ℕ → Memory → Run Memory
want proc page m =
    ask_in (pos proc) (pos page)
      (λ started. if started then finish (mark proc page true m) else finish (some m))

-- The loop that frees frames, with `n` frames to go.
unfoldable pub evict : ℕ → List Pentry → Memory → Run Memory
evict zero q m = finish (some m)
evict (suc n) q m =
    elim (find_lru_page_global (map (λ e. e.pages) q) m.proc_wait m.timestamps).place [
      | none ↦ finish (some m)
      | some (proc, page) ↦ ask_out (pos proc) (pos page) (λ going.
          if going then finish (mark proc page false m) >>= evict n q else finish (some m))
    ]

-- The free pool: `PHYSICALPAGES - in_mem_count < FREEBUF`, and how many frames are to be freed.
unfoldable pub keep_free : List Pentry → Memory → Run Memory
unfolding evict
keep_free q m =
    let count = in_mem_count (map (λ e. e.pages) q) m.proc_wait in
    if ltb physical_pages (count + freebuf)
    then evict (freebuf + count - physical_pages) q m
    else finish (some m)

-- "Attempt current page in", for the entries of the processes from `proc` on.
unfoldable pub current_pages : ℕ → List Pentry → Memory → Run Memory
current_pages proc [] m = finish (some m)
current_pages proc (e ∷ q) m =
    let next = λ (m' : Memory). current_pages (proc + 1) q m' in
    if not e.active
    then next m
    else (finish (touch proc (e.pc / page_size) m) >>= λ m1.
        finish (get_elem? e.pages (e.pc / page_size)) >>= λ here.
        if here
        then next m1
        else ask_in (pos proc) (pos (e.pc / page_size)) (λ started.
          if started
          then finish (mark proc (e.pc / page_size) true m1) >>= next
          else (finish (local_victim proc e.pages m1) >>= λ victim. elim victim [
            | none ↦ next m1
            | some page ↦
                ask_out (pos proc) (pos page)
                  (λ going. if going then finish (mark proc page false m1) else next m1)
          ])))

-- `for (loop_pg = from; loop_pg < to; loop_pg++)`, with `n` rounds to go.
unfoldable pub want_range : ℕ → ℕ → ℕ → Memory → Run Memory
want_range proc page zero m = finish (some m)
want_range proc page (suc n) m = want proc page m >>= want_range proc (page + 1) n

module _ (sort : List PageData → List PageData) where
  -- The first two entries of the sorted transitions from a page.
  unfoldable pub likely : ℕ → ℕ → Memory → Option (PageData × PageData)
  likely proc page m = likely_of sort proc page m.transitions

  -- `case 1`, the loop and the branch of "Attempt predictive page ins".
  unfoldable pub prefetch : ℕ → ℕ → PageData → PageData → PageData → Memory → Run Memory
  unfolding likely want_range
  prefetch proc cur_page next alt second m =
      if ltb cur_page next.page
      then (finish (set_type proc 0 m) >>= λ m1. want proc next.page m1 >>= want proc second.page)
      else if ltb next.page cur_page
      then (finish (set_type proc 1 m) >>= want_range proc next.page (cur_page - next.page))
      else if ltb 0 next.freq && ltb 0 alt.freq
      then ((ask_in (pos proc) (pos next.page) (λ started.
            if started
            then finish (mark proc next.page true m) >>= want proc second.page
            else finish (some m)))
          >>= λ m1. ask_in (pos proc) (pos alt.page) (λ started.
            if started
            then (finish (mark proc alt.page true m1) >>= λ m2.
                finish (likely proc alt.page m2) >>= λ branch. want proc branch.0.page m2)
            else finish (some m1)))
      else finish (some m)

  -- One process in "Attempt predictive page ins".
  unfoldable pub predict_one : ℕ → Pentry → Memory → Run Memory
  predict_one proc e m =
      if not e.active
      then finish (some m)
      else (finish (likely proc (e.pc / page_size) m) >>= λ first.
          if first.0.freq == 0
          then finish (some m)
          else (finish (likely proc first.0.page m) >>= λ second.
              prefetch proc (e.pc / page_size) first.0 first.1 second.0 m))

  -- "Attempt predictive page ins", for the entries of the processes from `proc` on.
  unfoldable pub predict : ℕ → List Pentry → Memory → Run Memory
  predict proc [] m = finish (some m)
  predict proc (e ∷ q) m = predict_one proc e m >>= predict (proc + 1) q

  module _ (scale : ℕ → ℕ) where
    -- `update_working_set`, on the static variables.
    unfoldable pub working_sets : List Pentry → Memory → Run Memory
    working_sets q m =
        bind (update_working_set m.tick (map (λ e. e.pages) q) m.timestamps m.proc_wait m.workset)
          (λ out. finish (some (record m { proc_wait = out.0; workset = out.1 })))

    -- `pageit`
    unfoldable pub pageit : List Pentry → Memory → Run Memory
    unfolding working_sets
    pageit q m = keep_free q (update_waits (initialize m)) >>= λ m1.
        finish (update_transitions scale 0 q m1) >>= λ m2. working_sets q m2 >>= λ m3.
        current_pages 0 q m3 >>= λ m4.
        predict 0 q m4 >>= λ m5. finish (some (record m5 { tick = m5.tick + 1 }))
