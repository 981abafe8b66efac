-- ===== src/Paging/Pager/Predict/Memory.antt =====
-- The static variables of pageit in assignments/pa8/pager-predict.c, and its accesses to the tables
-- among them. An access outside a table is `none`.
use csci_3753_operating_syst.Prelude.{
  ℕ, ◌+◌, ◌-◌, ◌/◌, ◌%◌, Bool, true, false, not, Option, none, some, List, [], ◌∷◌, map, ◌==◌,
  if◌then◌else◌, get_elem?, set, replicate,
}
use csci_3753_operating_syst.Paging.{max_processes, max_proc_pages, page_size}
use csci_3753_operating_syst.Paging.Pager.{Pentry}
use csci_3753_operating_syst.Paging.Pager.Predict.{
  find_lru_page_local, Pending, set_pending_page_op, finish_waits,
}
use csci_3753_operating_syst.Paging.Pager.Predict.Working.{
  PageData, WorkSet, init_transition, init_workset, count_row,
}
use csci_3753_operating_syst.Prelude.Opt.{◌>>=◌}

abbrev pub decay_interval : ℕ
decay_interval = 48000

-- In `pg_last`, `none` is -1.
pub record Memory : Type 0 where
  pub initialized : Bool
  pub tick : ℕ
  pub timestamps : List (List ℕ)
  pub transitions : List (List (List PageData))
  pub pg_last : List (Option ℕ)
  pub proc_wait : List (List Pending)
  pub workset : List WorkSet

-- An operation that is not under way.
abbrev pub idle : Pending
idle = record { page_start = none; page_end = none; waiting = false; is_pagein = none }

-- The values of C's static initialisation: what is not given is 0, so only `pg_last[0]` is -1. The
-- tables that the first run sets before it reads them are written as it sets them.
unfoldable pub static_memory : Memory
unfolding init_workset
static_memory = record {
  initialized = false;
  tick = 1;
  timestamps = replicate max_processes (replicate max_proc_pages 0);
  transitions =
      replicate max_processes
        (replicate max_proc_pages (replicate max_proc_pages (record { page = 0; freq = 0 })));
  pg_last = none ∷ replicate (max_processes - 1) (some 0);
  proc_wait = replicate max_processes (replicate max_proc_pages idle);
  workset = init_workset max_processes 0;
}

-- `if (!initialized) { ... }`
unfoldable pub initialize : Memory → Memory
initialize m = if m.initialized then m else record m {
  initialized = true;
  transitions = init_transition;
  workset = init_workset max_processes 0;
  timestamps = replicate max_processes (replicate max_proc_pages 0);
  proc_wait = replicate max_processes (replicate max_proc_pages idle);
}

-- The loop "update wait statuses".
unfoldable pub update_waits : Memory → Memory
update_waits m = record m { proc_wait = map (finish_waits m.tick) m.proc_wait }

-- `in_mem_count`
unfoldable pub in_mem_count : List (List Bool) → List (List Pending) → ℕ
in_mem_count (p ∷ pages) (w ∷ wait) = count_row p w + in_mem_count pages wait
in_mem_count _ _ = 0

-- `table[i][j]` and `table[i][j] = v`
unfoldable pub read_at {ℓ} : {A : Type ℓ} → List (List A) → ℕ → ℕ → Option A
read_at table i j = get_elem? table i >>= λ row. get_elem? row j

unfoldable pub write_at {ℓ} : {A : Type ℓ} → List (List A) → ℕ → ℕ → A → Option (List (List A))
write_at table i j v =
    get_elem? table i >>= λ row. get_elem? row j >>= λ old. some (set table i (set row j v))

-- `set_pending_page_op(proc_wait, proc, page, tick, is_pagein)`
unfoldable pub mark : ℕ → ℕ → Bool → Memory → Option Memory
mark proc page is_pagein m = get_elem? m.proc_wait proc >>= λ row. get_elem? row page >>= λ old.
    some (record m {
      proc_wait = set m.proc_wait proc (set_pending_page_op row page m.tick is_pagein);
    })

-- `timestamps[proc][page] = tick`
unfoldable pub touch : ℕ → ℕ → Memory → Option Memory
unfolding write_at
touch proc page m =
    write_at m.timestamps proc page m.tick >>= λ times. some (record m { timestamps = times })

-- `workset[proc].proc_type = kind`
unfoldable pub set_type : ℕ → ℕ → Memory → Option Memory
set_type proc kind m = get_elem? m.workset proc >>= λ w.
    some (record m { workset = set m.workset proc (record w { proc_type = some kind }) })

-- `find_lru_page_local` on the rows of a process: the page, if there is one.
unfoldable pub local_victim : ℕ → List Bool → Memory → Option (Option ℕ)
local_victim proc pages m = get_elem? m.proc_wait proc >>= λ wait.
    get_elem? m.timestamps proc >>= λ times.
    some ((find_lru_page_local proc pages wait times).place >>= λ place. some place.1)

-- The first two entries of the sorted row `transitions[proc][page]`.
unfoldable pub likely_of :
    (List PageData → List PageData)
    → ℕ
    → ℕ
    → List (List (List PageData))
    → Option (PageData × PageData)
unfolding read_at
likely_of sort proc page transitions = read_at transitions proc page >>= λ row.
    get_elem? (sort row) 0 >>= λ first. get_elem? (sort row) 1 >>= λ second. some (first, second)

unfoldable pub decay : (ℕ → ℕ) → PageData → PageData
decay scale d = record d { freq = scale d.freq }

-- `apply_decay`
unfoldable pub apply_decay : (ℕ → ℕ) → List (List (List PageData)) → List (List (List PageData))
unfolding decay
apply_decay scale transitions = map (map (map (decay scale))) transitions

-- `transitions[proc][last_page][cur_page]` counts one more transition.
unfoldable pub count_transition :
    ℕ → ℕ → ℕ → List (List (List PageData)) → Option (List (List (List PageData)))
unfolding read_at write_at
count_transition proc last_page cur_page transitions = get_elem? transitions proc >>= λ table.
    read_at table last_page cur_page >>= λ d.
    write_at table last_page cur_page (record { page = cur_page; freq = d.freq + 1 }) >>= λ table'.
    some (set transitions proc table')

-- One process in "Update transition matrix", where its page has changed.
unfoldable pub moved_on : (ℕ → ℕ) → ℕ → ℕ → ℕ → Memory → Option Memory
unfolding count_transition
moved_on scale proc last_page cur_page m =
    count_transition proc last_page cur_page m.transitions >>= λ counted. some (record m {
      pg_last = set m.pg_last proc (some cur_page);
      transitions = if m.tick % decay_interval == 0 then apply_decay scale counted else counted;
    })

-- One process in "Update transition matrix".
unfoldable pub update_transition : (ℕ → ℕ) → ℕ → Pentry → Memory → Option Memory
update_transition scale proc e m =
    if not e.active
    then some m
    else (get_elem? m.pg_last proc >>= λ last. elim last [
      | none ↦ some m
      | some last_page ↦
          if last_page == e.pc / page_size
          then some m
          else moved_on scale proc last_page (e.pc / page_size) m
    ])

-- "Update transition matrix", for the entries of the processes from `proc` on.
unfoldable pub update_transitions : (ℕ → ℕ) → ℕ → List Pentry → Memory → Option Memory
update_transitions scale proc [] m = some m
update_transitions scale proc (e ∷ q) m =
    update_transition scale proc e m >>= update_transitions scale (proc + 1) q
