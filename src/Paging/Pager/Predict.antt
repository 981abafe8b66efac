-- ===== src/Paging/Pager/Predict.antt =====
-- Parts of the predictive pager, assignments/pa8/pager-predict.c: its record of paging operations
-- that are under way, and its search for the page that was used least recently.
pub mod Recent
pub mod Waits
pub mod Working
pub mod Memory
pub mod Tables
pub mod Steps
pub mod Transitions
pub mod Pageit
pub mod Safe
pub mod Whole
use csci_3753_operating_syst.Prelude.{
  ℕ, zero, suc, ◌+◌, ◌-◌, ◌*◌, ◌/◌, ◌%◌, ◌^◌, ◌≤◌, ◌<◌, min, ◌≡◌, refl, sym, ap, ◌∙◌, subst, ◌≢◌,
  ◌↔◌, ◌⊎◌, inl, inr, Bool, true, false, not, ◌&&◌, ◌||◌, Option, none, some, List, [], ◌∷◌, ◌++◌,
  map, arith, dec_lt, ℕ_discrete, ltb, leb, ◌==◌, if◌then◌else◌, ltb→lt, lt→ltb, leb→le, ==_iff,
  tests, Bool-cases, bool_eq, Option-cases, if_keeps, length, get_elem?, get_or, set, take, drop,
  replicate, length-append, length-set, set-set, length-replicate, get_elem?_lt,
  get_elem?-eq-get_or, get_elem?-set_self, get_elem?-set_ne, get_or-set_self, get_or-set_ne,
  length-take, length-drop, take-append-drop, length-map, get_elem?-map, get_elem?_of_lt,
  drop-eq-cons, get_elem?-take, get_or-take, get_or-eq_get_elem?, All, All-set, All-get_or,
  All-take, All-get_elem?, All-replicate,
}
use csci_3753_operating_syst.Paging.{page_wait}

abbrev pub int_max : ℕ
int_max = 2147483647

-- `Paging`, less the two fields that name its place; -1 is `none`.
pub record Pending : Type 0 where
  pub page_start : Option ℕ
  pub page_end : Option ℕ
  pub waiting : Bool
  pub is_pagein : Option Bool

-- `set_pending_page_op`, on the row of the process.
unfoldable pub set_pending_page_op : List Pending → ℕ → ℕ → Bool → List Pending
set_pending_page_op row page tick is_pagein = set row page (record {
  page_start = some tick;
  page_end = some (tick + page_wait);
  waiting = true;
  is_pagein = some is_pagein;
})

-- One entry of "update wait statuses".
unfoldable pub finish_wait : ℕ → Pending → Pending
finish_wait tick w = elim w.page_end [
  | none ↦ w
  | some end ↦
      if ltb 0 end && leb end tick
      then record w { page_start = none; page_end = none; waiting = false; is_pagein = none }
      else w
]

-- The loop "update wait statuses", on the row of a process.
unfoldable pub finish_waits : ℕ → List Pending → List Pending
unfolding finish_wait
finish_waits tick row = map (finish_wait tick) row

-- The best page so far: `*lru_proc` and `*lru_page`, where `none` is -1, and `lru_time`.
pub record Lru : Type 0 where
  pub place : Option (ℕ × ℕ)
  pub lru_time : ℕ

-- The body of the search.
unfoldable pub consider : ℕ → ℕ → Bool → Pending → ℕ → Lru → Lru
consider proc vic page wait time l =
    if page && not wait.waiting && ltb time l.lru_time
    then record { place = some (proc, vic); lru_time = time }
    else l

-- `for (vic = 0; vic < MAXPROCPAGES; vic++)`, from `vic` on.
unfoldable pub scan_pages : ℕ → ℕ → List Bool → List Pending → List ℕ → Lru → Lru
unfolding consider
scan_pages proc vic (p ∷ pages) (w ∷ wait) (t ∷ times) l =
    scan_pages proc (vic + 1) pages wait times (consider proc vic p w t l)
scan_pages proc vic _ _ _ l = l

-- `find_lru_page_local`, for the rows of the process `proc`; `res` is whether there is a place.
unfoldable pub find_lru_page_local : ℕ → List Bool → List Pending → List ℕ → Lru
find_lru_page_local proc pages wait times =
    scan_pages proc 0 pages wait times (record { place = none; lru_time = int_max })

-- `for (proc = 0; proc < MAXPROCESSES; proc++)`, from `proc` on.
unfoldable pub scan_procs : ℕ → List (List Bool) → List (List Pending) → List (List ℕ) → Lru → Lru
scan_procs proc (p ∷ pages) (w ∷ wait) (t ∷ times) l =
    scan_procs (proc + 1) pages wait times (scan_pages proc 0 p w t l)
scan_procs proc _ _ _ l = l

-- `find_lru_page_global`
unfoldable pub find_lru_page_global : List (List Bool) → List (List Pending) → List (List ℕ) → Lru
find_lru_page_global pages wait times =
    scan_procs 0 pages wait times (record { place = none; lru_time = int_max })
