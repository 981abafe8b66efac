-- ===== src/Paging/Pager/Predict/Steps.antt =====
-- The searches of pageit of assignments/pa8/pager-predict.c stay inside its tables.
use csci_3753_operating_syst.Prelude.{
  ℕ, zero, suc, ◌+◌, ◌<◌, ◌≡◌, ap, inl, inr, Bool, Option, none, some, List, [], ◌∷◌, arith, length,
  All,
}
use csci_3753_operating_syst.Paging.{max_processes, max_proc_pages}
use csci_3753_operating_syst.Paging.Pager.Flow.{Sure}
use csci_3753_operating_syst.Paging.Pager.Predict.{
  Pending, find_lru_page_local, find_lru_page_global, int_max,
}
use csci_3753_operating_syst.Paging.Pager.Predict.Recent.{
  Evictable, EvictableOf, scan_pages-Scanned, scan_procs-ScannedAll,
}
use csci_3753_operating_syst.Paging.Pager.Predict.Memory.{Memory, local_victim}
use csci_3753_operating_syst.Paging.Pager.Predict.Tables.{IsGrid, IsGrid-row, IsWhole}
use csci_3753_operating_syst.Prelude.Opt.{◌>>=◌}

pub Sure->>= :
    {A B : Type 0} (P : A → Type 0) (Q : B → Type 0) (m : Option A) (f : A → Option B)
    → Sure P m
    → ((a : A) → P a → Sure Q (f a))
    → Sure Q (m >>= f)
Sure->>= P Q none f h k = absurd h
Sure->>= P Q (some a) f h k = k a h

Evictable-bound :
    (pages : List Bool) (wait : List Pending) (times : List ℕ) (k time : ℕ)
    → Evictable pages wait times k time
    → k < length wait
Evictable-bound (p ∷ pages) (w ∷ wait) (t ∷ times) zero time e = omega arith
Evictable-bound (p ∷ pages) (w ∷ wait) (t ∷ times) (suc k) time e =
    let lt = Evictable-bound pages wait times k time e in omega arith
Evictable-bound [] wait times k time e = absurd e
Evictable-bound (p ∷ pages) [] times k time e = absurd e
Evictable-bound (p ∷ pages) (w ∷ wait) [] k time e = absurd e

EvictableOf-bound :
    (pages : List (List Bool)) (wait : List (List Pending)) (times : List (List ℕ)) (j k time : ℕ)
    → All (λ row. length row ≡ max_proc_pages) wait
    → EvictableOf pages wait times j k time
    → (j < length wait) × (k < max_proc_pages)
EvictableOf-bound (p ∷ pages) (w ∷ wait) (t ∷ times) zero k time h e =
    let lt = Evictable-bound p w t k time e in (omega arith, omega (arith, h.0))
EvictableOf-bound (p ∷ pages) (w ∷ wait) (t ∷ times) (suc j) k time h e =
    let lt = EvictableOf-bound pages wait times j k time h.1 e in (omega (arith, lt.0), lt.1)
EvictableOf-bound [] wait times j k time h e = absurd e
EvictableOf-bound (p ∷ pages) [] times j k time h e = absurd e
EvictableOf-bound (p ∷ pages) (w ∷ wait) [] j k time h e = absurd e

-- The place that the search over all processes finds is one of the tables.
pub global_bound :
    (pages : List (List Bool)) (wait : List (List Pending)) (times : List (List ℕ)) (proc page : ℕ)
    → IsGrid wait
    → (find_lru_page_global pages wait times).place ≡ some (proc, page)
    → (proc < max_processes) × (page < max_proc_pages)
unfolding find_lru_page_global
global_bound pages wait times proc page h at =
    let found =
      scan_procs-ScannedAll 0 pages wait times (record { place = none; lru_time = int_max }) in
    elim found.origin [
      | inl same ↦ absurd (cc)
      | inr (j, k, ev, at', lt) ↦
          let b = EvictableOf-bound pages wait times j k _ h.1 ev in
          let p : proc ≡ 0 + j = cc in
          let q : page ≡ k = cc in (omega (arith, b.0, h.0), omega (arith, b.1))
    ]

local_bound :
    (proc : ℕ) (pages : List Bool) (wait : List Pending) (times : List ℕ) (vic page : ℕ)
    → length wait ≡ max_proc_pages
    → (find_lru_page_local proc pages wait times).place ≡ some (vic, page)
    → page < max_proc_pages
unfolding find_lru_page_local
local_bound proc pages wait times vic page len at =
    let found =
      scan_pages-Scanned proc 0 pages wait times (record { place = none; lru_time = int_max }) in
    elim found.origin [
      | inl same ↦ absurd (cc)
      | inr (k, ev, at', lt) ↦
          let b = Evictable-bound pages wait times k _ ev in
          let q : page ≡ 0 + k = cc in omega (arith, b, q)
    ]

page_of :
    (o : Option (ℕ × ℕ)) (page : ℕ)
    → (o >>= λ place. some place.1) ≡ some page
    → (vic : ℕ) × (o ≡ some (vic, page))
page_of none page e = absurd (cc)
page_of (some (vic, k)) page e = (vic, let q : k ≡ page = cc in ap (λ (x : ℕ). some (vic, x)) q)

-- So is the one that the search in one process finds.
pub local_victim_bound :
    (proc : ℕ) (pages : List Bool) (m : Memory)
    → IsWhole m
    → proc < max_processes
    → Sure
        (λ victim. (page : ℕ) → victim ≡ some page → page < max_proc_pages)
        (local_victim proc pages m)
unfolding local_victim
local_victim_bound proc pages m h pr =
    let (wait, at, len) = IsGrid-row m.proc_wait proc h.waits pr in
    let (times, at', len') = IsGrid-row m.timestamps proc h.times pr in
    rw (at, at')
      (λ page e.
        let (vic, place) = page_of _ page e in local_bound proc pages wait times vic page len place)
