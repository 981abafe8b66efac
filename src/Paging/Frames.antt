-- ===== src/Paging/Frames.antt =====
-- Frames: pagein, pageout, the ageing of pages and the release of a process's pages
-- (pagein, pageout, allage, process_unload of assignments/pa7/simulator.c).
pub mod Ages
pub mod Conservation
pub mod Requests
use csci_3753_operating_syst.Prelude.{
  ℕ, zero, suc, ◌+◌, ◌-◌, ◌/◌, Bool, true, false, not, List, [], ◌∷◌, Option, none, some, get_elem?,
  get_or, set, take, ltb, leb, ◌==◌, if◌then◌else◌,
}
use csci_3753_operating_syst.Prelude.Int.{ℤ, pos, negsuc, ltb_ℤ, pred_ℤ}
use csci_3753_operating_syst.Paging.{Process, Sim, process_at, page_size, page_wait}

-- `-PAGEWAIT-1`: the age of a page that is out.
abbrev pub out : ℤ
out = negsuc page_wait

-- `-PAGEWAIT`
abbrev pub neg_wait : ℤ
neg_wait = negsuc 99

-- `processes[process]->pages[page]=age`
abbrev pub set_age : Sim → ℕ → Process → ℕ → ℤ → Sim
set_age s k q page age = record s {
  queue = set s.queue k (record q { pages = set q.pages page age });
}

-- `pageout` behind its check of the slot: `processes[process]` is `queue + k`, with value `q`.
unfoldable pub pageout_live : ℕ → ℕ → ℕ → Process → Sim → Bool × Sim
pageout_live p page k q s =
    if not q.active
    then (false, s)
    else if leb q.npages page
    then (false, s)
    else if ltb_ℤ (get_or q.pages page (pos 0)) (pos 0)
    then (true, s)
    else if ltb_ℤ (pos 0) (get_or q.pages page (pos 0))
    then (false, s)
    else (true, record (set_age s k q page (negsuc 0)) { pageouts = set s.pageouts p 1 })

-- A negative process or page fails a guard, whatever the rest says.
unfoldable pub pageout : ℤ → ℤ → Sim → Bool × Sim
unfolding pageout_live
pageout (pos p) (pos page) s =
    if leb s.procs p
    then (false, s)
    else (elim (process_at s p) [ none ↦ (false, s) | some (k, q) ↦ pageout_live p page k q s ])
pageout _ _ s = (false, s)

-- `pagein` behind its check of the slot.
unfoldable pub pagein_live : ℕ → ℕ → Process → Sim → Bool × Sim
pagein_live page k q s =
    if not q.active
    then (false, s)
    else if not (q.pc / page_size == page)
    then (false, s)
    else if leb q.npages page
    then (false, s)
    else if not (ltb_ℤ (get_or q.pages page (pos 0)) (pos 0))
    then (true, s)
    else if s.pagesavail == 0
    then (false, s)
    else if not (ltb_ℤ (get_or q.pages page (pos 0)) neg_wait)
    then (false, s)
    else (true, record (set_age s k q page (pos page_wait)) { pagesavail = s.pagesavail - 1 })

unfoldable pub pagein : ℤ → ℤ → Sim → Bool × Sim
unfolding pagein_live
pagein (pos p) (pos page) s =
    if leb s.procs p
    then (false, s)
    else (elim (process_at s p) [ none ↦ (false, s) | some (k, q) ↦ pagein_live page k q s ])
pagein _ _ s = (false, s)

-- One page in `allage`: its next age, and the frames that this gives back.
unfoldable pub age_page : ℤ → ℤ × ℕ
age_page (pos zero) = (pos zero, 0)
age_page (pos (suc n)) = (pred_ℤ (pos (suc n)), 0)
age_page (negsuc n) =
    if ltb_ℤ (negsuc n) neg_wait
    then (negsuc n, 0)
    else if ltb_ℤ (pred_ℤ (negsuc n)) neg_wait
    then (pred_ℤ (negsuc n), 1)
    else (pred_ℤ (negsuc n), 0)

-- `for (j=0; j<npages; j++)` in `allage`.
unfoldable pub age_pages : ℕ → List ℤ → List ℤ × ℕ
unfolding age_page
age_pages zero ages = (ages, 0)
age_pages (suc n) [] = ([], 0)
age_pages (suc n) (a ∷ ages) =
    let (a', freed) = age_page a in
    let (ages', freed') = age_pages n ages in (a' ∷ ages', freed + freed')

-- One slot in `allage`.
unfoldable pub age_slot : ℕ → Sim → Sim
unfolding age_pages
age_slot k s = elim (get_elem? s.queue k) [
  | none ↦ s
  | some q ↦
      if q.active
      then (record s {
        pagesavail = s.pagesavail + (age_pages q.npages q.pages).1;
        queue = set s.queue k (record q { pages = (age_pages q.npages q.pages).0 });
      })
      else s
]

-- The slots are not written while the loop runs.
unfoldable pub age_slots : List (Option ℕ) → Sim → Sim
unfolding age_slot
age_slots [] s = s
age_slots (none ∷ slots) s = age_slots slots s
age_slots (some k ∷ slots) s = age_slots slots (age_slot k s)

unfoldable pub allage : Sim → Sim
unfolding age_slots
allage s = age_slots (take s.procs s.processes) s

-- One page in `process_unload`: its next age, and the frames that this gives back.
unfoldable pub unload_page : ℤ → ℤ × ℕ
unload_page a = if ltb_ℤ a neg_wait then (a, 0) else (out, 1)

-- `for (i=0; i<q->npages; i++)` in `process_unload`: the ages and the frames given back.
unfoldable pub unload_pages : ℕ → List ℤ → List ℤ × ℕ
unfolding unload_page
unload_pages zero ages = (ages, 0)
unload_pages (suc n) [] = ([], 0)
unload_pages (suc n) (a ∷ ages) =
    let (a', freed) = unload_page a in
    let (ages', freed') = unload_pages n ages in (a' ∷ ages', freed + freed')

-- The same loop: `q->blocked[i]=1` at each page that is released.
unfoldable pub unload_flags : ℕ → List ℤ → List Bool → List Bool
unload_flags zero ages flags = flags
unload_flags (suc n) (a ∷ ages) (b ∷ flags) =
    (if ltb_ℤ a neg_wait then b else true) ∷ unload_flags n ages flags
unload_flags (suc n) _ flags = flags

-- `process_unload`, of the process at `queue + k`.
unfoldable pub process_unload : ℕ → Process → Sim → Sim
unfolding unload_pages unload_flags
process_unload k q s = record s {
  pagesavail = s.pagesavail + (unload_pages q.npages q.pages).1;
  queue = set s.queue k (record q {
    pages = (unload_pages q.npages q.pages).0;
    blocked = unload_flags q.npages q.pages q.blocked;
    active = false;
  });
}
