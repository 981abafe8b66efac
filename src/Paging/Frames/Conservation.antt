-- ===== src/Paging/Frames/Conservation.antt =====
-- No frame is lost or made up: the free frames and the frames of all processes add up to
-- PHYSICALPAGES, whatever is asked of the simulator.
use csci_3753_operating_syst.Prelude.{
  ℕ, ◌+◌, ◌-◌, ◌≤◌, ◌<◌, ◌≡◌, refl, sym, ◌∙◌, subst, ◌⊎◌, inl, inr, true, Option, none, some, List,
  [], ◌∷◌, arith, leb, Bool-cases, Option-cases, if_keeps, length, get_elem?, get_or, set, take,
  length-set, get_elem?-eq-get_or, All, All-set, All-get_elem?,
}
use csci_3753_operating_syst.Prelude.Sums.{total, total-set, total-elem-le}
use csci_3753_operating_syst.Prelude.Int.{ℤ, pos, negsuc, ltb_ℤ}
use csci_3753_operating_syst.Paging.{
  Process, Sim, process_at, max_proc_pages, physical_pages, page_wait,
}
use csci_3753_operating_syst.Paging.Frames.{
  pageout_live, pageout, pagein_live, pagein, age_pages, age_slot, age_slots, allage, unload_pages,
  process_unload, set_age, neg_wait,
}
use csci_3753_operating_syst.Paging.Frames.Ages.{
  occupies, InRange, age_pages-InRange, length-age_pages, total-age_pages, unload_pages-InRange,
  length-unload_pages, total-unload_pages,
}

-- The frames that a process takes.
abbrev pub frames : Process → ℕ
frames q = total occupies q.pages

pub record IsSound (q : Process) : Type 0 where
  pub paged : length q.pages ≡ max_proc_pages
  pub fits : q.npages ≤ max_proc_pages
  pub aged : All InRange q.pages

pub record Conserved (s : Sim) : Type 0 where
  pub sum : s.pagesavail + total frames s.queue ≡ physical_pages
  pub sound : All IsSound s.queue

-- A write of a process into the queue, with the frames that it frees or takes.
pub Conserved-set :
    (s : Sim) (k : ℕ) (q q' : Process) (avail : ℕ) {s' : Sim}
    → Conserved s
    → get_elem? s.queue k ≡ some q
    → IsSound q'
    → avail + frames q' ≡ s.pagesavail + frames q
    → s'.queue ≡ set s.queue k q'
    → s'.pagesavail ≡ avail
    → Conserved s'
Conserved-set s k q q' avail {s'} c at h e eq ea = record {
  sum =
      rw (eq, ea)
        (omega
          (arith, total-set frames s.queue k q q' at, total-elem-le frames s.queue k q at, c.sum));
  sound = rw eq (All-set IsSound s.queue k q' c.sound h);
}

-- A page's age is read and written in the array.
IsSound-set_age :
    (q : Process) (page : ℕ) (age : ℤ)
    → IsSound q
    → InRange age
    → IsSound (record q { pages = set q.pages page age })
IsSound-set_age q page age h r = record {
  paged = length-set q.pages page age ∙ h.paged;
  fits = h.fits;
  aged = All-set InRange q.pages page age h.aged r;
}

frames-set_age :
    (q : Process) (page : ℕ) (age : ℤ)
    → page < length q.pages
    → total occupies (set q.pages page age) + occupies (get_or q.pages page (pos 0))
      ≡ frames q + occupies age
frames-set_age q page age h =
    total-set occupies q.pages page (get_or q.pages page (pos 0)) age
      (get_elem?-eq-get_or q.pages page (pos 0) h)

-- `pageout` writes nothing, or starts on a page that is in.
pub pageout_live_cases :
    (p page k : ℕ) (q : Process) (s : Sim)
    → ((pageout_live p page k q s).1 ≡ s)
      ⊎ ((page < q.npages)
          × (get_or q.pages page (pos 0) ≡ pos 0)
          × ((pageout_live p page k q s).1
              ≡ record (set_age s k q page (negsuc 0)) { pageouts = set s.pageouts p 1 }))
unfolding pageout_live
pageout_live_cases p page k q s = ground arith

-- `pagein` writes nothing, or takes a free frame for a page that is out.
pub pagein_live_cases :
    (page k : ℕ) (q : Process) (s : Sim)
    → ((pagein_live page k q s).1 ≡ s)
      ⊎ ((page < q.npages)
          × (ltb_ℤ (get_or q.pages page (pos 0)) neg_wait ≡ true)
          × (0 < s.pagesavail)
          × ((pagein_live page k q s).1
              ≡ record (set_age s k q page (pos page_wait)) { pagesavail = s.pagesavail - 1 }))
unfolding pagein_live
pagein_live_cases page k q s = ground arith

out-occupies : (a : ℤ) → ltb_ℤ a neg_wait ≡ true → occupies a ≡ 0
out-occupies (pos n) h = ground arith
out-occupies (negsuc n) h = ground arith

pub pageout_live-Conserved :
    (p page k : ℕ) (q : Process) (s : Sim)
    → Conserved s
    → get_elem? s.queue k ≡ some q
    → Conserved (pageout_live p page k q s).1
pageout_live-Conserved p page k q s c at = elim (pageout_live_cases p page k q s) [
  | inl same ↦ subst Conserved (sym same) c
  | inr (lt, zero_age, wrote) ↦
      let h : IsSound q = All-get_elem? IsSound s.queue k q c.sound at in
      Conserved-set s k q (record q { pages = set q.pages page (negsuc 0) }) s.pagesavail c at
        (IsSound-set_age q page (negsuc 0) h (omega arith))
        (ground (arith, frames-set_age q page (negsuc 0), h.paged, h.fits)) (rw wrote refl)
        (rw wrote refl)
]

pub pagein_live-Conserved :
    (page k : ℕ) (q : Process) (s : Sim)
    → Conserved s
    → get_elem? s.queue k ≡ some q
    → Conserved (pagein_live page k q s).1
pagein_live-Conserved page k q s c at = elim (pagein_live_cases page k q s) [
  | inl same ↦ subst Conserved (sym same) c
  | inr (lt, is_out, free, wrote) ↦
      let h : IsSound q = All-get_elem? IsSound s.queue k q c.sound at in
      Conserved-set s k q (record q { pages = set q.pages page (pos page_wait) }) (s.pagesavail - 1)
        c at (IsSound-set_age q page (pos page_wait) h (omega arith))
        (omega (
          arith,
          frames-set_age q page (pos page_wait),
          h.paged,
          h.fits,
          out-occupies (get_or q.pages page (pos 0)) is_out,
        ))
        (rw wrote refl) (rw wrote refl)
]

-- Every slot of `processes` that is not NULL points to a process of the queue.
pub process_at-get_elem? :
    (s : Sim) (i k : ℕ) (q : Process) → process_at s i ≡ some (k, q) → get_elem? s.queue k ≡ some q
process_at-get_elem? s i k q h = ground arith

-- What holds of the simulator, and of every outcome behind the check of the slot, holds of the call.
pub pageout-keeps {κ} :
    (P : Sim → Type κ) (p page : ℤ) (s : Sim)
    → P s
    → ((i j k : ℕ) (q : Process) → get_elem? s.queue k ≡ some q → P (pageout_live i j k q s).1)
    → P (pageout p page s).1
unfolding pageout
pageout-keeps P (pos p) (pos page) s c live = elim (Bool-cases (leb s.procs p)) [
  | inl over ↦ rw over c
  | inr in_range ↦ rw in_range (elim (Option-cases (process_at s p)) [
    | inl null ↦ rw (null, process_at) c
    | inr ((k, q), e) ↦ rw (e, process_at) (live p page k q (process_at-get_elem? s p k q e))
  ])
]
pageout-keeps P (pos p) (negsuc page) s c live = c
pageout-keeps P (negsuc p) page s c live = c

pub pagein-keeps {κ} :
    (P : Sim → Type κ) (p page : ℤ) (s : Sim)
    → P s
    → ((j k : ℕ) (q : Process) → get_elem? s.queue k ≡ some q → P (pagein_live j k q s).1)
    → P (pagein p page s).1
unfolding pagein
pagein-keeps P (pos p) (pos page) s c live = elim (Bool-cases (leb s.procs p)) [
  | inl over ↦ rw over c
  | inr in_range ↦ rw in_range (elim (Option-cases (process_at s p)) [
    | inl null ↦ rw (null, process_at) c
    | inr ((k, q), e) ↦ rw (e, process_at) (live page k q (process_at-get_elem? s p k q e))
  ])
]
pagein-keeps P (pos p) (negsuc page) s c live = c
pagein-keeps P (negsuc p) page s c live = c

-- For every pair of arguments `pageout` keeps a state conserved: free frames and frames in use add
-- up to PHYSICALPAGES, and page tables have their size and ages from -PAGEWAIT-1 to PAGEWAIT.
pub pageout-Conserved : (p page : ℤ) (s : Sim) → Conserved s → Conserved (pageout p page s).1
pageout-Conserved p page s c =
    pageout-keeps Conserved p page s c (λ i j k q at. pageout_live-Conserved i j k q s c at)

-- For every pair of arguments `pagein` keeps a state conserved: free frames and frames in use add
-- up to PHYSICALPAGES, and page tables have their size and ages from -PAGEWAIT-1 to PAGEWAIT.
pub pagein-Conserved : (p page : ℤ) (s : Sim) → Conserved s → Conserved (pagein p page s).1
pagein-Conserved p page s c =
    pagein-keeps Conserved p page s c (λ j k q at. pagein_live-Conserved j k q s c at)

-- One tick of ageing keeps the sum at each slot.
pub age_slot-Conserved : (k : ℕ) (s : Sim) → Conserved s → Conserved (age_slot k s)
unfolding age_slot
age_slot-Conserved k s c = elim (Option-cases (get_elem? s.queue k)) [
  | inl dangling ↦ rw (dangling, age_slot) c
  | inr (q, at) ↦
      let h : IsSound q = All-get_elem? IsSound s.queue k q c.sound at in
      rw (at, age_slot)
        (if_keeps Conserved q.active
          (Conserved-set s k q (record q { pages = (age_pages q.npages q.pages).0 })
            (s.pagesavail + (age_pages q.npages q.pages).1) c at
            (record {
              paged = length-age_pages q.npages q.pages ∙ h.paged;
              fits = h.fits;
              aged = age_pages-InRange q.npages q.pages h.aged;
            })
            (omega (arith, total-age_pages q.npages q.pages)) refl refl)
          c)
]

pub age_slots-Conserved :
    (slots : List (Option ℕ)) (s : Sim) → Conserved s → Conserved (age_slots slots s)
unfolding age_slots
age_slots-Conserved [] s c = c
age_slots-Conserved (none ∷ slots) s c = age_slots-Conserved slots s c
age_slots-Conserved (some k ∷ slots) s c =
    age_slots-Conserved slots (age_slot k s) (age_slot-Conserved k s c)

-- One tick of `allage` keeps a state conserved: it frees one frame for each page that has gone out.
pub allage-Conserved : (s : Sim) → Conserved s → Conserved (allage s)
unfolding allage
allage-Conserved s c = age_slots-Conserved (take s.procs s.processes) s c

-- `process_unload` of the process at place `k` of the queue keeps a conserved state conserved: as
-- many frames are freed as the process has pages in, coming in or going out.
pub process_unload-Conserved :
    (k : ℕ) (q : Process) (s : Sim)
    → Conserved s
    → get_elem? s.queue k ≡ some q
    → Conserved (process_unload k q s)
unfolding process_unload
process_unload-Conserved k q s c at =
    let h : IsSound q = All-get_elem? IsSound s.queue k q c.sound at in
    Conserved-set s k q _ (s.pagesavail + (unload_pages q.npages q.pages).1) c at
      (record {
        paged = length-unload_pages q.npages q.pages ∙ h.paged;
        fits = h.fits;
        aged = unload_pages-InRange q.npages q.pages h.aged;
      })
      (omega (arith, total-unload_pages q.npages q.pages h.aged)) refl refl
