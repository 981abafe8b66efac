-- ===== src/Paging/System/Entries.antt =====
-- The entries that callyou of assignments/pa7/simulator.c builds are in the shape that a pager may
-- rely on.
use csci_3753_operating_syst.Prelude.{
  ℕ, ◌-◌, ◌≡◌, refl, ◌∙◌, inl, inr, false, Option, none, some, List, [], ◌∷◌, ◌++◌, map, arith,
  Option-cases, length, get_elem?, take, replicate, length-append, length-replicate, length-take,
  length-map, All, All-get_elem?,
}
use csci_3753_operating_syst.Paging.{Process, Sim, max_proc_pages}
use csci_3753_operating_syst.Paging.Pager.Entries.{IsEntry, IsEntries}
use csci_3753_operating_syst.Paging.System.{pentry, is_in, absent}
use csci_3753_operating_syst.Paging.Execution.Unbranched.{IsLoadable-small}
use csci_3753_operating_syst.Paging.System.Shape.{IsRunnable, Shape}

length-flags :
    (q : Process)
    → length q.pages ≡ max_proc_pages
    → length (map is_in (take q.npages q.pages) ++ replicate (max_proc_pages - q.npages) false)
      ≡ max_proc_pages
length-flags q len =
    let e1 =
      length-append (map is_in (take q.npages q.pages))
        (replicate (max_proc_pages - q.npages) false) in
    let e2 = length-map (take q.npages q.pages) is_in in
    let e3 = length-take q.npages q.pages in
    let e4 = length-replicate (max_proc_pages - q.npages) false in
    omega (arith, len, e1, e2, e3, e4)

absent-IsEntry : IsEntry absent
absent-IsEntry = (refl, λ on. absurd (cc))

pentry-IsEntry : (s : Sim) (slot : Option ℕ) → Shape s → IsEntry (pentry s slot)
unfolding pentry
pentry-IsEntry s none h = absent-IsEntry
pentry-IsEntry s (some k) h = elim (Option-cases (get_elem? s.queue k)) [
  | inl out ↦ rw (out, pentry) absent-IsEntry
  | inr (q, at) ↦
      let (p, hp, loaded) = All-get_elem? IsRunnable s.queue k q h.runnable at in
      rw (at, pentry)
        (length-flags q loaded.paged.0, λ on. omega (arith, loaded.inside, IsLoadable-small p hp))
]

pub pentries-IsEntries : (s : Sim) → Shape s → IsEntries (map (pentry s) s.processes)
pentries-IsEntries s h = (length-map s.processes (pentry s) ∙ h.places, each s.processes)
  where
    each : (slots : List (Option ℕ)) → All IsEntry (map (pentry s) slots)
    each [] = tt
    each (slot ∷ slots) = (pentry-IsEntry s slot h, each slots)
