-- ===== src/Paging/Pager/Basic/Eviction.antt =====
-- Which calls the basic pager makes.
use csci_3753_operating_syst.Prelude.{
  ℕ, zero, suc, ◌+◌, ◌/◌, ◌≤◌, ◌≡◌, refl, inl, inr, Bool, true, false, not, Option, none, some,
  List, [], ◌∷◌, arith, leb, if◌then◌else◌, Bool-cases, Option-cases, if_keeps, get_elem?,
}
use csci_3753_operating_syst.Paging.{Sim, Process, page_size, max_proc_pages, process_at}
use csci_3753_operating_syst.Paging.Frames.{pagein, pagein_live}
use csci_3753_operating_syst.Paging.Pager.{Pentry, Calls, finish, ask_in, ask_out, run_calls}
use csci_3753_operating_syst.Paging.Pager.Basic.{Run, find_victim, admit, serve, pageit}
use csci_3753_operating_syst.Prelude.Int.{ℤ, pos, negsuc}

-- No run of the calls asks for a page to go out.
abbrev pub NeverOut : {A : Type 0} → Calls A → Type 0
NeverOut (finish a) = Unit
NeverOut (ask_in p page next) = (b : Bool) → NeverOut (next b)
NeverOut (ask_out p page next) = ⊥

-- The search for a victim tests the page that is not in memory, so it passes over all.
find_victim_none :
    (n vic proc page : ℕ) (rest : Run) → find_victim n vic proc page false rest ≡ rest
unfolding find_victim
find_victim_none zero vic proc page rest = refl
find_victim_none (suc n) vic proc page rest = find_victim_none n (vic + 1) proc page rest

admit-NeverOut :
    (o : Option Bool) (proc page : ℕ) (rest : Run)
    → NeverOut rest
    → NeverOut (admit o proc page rest)
unfolding admit
admit-NeverOut none proc page rest h = tt
admit-NeverOut (some true) proc page rest h = tt
admit-NeverOut (some false) proc page rest h =
    λ b. if_keeps NeverOut b tt (rw (find_victim_none max_proc_pages 1 proc page rest) h)

serve-NeverOut : (q : List Pentry) (proc : ℕ) → NeverOut (serve q proc)
unfolding serve
serve-NeverOut [] proc = tt
serve-NeverOut (e ∷ q) proc =
    let h : NeverOut (serve q (proc + 1)) = serve-NeverOut q (proc + 1) in
    if_keeps NeverOut (not e.active) h (
      admit-NeverOut (get_elem? e.pages (e.pc / page_size)) proc (e.pc / page_size)
        (serve q (proc + 1)) h)

-- Whatever the entries and the answers are, the basic pager never asks for a page to go out, so
-- the loop that looks for a victim has no effect.
pub pageit-NeverOut : (q : List Pentry) → NeverOut (pageit q)
unfolding pageit
pageit-NeverOut q = serve-NeverOut q 0

-- A refusal changes nothing, and no answer takes more than one frame.
pagein_live_frame :
    (page k : ℕ) (q : Process) (s : Sim)
    → ((pagein_live page k q s).0 ≡ false → (pagein_live page k q s).1 ≡ s)
      × (s.pagesavail ≤ (pagein_live page k q s).1.pagesavail + 1)
unfolding pagein_live
pagein_live_frame page k q s = ground arith

pagein_frame :
    (p page : ℤ) (s : Sim)
    → ((pagein p page s).0 ≡ false → (pagein p page s).1 ≡ s)
      × (s.pagesavail ≤ (pagein p page s).1.pagesavail + 1)
unfolding pagein
pagein_frame (pos p) (pos page) s = elim (Bool-cases (leb s.procs p)) [
  | inl over ↦ rw over (λ e. refl, omega arith)
  | inr in_range ↦ rw in_range (elim (Option-cases (process_at s p)) [
    | inl null ↦ rw (null, process_at) (λ e. refl, omega arith)
    | inr ((k, q), at) ↦ rw (at, process_at) (pagein_live_frame page k q s)
  ])
]
pagein_frame (pos p) (negsuc page) s = (λ e. refl, omega arith)
pagein_frame (negsuc p) page s = (λ e. refl, omega arith)

-- A run that takes one frame at most.
abbrev Frugal : Run → Type 0
Frugal r = (s : Sim) → s.pagesavail ≤ (run_calls r s).1.pagesavail + 1

-- What follows the answer to `pagein`.
answered-Frugal :
    (b : Bool) (proc page : ℕ) (rest : Run) (s s' : Sim)
    → Frugal rest
    → (b ≡ false → s' ≡ s)
    → s.pagesavail ≤ s'.pagesavail + 1
    → s.pagesavail
      ≤ (run_calls
          (if b then finish (some tt) else find_victim max_proc_pages 1 proc page false rest)
          s').1.pagesavail
        + 1
unfolding run_calls
answered-Frugal true proc page rest s s' h same le = le
answered-Frugal false proc page rest s s' h same le =
    rw (find_victim_none max_proc_pages 1 proc page rest) (rw (same refl) (h s))

admit-Frugal :
    (o : Option Bool) (proc page : ℕ) (rest : Run) → Frugal rest → Frugal (admit o proc page rest)
unfolding admit run_calls
admit-Frugal none proc page rest h s = omega arith
admit-Frugal (some true) proc page rest h s = omega arith
admit-Frugal (some false) proc page rest h s =
    let frame = pagein_frame (pos proc) (pos page) s in
    answered-Frugal (pagein (pos proc) (pos page) s).0 proc page rest s
      (pagein (pos proc) (pos page) s).1 h frame.0 frame.1

serve-Frugal : (q : List Pentry) (proc : ℕ) → Frugal (serve q proc)
unfolding serve run_calls
serve-Frugal [] proc s = omega arith
serve-Frugal (e ∷ q) proc s =
    if_keeps Frugal (not e.active) (serve-Frugal q (proc + 1))
      (admit-Frugal (get_elem? e.pages (e.pc / page_size)) proc (e.pc / page_size)
        (serve q (proc + 1)) (serve-Frugal q (proc + 1)))
      s

-- One call of the basic pager takes at most one frame, whatever state it sees and finds.
pub pageit_one_frame :
    (q : List Pentry) (s : Sim) → s.pagesavail ≤ (run_calls (pageit q) s).1.pagesavail + 1
unfolding pageit
pageit_one_frame q s = serve-Frugal q 0 s
