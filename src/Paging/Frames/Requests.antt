-- ===== src/Paging/Frames/Requests.antt =====
-- What a request does to one page: who is answered, what is written, and how long a page takes
-- to come in or go out.
use csci_3753_operating_syst.Prelude.{
  ℕ, zero, suc, ◌+◌, ◌-◌, ◌/◌, ◌≤◌, ◌<◌, min, ◌≡◌, refl, ◌∙◌, ◌↔◌, true, false, ◌&&◌, some, arith,
  ltb, if◌then◌else◌, get_or, set,
}
use csci_3753_operating_syst.Prelude.Int.{pos, negsuc, ltb_ℤ, ℤ}
use csci_3753_operating_syst.Paging.{page_size, page_wait, Process, Sim, process_at}
use csci_3753_operating_syst.Prelude.Int.{pos, negsuc, ltb_ℤ, ℤ}
use csci_3753_operating_syst.Paging.Frames.{pageout, pagein, age_page, set_age, neg_wait, out}

-- The page table of the process in slot `p`, where `p` is a running slot with a live process.
pub record Live (s : Sim) (p k : ℕ) (q : Process) : Type 0 where
  pub below : p < s.procs
  pub slot : process_at s p ≡ some (k, q)
  pub on : q.active ≡ true

-- `pagein` of the page of the program counter of a live process in a running slot, where that page
-- is below `npages`: in or coming in, TRUE; going out, or no free
-- frame, FALSE; out with a free frame, TRUE, and the page starts to come in on that frame.
pub pagein_current :
    (s : Sim) (p k : ℕ) (q : Process)
    → Live s p k q
    → q.pc / page_size < q.npages
    → let page = q.pc / page_size in
      let age = get_or q.pages page (pos 0) in
      pagein (pos p) (pos page) s ≡ (
        if ltb_ℤ age (pos 0)
        then (if ltb_ℤ age neg_wait && ltb 0 s.pagesavail
            then (
              true,
              record (set_age s k q page (pos page_wait)) { pagesavail = s.pagesavail - 1 },
            )
            else (false, s))
        else (true, s))
unfolding pagein
pagein_current s p k q live lt = ground arith

-- `pageout` of a page of a live process in a running slot, where the page is below `npages`: on its way out or out, TRUE; coming in, FALSE; in, TRUE,
-- and the page starts to go out. Only then is `pageouts` written.
pub pageout_page :
    (s : Sim) (p k : ℕ) (q : Process) (page : ℕ)
    → Live s p k q
    → page < q.npages
    → let age = get_or q.pages page (pos 0) in
      pageout (pos p) (pos page) s ≡ (
        if ltb_ℤ age (pos 0)
        then (true, s)
        else if ltb_ℤ (pos 0) age
        then (false, s)
        else (true, record (set_age s k q page (negsuc 0)) { pageouts = set s.pageouts p 1 }))
unfolding pageout
pageout_page s p k q page live lt = ground arith

-- `n` ticks of ageing.
pub age_by : ℕ → ℤ → ℤ
age_by zero a = a
age_by (suc n) a = age_by n (age_page a).0

pub age_by_zero : (n : ℕ) → age_by n (pos 0) ≡ pos 0
unfolding age_by age_page
age_by_zero zero = refl
age_by_zero (suc n) = age_by_zero n

pub age_by_pos : (n a : ℕ) → age_by n (pos a) ≡ pos (a - n)
unfolding age_by age_page
age_by_pos zero a = ground arith
age_by_pos (suc n) zero = age_by_zero n ∙ ground arith
age_by_pos (suc n) (suc a) = age_by_pos n a ∙ ground arith

age_page_neg : (a : ℕ) → a ≤ page_wait → (age_page (negsuc a)).0 ≡ negsuc (min (suc a) page_wait)
unfolding age_page
age_page_neg a h = ground arith

pub age_by_neg : (n a : ℕ) → a ≤ page_wait → age_by n (negsuc a) ≡ negsuc (min (a + n) page_wait)
unfolding age_by
age_by_neg zero a h = ground arith
age_by_neg (suc n) a h =
    rw (age_page_neg a h) (age_by_neg n (min (suc a) page_wait) (omega arith) ∙ ground arith)

-- By `n` ticks of ageing, a page of age PAGEWAIT, as `pagein` sets it, is in memory if and only if
-- `n` is at least PAGEWAIT, and a page of age -1, as `pageout` sets it, is out if and only if `n` is
-- at least PAGEWAIT.
pub page_wait_exact :
    (n : ℕ)
    → ((age_by n (pos page_wait) ≡ pos 0) ↔ (page_wait ≤ n))
      × ((age_by n (negsuc 0) ≡ out) ↔ (page_wait ≤ n))
page_wait_exact n =
    let come : age_by n (pos page_wait) ≡ pos (page_wait - n) = age_by_pos n page_wait in
    let go : age_by n (negsuc 0) ≡ negsuc (min (0 + n) page_wait) = age_by_neg n 0 (omega arith) in
    ground arith
