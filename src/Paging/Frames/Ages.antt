-- ===== src/Paging/Frames/Ages.antt =====
-- The ages of a page and of a process's pages, and the frames that they stand for.
use csci_3753_operating_syst.Prelude.{
  ℕ, zero, suc, ◌+◌, ◌≤◌, ◌≡◌, refl, List, [], ◌∷◌, ltb, if◌then◌else◌, arith, length, All, ap,
}
use csci_3753_operating_syst.Prelude.Sums.{total}
use csci_3753_operating_syst.Prelude.Int.{ℤ, pos, negsuc}
use csci_3753_operating_syst.Paging.{page_wait}
use csci_3753_operating_syst.Paging.Frames.{age_page, age_pages, unload_page, unload_pages}

-- A page that is in, coming in or going out takes one frame.
abbrev pub occupies : ℤ → ℕ
occupies (pos n) = 1
occupies (negsuc n) = if ltb n page_wait then 1 else 0

-- `-PAGEWAIT-1 <= age <= PAGEWAIT`
abbrev pub InRange : ℤ → Type 0
InRange (pos n) = n ≤ page_wait
InRange (negsuc n) = n ≤ page_wait

pub occupies-age_page : (a : ℤ) → (age_page a).1 + occupies (age_page a).0 ≡ occupies a
unfolding age_page
occupies-age_page (pos zero) = refl
occupies-age_page (pos (suc n)) = refl
occupies-age_page (negsuc n) = ground arith

pub age_page-InRange : (a : ℤ) → InRange a → InRange (age_page a).0
unfolding age_page
age_page-InRange (pos zero) h = h
age_page-InRange (pos (suc n)) h = omega arith
age_page-InRange (negsuc n) h = ground arith

pub age_pages-InRange :
    (n : ℕ) (ages : List ℤ) → All InRange ages → All InRange (age_pages n ages).0
unfolding age_pages
age_pages-InRange zero ages h = h
age_pages-InRange (suc n) [] h = h
age_pages-InRange (suc n) (a ∷ ages) h = (age_page-InRange a h.0, age_pages-InRange n ages h.1)

pub length-age_pages : (n : ℕ) (ages : List ℤ) → length (age_pages n ages).0 ≡ length ages
unfolding age_pages
length-age_pages zero ages = refl
length-age_pages (suc n) [] = refl
length-age_pages (suc n) (a ∷ ages) = ap suc (length-age_pages n ages)

-- Ageing gives back exactly the frames of the pages that become free.
pub total-age_pages :
    (n : ℕ) (ages : List ℤ)
    → (age_pages n ages).1 + total occupies (age_pages n ages).0 ≡ total occupies ages
unfolding total age_pages
total-age_pages zero ages = omega arith
total-age_pages (suc n) [] = refl
total-age_pages (suc n) (a ∷ ages) = omega (arith, occupies-age_page a, total-age_pages n ages)

pub unload_page_lem :
    (a : ℤ)
    → InRange a
    → InRange (unload_page a).0 × ((unload_page a).1 + occupies (unload_page a).0 ≡ occupies a)
unfolding unload_page
unload_page_lem (pos n) h = ground arith
unload_page_lem (negsuc n) h = ground arith

pub unload_pages-InRange :
    (n : ℕ) (ages : List ℤ) → All InRange ages → All InRange (unload_pages n ages).0
unfolding unload_pages
unload_pages-InRange zero ages h = h
unload_pages-InRange (suc n) [] h = h
unload_pages-InRange (suc n) (a ∷ ages) h =
    ((unload_page_lem a h.0).0, unload_pages-InRange n ages h.1)

pub length-unload_pages : (n : ℕ) (ages : List ℤ) → length (unload_pages n ages).0 ≡ length ages
unfolding unload_pages
length-unload_pages zero ages = refl
length-unload_pages (suc n) [] = refl
length-unload_pages (suc n) (a ∷ ages) = ap suc (length-unload_pages n ages)

-- A release gives back exactly the frames of the pages that it releases.
pub total-unload_pages :
    (n : ℕ) (ages : List ℤ)
    → All InRange ages
    → (unload_pages n ages).1 + total occupies (unload_pages n ages).0 ≡ total occupies ages
unfolding total unload_pages
total-unload_pages zero ages h = omega arith
total-unload_pages (suc n) [] h = refl
total-unload_pages (suc n) (a ∷ ages) h =
    omega (arith, unload_page_lem a h.0, total-unload_pages n ages h.1)

-- With `npages` covering the array, no frame is left.
pub unload_pages_all :
    (n : ℕ) (ages : List ℤ) → length ages ≤ n → total occupies (unload_pages n ages).0 ≡ 0
unfolding total unload_pages unload_page
unload_pages_all zero [] h = refl
unload_pages_all zero (a ∷ ages) h = absurd (omega arith)
unload_pages_all (suc n) [] h = refl
unload_pages_all (suc n) (pos a ∷ ages) h = ground (arith, unload_pages_all n ages)
unload_pages_all (suc n) (negsuc a ∷ ages) h = ground (arith, unload_pages_all n ages)
