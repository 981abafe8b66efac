-- ===== src/Tests/Predictive.antt =====
-- The theorems on pageit of assignments/pa8/pager-predict.c with an insertion sort for qsort and a
-- scale for ALPHA, on entries of processes in their second page.
use csci_3753_operating_syst.Prelude.{
  ℕ, zero, suc, ◌/◌, ◌≡◌, refl, ap, ◌∙◌, inl, Bool, true, false, some, List, [], ◌∷◌, arith, leb,
  if◌then◌else◌, if_keeps, length, get_elem?, replicate, All-replicate,
}
use csci_3753_operating_syst.Paging.{max_proc_pages}
use csci_3753_operating_syst.Paging.Pager.{Pentry}
use csci_3753_operating_syst.Paging.Pager.Entries.{IsEntry, IsEntries}
use csci_3753_operating_syst.Paging.Pager.Flow.{Ends, Sure}
use csci_3753_operating_syst.Paging.Pager.Predict.Working.{PageData}
use csci_3753_operating_syst.Paging.Pager.Predict.Memory.{Memory, static_memory, initialize}
use csci_3753_operating_syst.Paging.Pager.Predict.Tables.{IsWhole, initialize-IsWhole}
use csci_3753_operating_syst.Paging.Pager.Predict.Transitions.{IsSorter}
use csci_3753_operating_syst.Paging.Pager.Predict.Pageit.{pageit, predict_one}
use csci_3753_operating_syst.Paging.Pager.Predict.Whole.{
  predict_two_ways, predict_one-predict_two_ways, pageit-IsSafe,
}

abbrev insert : PageData → List PageData → List PageData
insert d [] = d ∷ []
insert d (x ∷ xs) = let rest = insert d xs in if leb x.freq d.freq then d ∷ x ∷ xs else x ∷ rest

-- Descending frequencies.
abbrev by_freq : List PageData → List PageData
by_freq [] = []
by_freq (x ∷ xs) = insert x (by_freq xs)

abbrev Among : List PageData → PageData → Type 0
Among xs e = (j : ℕ) × (get_elem? xs j ≡ some e)

length-insert : (d : PageData) (xs : List PageData) → length (insert d xs) ≡ suc (length xs)
length-insert d [] = refl
length-insert d (x ∷ xs) =
    if_keeps (λ out. length out ≡ suc (suc (length xs))) (leb x.freq d.freq) refl
      (ap suc (length-insert d xs))

-- An entry of either outcome of the test in `insert`.
either-Among :
    (b : Bool) (d x : PageData) (xs rest : List PageData) (i : ℕ) (e : PageData)
    → ((j : ℕ) → get_elem? rest j ≡ some e → Among (d ∷ xs) e)
    → get_elem? (if b then d ∷ x ∷ xs else x ∷ rest) i ≡ some e
    → Among (d ∷ x ∷ xs) e
either-Among true d x xs rest i e later at = (i, at)
either-Among false d x xs rest zero e later at = (1, at)
either-Among false d x xs rest (suc i) e later at = let (j, there) = later i at in behind j there
  where
    behind : (j : ℕ) → get_elem? (d ∷ xs) j ≡ some e → Among (d ∷ x ∷ xs) e
    behind zero there = (0, there)
    behind (suc j) there = (suc (suc j), there)

insert-Among :
    (d : PageData) (xs : List PageData) (i : ℕ) (e : PageData)
    → get_elem? (insert d xs) i ≡ some e
    → Among (d ∷ xs) e
insert-Among d [] i e at = (i, at)
insert-Among d (x ∷ xs) i e at =
    either-Among (leb x.freq d.freq) d x xs (insert d xs) i e
      (λ j there. insert-Among d xs j e there) at

Among-cons :
    (x : PageData) (xs ys : List PageData) (e : PageData)
    → ((j : ℕ) → get_elem? ys j ≡ some e → Among xs e)
    → Among (x ∷ ys) e
    → Among (x ∷ xs) e
Among-cons x xs ys e from (zero, at) = (0, at)
Among-cons x xs ys e from (suc j, at) = let (k, there) = from j at in (suc k, there)

by_freq-IsSorter : IsSorter by_freq
by_freq-IsSorter [] = (refl, λ i d at. (i, at))
by_freq-IsSorter (x ∷ xs) = (
  length-insert x (by_freq xs) ∙ ap suc (by_freq-IsSorter xs).0,
  λ i d at.
      Among-cons x xs (by_freq xs) d (λ j there. (by_freq-IsSorter xs).1 j d there)
        (insert-Among x (by_freq xs) i d at),
)

-- A scale of 1/2.
abbrev half : ℕ → ℕ
half n = n / 2

abbrev second_page : Pentry
second_page = record {
  active = true;
  pc = 200;
  npages = 20;
  pages = replicate max_proc_pages false;
}

second_page-IsEntry : IsEntry second_page
second_page-IsEntry = (refl, λ on. omega arith)

second_pages-IsEntries : IsEntries (replicate 20 second_page)
second_pages-IsEntries = (refl, All-replicate IsEntry 20 second_page second_page-IsEntry)

-- The tables behind the first lines of the first run.
abbrev ready : Memory
ready = initialize static_memory

ready-IsWhole : IsWhole ready
ready-IsWhole = initialize-IsWhole static_memory (inl refl)

pageit-IsSafe_example :
    Ends (Sure IsWhole) (pageit by_freq half (replicate 20 second_page) static_memory)
pageit-IsSafe_example =
    pageit-IsSafe by_freq by_freq-IsSorter half (replicate 20 second_page) static_memory refl
      second_pages-IsEntries (inl refl)

predict_one-predict_two_ways_example :
    predict_one by_freq 3 second_page ready ≡ predict_two_ways by_freq 3 second_page ready
predict_one-predict_two_ways_example =
    predict_one-predict_two_ways by_freq by_freq-IsSorter 3 second_page ready ready-IsWhole
      (omega arith) second_page-IsEntry
