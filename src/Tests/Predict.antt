-- ===== src/Tests/Predict.antt =====
-- The theorems on the predictive pager (assignments/pa8/pager-predict.c) on concrete tables.
use csci_3753_operating_syst.Prelude.{
  ℕ, zero, suc, ◌<◌, ◌≡◌, Bool, true, false, none, List, [], ◌∷◌, arith, replicate,
}
use csci_3753_operating_syst.Paging.Pager.Predict.{int_max, Pending}
use csci_3753_operating_syst.Paging.Pager.Predict.Recent.{Evictable, EvictableOf}

abbrev quiet : Pending
quiet = record { page_start = none; page_end = none; waiting = false; is_pagein = none }

abbrev row : List Bool
row = true ∷ false ∷ true ∷ []

abbrev used : List ℕ
used = 7 ∷ 2 ∷ 5 ∷ []

used-small : (k time : ℕ) → Evictable row (replicate 3 quiet) used k time → time < int_max
used-small zero time e = omega (arith, e.2)
used-small (suc zero) time e = absurd (false_true e.0)
  where
    false_true : false ≡ true → ⊥
    false_true e = cc
used-small (suc (suc zero)) time e = omega (arith, e.2)
used-small (suc (suc (suc k))) time e = absurd e

rows-small :
    (j k time : ℕ)
    → EvictableOf (row ∷ []) (replicate 3 quiet ∷ []) (used ∷ []) j k time
    → time < int_max
rows-small zero k time e = used-small k time e
rows-small (suc j) k time e = absurd e
