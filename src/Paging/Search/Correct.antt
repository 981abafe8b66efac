-- ===== src/Paging/Search/Correct.antt =====
-- On a table that is sorted the search finds an entry exactly when there is one.
use csci_3753_operating_syst.Prelude.{
  ℕ, zero, suc, ◌+◌, ◌-◌, ◌/◌, ◌≤◌, ◌<◌, ◌≡◌, refl, ◌≢◌, ◌⊎◌, inl, inr, Option, none, some, List,
  arith, ltb, ◌==◌, Bool-cases, length, get_elem?, get_or, get_elem?-eq-get_or,
}
use csci_3753_operating_syst.Paging.Search.{pair, probe, settle, find_key}
use csci_3753_operating_syst.Prelude.Opt.{◌>>=◌}

-- The first `n` entries increase.
pub record IsSorted (keys : List ℕ) (n : ℕ) : Type 0 where
  pub inside : n ≤ length keys
  pub sorted : (i j : ℕ) → i < j → j < n → get_or keys i 0 < get_or keys j 0

-- What a search for `pc` may answer.
pub data Answer (keys : List ℕ) (n pc : ℕ) : Option (Option ℕ) → Type 0 where
  found : (i : ℕ) → i < n → get_or keys i 0 ≡ pc → Answer keys n pc (some (some i))
  absent : ((i : ℕ) → i < n → get_or keys i 0 ≢ pc) → Answer keys n pc (some none)

module _ (keys : List ℕ) (n pc : ℕ) (h : IsSorted keys n) where
  read : (i : ℕ) → i < n → get_elem? keys i ≡ some (get_or keys i 0)
  read i lt = get_elem?-eq-get_or keys i 0 (omega (arith, h.inside))

  -- No entry outside `lo .. hi` is `pc`.
  Outside : ℕ → ℕ → Type 0
  Outside lo hi = (i : ℕ) → i < n → (i < lo) ⊎ (hi < i) → get_or keys i 0 ≢ pc

  settle_pair :
      (lo hi : ℕ)
      → lo ≤ hi
      → hi < n
      → hi ≤ lo + 1
      → Outside lo hi
      → Answer keys n pc (settle keys pc (pair lo hi))
  unfolding settle Outside
  settle_pair lo hi le lt close out =
      rw (read lo (omega arith)) (elim (Bool-cases (pc == get_or keys lo 0)) [
        | inl e ↦ rw e (found lo (omega arith) (ground arith))
        | inr ne ↦
            rw (ne, read hi lt)
              (elim (Bool-cases (pc == get_or keys hi 0)) [
                | inl e' ↦ rw e' (found hi lt (ground arith))
                | inr ne' ↦ rw ne' (absent (λ i il e'. ground (arith, out i il)))
              ])
      ])

  Outside-lower :
      (lo mid hi : ℕ) → mid < n → pc < get_or keys mid 0 → Outside lo hi → Outside lo mid
  unfolding Outside
  Outside-lower lo mid hi lt less out i il where_is e = elim where_is [
    | inl a ↦ out i il (inl a) e
    | inr b ↦ omega (arith, h.sorted mid i b il)
  ]

  Outside-upper :
      (lo mid hi : ℕ) → mid < n → get_or keys mid 0 < pc → Outside lo hi → Outside mid hi
  unfolding Outside
  Outside-upper lo mid hi lt less out i il where_is e = elim where_is [
    | inl a ↦ omega (arith, h.sorted i mid a lt)
    | inr b ↦ out i il (inr b) e
  ]

  probe_answer :
      (fuel lo hi : ℕ)
      → lo ≤ hi
      → hi < n
      → hi - lo < fuel
      → Outside lo hi
      → Answer keys n pc (probe fuel keys pc lo hi >>= settle keys pc)
  unfolding probe settle
  probe_answer zero lo hi le lt m out = absurd (omega arith)
  probe_answer (suc fuel) lo hi le lt m out =
      let mid = (lo + hi) / 2 in
      let key = get_or keys mid 0 in
      elim (Bool-cases (ltb (lo + 1) hi)) [
        | inr stop ↦ rw stop (settle_pair lo hi le lt (ground arith) out)
        | inl go ↦
            let room : lo + 1 < hi = ground arith in
            rw (go, read mid (omega arith))
              (elim (Bool-cases (pc == key)) [
                | inl e ↦ rw e (found mid (omega arith) (ground arith))
                | inr ne ↦ rw ne (elim (Bool-cases (ltb pc key)) [
                  | inl less ↦ rw less (
                      probe_answer fuel lo mid (omega arith) (omega arith) (omega arith)
                        (Outside-lower lo mid hi (omega arith) (ground arith) out))
                  | inr more ↦ rw more (
                      probe_answer fuel mid hi (omega arith) lt (omega arith)
                        (Outside-upper lo mid hi (omega arith) (ground arith) out))
                ])
              ])
      ]

-- On a sorted table with at least one entry the search faults on no read, ends within its fuel,
-- and answers with a place of `pc` if there is one, and with none only if there is none.
pub find_key_answer :
    (keys : List ℕ) (n pc : ℕ) → IsSorted keys n → 0 < n → Answer keys n pc (find_key keys n pc)
unfolding find_key Outside
find_key_answer keys zero pc h lt = absurd (omega arith)
find_key_answer keys (suc m) pc h lt =
    probe_answer keys (suc m) pc h (suc m) 0 m (omega arith) (omega arith) (omega arith)
      (λ i il w e. omega arith)

-- The two forms of an answer.
pub Answer-cases :
    {keys : List ℕ} {n pc : ℕ} {r : Option (Option ℕ)}
    → Answer keys n pc r
    → ((i : ℕ) × (r ≡ some (some i)) × (i < n) × (get_or keys i 0 ≡ pc))
      ⊎ ((r ≡ some none) × ((i : ℕ) → i < n → get_or keys i 0 ≢ pc))
Answer-cases (found i lt e) = inl (i, refl, lt, e)
Answer-cases (absent none_of) = inr (refl, none_of)
