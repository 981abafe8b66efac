-- ===== src/Prelude/Indexed.antt =====
-- A predicate of every entry of an array and its index.
use csci_3753_operating_syst.Prelude.{
  ℕ, zero, suc, ◌+◌, ◌≤◌, ◌≡◌, subst, some, List, [], ◌∷◌, map, arith, get_elem?, set, replicate,
}

module _ {ℓ κ} {A : Type ℓ} (P : ℕ → A → Type κ) where
  abbrev pub AllAt : ℕ → List A → Type κ
  AllAt i [] = Unit
  AllAt i (x ∷ xs) = P i x × AllAt (suc i) xs

  pub AllAt-get_elem? :
      (i : ℕ) (xs : List A) (j : ℕ) (x : A) → AllAt i xs → get_elem? xs j ≡ some x → P (i + j) x
  AllAt-get_elem? i [] j x h e = absurd (cc)
  AllAt-get_elem? i (y ∷ ys) zero x h e =
      let same : y ≡ x = cc in
      let k : i ≡ i + 0 = omega arith in subst (λ n. P n x) k (subst (P i) same h.0)
  AllAt-get_elem? i (y ∷ ys) (suc j) x h e =
      let k : suc i + j ≡ i + suc j = omega arith in
      subst (λ n. P n x) k (AllAt-get_elem? (suc i) ys j x h.1 e)

  pub AllAt-set :
      (i : ℕ) (xs : List A) (j : ℕ) (x : A) → AllAt i xs → P (i + j) x → AllAt i (set xs j x)
  AllAt-set i [] j x h p = tt
  AllAt-set i (y ∷ ys) zero x h p = let k : i + 0 ≡ i = omega arith in (subst (λ n. P n x) k p, h.1)
  AllAt-set i (y ∷ ys) (suc j) x h p =
      let k : i + suc j ≡ suc i + j = omega arith in
      (h.0, AllAt-set (suc i) ys j x h.1 (subst (λ n. P n x) k p))

  pub AllAt-map :
      (f : A → A) (i : ℕ) (xs : List A)
      → ((j : ℕ) (x : A) → P j x → P j (f x))
      → AllAt i xs
      → AllAt i (map f xs)
  AllAt-map f i [] keep h = tt
  AllAt-map f i (x ∷ xs) keep h = (keep i x h.0, AllAt-map f (suc i) xs keep h.1)

  pub AllAt-replicate : (n i : ℕ) (x : A) → ((j : ℕ) → i ≤ j → P j x) → AllAt i (replicate n x)
  AllAt-replicate zero i x h = tt
  AllAt-replicate (suc n) i x h =
      (h i (omega arith), AllAt-replicate n (suc i) x (λ j le. h j (omega arith)))

  -- The two for an array from its start.
  pub AllAt-get_elem?_start :
      (xs : List A) (j : ℕ) (x : A) → AllAt 0 xs → get_elem? xs j ≡ some x → P j x
  AllAt-get_elem?_start xs j x h e =
      let k : 0 + j ≡ j = omega arith in subst (λ n. P n x) k (AllAt-get_elem? 0 xs j x h e)

  pub AllAt-set_start : (xs : List A) (j : ℕ) (x : A) → AllAt 0 xs → P j x → AllAt 0 (set xs j x)
  AllAt-set_start xs j x h p =
      let k : j ≡ 0 + j = omega arith in AllAt-set 0 xs j x h (subst (λ n. P n x) k p)
