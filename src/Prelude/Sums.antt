-- ===== src/Prelude/Sums.antt =====
-- The sum of a weight over a list, and what a write does to it.

use csci_3753_operating_syst.Prelude.{
  ℕ, zero, suc, ◌+◌, ◌≤◌, ◌≡◌, refl, ap, ◌≢◌, some, List, [], ◌∷◌, ◌++◌, arith, get_elem?, set,
  replicate,
}

module _ {ℓ} {A : Type ℓ} (w : A → ℕ) where
  unfoldable pub total : List A → ℕ
  total [] = 0
  total (x ∷ xs) = w x + total xs

  pub total-set :
      (xs : List A) (i : ℕ) (old new : A)
      → get_elem? xs i ≡ some old
      → total (set xs i new) + w old ≡ total xs + w new
  unfolding total
  total-set [] i old new h = absurd (cc)
  total-set (x ∷ xs) zero old new h = ground arith
  total-set (x ∷ xs) (suc i) old new h = omega (arith, total-set xs i old new h)

  pub total-elem-le : (xs : List A) (i : ℕ) (v : A) → get_elem? xs i ≡ some v → w v ≤ total xs
  unfolding total
  total-elem-le [] i v h = absurd (cc)
  total-elem-le (x ∷ xs) zero v h = ground arith
  total-elem-le (x ∷ xs) (suc i) v h = omega (arith, total-elem-le xs i v h)

  pub total-append : (xs ys : List A) → total (xs ++ ys) ≡ total xs + total ys
  unfolding total
  total-append [] ys = omega arith
  total-append (x ∷ xs) ys = omega (arith, total-append xs ys)

  pub total-replicate_zero : (n : ℕ) (a : A) → w a ≡ 0 → total (replicate n a) ≡ 0
  unfolding total
  total-replicate_zero zero a h = refl
  total-replicate_zero (suc n) a h = omega (arith, total-replicate_zero n a h)

  pub total-two :
      (xs : List A) (i j : ℕ) (a b : A)
      → i ≢ j
      → get_elem? xs i ≡ some a
      → get_elem? xs j ≡ some b
      → w a + w b ≤ total xs
  unfolding total
  total-two [] i j a b ne h h' = absurd (cc)
  total-two (x ∷ xs) zero zero a b ne h h' = absurd (ne refl)
  total-two (x ∷ xs) zero (suc j) a b ne h h' = ground (arith, total-elem-le xs j b h')
  total-two (x ∷ xs) (suc i) zero a b ne h h' = ground (arith, total-elem-le xs i a h)
  total-two (x ∷ xs) (suc i) (suc j) a b ne h h' =
      omega (arith, total-two xs i j a b (λ e. ne (ap suc e)) h h')
