-- ===== src/Prelude/Writes.antt =====
-- A write into an array, read back: the laws in the form of a test on the index.
use csci_3753_operating_syst.Prelude.{
  ℕ, ◌<◌, ◌≡◌, subst, true, false, some, List, arith, ℕ_discrete, ◌==◌, if◌then◌else◌, length,
  get_elem?, get_or, set, get_elem?-set_self, get_elem?-set_ne, get_or-set_self, get_or-set_ne,
}

module _ {ℓ} {A : Type ℓ} where
  pub get_or-set :
      (xs : List A) (i j : ℕ) (v d : A)
      → i < length xs
      → get_or (set xs i v) j d ≡ (if i == j then v else get_or xs j d)
  get_or-set xs i j v d h = elim (ℕ_discrete i j) [
    | yes e ↦
        let same : (i == j) ≡ true = ground arith in
        rw same (subst (λ k. get_or (set xs i v) k d ≡ v) e (get_or-set_self xs i v d h))
    | no ne ↦ let other : (i == j) ≡ false = ground arith in rw other (get_or-set_ne xs i j v d ne)
  ]

  pub get_elem?-set :
      (xs : List A) (i j : ℕ) (v : A)
      → i < length xs
      → get_elem? (set xs i v) j ≡ (if i == j then some v else get_elem? xs j)
  get_elem?-set xs i j v h = elim (ℕ_discrete i j) [
    | yes e ↦
        let same : (i == j) ≡ true = ground arith in
        rw same (subst (λ k. get_elem? (set xs i v) k ≡ some v) e (get_elem?-set_self xs i v h))
    | no ne ↦ let other : (i == j) ≡ false = ground arith in rw other (get_elem?-set_ne xs i j v ne)
  ]
