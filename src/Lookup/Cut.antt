-- ===== src/Lookup/Cut.antt =====
-- Where assignments/pa6/multi-lookup.c cuts a string to the size of its buffer.
use csci_3753_operating_syst.Prelude.{
  ℕ, zero, suc, ◌≤◌, ◌≡◌, refl, sym, ap, subst, inl, inr, true, false, ◌&&◌, List, [], ◌∷◌, arith,
  ◌==◌, tests, Bool-cases, length, take,
}
use csci_3753_operating_syst.Lookup.{Text, poison, is_poison, same_text}

-- A string that is short enough is not cut.
pub take_all : {A : Type 0} (n : ℕ) (xs : List A) → length xs ≤ n → take n xs ≡ xs
take_all zero [] le = refl
take_all (suc n) [] le = refl
take_all zero (x ∷ xs) le = absurd (omega arith)
take_all (suc n) (x ∷ xs) le = ap (λ ys. x ∷ ys) (take_all n xs (omega arith))

pub same_text_lem : (a b : Text) → same_text a b ≡ true → a ≡ b
same_text_lem [] [] h = refl
same_text_lem [] (y ∷ ys) h = absurd (cc)
same_text_lem (x ∷ xs) [] h = absurd (cc)
same_text_lem (x ∷ xs) (y ∷ ys) h = elim (Bool-cases (x == y)) [
  | inl same ↦
      let h' : same_text xs ys ≡ true = rw⁻¹ (ap (λ b. b && same_text xs ys) same) h in
      let e : x ≡ y = grind (tests, same) in let e' = same_text_lem xs ys h' in cc
  | inr other ↦ let h' : false ≡ true = rw⁻¹ (ap (λ b. b && same_text xs ys) other) h in absurd (cc)
]

-- The pill is not cut.
pub take-poison : (n : ℕ) (x : Text) → 5 ≤ n → is_poison x ≡ true → take n x ≡ x
unfolding is_poison
take-poison n x le h =
    let e = same_text_lem x poison h in subst (λ y. take n y ≡ y) (sym e) (take_all n poison le)
