-- ===== src/Prelude/Word.antt =====
-- C's int in a long: the integers of 32 bits, with two's complement.
use csci_3753_operating_syst.Prelude.{
  ℕ, suc, ◌+◌, ◌-◌, ◌%◌, ◌^◌, ◌<◌, ◌≡◌, refl, sym, ap, ◌∙◌, subst, ◌↔◌, true, false, arith, dec_lt,
  ltb, leb, if◌then◌else◌, lt→ltb,
}
use csci_3753_operating_syst.Prelude.Int.{ℤ, pos, negsuc, ◌+ℤ◌, sub_ℕ}

-- The low 32 bits.
unfoldable pub low : ℤ → ℕ
low (pos n) = n % 2 ^ 32
low (negsuc n) = 2 ^ 32 - 1 - n % 2 ^ 32

-- The int with these 32 bits.
unfoldable pub signed : ℕ → ℤ
signed m = if ltb m (2 ^ 31) then pos m else negsuc (2 ^ 32 - 1 - m)

-- A long that is stored in an int.
unfoldable pub to_int : ℤ → ℤ
unfolding low signed
to_int z = signed (low z)

-- An integer that an int can hold.
abbrev pub IsInt : ℤ → Type 0
IsInt (pos n) = n < 2 ^ 31
IsInt (negsuc n) = n < 2 ^ 31

low_bound : (z : ℤ) → low z < 2 ^ 32
unfolding low
low_bound (pos n) = omega arith
low_bound (negsuc n) = omega arith

low-sub_ℕ : (a b : ℕ) → low (sub_ℕ a b) ≡ (a + (2 ^ 32 - b % 2 ^ 32)) % 2 ^ 32
unfolding low
low-sub_ℕ a b = elim (dec_lt a b) [
  | yes lt ↦ let e : leb b a ≡ false = ground (arith, lt) in rw e (omega (arith, lt))
  | no ge ↦ let e : leb b a ≡ true = ground (arith, ge) in rw e (omega (arith, ge))
]

low-add : (a b : ℤ) → low (a +ℤ b) ≡ (low a + low b) % 2 ^ 32
unfolding low
low-add (pos m) (pos n) = low-sub_ℕ (m + n) 0 ∙ omega arith
low-add (pos m) (negsuc n) = low-sub_ℕ (m + 0) (0 + suc n) ∙ omega arith
low-add (negsuc m) (pos n) = low-sub_ℕ (0 + n) (suc m + 0) ∙ omega arith
low-add (negsuc m) (negsuc n) = low-sub_ℕ 0 (suc m + suc n) ∙ omega arith

low-signed : (m : ℕ) → m < 2 ^ 32 → low (signed m) ≡ m
unfolding low signed
low-signed m h = elim (dec_lt m (2 ^ 31)) [
  | yes lt ↦ rw (lt→ltb m (2 ^ 31) lt) (omega arith)
  | no ge ↦ let e : ltb m (2 ^ 31) ≡ false = ground (arith, ge) in rw e (omega (arith, ge))
]

-- A sum that is stored in an int at each step.
pub to_int-add : (a b : ℤ) → to_int (to_int a +ℤ b) ≡ to_int (a +ℤ b)
unfolding to_int
to_int-add a b = ap signed (
    low-add (signed (low a)) b
    ∙ ap (λ k. (k + low b) % 2 ^ 32) (low-signed (low a) (low_bound a))
    ∙ sym (low-add a b))

signed-IsInt : (m : ℕ) → m < 2 ^ 32 → IsInt (signed m)
unfolding signed
signed-IsInt m h = elim (dec_lt m (2 ^ 31)) [
  | yes lt ↦ rw (lt→ltb m (2 ^ 31) lt) lt
  | no ge ↦ let e : ltb m (2 ^ 31) ≡ false = ground (arith, ge) in rw e (omega (arith, ge, h))
]

to_int_small : (z : ℤ) → IsInt z → to_int z ≡ z
unfolding to_int low signed
to_int_small (pos n) h =
    let e : n % 2 ^ 32 ≡ n = omega (arith, h) in rw (e, lt→ltb n (2 ^ 31) h) refl
to_int_small (negsuc n) h =
    let e : n % 2 ^ 32 ≡ n = omega (arith, h) in
    let f : ltb (2 ^ 32 - 1 - n) (2 ^ 31) ≡ false = ground (arith, h) in
    let g : 2 ^ 32 - 1 - (2 ^ 32 - 1 - n) ≡ n = omega (arith, h) in rw (e, f, g) refl

-- An int holds an integer exactly if it is in its range.
pub to_int_exact : (z : ℤ) → (to_int z ≡ z) ↔ IsInt z
unfolding to_int
to_int_exact z = (λ e. subst IsInt e (signed-IsInt (low z) (low_bound z)), λ h. to_int_small z h)
