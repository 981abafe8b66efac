-- ===== src/Ints/Exact.antt =====
-- When the product of csci3753_mult (assignments/pa1/csci3753_mult.c) and the sum of sum_array
-- (recitation/syscall-demo/syscall_demo.c) are exact.
use csci_3753_operating_syst.Prelude.{
  ℕ, zero, suc, ◌+◌, ◌≤◌, ◌≡◌, refl, sym, ap, ◌∙◌, ◌↔◌, some, List, [], ◌∷◌, arith, length,
  get_elem?, take, drop,
}
use csci_3753_operating_syst.Prelude.Int.{ℤ, pos, ◌+ℤ◌}
use csci_3753_operating_syst.Prelude.Word.{to_int, to_int-add, to_int_exact, IsInt}
use csci_3753_operating_syst.Ints.{csci3753_mult, ◌*ℤ◌, sum_loop, sum_array}

-- With a `copy_to_user` that stores the long that it is given: the user gets the product of the two
-- numbers exactly if an int can hold it.
pub csci3753_mult_lem :
    (copy_to_user : ℤ → ℤ → ℕ × ℤ) (number1 number2 user : ℤ)
    → ((z u : ℤ) → (copy_to_user z u).1 ≡ z)
    → ((csci3753_mult copy_to_user number1 number2 user).1 ≡ number1 *ℤ number2)
      ↔ IsInt (number1 *ℤ number2)
unfolding csci3753_mult
csci3753_mult_lem copy_to_user number1 number2 user stores =
    let exact = to_int_exact (number1 *ℤ number2) in
    let stored = stores (to_int (number1 *ℤ number2)) user in
    (λ e. exact.0 (sym stored ∙ e), λ h. stored ∙ exact.1 h)

-- The sum of the integers, on top of another.
abbrev pub sum_from : ℤ → List ℤ → ℤ
sum_from acc [] = acc
sum_from acc (x ∷ xs) = sum_from (acc +ℤ x) xs

take-drop_step :
    (n i : ℕ) (a : List ℤ)
    → i + suc n ≤ length a
    → (x : ℤ) × (get_elem? a i ≡ some x) × (take (suc n) (drop i a) ≡ x ∷ take n (drop (i + 1) a))
take-drop_step n i [] h = absurd (omega arith)
take-drop_step n zero (x ∷ a) h = (x, refl, refl)
take-drop_step n (suc i) (x ∷ a) h =
    let (y, at, e) = take-drop_step n i a (omega (arith, h)) in
    let next : suc (i + 1) ≡ suc i + 1 = omega arith in
    (y, at, e ∙ ap (λ k. y ∷ take n (drop k (x ∷ a))) next)

sum_loop_lem :
    (n i : ℕ) (a : List ℤ) (acc : ℤ)
    → i + n ≤ length a
    → sum_loop n i a (to_int acc) ≡ some (to_int (sum_from acc (take n (drop i a))))
unfolding sum_loop
sum_loop_lem zero i a acc h = refl
sum_loop_lem (suc n) i a acc h =
    let (x, at, e) = take-drop_step n i a h in
    rw (at, e, to_int-add acc x) (sum_loop_lem n (i + 1) a (acc +ℤ x) (omega (arith, h)))

-- `sum_array` on at most as many elements as there are reads inside the array, and gives their sum
-- wrapped to an int, whatever the sums on the way are: the sum itself exactly if an int can hold it.
pub sum_array_lem :
    (a : List ℤ) (n : ℕ)
    → n ≤ length a
    → let sum = sum_from (pos 0) (take n a) in
      (sum_array a n ≡ some (to_int sum)) × ((to_int sum ≡ sum) ↔ IsInt sum)
unfolding sum_array
sum_array_lem a n h = (
  ap (λ z. sum_loop n 0 a z) (sym ((to_int_exact (pos 0)).1 (omega arith)))
      ∙ sum_loop_lem n 0 a (pos 0) (omega (arith, h)),
  to_int_exact (sum_from (pos 0) (take n a)),
)
