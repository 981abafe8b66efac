-- ===== src/Ints.antt =====
-- Arithmetic on ints: csci3753_mult (assignments/pa1/csci3753_mult.c) and sum_array
-- (recitation/syscall-demo/syscall_demo.c). An int that overflows wraps around, as the compilers that the
-- repository uses make it. copy_to_user is a parameter.
pub mod Exact
use csci_3753_operating_syst.Prelude.{
  ℕ, zero, suc, ◌+◌, ◌-◌, ◌*◌, ◌/◌, ◌%◌, ◌^◌, ◌≤◌, ◌<◌, min, ◌≡◌, refl, sym, ap, ◌∙◌, subst, ◌≢◌,
  ◌↔◌, ◌⊎◌, inl, inr, Bool, true, false, not, ◌&&◌, ◌||◌, Option, none, some, List, [], ◌∷◌, ◌++◌,
  map, arith, dec_lt, ℕ_discrete, ltb, leb, ◌==◌, if◌then◌else◌, ltb→lt, lt→ltb, leb→le, ==_iff,
  tests, Bool-cases, bool_eq, Option-cases, if_keeps, length, get_elem?, get_or, set, take, drop,
  replicate, length-append, length-set, set-set, length-replicate, get_elem?_lt,
  get_elem?-eq-get_or, get_elem?-set_self, get_elem?-set_ne, get_or-set_self, get_or-set_ne,
  length-take, length-drop, take-append-drop, length-map, get_elem?-map, get_elem?_of_lt,
  drop-eq-cons, get_elem?-take, get_or-take, get_or-eq_get_elem?, All, All-set, All-get_or,
  All-take, All-get_elem?, All-replicate,
}
use csci_3753_operating_syst.Prelude.Int.{ℤ, pos, negsuc, ◌+ℤ◌, sub_ℕ}
use csci_3753_operating_syst.Prelude.Word.{to_int}
use csci_3753_operating_syst.Prelude.Opt.{◌>>=◌}

-- The product of two integers.
infixl 70 ◌*ℤ◌
abbrev pub ◌*ℤ◌ : ℤ → ℤ → ℤ
pos m *ℤ pos n = pos (m * n)
pos m *ℤ negsuc n = sub_ℕ 0 (m * (n + 1))
negsuc m *ℤ pos n = sub_ℕ 0 ((m + 1) * n)
negsuc m *ℤ negsuc n = pos ((m + 1) * (n + 1))

-- `csci3753_mult`: the system call's result and what is at `*result` after it. The product is one of ints,
-- and a copy that fails leaves no trace in the result.
module _ {U : Type 0} (copy_to_user : ℤ → U → ℕ × U) where
  unfoldable pub csci3753_mult : ℤ → ℤ → U → ℤ × U
  csci3753_mult number1 number2 user =
      let kernel_result = to_int (number1 *ℤ number2) in
      let (not_copied, user') = copy_to_user kernel_result user in (pos 0, user')

-- The loop of `sum_array` from `a[i]` on, with `n` elements to go; `none` is a read outside the array.
unfoldable pub sum_loop : ℕ → ℕ → List ℤ → ℤ → Option ℤ
sum_loop zero i a sum = some sum
sum_loop (suc n) i a sum = get_elem? a i >>= λ x. sum_loop n (i + 1) a (to_int (sum +ℤ x))

-- `sum_array`
unfoldable pub sum_array : List ℤ → ℕ → Option ℤ
unfolding sum_loop
sum_array a n = sum_loop n 0 a (pos 0)
