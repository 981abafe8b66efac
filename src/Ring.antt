-- ===== src/Ring.antt =====
-- Items that lie in a circular array: shared by the two bounded buffers of the repository
-- (assignments/pa4/array.c and the queue of recitation/threads/thread_test.c).
use csci_3753_operating_syst.Prelude.{
  ℕ, zero, suc, ◌+◌, ◌-◌, ◌%◌, ◌<◌, ◌≡◌, refl, sym, ap, ◌∙◌, ◌≢◌, List, [], ◌∷◌, ◌++◌, arith,
  dec_lt, length, get_or, set, get_or-set_self, get_or-set_ne,
}
use mathlib.Core.Path.{ap₂}
use native.Mathlib.Nat.{mod-eq_of_lt, mod-eq-sub-mod, mod-add-mod}

-- `(at + 1) % cap`
abbrev pub after : ℕ → ℕ → ℕ
after cap at = (at + 1) % cap

module _ {ℓ} {A : Type ℓ} (cap : ℕ) (d : A) where
  -- The `n` items from index `at` on, round the array.
  abbrev pub items : List A → ℕ → ℕ → List A
  items arr at zero = []
  items arr at (suc n) = get_or arr at d ∷ items arr (after cap at) n

  pub length-items : (arr : List A) (at n : ℕ) → length (items arr at n) ≡ n
  length-items arr at zero = refl
  length-items arr at (suc n) = ap suc (length-items arr (after cap at) n)

-- From `at`, fewer than `cap` steps lead to another index.
round_ne : (cap at k : ℕ) → at < cap → k + 1 < cap → (at + (k + 1)) % cap ≢ at
round_ne cap at k inside small = elim (dec_lt (at + (k + 1)) cap) [
  | yes short ↦ omega (arith, mod-eq_of_lt short)
  | no over ↦
      let fold : (at + (k + 1)) % cap ≡ (at + (k + 1) - cap) % cap = mod-eq-sub-mod (omega arith) in
      let tiny : (at + (k + 1) - cap) % cap ≡ at + (k + 1) - cap = mod-eq_of_lt (omega arith) in
      omega arith
]

round_step : (cap at n : ℕ) → (at + suc n) % cap ≡ (after cap at + n) % cap
round_step cap at n = let e : at + suc n ≡ at + 1 + n = omega arith in rw (e, mod-add-mod) refl

module _ {ℓ} {A : Type ℓ} (cap : ℕ) (d : A) where
  -- A write at the index behind `n` items extends them by the item.
  pub items-push :
      (arr : List A) (x : A) (n at i : ℕ)
      → length arr ≡ cap
      → at < cap
      → n < cap
      → i ≡ (at + n) % cap
      → items cap d (set arr i x) at (suc n) ≡ items cap d arr at n ++ (x ∷ [])
  items-push arr x zero at i len inside room e =
      let here : i ≡ at = e ∙ mod-eq_of_lt (omega arith) ∙ omega arith in
      rw here (ap (λ v. v ∷ []) (get_or-set_self arr at x d (omega arith)))
  items-push arr x (suc n) at i len inside room e =
      let other : i ≢ at = λ same. round_ne cap at n inside (omega arith) (
        let step : (at + (n + 1)) % cap ≡ (at + suc n) % cap =
          ap (λ k. (at + k) % cap) (omega arith) in
        step ∙ sym e ∙ same) in
      ap₂ ◌∷◌ (get_or-set_ne arr i at x d other) (
        items-push arr x n (after cap at) i len (omega arith) (omega arith)
          (e ∙ round_step cap at n))

module _ {ℓ} {A : Type ℓ} (cap : ℕ) (d : A) where
  -- One item more is the one behind the others.
  pub items-snoc :
      (arr : List A) (n at : ℕ)
      → at < cap
      → items cap d arr at (suc n) ≡ items cap d arr at n ++ (get_or arr ((at + n) % cap) d ∷ [])
  items-snoc arr zero at inside =
      let here : (at + 0) % cap ≡ at = ap (λ k. k % cap) (omega arith) ∙ mod-eq_of_lt inside in
      rw here refl
  items-snoc arr (suc n) at inside =
      ap (λ xs. get_or arr at d ∷ xs)
        (items-snoc arr n (after cap at) (omega arith)
          ∙ ap (λ k. items cap d arr (after cap at) n ++ (get_or arr k d ∷ []))
              (sym (round_step cap at n)))

  -- A write at the index behind `n` items leaves them alone.
  pub items-set :
      (arr : List A) (x : A) (n at i : ℕ)
      → at < cap
      → n < cap
      → i ≡ (at + n) % cap
      → items cap d (set arr i x) at n ≡ items cap d arr at n
  items-set arr x zero at i inside room e = refl
  items-set arr x (suc n) at i inside room e =
      let other : i ≢ at = λ same. round_ne cap at n inside (omega arith) (
        let step : (at + (n + 1)) % cap ≡ (at + suc n) % cap =
          ap (λ k. (at + k) % cap) (omega arith) in
        step ∙ sym e ∙ same) in
      ap₂ ◌∷◌ (get_or-set_ne arr i at x d other)
        (items-set arr x n (after cap at) i (omega arith) (omega arith) (e ∙ round_step cap at n))
