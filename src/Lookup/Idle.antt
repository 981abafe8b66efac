-- ===== src/Lookup/Idle.antt =====
-- Threads of assignments/pa6/multi-lookup.c that wait for an array, and where to find one.
use csci_3753_operating_syst.Prelude.{
  ℕ, zero, suc, ◌<◌, ◌≡◌, refl, ◌⊎◌, inl, inr, true, some, List, [], ◌∷◌, arith, get_elem?, All,
}
use csci_3753_operating_syst.Lookup.{
  Text, Requester, taking, reading, logging, left, Resolver, waiting, writing, gone, all_left,
  all_gone,
}
use csci_3753_operating_syst.Lookup.Pool.{Pool, pill}
use csci_3753_operating_syst.Lookup.Account.{live, alive}
use csci_3753_operating_syst.Prelude.Sums.{total}

pub all_left_lem : (threads : List Requester) → total live threads ≡ 0 → all_left threads ≡ true
unfolding all_left total
all_left_lem [] h = refl
all_left_lem (left n ∷ threads) h = all_left_lem threads (omega (arith, h))
all_left_lem (taking n ∷ threads) h = absurd (omega arith)
all_left_lem (reading n lines ∷ threads) h = absurd (omega arith)
all_left_lem (logging n host lines ∷ threads) h = absurd (omega arith)

pub all_gone_lem : (threads : List Resolver) → total alive threads ≡ 0 → all_gone threads ≡ true
unfolding all_gone total
all_gone_lem [] h = refl
all_gone_lem (gone n ∷ threads) h = all_gone_lem threads (omega (arith, h))
all_gone_lem (waiting n ∷ threads) h = absurd (omega arith)
all_gone_lem (writing n host ip ∷ threads) h = absurd (omega arith)

-- A thread that is about to get from its array, or has returned.
abbrev pub AtGet : Requester → Type 0
AtGet (taking n) = Unit
AtGet (left n) = Unit
AtGet _ = ⊥

abbrev pub NoResult : Resolver → Type 0
NoResult (writing n host ip) = ⊥
NoResult _ = Unit

-- The first entry of a list that has not `P`, if not all have it.
pub find_other :
    {A : Type 0} (P : A → Type 0)
    → ((a : A) → P a ⊎ (¬ P a))
    → (xs : List A) → All P xs ⊎ ((i : ℕ) × (a : A) × (get_elem? xs i ≡ some a) × (¬ P a))
find_other P dec [] = inl tt
find_other P dec (x ∷ xs) = elim (dec x) [
  | inr other ↦ inr (0, x, refl, other)
  | inl has ↦ elim (find_other P dec xs) [
    | inl all ↦ inl (has, all)
    | inr found ↦ let (i, a, at, other) = found in inr (suc i, a, at, other)
  ]
]

pub idle_cases : (r : Requester) → AtGet r ⊎ (¬ AtGet r)
idle_cases (taking n) = inl tt
idle_cases (left n) = inl tt
idle_cases (reading n lines) = inr (λ e. e)
idle_cases (logging n host lines) = inr (λ e. e)

pub quiet_cases : (r : Resolver) → NoResult r ⊎ (¬ NoResult r)
quiet_cases (waiting n) = inl tt
quiet_cases (gone n) = inl tt
quiet_cases (writing n host ip) = inr (λ e. e)

-- Among idle threads that have not all returned one gets.
pub find_taking :
    (threads : List Requester)
    → All AtGet threads
    → 0 < total live threads
    → (i : ℕ) × (n : ℕ) × (get_elem? threads i ≡ some (taking n))
unfolding total
find_taking [] h lt = absurd (omega arith)
find_taking (taking n ∷ threads) h lt = (0, n, refl)
find_taking (left n ∷ threads) h lt =
    let (i, m, at) = find_taking threads h.1 (omega (arith, lt)) in (suc i, m, at)
find_taking (reading n lines ∷ threads) h lt = absurd (h.0)
find_taking (logging n host lines ∷ threads) h lt = absurd (h.0)

pub find_waiting :
    (threads : List Resolver)
    → All NoResult threads
    → 0 < total alive threads
    → (i : ℕ) × (n : ℕ) × (get_elem? threads i ≡ some (waiting n))
unfolding total
find_waiting [] h lt = absurd (omega arith)
find_waiting (waiting n ∷ threads) h lt = (0, n, refl)
find_waiting (gone n ∷ threads) h lt =
    let (i, m, at) = find_waiting threads h.1 (omega (arith, lt)) in (suc i, m, at)
find_waiting (writing n host ip ∷ threads) h lt = absurd (h.0)

-- An array with something in it has a thread that will take it.
pub some_thread :
    (Good : Text → Type 0) (x : Text) (xs : List Text) (n unsent size : ℕ)
    → 0 < size
    → Pool Good (x ∷ xs) n unsent size
    → 0 < n
unfolding total
some_thread Good x xs zero unsent size lt h =
    let e : pill x ≡ 1 = rw (h.spent lt).0 refl in absurd (omega (arith, h.count, e))
some_thread Good x xs (suc n) unsent size lt h = omega arith
