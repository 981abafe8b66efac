-- ===== src/Counters/Finish.antt =====
-- inc_with_lock of recitation/threads/thread_test.c ends with the exact count: how far its threads are from the end, and that
-- one can always go on.
use csci_3753_operating_syst.Prelude.{
  ℕ, zero, suc, ◌+◌, ◌-◌, ◌*◌, ◌≤◌, ◌<◌, ◌≡◌, refl, ap, ◌∙◌, subst, ◌≢◌, ◌⊎◌, inl, inr, true, false,
  some, List, [], ◌∷◌, arith, ℕ_discrete, ltb, Bool-cases, length, get_elem?, replicate, length-set,
  length-replicate, All,
}
use csci_3753_operating_syst.Counters.{
  Memory, Worker, at_loop, locked, loaded, added, stored, finished, inc_with_lock, Machine, Step,
  Steps, run, stay, next, created,
}
use csci_3753_operating_syst.Counters.Locked.{
  created-IsCounted, Steps-IsCounted, inside, stores, Held, bit, IsCounted, at_loop_inv,
  reached-IsCounted,
}
use csci_3753_operating_syst.Prelude.Sums.{total, total-set}

-- How many accesses a thread still makes.
abbrev pub left : ℕ → Worker → ℕ
left iterations (at_loop i) = 5 * (iterations - i) + 1
left iterations (locked i) = 5 * (iterations - i)
left iterations (loaded i value) = 5 * (iterations - i) - 1
left iterations (added i value) = 5 * (iterations - i) - 2
left iterations (stored i) = 5 * (iterations - i) - 3
left iterations finished = 0

left_inv :
    (n : ℕ) (x y : Worker × Memory) (k : ℕ)
    → some x ≡ some y
    → left n x.0 + 1 ≡ k
    → left n y.0 + 1 ≡ k
left_inv n x y k e h =
    let same : x ≡ y = cc in subst (λ (z : Worker × Memory). left n z.0 + 1 ≡ k) same h

-- Each access is one fewer.
left_step :
    (n : ℕ) (t : Worker) (m : Memory) (y : Worker × Memory)
    → Held n m.counter t
    → inc_with_lock n t m ≡ some y
    → left n y.0 + 1 ≡ left n t
unfolding inc_with_lock
left_step n (at_loop k) m y h e =
    elim (at_loop_inv (ltb k n) m.g_lock (locked k, record m { g_lock = true }) (finished, m) y e) [
      | inl (more, free, e') ↦
          left_inv n (locked k, record m { g_lock = true }) y (left n (at_loop k)) e' refl
      | inr (done, e') ↦
          left_inv n (finished, m) y (left n (at_loop k)) e' (ground (arith, h, done))
    ]
left_step n (locked k) m y h e =
    left_inv n (loaded k m.counter, m) y (left n (locked k)) e (omega (arith, h))
left_step n (loaded k v) m y h e =
    left_inv n (added k (v + 1), m) y (left n (loaded k v)) e (omega (arith, h))
left_step n (added k v) m y h e =
    left_inv n (stored k, record m { counter = v }) y (left n (added k v)) e (omega (arith, h))
left_step n (stored k) m y h e =
    left_inv n (at_loop (k + 1), record m { g_lock = false }) y (left n (stored k)) e
      (omega (arith, h))
left_step n finished m y h e = absurd (cc)

-- An access that can be made: a thread inside always has one, and every other one while the lock is free.
can_go :
    (n : ℕ) (t : Worker) (m : Memory)
    → t ≢ finished
    → (inside t ≡ 1) ⊎ (m.g_lock ≡ false)
    → (y : Worker × Memory) × (inc_with_lock n t m ≡ some y)
unfolding inc_with_lock
can_go n (at_loop k) m ne (inl one) = absurd (omega (arith, one))
can_go n (at_loop k) m ne (inr free) = elim (Bool-cases (ltb k n)) [
  | inl more ↦ ((locked k, record m { g_lock = true }), rw (more, free) refl)
  | inr done ↦ ((finished, m), rw done refl)
]
can_go n (locked k) m ne h = ((loaded k m.counter, m), refl)
can_go n (loaded k v) m ne h = ((added k (v + 1), m), refl)
can_go n (added k v) m ne h = ((stored k, record m { counter = v }), refl)
can_go n (stored k) m ne h = ((at_loop (k + 1), record m { g_lock = false }), refl)
can_go n finished m ne h = absurd (ne refl)

unfinished :
    (ts : List Worker)
    → All (λ t. t ≡ finished) ts
      ⊎ (i : ℕ) × (t : Worker) × (get_elem? ts i ≡ some t) × (t ≢ finished)
unfinished [] = inl tt
unfinished (t ∷ ts) = elim (is_finished t) [
  | no ne ↦ inr (0, t, refl, ne)
  | yes e ↦ elim (unfinished ts) [
    | inl all ↦ inl (e, all)
    | inr (i, u, at, ne) ↦ inr (suc i, u, at, ne)
  ]
]
  where
    is_finished : (t : Worker) → Dec (t ≡ finished)
    is_finished finished = yes refl
    is_finished (at_loop i) = no (λ e. cc)
    is_finished (locked i) = no (λ e. cc)
    is_finished (loaded i v) = no (λ e. cc)
    is_finished (added i v) = no (λ e. cc)
    is_finished (stored i) = no (λ e. cc)

someone_inside :
    (ts : List Worker)
    → 0 < total inside ts
    → (i : ℕ) × (t : Worker) × (get_elem? ts i ≡ some t) × (inside t ≡ 1)
unfolding total
someone_inside [] h = absurd (omega arith)
someone_inside (t ∷ ts) h = elim (ℕ_discrete (inside t) 0) [
  | no ne ↦ (0, t, refl, at_most_one t ne)
  | yes e ↦ let (i, u, at, one) = someone_inside ts (omega arith) in (suc i, u, at, one)
]
  where
    at_most_one : (t : Worker) → inside t ≢ 0 → inside t ≡ 1
    at_most_one finished ne = absurd (ne refl)
    at_most_one (at_loop i) ne = absurd (ne refl)
    at_most_one (locked i) ne = refl
    at_most_one (loaded i v) ne = refl
    at_most_one (added i v) ne = refl
    at_most_one (stored i) ne = refl

all_stores :
    (n : ℕ) (ts : List Worker) → All (λ t. t ≡ finished) ts → total (stores n) ts ≡ length ts * n
unfolding total
all_stores n [] h = omega arith
all_stores n (t ∷ ts) h = rw h.0 (omega (arith, all_stores n ts h.1))

length-Steps :
    (n steps : ℕ) (s s' : Machine)
    → Steps (inc_with_lock n) steps s s'
    → length s'.threads ≡ length s.threads
length-Steps n steps s s' (stay _) = refl
length-Steps n steps s s' (next m _ s1 _ before (run _ i t t' m' at e)) =
    length-set s1.threads i t' ∙ length-Steps n m s s1 before

total-left-created :
    (n count : ℕ) → total (left n) (replicate count (at_loop 0)) ≡ count * (5 * n + 1)
unfolding total
total-left-created n zero = omega arith
total-left-created n (suc count) = grind (arith, total-left-created n count)

left-Steps :
    (n steps : ℕ) (s s' : Machine)
    → IsCounted n s
    → Steps (inc_with_lock n) steps s s'
    → steps + total (left n) s'.threads ≡ total (left n) s.threads
left-Steps n steps s s' h (stay _) = omega arith
left-Steps n steps s s' h (next m _ s1 _ before (run _ i t t' m' at e)) =
    let h' = Steps-IsCounted n m s s1 before h in
    omega (
      arith,
      left-Steps n m s s1 h before,
      total-set (left n) s1.threads i t t' at,
      left_step n t s1.memory (t', m') (h'.held i t at) e,
    )

-- A thread that can go on, while one is not finished.
next_access :
    (n : ℕ) (s : Machine)
    → IsCounted n s
    → (i : ℕ) (t : Worker) → get_elem? s.threads i ≡ some t
    → t ≢ finished
    → (s' : Machine) × Step (inc_with_lock n) s s'
next_access n s h i t at ne = elim (Bool-cases s.memory.g_lock) [
  | inr free ↦ let (y, e) = can_go n t s.memory ne (inr free) in (_, run s i t y.0 y.1 at e)
  | inl taken ↦
      let (j, u, at', one) = someone_inside s.threads (omega (arith, h.lock, ap bit taken)) in
      let (y, e) =
        can_go n u s.memory (λ e'. absurd (omega (arith, one, ap inside e'))) (inl one) in
      (_, run s j u y.0 y.1 at' e)
]

-- Part 2 of main: `count` threads increment the counter `n` times each under the lock, and take turns access by
-- access in any order. No run has more than `count * (5 * n + 1)` accesses, and at each moment either
-- some thread can go on, or all have returned and the counter is `count * n`.
pub count_exact :
    (n count steps : ℕ) (s : Machine)
    → Steps (inc_with_lock n) steps (created count) s
    → (steps ≤ count * (5 * n + 1))
      × (((s' : Machine) × Step (inc_with_lock n) s s')
          ⊎ All (λ t. t ≡ finished) s.threads × (s.memory.counter ≡ count * n))
unfolding created
count_exact n count steps s walk =
    let h = reached-IsCounted n count steps s walk in
    let size : length s.threads ≡ count =
      length-Steps n steps (created count) s walk ∙ length-replicate count (at_loop 0) in
    (
      omega (
        arith,
        left-Steps n steps (created count) s (created-IsCounted n count) walk,
        total-left-created n count,
      ),
      elim (unfinished s.threads) [
        | inr (i, t, at, ne) ↦ inl (next_access n s h i t at ne)
        | inl all ↦ inr (all, h.counted ∙ all_stores n s.threads all ∙ ap (λ k. k * n) size)
      ],
    )
