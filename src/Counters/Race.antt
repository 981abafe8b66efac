-- ===== src/Counters/Race.antt =====
-- inc_no_lock of recitation/threads/thread_test.c loses updates.
use csci_3753_operating_syst.Prelude.{
  ℕ, zero, suc, ◌+◌, ◌-◌, ◌≤◌, ◌<◌, ◌≡◌, refl, subst, false, some, [], ◌∷◌, arith, ltb, lt→ltb,
}
use csci_3753_operating_syst.Counters.{
  Worker, at_loop, loaded, added, finished, inc_no_lock, Machine, Step, Steps, run, stay, next,
  created,
}

-- A state that some run leads to.
abbrev Reach : ℕ → Machine → Machine → Type 0
Reach n s s' = (steps : ℕ) × Steps (inc_no_lock n) steps s s'

join_steps :
    (n a b : ℕ) (s s1 s2 : Machine)
    → Steps (inc_no_lock n) a s s1
    → Steps (inc_no_lock n) b s1 s2
    → Reach n s s2
join_steps n a b s s1 s2 before (stay _) = (a, before)
join_steps n a b s s1 s2 before (next m _ s' _ more step) =
    let (k, walk) = join_steps n a m s s1 s' before more in (suc k, next k s s' s2 walk step)

join : (n : ℕ) (s s1 s2 : Machine) → Reach n s s1 → Reach n s1 s2 → Reach n s s2
join n s s1 s2 (a, before) (b, after) = join_steps n a b s s1 s2 before after

-- Two threads.
abbrev two : Worker → Worker → ℕ → Machine
two a b c = record { memory = record { counter = c; g_lock = false }; threads = a ∷ b ∷ [] }

one_step : (n : ℕ) (s s' : Machine) → Step (inc_no_lock n) s s' → Reach n s s'
one_step n s s' step = (1, next 0 s s s' (stay s) step)

first_goes :
    (n : ℕ) (a a' b : Worker) (c c' : ℕ)
    → inc_no_lock n a (record { counter = c; g_lock = false })
      ≡ some (a', record { counter = c'; g_lock = false })
    → Reach n (two a b c) (two a' b c')
first_goes n a a' b c c' e =
    one_step n (two a b c) (two a' b c')
      (run (two a b c) 0 a a' (record { counter = c'; g_lock = false }) refl e)

second_goes :
    (n : ℕ) (a b b' : Worker) (c c' : ℕ)
    → inc_no_lock n b (record { counter = c; g_lock = false })
      ≡ some (b', record { counter = c'; g_lock = false })
    → Reach n (two a b c) (two a b' c')
second_goes n a b b' c c' e =
    one_step n (two a b c) (two a b' c')
      (run (two a b c) 1 b b' (record { counter = c'; g_lock = false }) refl e)

-- The three accesses of an iteration, for either thread.
module _ (n : ℕ) (place : Worker → ℕ → Machine)
    (goes : (t t' : Worker) (c c' : ℕ)
      → inc_no_lock n t (record { counter = c; g_lock = false })
        ≡ some (t', record { counter = c'; g_lock = false })
      → Reach n (place t c) (place t' c')) where
  load : (i c : ℕ) → i < n → Reach n (place (at_loop i) c) (place (loaded i c) c)
  unfolding inc_no_lock
  load i c lt = goes (at_loop i) (loaded i c) c c (rw (lt→ltb i n lt) refl)

  store : (i tmp c : ℕ) → Reach n (place (loaded i tmp) c) (place (at_loop (i + 1)) (tmp + 1))
  unfolding inc_no_lock
  store i tmp c =
      join n (place (loaded i tmp) c) (place (added i (tmp + 1)) c)
        (place (at_loop (i + 1)) (tmp + 1)) (goes (loaded i tmp) (added i (tmp + 1)) c c refl)
        (goes (added i (tmp + 1)) (at_loop (i + 1)) c (tmp + 1) refl)

  -- Alone, a thread counts its iterations.
  alone : (m i c : ℕ) → i + m ≤ n → Reach n (place (at_loop i) c) (place (at_loop (i + m)) (c + m))
  alone zero i c h =
      let ei : i + 0 ≡ i = omega arith in
      let ec : c + 0 ≡ c = omega arith in rw (ei, ec) (0, stay (place (at_loop i) c))
  alone (suc m) i c h =
      let ei : i + suc m ≡ i + 1 + m = omega arith in
      let ec : c + suc m ≡ c + 1 + m = omega arith in
      rw (ei, ec)
        (join n (place (at_loop i) c) (place (at_loop (i + 1)) (c + 1))
          (place (at_loop (i + 1 + m)) (c + 1 + m))
          (join n (place (at_loop i) c) (place (loaded i c) c) (place (at_loop (i + 1)) (c + 1))
            (load i c (omega arith)) (store i c c))
          (alone m (i + 1) (c + 1) (omega arith)))

  return : (c : ℕ) → Reach n (place (at_loop n) c) (place finished c)
  unfolding inc_no_lock
  return c =
      let done : ltb n n ≡ false = ground arith in goes (at_loop n) finished c c (rw done refl)

abbrev first : Worker → Worker → ℕ → Machine
first b t c = two t b c

abbrev second : Worker → Worker → ℕ → Machine
second a t c = two a t c

-- Both load 0; the second makes all its iterations but one; the first stores 1, and makes its others
-- while the second holds the 1 that it has loaded; then the second stores 2.
lost : (m : ℕ) → Reach (m + 1) (two (at_loop 0) (at_loop 0) 0) (two finished finished 2)
lost m =
    let n = m + 1 in
    let e0 : 0 + m ≡ m = omega arith in
    let e1 : 1 + m ≡ n = omega arith in
    join n (two (at_loop 0) (at_loop 0) 0) (two (loaded 0 0) (at_loop 0) 0)
      (two finished finished 2)
      (load n (first (at_loop 0)) (λ t t' c c' e. first_goes n t t' (at_loop 0) c c' e) 0 0
        (omega arith))
      (join n (two (loaded 0 0) (at_loop 0) 0) (two (loaded 0 0) (at_loop m) m)
        (two finished finished 2)
        (subst (λ k. Reach n (two (loaded 0 0) (at_loop 0) 0) (two (loaded 0 0) (at_loop k) k)) e0
          (alone n (second (loaded 0 0)) (λ t t' c c' e. second_goes n (loaded 0 0) t t' c c' e) m 0
            0 (omega arith)))
        (join n (two (loaded 0 0) (at_loop m) m) (two (at_loop 1) (at_loop m) 1)
          (two finished finished 2)
          (store n (first (at_loop m)) (λ t t' c c' e. first_goes n t t' (at_loop m) c c' e) 0 0 m)
          (join n (two (at_loop 1) (at_loop m) 1) (two (at_loop 1) (loaded m 1) 1)
            (two finished finished 2)
            (load n (second (at_loop 1)) (λ t t' c c' e. second_goes n (at_loop 1) t t' c c' e) m 1
              (omega arith))
            (join n (two (at_loop 1) (loaded m 1) 1) (two (at_loop n) (loaded m 1) n)
              (two finished finished 2)
              (subst
                (λ k. Reach n (two (at_loop 1) (loaded m 1) 1) (two (at_loop k) (loaded m 1) k)) e1
                (alone n (first (loaded m 1)) (λ t t' c c' e. first_goes n t t' (loaded m 1) c c' e)
                  m 1 1 (omega arith)))
              (join n (two (at_loop n) (loaded m 1) n) (two finished (loaded m 1) n)
                (two finished finished 2)
                (return n (first (loaded m 1))
                  (λ t t' c c' e. first_goes n t t' (loaded m 1) c c' e) n)
                (join n (two finished (loaded m 1) n) (two finished (at_loop n) 2)
                  (two finished finished 2)
                  (store n (second finished) (λ t t' c c' e. second_goes n finished t t' c c' e) m 1
                    n)
                  (return n (second finished) (λ t t' c c' e. second_goes n finished t t' c c' e)
                    2)))))))

-- Part 1 of main, with two threads and any number of iterations, at least one: some order of their accesses leaves
-- the counter at 2 when both have returned.
pub count_lost :
    (n : ℕ)
    → 1 ≤ n
    → (steps : ℕ) × (s : Machine) × Steps (inc_no_lock n) steps (created 2) s
      × (s.threads ≡ finished ∷ finished ∷ [])
      × (s.memory.counter ≡ 2)
unfolding created
count_lost n h =
    let e : n - 1 + 1 ≡ n = omega arith in
    let (steps, walk) =
      subst (λ k. Reach k (two (at_loop 0) (at_loop 0) 0) (two finished finished 2)) e
        (lost (n - 1)) in
    (steps, two finished finished 2, walk, refl, refl)
