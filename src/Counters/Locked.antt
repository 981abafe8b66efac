-- ===== src/Counters/Locked.antt =====
-- inc_with_lock of recitation/threads/thread_test.c loses no update: its invariant.
use csci_3753_operating_syst.Prelude.{
  ℕ, ◌+◌, ◌≤◌, ◌<◌, ◌≡◌, refl, sym, ap, ◌∙◌, subst, ◌≢◌, ◌⊎◌, inl, inr, Bool, true, false, none,
  some, arith, ℕ_discrete, ltb, if◌then◌else◌, ltb→lt, get_elem?, set, replicate, get_elem?_lt,
  get_elem?-set_ne, All-get_elem?, All-replicate,
}
use csci_3753_operating_syst.Counters.{
  Memory, Worker, at_loop, locked, loaded, added, stored, finished, inc_with_lock, Machine, Steps,
  run, stay, next, created,
}
use csci_3753_operating_syst.Prelude.Sums.{
  total, total-set, total-two, total-elem-le, total-replicate_zero,
}
use csci_3753_operating_syst.Prelude.Writes.{get_elem?-set}

-- The thread holds `g_lock`.
abbrev pub inside : Worker → ℕ
inside (at_loop i) = 0
inside finished = 0
inside _ = 1

-- How often the thread has stored `counter`.
abbrev pub stores : ℕ → Worker → ℕ
stores iterations (at_loop i) = i
stores iterations (locked i) = i
stores iterations (loaded i value) = i
stores iterations (added i value) = i
stores iterations (stored i) = i + 1
stores iterations finished = iterations

-- What a thread relies on.
abbrev pub Held : ℕ → ℕ → Worker → Type 0
Held iterations counter (at_loop i) = i ≤ iterations
Held iterations counter (locked i) = i < iterations
Held iterations counter (loaded i value) = (i < iterations) × (value ≡ counter)
Held iterations counter (added i value) = (i < iterations) × (value ≡ counter + 1)
Held iterations counter (stored i) = i < iterations
Held iterations counter finished = Unit

abbrev pub bit : Bool → ℕ
bit b = if b then 1 else 0

pub record IsCounted (iterations : ℕ) (s : Machine) : Type 0 where
  pub counted : s.memory.counter ≡ total (stores iterations) s.threads
  pub lock : total inside s.threads ≡ bit s.memory.g_lock
  pub held :
      (j : ℕ) (u : Worker) → get_elem? s.threads j ≡ some u → Held iterations s.memory.counter u

Held-outside : (n c c' : ℕ) (u : Worker) → inside u ≡ 0 → Held n c u → Held n c' u
Held-outside n c c' (at_loop i) e h = h
Held-outside n c c' finished e h = tt
Held-outside n c c' (locked i) e h = h
Held-outside n c c' (stored i) e h = h
Held-outside n c c' (loaded i v) e h = absurd (omega arith)
Held-outside n c c' (added i v) e h = absurd (omega arith)

-- With a thread inside, every other one is outside.
others-outside :
    (s : Machine) (i j : ℕ) (t u : Worker)
    → total inside s.threads ≡ bit s.memory.g_lock
    → get_elem? s.threads i ≡ some t
    → inside t ≡ 1
    → i ≢ j
    → get_elem? s.threads j ≡ some u
    → inside u ≡ 0
others-outside s i j t u lock at one ne at' =
    let two = total-two inside s.threads i j t u ne at at' in ground (arith, lock)

-- An access keeps the invariant if it accounts for the store and for the lock, and leaves the counter alone but
-- inside.
access :
    (n : ℕ) (s : Machine) (i : ℕ) (t t' : Worker) (m' : Memory)
    → IsCounted n s
    → get_elem? s.threads i ≡ some t
    → stores n t' + s.memory.counter ≡ stores n t + m'.counter
    → inside t' + bit s.memory.g_lock ≡ inside t + bit m'.g_lock
    → Held n m'.counter t'
    → (m'.counter ≡ s.memory.counter) ⊎ (inside t ≡ 1)
    → IsCounted n (record { memory = m'; threads = set s.threads i t' })
access n s i t t' m' h at store lock new alone =
    let c = total-set (stores n) s.threads i t t' at in
    let l = total-set inside s.threads i t t' at in
    record {
      counted = omega (arith, h.counted, store, c);
      lock = omega (arith, h.lock, lock, l);
      held = λ j u at'. elim (ℕ_discrete i j) [
        | yes e ↦
            let here : some t' ≡ some u =
              ground (arith, get_elem?-set s.threads i j t' (get_elem?_lt s.threads i at)) in
            let same : t' ≡ u = cc in subst (Held n m'.counter) same new
        | no ne ↦
            let before = sym (get_elem?-set_ne s.threads i j t' ne) ∙ at' in
            elim alone [
              | inl same ↦ rw same (h.held j u before)
              | inr one ↦
                  Held-outside n s.memory.counter m'.counter u
                    (others-outside s i j t u h.lock at one ne before) (h.held j u before)
            ]
      ];
    }

arrive :
    (n : ℕ) (s : Machine) (i : ℕ) (x y : Worker × Memory)
    → some x ≡ some y
    → IsCounted n (record { memory = x.1; threads = set s.threads i x.0 })
    → IsCounted n (record { memory = y.1; threads = set s.threads i y.0 })
arrive n s i x y e h =
    let same : x ≡ y = cc in
    subst
      (λ (z : Worker × Memory).
        IsCounted n (record { memory = z.1; threads = set s.threads i z.0 }))
      same h

-- The test of the loop, and the lock.
pub at_loop_inv :
    (b lock : Bool) (x z y : Worker × Memory)
    → (if b then (if lock then none else some x) else some z) ≡ some y
    → (b ≡ true) × (lock ≡ false) × (some x ≡ some y) ⊎ (b ≡ false) × (some z ≡ some y)
at_loop_inv true true x z y e = absurd (cc)
at_loop_inv true false x z y e = inl (refl, refl, e)
at_loop_inv false lock x z y e = inr (refl, e)

run-IsCounted :
    (n : ℕ) (s : Machine) (i : ℕ) (t : Worker) (y : Worker × Memory)
    → IsCounted n s
    → get_elem? s.threads i ≡ some t
    → inc_with_lock n t s.memory ≡ some y
    → IsCounted n (record { memory = y.1; threads = set s.threads i y.0 })
unfolding inc_with_lock
run-IsCounted n s i (at_loop k) y h at e =
    let hk = h.held i (at_loop k) at in
    let m' : Memory = record s.memory { g_lock = true } in
    elim (at_loop_inv (ltb k n) s.memory.g_lock (locked k, m') (finished, s.memory) y e) [
      | inl (more, free, e') ↦
          arrive n s i (locked k, m') y e'
            (access n s i (at_loop k) (locked k) m' h at (omega arith) (omega (arith, ap bit free))
              (ltb→lt k n more) (inl refl))
      | inr (done, e') ↦
          arrive n s i (finished, s.memory) y e'
            (access n s i (at_loop k) finished s.memory h at (ground (arith, hk, done))
              (omega arith) tt (inl refl))
    ]
run-IsCounted n s i (locked k) y h at e =
    let hk = h.held i (locked k) at in
    arrive n s i (loaded k s.memory.counter, s.memory) y e
      (access n s i (locked k) (loaded k s.memory.counter) s.memory h at (omega arith) (omega arith)
        (hk, refl) (inl refl))
run-IsCounted n s i (loaded k v) y h at e =
    let hk = h.held i (loaded k v) at in
    arrive n s i (added k (v + 1), s.memory) y e
      (access n s i (loaded k v) (added k (v + 1)) s.memory h at (omega arith) (omega arith)
        (hk.0, omega (arith, hk)) (inl refl))
run-IsCounted n s i (added k v) y h at e =
    let hk = h.held i (added k v) at in
    arrive n s i (stored k, record s.memory { counter = v }) y e
      (access n s i (added k v) (stored k) (record s.memory { counter = v }) h at
        (omega (arith, hk)) (omega arith) hk.0 (inr refl))
run-IsCounted n s i (stored k) y h at e =
    let hk = h.held i (stored k) at in
    let le = total-elem-le inside s.threads i (stored k) at in
    arrive n s i (at_loop (k + 1), record s.memory { g_lock = false }) y e
      (access n s i (stored k) (at_loop (k + 1)) (record s.memory { g_lock = false }) h at
        (omega arith) (ground (arith, h.lock, le)) (omega (arith, hk)) (inl refl))
run-IsCounted n s i finished y h at e = absurd (cc)

pub created-IsCounted : (n count : ℕ) → IsCounted n (created count)
unfolding created
created-IsCounted n count = record {
  counted = sym (total-replicate_zero (stores n) count (at_loop 0) refl);
  lock = total-replicate_zero inside count (at_loop 0) refl;
  held = λ j u at.
      All-get_elem? (Held n 0) (replicate count (at_loop 0)) j u
        (All-replicate (Held n 0) count (at_loop 0) (omega arith)) at;
}

pub Steps-IsCounted :
    (n steps : ℕ) (s s' : Machine)
    → Steps (inc_with_lock n) steps s s'
    → IsCounted n s
    → IsCounted n s'
Steps-IsCounted n steps s s' (stay _) h = h
Steps-IsCounted n steps s s' (next m _ s1 _ before (run _ i t t' m' at e)) h =
    run-IsCounted n s1 i t (t', m') (Steps-IsCounted n m s s1 before h) at e

pub reached-IsCounted :
    (n count steps : ℕ) (s : Machine)
    → Steps (inc_with_lock n) steps (created count) s
    → IsCounted n s
reached-IsCounted n count steps s walk =
    Steps-IsCounted n steps (created count) s walk (created-IsCounted n count)
