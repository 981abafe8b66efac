-- ===== src/Lookup/Spawn.antt =====
-- spawn_threads of assignments/pa6/multi-lookup.c. malloc and pthread_create are parameters.
use csci_3753_operating_syst.Prelude.{
  ℕ, zero, suc, ◌+◌, ◌≤◌, ◌<◌, ◌≡◌, refl, ◌∙◌, ◌↔◌, inl, inr, Bool, true, false, Option, none, some,
  List, arith, dec_lt, if◌then◌else◌, Option-cases, length, get_elem?, set, length-set,
  get_elem?_lt, get_elem?_of_lt,
}
use csci_3753_operating_syst.Prelude.Int.{ℤ, pos, negsuc}
use csci_3753_operating_syst.Prelude.Opt.{◌>>=◌}

-- `thread_args_t`, with the arrays and the output file that a thread works on by their numbers.
pub record ThreadArgs : Type 0 where
  pub consume_arr : Option ℕ
  pub produce_arr : Option ℕ
  pub output_file : ℕ
  pub num_serviced : ℕ

-- `result == ERROR`
unfoldable pub is_error : ℤ → Bool
is_error (negsuc zero) = true
is_error _ = false

-- `malloc` and `pthread_create` for thread `i`: whether there is memory, and what is returned.
module _ (malloc : ℕ → Bool) (pthread_create : ℕ → ℤ) (shared_args : ThreadArgs) where
  -- spawn_threads from thread `i` on, with `n` to go. `none` is a write outside `args`.
  unfoldable pub spawn_from :
      ℕ → ℕ → ℤ → List (Option ThreadArgs) → Option (ℤ × List (Option ThreadArgs))
  unfolding is_error
  spawn_from zero i result args = some (result, args)
  spawn_from (suc n) i result args = get_elem? args i >>= λ old.
      if malloc i
      then spawn_from n (i + 1) (pthread_create i)
          (set args i (if is_error (pthread_create i) then none else some shared_args))
      else some (negsuc 0, set args i none)

  unfoldable pub spawn_threads :
      ℕ → List (Option ThreadArgs) → Option (ℤ × List (Option ThreadArgs))
  unfolding spawn_from
  spawn_threads num_threads args = spawn_from num_threads 0 (pos 0) args

  -- The entry of thread `i`.
  abbrev entry : ℕ → Option ThreadArgs
  unfolding is_error
  entry i = if is_error (pthread_create i) then none else some shared_args

  -- There is memory for every thread. Then spawn_threads stays inside `args` if it has an entry for every
  -- thread.
  spawn_from_inside :
      (n i : ℕ) (result : ℤ) (args : List (Option ThreadArgs))
      → ((j : ℕ) → malloc j ≡ true)
      → i + n ≤ length args
      → (out : ℤ × List (Option ThreadArgs)) × (spawn_from n i result args ≡ some out)
        × (length out.1 ≡ length args)
  unfolding spawn_from
  spawn_from_inside zero i result args memory le = ((result, args), refl, refl)
  spawn_from_inside (suc n) i result args memory le =
      let (old, at) = get_elem?_of_lt args i (omega arith) in
      let args' = set args i (entry i) in
      let (out, runs, len) =
        spawn_from_inside n (i + 1) (pthread_create i) args' memory
          (omega (arith, length-set args i (entry i))) in
      (out, rw (at, memory i) runs, len ∙ length-set args i (entry i))

  spawn_from_outside :
      (n i : ℕ) (result : ℤ) (args : List (Option ThreadArgs))
      → ((j : ℕ) → malloc j ≡ true)
      → i ≤ length args
      → length args < i + n
      → spawn_from n i result args ≡ none
  unfolding spawn_from
  spawn_from_outside zero i result args memory le lt = absurd (omega arith)
  spawn_from_outside (suc n) i result args memory le lt = elim (Option-cases (get_elem? args i)) [
    | inl out ↦ rw out refl
    | inr (old, at) ↦
        let inside = get_elem?_lt args i at in
        rw (at, memory i)
          (spawn_from_outside n (i + 1) (pthread_create i) (set args i (entry i)) memory
            (omega (arith, inside, length-set args i (entry i)))
            (omega (arith, lt, length-set args i (entry i))))
  ]

  -- With memory for every thread, spawn_threads writes outside `args` exactly if it is to start more threads
  -- than `args` has entries, whatever pthread_create returns.
  pub spawn_threads_lem :
      (num_threads : ℕ) (args : List (Option ThreadArgs))
      → ((j : ℕ) → malloc j ≡ true)
      → (spawn_threads num_threads args ≡ none) ↔ (length args < num_threads)
  unfolding spawn_threads
  spawn_threads_lem num_threads args memory = (
    λ e. elim (dec_lt (length args) num_threads) [
      | yes lt ↦ lt
      | no ge ↦
          let (out, runs, len) =
            spawn_from_inside num_threads 0 (pos 0) args memory (omega arith) in
          absurd (cc)
    ],
    λ lt. spawn_from_outside num_threads 0 (pos 0) args memory (omega arith) (omega arith),
  )
