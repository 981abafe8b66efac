-- ===== src/Lookup/Start.antt =====
-- The start of assignments/pa6/multi-lookup.c: the checks of its arguments and spawn_threads. strtol,
-- fopen, malloc and pthread_create are parameters.
use csci_3753_operating_syst.Prelude.{
  ℕ, ◌+◌, ◌-◌, ◌≤◌, ◌≡◌, refl, sym, ap, subst, ◌≢◌, inl, inr, Bool, true, false, not, ◌||◌, Option,
  none, some, List, [], arith, ltb, if◌then◌else◌, Option-cases, length, get_or, drop, length-drop,
}
use csci_3753_operating_syst.Lookup.{Text}
use csci_3753_operating_syst.Prelude.Int.{ℤ, pos, negsuc, ltb_ℤ}
use csci_3753_operating_syst.Prelude.Opt.{◌>>=◌}

abbrev pub base_arg_num : ℕ
base_arg_num = 6

abbrev pub data_start_idx : ℕ
data_start_idx = 5

abbrev pub max_input_files : ℕ
max_input_files = 100

abbrev pub max_requester_threads : ℕ
max_requester_threads = 10

abbrev pub max_resolver_threads : ℕ
max_resolver_threads = 10

-- How the checks end: `main` returns ERROR, or goes on with the numbers of threads and the names of
-- the data files.
pub data Arguments : Type 0 where
  refused : Arguments
  accepted : ℤ → ℤ → List Text → Arguments

-- `num > max || num < 0`
unfoldable pub is_bad_number : ℕ → ℤ → Bool
is_bad_number most n = ltb_ℤ (pos most) n || ltb_ℤ n (pos 0)

-- `strtol` of a number with nothing behind it is `some`; `opens` is whether fopen for writing succeeds.
module _ (strtol : Text → Option ℤ) (opens : Text → Bool) where
  -- A number of threads, if it is one.
  unfoldable pub thread_count : ℕ → Text → Option ℤ
  unfolding is_bad_number
  thread_count most arg = strtol arg >>= λ n. if is_bad_number most n then none else some n

  -- The checks behind those of the two numbers: the number of data files, and the two output files.
  unfoldable pub check_data_files : ℤ → ℤ → List Text → Arguments
  check_data_files num_requesters num_resolvers argv =
      if ltb max_input_files (length argv - (data_start_idx + 1))
      then refused
      else accepted num_requesters num_resolvers (drop data_start_idx argv)

  unfoldable pub check_files : ℤ → ℤ → List Text → Arguments
  unfolding check_data_files
  check_files num_requesters num_resolvers argv =
      if not (opens (get_or argv 3 []))
      then refused
      else if not (opens (get_or argv 4 []))
      then refused
      else check_data_files num_requesters num_resolvers argv

  unfoldable pub check_counts : Option ℤ → Option ℤ → List Text → Arguments
  unfolding check_files
  check_counts (some num_requesters) (some num_resolvers) argv =
      check_files num_requesters num_resolvers argv
  check_counts _ _ argv = refused

  unfoldable pub check_arguments : List Text → Arguments
  unfolding thread_count check_counts
  check_arguments argv =
      if ltb (length argv) base_arg_num
      then refused
      else check_counts (thread_count max_requester_threads (get_or argv 1 []))
          (thread_count max_resolver_threads (get_or argv 2 [])) argv

  -- A test that is passed.
  passed :
      {A : Type 0} (b : Bool) (o : Option A) (a : A)
      → (if b then none else o) ≡ some a
      → (b ≡ false) × (o ≡ some a)
  passed true o a h = absurd (cc)
  passed false o a h = (refl, h)

  passed_check :
      (b : Bool) (args args' : Arguments)
      → args' ≢ refused
      → (if b then refused else args) ≡ args'
      → (b ≡ false) × (args ≡ args')
  passed_check true args args' ne h = absurd (ne (sym h))
  passed_check false args args' ne h = (refl, h)

  good_number :
      (most : ℕ) (n : ℤ) → is_bad_number most n ≡ false → (k : ℕ) × (n ≡ pos k) × (k ≤ most)
  unfolding is_bad_number
  good_number most (pos k) h = (k, refl, ground arith)
  good_number most (negsuc k) h = absurd (ground arith)

  some_number : (a b : ℤ) → some a ≡ some b → a ≡ b
  some_number a b e = cc

  thread_count_lem :
      (most : ℕ) (arg : Text) (n : ℤ)
      → thread_count most arg ≡ some n
      → (k : ℕ) × (n ≡ pos k) × (k ≤ most)
  unfolding thread_count
  thread_count_lem most arg n e = elim (Option-cases (strtol arg)) [
    | inl bad ↦ absurd (cc)
    | inr (m, parsed) ↦
        let e' : (if is_bad_number most m then none else some m) ≡ some n =
          rw⁻¹
            (ap (λ (o : Option ℤ). o >>= λ k. if is_bad_number most k then none else some k) parsed)
            e in
        let (fine, same) = passed (is_bad_number most m) (some m) n e' in
        subst (λ x. (k : ℕ) × (x ≡ pos k) × (k ≤ most)) (some_number m n same)
          (good_number most m fine)
  ]

  refused_no : (n m : ℤ) (names : List Text) → accepted n m names ≢ refused
  refused_no n m names e = cc

  -- The arguments that the last test accepts.
  accepted_lem :
      (a b n m : ℤ) (names names' : List Text)
      → accepted a b names ≡ accepted n m names'
      → (a ≡ n) × (b ≡ m) × (names' ≡ names)
  accepted_lem a b n m names names' e = (cc, cc, cc)

  check_files_lem :
      (a b n m : ℤ) (argv names : List Text)
      → base_arg_num ≤ length argv
      → check_files a b argv ≡ accepted n m names
      → (a ≡ n)
        × (b ≡ m)
        × (names ≡ drop data_start_idx argv)
        × (1 ≤ length names)
        × (length names ≤ max_input_files + 1)
  unfolding check_files check_data_files
  check_files_lem a b n m argv names enough e =
      let (open3, e1) =
        passed_check (not (opens (get_or argv 3 [])))
          (if not (opens (get_or argv 4 [])) then refused else check_data_files a b argv) _
          (refused_no n m names) e in
      let (open4, e2) =
        passed_check (not (opens (get_or argv 4 []))) (check_data_files a b argv) _
          (refused_no n m names) e1 in
      let (few, e3) =
        passed_check (ltb max_input_files (length argv - (data_start_idx + 1)))
          (accepted a b (drop data_start_idx argv)) _ (refused_no n m names) e2 in
      let (is_a, is_b, same) = accepted_lem a b n m (drop data_start_idx argv) names e3 in
      let le : length argv - 6 ≤ max_input_files = ground (arith, few) in
      let len = length-drop data_start_idx argv in
      let len' : length names ≡ length (drop data_start_idx argv) = ap length same in
      (is_a, is_b, same, omega (arith, len, len', enough), omega (arith, len, len', enough, le))

  check_counts_lem :
      (argv names : List Text) (n m : ℤ) (first second : Option ℤ)
      → check_counts first second argv ≡ accepted n m names
      → (a : ℤ) × (b : ℤ) × (first ≡ some a)
        × (second ≡ some b)
        × (check_files a b argv ≡ accepted n m names)
  unfolding check_counts
  check_counts_lem argv names n m none second e = absurd (refused_no n m names (sym e))
  check_counts_lem argv names n m (some a) none e = absurd (refused_no n m names (sym e))
  check_counts_lem argv names n m (some a) (some b) e = (a, b, refl, refl, e)

  -- When the arguments are accepted, the numbers of threads are not negative and at most 10 each, and
  -- there is at least one data file and at most 101, those that `argv` names from place 5 on.
  pub check_arguments_lem :
      (argv : List Text) (n m : ℤ) (names : List Text)
      → check_arguments argv ≡ accepted n m names
      → ((k : ℕ) × (n ≡ pos k) × (k ≤ max_requester_threads))
        × ((j : ℕ) × (m ≡ pos j) × (j ≤ max_resolver_threads))
        × (names ≡ drop data_start_idx argv)
        × (1 ≤ length names)
        × (length names ≤ max_input_files + 1)
  unfolding check_arguments
  check_arguments_lem argv n m names e =
      let count1 = thread_count max_requester_threads (get_or argv 1 []) in
      let count2 = thread_count max_resolver_threads (get_or argv 2 []) in
      let (many, e1) =
        passed_check (ltb (length argv) base_arg_num) (check_counts count1 count2 argv) _
          (refused_no n m names) e in
      let enough : base_arg_num ≤ length argv = ground (arith, many) in
      let (a, b, first, second, e2) = check_counts_lem argv names n m count1 count2 e1 in
      let (is_a, is_b, same, some_file, most) = check_files_lem a b n m argv names enough e2 in
      (
        subst (λ x. (k : ℕ) × (x ≡ pos k) × (k ≤ max_requester_threads)) is_a
            (thread_count_lem max_requester_threads (get_or argv 1 []) a first),
        subst (λ x. (j : ℕ) × (x ≡ pos j) × (j ≤ max_resolver_threads)) is_b
            (thread_count_lem max_resolver_threads (get_or argv 2 []) b second),
        same,
        some_file,
        most,
      )
