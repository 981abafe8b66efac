-- ===== src/Paging/Command/Accepted.antt =====
-- What main of the simulator (assignments/pa7/simulator.c) goes on with after its command line.
use csci_3753_operating_syst.Prelude.{
  ℕ, ◌≤◌, ◌<◌, ◌≡◌, refl, sym, subst, ◌≢◌, ◌⊎◌, inl, inr, Bool, true, false, ◌||◌, Option, none,
  some, List, [], ◌∷◌, arith, Bool-cases,
}
use Prim.Native.String.{String}
use csci_3753_operating_syst.Prelude.Int.{ℤ, pos, negsuc}
use csci_3753_operating_syst.Paging.{max_processes}
use csci_3753_operating_syst.Paging.Command.{
  Options, Awaited, no_value, seed_value, procs_value, Kind, kind, option, open_csv, read_seed,
  read_procs, parse_loop, outside, max_seed, help_flag, all_flag, load_flag, block_flag, page_flag,
  branch_flag, dead_flag, seed_flag, csv_flag, procs_flag, unrecognized,
}

-- The number lies in `1 .. most`.
abbrev pub Within : ℕ → ℤ → Type 0
Within most (pos n) = (1 ≤ n) × (n ≤ most)
Within most (negsuc n) = 1 ≤ 0

-- While no error has been counted, the numbers are good: a seed of 0 has not been given.
pub record IsGood (o : Options) : Type 0 where
  pub seed_in : (o.seed ≡ pos 0) ⊎ Within max_seed o.seed
  pub procs_in : Within max_processes o.procs

abbrev pub Clean : Options → Type 0
Clean o = (o.errors ≡ 0) → IsGood o

not-outside : (most : ℕ) (n : ℤ) → outside most n ≡ false → Within most n
unfolding outside
not-outside most (pos n) h = ground (arith, h)
not-outside most (negsuc n) h = ground (arith, h)

read_seed-Clean : (n : Option ℤ) (o : Options) → Clean o → Clean (read_seed n o)
unfolding read_seed
read_seed-Clean none o h = λ free. absurd (omega (arith, free))
read_seed-Clean (some n) o h = elim (Bool-cases (outside max_seed n)) [
  | inl bad ↦ rw bad (λ free. absurd (omega (arith, free)))
  | inr good ↦
      rw good (λ free. record {
        seed_in = inr (not-outside max_seed n good);
        procs_in = (h free).procs_in;
      })
]

read_procs-Clean : (n : Option ℤ) (o : Options) → Clean o → Clean (read_procs n o)
unfolding read_procs
read_procs-Clean none o h = λ free. absurd (omega (arith, free))
read_procs-Clean (some n) o h = elim (Bool-cases (outside max_processes n)) [
  | inl bad ↦ rw bad (λ free. absurd (omega (arith, free)))
  | inr good ↦
      rw good
        (λ free. record { seed_in = (h free).seed_in; procs_in = not-outside max_processes n good })
]

-- The numbers are the same, and no error has been taken back.
abbrev pub Later : Options → Options → Type 0
Later o o' = (o'.seed ≡ o.seed) × (o'.procs ≡ o.procs) × (o.errors ≤ o'.errors)

Later-Clean : (o o' : Options) → Later o o' → Clean o → Clean o'
Later-Clean o o' (seed, procs, more) h free =
    let good = h (omega (arith, more, free)) in
    record { seed_in = rw seed good.seed_in; procs_in = rw procs good.procs_in }

module _ {F : Type 0} (fopen : String → F → Bool × F) where
  open_csv-Later : (o : Options) (files : F) → Later o (open_csv fopen o files).0
  unfolding open_csv
  open_csv-Later o files =
      let (output, files') = fopen "output.csv" files in
      let (pages, files'') = fopen "pages.csv" files' in
      elim (Bool-cases output) [
        | inl t ↦ elim (Bool-cases pages) [
          | inl u ↦ rw (t, u) (refl, refl, omega arith)
          | inr u ↦ rw (t, u) (refl, refl, omega arith)
        ]
        | inr t ↦ elim (Bool-cases pages) [
          | inl u ↦ rw (t, u) (refl, refl, omega arith)
          | inr u ↦ rw (t, u) (refl, refl, omega arith)
        ]
      ]

  pub option-Later : (k : Kind) (o : Options) (files : F) → Later o (option fopen k o files).1
  unfolding option
  option-Later csv_flag o files = open_csv-Later o files
  option-Later unrecognized o files = (refl, refl, omega arith)
  option-Later help_flag o files = (refl, refl, omega arith)
  option-Later all_flag o files = (refl, refl, omega arith)
  option-Later load_flag o files = (refl, refl, omega arith)
  option-Later block_flag o files = (refl, refl, omega arith)
  option-Later page_flag o files = (refl, refl, omega arith)
  option-Later branch_flag o files = (refl, refl, omega arith)
  option-Later dead_flag o files = (refl, refl, omega arith)
  option-Later seed_flag o files = (refl, refl, omega arith)
  option-Later procs_flag o files = (refl, refl, omega arith)

-- Which value an argument asks for.
abbrev pub asks : Kind → Awaited
asks seed_flag = seed_value
asks procs_flag = procs_value
asks _ = no_value

-- The value that is still awaited behind the last argument.
abbrev pub after_last : List String → Awaited → Awaited
after_last [] awaited = awaited
after_last (arg ∷ argv) no_value = after_last argv (asks (kind arg))
after_last (arg ∷ argv) _ = after_last argv no_value

-- Some argument that is not the value of another is none of the ten.
abbrev pub is_stray : Kind → Bool
is_stray unrecognized = true
is_stray _ = false

abbrev pub has_stray : List String → Awaited → Bool
has_stray [] awaited = false
has_stray (arg ∷ argv) no_value = is_stray (kind arg) || has_stray argv (asks (kind arg))
has_stray (arg ∷ argv) _ = has_stray argv no_value

module _ {F : Type 0} (sscanf : String → Option ℤ) (fopen : String → F → Bool × F) where
  option-asks : (k : Kind) (o : Options) (files : F) → (option fopen k o files).0 ≡ asks k
  unfolding option
  option-asks help_flag o files = refl
  option-asks all_flag o files = refl
  option-asks load_flag o files = refl
  option-asks block_flag o files = refl
  option-asks page_flag o files = refl
  option-asks branch_flag o files = refl
  option-asks dead_flag o files = refl
  option-asks seed_flag o files = refl
  option-asks csv_flag o files = refl
  option-asks procs_flag o files = refl
  option-asks unrecognized o files = refl

  -- The loop reads the end of `argv` exactly if a value is still awaited there. Else the numbers are good while
  -- no error has been counted.
  pub parse_loop-Clean :
      (argv : List String) (awaited : Awaited) (o : Options) (files : F)
      → Clean o
      → (after_last argv awaited ≢ no_value) × (parse_loop sscanf fopen argv awaited o files ≡ none)
        ⊎ (out : Options × F) × (parse_loop sscanf fopen argv awaited o files ≡ some out)
          × (after_last argv awaited ≡ no_value)
          × Clean out.0
  unfolding parse_loop
  parse_loop-Clean [] no_value o files h = inr ((o, files), refl, refl, h)
  parse_loop-Clean [] seed_value o files h = inl ((λ e. cc), refl)
  parse_loop-Clean [] procs_value o files h = inl ((λ e. cc), refl)
  parse_loop-Clean (arg ∷ argv) seed_value o files h =
      parse_loop-Clean argv no_value (read_seed (sscanf arg) o) files
        (read_seed-Clean (sscanf arg) o h)
  parse_loop-Clean (arg ∷ argv) procs_value o files h =
      parse_loop-Clean argv no_value (read_procs (sscanf arg) o) files
        (read_procs-Clean (sscanf arg) o h)
  parse_loop-Clean (arg ∷ argv) no_value o files h =
      let (awaited, o', files') = option fopen (kind arg) o files in
      rw (sym (option-asks (kind arg) o files)) (
        parse_loop-Clean argv awaited o' files'
          (Later-Clean o o' (option-Later fopen (kind arg) o files) h))

  read_seed_more : (n : Option ℤ) (o : Options) → o.errors ≤ (read_seed n o).errors
  unfolding read_seed
  read_seed_more none o = omega arith
  read_seed_more (some n) o = elim (Bool-cases (outside max_seed n)) [
    | inl bad ↦ rw bad (omega arith)
    | inr good ↦ rw good (omega arith)
  ]

  read_procs_more : (n : Option ℤ) (o : Options) → o.errors ≤ (read_procs n o).errors
  unfolding read_procs
  read_procs_more none o = omega arith
  read_procs_more (some n) o = elim (Bool-cases (outside max_processes n)) [
    | inl bad ↦ rw bad (omega arith)
    | inr good ↦ rw good (omega arith)
  ]

  option_stray :
      (k : Kind) (o : Options) (files : F)
      → is_stray k ≡ true
      → 0 < (option fopen k o files).1.errors
  unfolding option
  option_stray unrecognized o files h = omega arith
  option_stray _ o files h = absurd (cc)

  still : {b : Bool} {m n : ℕ} → (b ≡ true) ⊎ (0 < m) → m ≤ n → (b ≡ true) ⊎ (0 < n)
  still (inl stray) le = inl stray
  still (inr some_error) le = inr (omega arith)

  counted :
      (k : Kind) (o : Options) (files : F) (b : Awaited → Bool)
      → ((is_stray k || b (asks k)) ≡ true) ⊎ (0 < o.errors)
      → (b (option fopen k o files).0 ≡ true) ⊎ (0 < (option fopen k o files).1.errors)
  counted k o files b (inl stray) = elim (Bool-cases (is_stray k)) [
    | inl here ↦ inr (option_stray k o files here)
    | inr not_here ↦ inl (rw (option-asks k o files) (ground (arith, stray, not_here)))
  ]
  counted k o files b (inr some_error) = inr (omega (arith, (option-Later fopen k o files).2))

  -- The loop counts an error for a stray argument.
  pub parse_loop_stray :
      (argv : List String) (awaited : Awaited) (o out : Options) (files files' : F)
      → (has_stray argv awaited ≡ true) ⊎ (0 < o.errors)
      → parse_loop sscanf fopen argv awaited o files ≡ some (out, files')
      → 0 < out.errors
  unfolding parse_loop
  parse_loop_stray [] no_value o out files files' h e =
      let same : ◌≡◌ {A = Options × F} (o, files) (out, files') = cc in
      elim h [
        | inl stray ↦ absurd (cc)
        | inr some_error ↦ subst (λ (x : Options × F). 0 < x.0.errors) same some_error
      ]
  parse_loop_stray [] seed_value o out files files' h e = absurd (cc)
  parse_loop_stray [] procs_value o out files files' h e = absurd (cc)
  parse_loop_stray (arg ∷ argv) seed_value o out files files' h e =
      parse_loop_stray argv no_value (read_seed (sscanf arg) o) out files files'
        (still h (read_seed_more (sscanf arg) o)) e
  parse_loop_stray (arg ∷ argv) procs_value o out files files' h e =
      parse_loop_stray argv no_value (read_procs (sscanf arg) o) out files files'
        (still h (read_procs_more (sscanf arg) o)) e
  parse_loop_stray (arg ∷ argv) no_value o out files files' h e =
      let (awaited, o', files'') = option fopen (kind arg) o files in
      parse_loop_stray argv awaited o' out files'' files'
        (counted (kind arg) o files (has_stray argv) h) e
