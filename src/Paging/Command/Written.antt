-- ===== src/Paging/Command/Written.antt =====
-- Options of the simulator (assignments/pa7/simulator.c) written out as arguments and read again.
use csci_3753_operating_syst.Prelude.{
  ℕ, ◌≤◌, ◌≡◌, refl, ◌∙◌, Bool, true, false, Option, some, List, [], ◌∷◌, arith, if◌then◌else◌,
}
use Prim.Native.String.{String}
use csci_3753_operating_syst.Prelude.Int.{ℤ, pos}
use csci_3753_operating_syst.Paging.{max_processes}
use csci_3753_operating_syst.Paging.Command.{
  Options, Ports, no_value, kind, option, read_seed, read_procs, parse_loop, defaults, outside,
  max_seed, strcmp, log_always,
}

-- An argument that is there if its port is open.
abbrev flag : Bool → String → List String → List String
flag b arg rest = if b then arg ∷ rest else rest

abbrev with_ports : Ports → Options
with_ports p = record defaults { log_port = p }

inside-outside : (most n : ℕ) → 1 ≤ n → n ≤ most → outside most (pos n) ≡ false
unfolding outside
inside-outside most n low high = ground arith

module _ {F : Type 0} (sscanf : String → Option ℤ) (fopen : String → F → Bool × F) where
  -- The flag of one port.
  flag_lem :
      (b : Bool) (ports : Bool → Ports) (arg : String) (rest : List String) (files : F)
      → option fopen (kind arg) (with_ports (ports false)) files
        ≡ (no_value, with_ports (ports true), files)
      → parse_loop sscanf fopen (flag b arg rest) no_value (with_ports (ports false)) files
        ≡ parse_loop sscanf fopen rest no_value (with_ports (ports b)) files
  unfolding parse_loop
  flag_lem true ports arg rest files e = rw (parse_loop, e) refl
  flag_lem false ports arg rest files e = refl

  module _ (print : ℕ → String) where
    -- The arguments for ports, a seed and a number of processors.
    pub command_line : Ports → ℕ → ℕ → List String
    command_line p seed procs = flag p.load "-load" (
        flag p.block "-block" (
          flag p.page "-page" (
            flag p.branch "-branch"
              (flag p.dead "-dead" ("-seed" ∷ print seed ∷ "-procs" ∷ print procs ∷ [])))))

    -- Any ports, seed and number of processors within the bounds can be written as arguments, if sscanf reads
    -- the two as they are printed: the loop over the arguments finds them as they were, with no error.
    pub parse_loop-command_line :
        (p : Ports) (seed procs : ℕ) (files : F)
        → sscanf (print seed) ≡ some (pos seed)
        → sscanf (print procs) ≡ some (pos procs)
        → 1 ≤ seed
        → seed ≤ max_seed
        → 1 ≤ procs
        → procs ≤ max_processes
        → parse_loop sscanf fopen (command_line p seed procs) no_value defaults files
          ≡ some (
            record {
              log_port = p;
              seed = pos seed;
              procs = pos procs;
              output = false;
              pages = false;
              errors = 0;
              help = 0;
            },
            files,
          )
    unfolding command_line parse_loop option kind strcmp
    parse_loop-command_line p seed procs files rs rp s1 s2 p1 p2 =
        let tail = "-seed" ∷ print seed ∷ "-procs" ∷ print procs ∷ [] in
        let dead = flag p.dead "-dead" tail in
        let branch = flag p.branch "-branch" dead in
        let page = flag p.page "-page" branch in
        flag_lem p.load (λ b. record log_always { load = b }) "-load" (flag p.block "-block" page)
          files refl
        ∙ flag_lem p.block (λ b. record log_always { load = p.load; block = b }) "-block" page files
            refl
        ∙ flag_lem p.page (λ b. record log_always { load = p.load; block = p.block; page = b })
            "-page" branch files refl
        ∙ flag_lem p.branch
            (λ b. record log_always { load = p.load; block = p.block; page = p.page; branch = b })
            "-branch" dead files refl
        ∙ flag_lem p.dead (λ b. record p { dead = b }) "-dead" tail files refl
        ∙ rw
            (
              rs,
              rp,
              read_seed,
              read_procs,
              inside-outside max_seed seed s1 s2,
              inside-outside max_processes procs p1 p2,
            )
            refl
