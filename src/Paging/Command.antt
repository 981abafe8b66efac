-- ===== src/Paging/Command.antt =====
-- The command line of the paging simulator: main of assignments/pa7/simulator.c. sscanf, fopen and
-- srand48 are parameters, and so are the answers of time. What is printed is left out, but for the
-- ports of the log that are open.
pub mod Accepted
pub mod Outcomes
pub mod Written
use csci_3753_operating_syst.Prelude.{
  ℕ, zero, suc, ◌+◌, ◌-◌, ◌*◌, ◌/◌, ◌%◌, ◌^◌, ◌≤◌, ◌<◌, min, ◌≡◌, refl, sym, ap, ◌∙◌, subst, ◌≢◌,
  ◌↔◌, ◌⊎◌, inl, inr, Bool, true, false, not, ◌&&◌, ◌||◌, Option, none, some, List, [], ◌∷◌, ◌++◌,
  map, arith, dec_lt, ℕ_discrete, ltb, leb, ◌==◌, if◌then◌else◌, ltb→lt, lt→ltb, leb→le, ==_iff,
  tests, Bool-cases, bool_eq, Option-cases, if_keeps, length, get_elem?, get_or, set, take, drop,
  replicate, length-append, length-set, set-set, length-replicate, get_elem?_lt,
  get_elem?-eq-get_or, get_elem?-set_self, get_elem?-set_ne, get_or-set_self, get_or-set_ne,
  length-take, length-drop, take-append-drop, length-map, get_elem?-map, get_elem?_of_lt,
  drop-eq-cons, get_elem?-take, get_or-take, get_or-eq_get_elem?, All, All-set, All-get_or,
  All-take, All-get_elem?, All-replicate,
}
use text.Mathlib.Text
use Prim.Native.String.{String}
use csci_3753_operating_syst.Prelude.Int.{ℤ, pos, negsuc, ltb_ℤ}
use csci_3753_operating_syst.Prelude.Opt.{◌>>=◌}
use csci_3753_operating_syst.Paging.{Program, Sim, max_processes}
use csci_3753_operating_syst.Paging.Pager.{Pentry, Calls}
use csci_3753_operating_syst.Paging.System.{allinit, simulate}

-- `log_port`: LOG_ALWAYS, and the ports that are set besides it.
pub record Ports : Type 0 where
  pub load : Bool
  pub block : Bool
  pub page : Bool
  pub branch : Bool
  pub dead : Bool

-- The variables that the loop over the arguments sets; `output` and `pages` say whether the file is
-- open.
pub record Options : Type 0 where
  pub log_port : Ports
  pub seed : ℤ
  pub procs : ℤ
  pub output : Bool
  pub pages : Bool
  pub errors : ℕ
  pub help : ℕ

abbrev pub log_always : Ports
log_always = record { load = false; block = false; page = false; branch = false; dead = false }

-- Before the loop.
abbrev pub defaults : Options
defaults = record {
  log_port = log_always;
  seed = pos 0;
  procs = pos max_processes;
  output = false;
  pages = false;
  errors = 0;
  help = 0;
}

-- What an argument says.
pub data Kind : Type 0 where
  help_flag all_flag load_flag block_flag page_flag branch_flag dead_flag : Kind
  seed_flag csv_flag procs_flag unrecognized : Kind

-- `strcmp(a,b)==0`
unfoldable pub strcmp : String → String → Bool
strcmp a b = Text.◌==◌ a b

-- The chain of tests of an argument.
unfoldable pub kind : String → Kind
unfolding strcmp
kind arg =
    if strcmp arg "-help"
    then help_flag
    else if strcmp arg "-all"
    then all_flag
    else if strcmp arg "-load"
    then load_flag
    else if strcmp arg "-block"
    then block_flag
    else if strcmp arg "-page"
    then page_flag
    else if strcmp arg "-branch"
    then branch_flag
    else if strcmp arg "-dead"
    then dead_flag
    else if strcmp arg "-seed"
    then seed_flag
    else if strcmp arg "-csv"
    then csv_flag
    else if strcmp arg "-procs"
    then procs_flag
    else unrecognized

-- `errors++`
abbrev pub with_error : Options → Options
with_error o = record o { errors = o.errors + 1 }

-- `(1<<30)-1`
abbrev pub max_seed : ℕ
max_seed = 2 ^ 30 - 1

-- `n<1 || n>most`
unfoldable pub outside : ℕ → ℤ → Bool
outside most n = ltb_ℤ n (pos 1) || ltb_ℤ (pos most) n

-- The argument that the next one is the value of.
pub data Awaited : Type 0 where
  no_value seed_value procs_value : Awaited

-- The value of `-seed`, by the answer of sscanf: a number that is refused stays in the variable.
unfoldable pub read_seed : Option ℤ → Options → Options
unfolding outside
read_seed none o = with_error o
read_seed (some n) o =
    let o' : Options = record o { seed = n } in if outside max_seed n then with_error o' else o'

-- The value of `-procs`.
unfoldable pub read_procs : Option ℤ → Options → Options
unfolding outside
read_procs none o = with_error o
read_procs (some n) o =
    let o' : Options = record o { procs = n } in
    if outside max_processes n then with_error o' else o'

module _ {F : Type 0} (fopen : String → F → Bool × F) where
  -- `-csv`: both files are opened, the second also when the first cannot be.
  unfoldable pub open_csv : Options → F → Options × F
  open_csv o files =
      let (output, files') = fopen "output.csv" files in
      let o' : Options = record o { output = output } in
      let (pages, files'') = fopen "pages.csv" files' in
      let o'' : Options = record (if output then o' else with_error o') { pages = pages } in
      (if pages then o'' else with_error o'', files'')

  -- What an argument does that is not the value of the one before.
  unfoldable pub option : Kind → Options → F → Awaited × Options × F
  unfolding open_csv
  option help_flag o files = (no_value, record o { help = o.help + 1 }, files)
  option all_flag o files = (
    no_value,
    record o {
      log_port = record o.log_port { load = true; block = true; page = true; branch = true };
    },
    files,
  )
  option load_flag o files =
      (no_value, record o { log_port = record o.log_port { load = true } }, files)
  option block_flag o files =
      (no_value, record o { log_port = record o.log_port { block = true } }, files)
  option page_flag o files =
      (no_value, record o { log_port = record o.log_port { page = true } }, files)
  option branch_flag o files =
      (no_value, record o { log_port = record o.log_port { branch = true } }, files)
  option dead_flag o files =
      (no_value, record o { log_port = record o.log_port { dead = true } }, files)
  option seed_flag o files = (seed_value, o, files)
  option csv_flag o files = let (o', files') = open_csv o files in (no_value, o', files')
  option procs_flag o files = (procs_value, o, files)
  option unrecognized o files = (no_value, with_error o, files)

module _ {F : Type 0} (sscanf : String → Option ℤ) (fopen : String → F → Bool × F) where
  -- The loop over the arguments; `none` is a read of `argv[argc]`, which is NULL.
  unfoldable pub parse_loop : List String → Awaited → Options → F → Option (Options × F)
  unfolding option read_seed read_procs kind
  parse_loop [] no_value o files = some (o, files)
  parse_loop [] _ o files = none
  parse_loop (arg ∷ argv) seed_value o files =
      parse_loop argv no_value (read_seed (sscanf arg) o) files
  parse_loop (arg ∷ argv) procs_value o files =
      parse_loop argv no_value (read_procs (sscanf arg) o) files
  parse_loop (arg ∷ argv) no_value o files =
      let (awaited, o', files') = option fopen (kind arg) o files in
      parse_loop argv awaited o' files'

-- `(time(NULL)*38491+71831+time(NULL)*time(NULL))&((1<<30)-1)`, for what the three calls return.
unfoldable pub time_seed : ℕ → ℕ → ℕ → ℕ
time_seed t1 t2 t3 = (t1 * 38491 + 71831 + t2 * t3) % 2 ^ 30

-- How main ends. `running` stands for a simulation that has come as far as it was followed.
pub data Outcome (P : Type 0) : Type 0 where
  fault : Outcome P
  exit_failure : Outcome P
  exit_success : Outcome P
  running : Options → P × Sim → Outcome P

-- `seed==0`
unfoldable pub is_zero : ℤ → Bool
is_zero (pos zero) = true
is_zero _ = false

-- The seed that is used.
unfoldable pub seeded : ℕ × ℕ × ℕ → Options → Options
unfolding time_seed is_zero
seeded times o =
    if is_zero o.seed then record o { seed = pos (time_seed times.0 times.1 times.2) } else o

-- A number that is not negative.
unfoldable pub natural : ℤ → ℕ
natural (pos n) = n
natural (negsuc n) = 0

module _ {F R P : Type 0} (sscanf : String → Option ℤ) (fopen : String → F → Bool × F)
    (srand48 : ℤ → R) (drand_lt : ℕ → R → Bool × R) (lrand48 : R → ℕ × R) (programs : List Program)
    (pageit : List Pentry → P → Calls P) where
  -- What main does with the arguments that it has read, for `n` rounds of its loop at most; `procs` is
  -- not negative.
  unfoldable pub run_options : ℕ → ℕ → ℕ × ℕ × ℕ → P → Sim → Options → Outcome P
  unfolding seeded natural
  run_options fuel n times memory s read =
      let o = seeded times read in
      let s' : Sim = record s { procs = natural o.procs } in
      let done = allinit drand_lt lrand48 programs fuel s' (srand48 o.seed) >>= λ start.
      simulate pageit n memory start.0 in
      if ltb 0 read.errors
      then exit_failure
      else if ltb 0 read.help
      then exit_success
      else elim done [ none ↦ fault | some out ↦ running o out ]

  -- `main` of the simulator.
  unfoldable pub main : ℕ → ℕ → ℕ × ℕ × ℕ → P → Sim → List String → F → Outcome P
  unfolding run_options parse_loop
  main fuel n times memory s argv files =
      elim (parse_loop sscanf fopen argv no_value defaults files) [
        | none ↦ fault
        | some (read, files') ↦ run_options fuel n times memory s read
      ]
