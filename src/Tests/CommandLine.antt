-- ===== src/Tests/CommandLine.antt =====
-- The theorems on the command line and on the display of the simulator (assignments/pa7/simulator.c) on
-- concrete arguments.
use csci_3753_operating_syst.Prelude.{
  ◌≡◌, refl, Bool, true, false, Option, none, some, List, [], ◌∷◌, arith, if◌then◌else◌,
}
use Prim.Native.String.{String}
use csci_3753_operating_syst.Prelude.Int.{ℤ, pos}
use csci_3753_operating_syst.Paging.Command.{strcmp, parse_loop, no_value, defaults}
use csci_3753_operating_syst.Paging.Command.Written.{command_line, parse_loop-command_line}

-- A reader of `7`, and of nothing else.
abbrev seven : String → Option ℤ
seven arg = if strcmp arg "7" then some (pos 7) else none

abbrev files_open : String → Unit {0} → Bool × Unit {0}
files_open name files = (true, files)

abbrev main_lem_args : List String
main_lem_args = "-dead" ∷ "-procs" ∷ "7" ∷ "-csv" ∷ []

parse_loop-command_line_example :
    parse_loop seven files_open
      (command_line seven files_open
        (λ n. "7")
        (record { load = true; block = false; page = false; branch = true; dead = false })
        7
        7)
      no_value
      defaults
      tt
    ≡ some (
      record {
        log_port = record { load = true; block = false; page = false; branch = true; dead = false };
        seed = pos 7;
        procs = pos 7;
        output = false;
        pages = false;
        errors = 0;
        help = 0;
      },
      tt,
    )
unfolding strcmp
parse_loop-command_line_example =
    parse_loop-command_line seven files_open (λ n. "7")
      (record { load = true; block = false; page = false; branch = true; dead = false }) 7 7 tt refl
      refl (omega arith) (omega arith) (omega arith) (omega arith)
