-- ===== src/Tests/Running.antt =====
-- The theorems on whole runs of the simulator (assignments/pa7/simulator.c) on the table of
-- assignments/pa7/programs.c and concrete pagers.
use csci_3753_operating_syst.Prelude.{
  ℕ, ◌+◌, ◌≡◌, refl, inl, inr, Bool, true, false, none, List, [], ◌∷◌, arith, length, replicate,
  All, All-replicate,
}
use csci_3753_operating_syst.Paging.{Branch, Process, Sim, max_branches}
use csci_3753_operating_syst.Paging.Pager.{Pentry, Calls, finish, ask_in, ask_out}
use csci_3753_operating_syst.Paging.Branching.Init.Forks.{Turns}
use csci_3753_operating_syst.Paging.Execution.Load.{FairBranch}
use csci_3753_operating_syst.Paging.Programs.{
  program_0, program_1, program_2, program_3, program_4, programs,
}
use csci_3753_operating_syst.Paging.Programs.Runnable.{programs-IsLoadable}
use csci_3753_operating_syst.Paging.System.Shape.{Running}
use csci_3753_operating_syst.Paging.System.Start.{IsTable, allinit-Running}
use csci_3753_operating_syst.Tests.Samples.{running, coin, five}
use csci_3753_operating_syst.Prelude.Int.{pos, negsuc}

-- A coin that falls on each side in turn.
turns : (prob : ℕ) (v : Bool) (r : Bool) → Turns coin five 2 prob v r
turns prob true true = inr (inl refl)
turns prob true false = inl refl
turns prob false true = inl refl
turns prob false false = inr (inl refl)

fair_branches : (branches : List Branch) → All (FairBranch coin five 2) branches
fair_branches [] = tt
fair_branches (b ∷ branches) = (λ e. turns b.prob, fair_branches branches)

-- The table of assignments/pa7/programs.c.
pub programs-IsTable : IsTable coin five programs 2
programs-IsTable = record {
  five = refl;
  loadable = programs-IsLoadable;
  roomy = (omega arith, (omega arith, (omega arith, (omega arith, (omega arith, tt)))));
  fair = (
    fair_branches program_0.branches,
    (
      fair_branches program_1.branches,
      (
        fair_branches program_2.branches,
        (fair_branches program_3.branches, (fair_branches program_4.branches, tt)),
      ),
    ),
  );
}

-- The static state, before `allinit`.
abbrev pub start : Sim
start = record {
  sysclock = 0;
  procs = 20;
  pagesavail = 100;
  processes = replicate 20 none;
  pageouts = replicate 20 0;
  queue = replicate 40 (running (negsuc 100));
  queueend = 0;
}

pub start-sized : All (λ (q : Process). length q.bcontexts ≡ max_branches) start.queue
start-sized =
    All-replicate (λ (q : Process). length q.bcontexts ≡ max_branches) 40 (running (negsuc 100))
      refl

-- A pager that asks for the first page of the first process and throws out the second.
abbrev pub greedy : List Pentry → ℕ → Calls ℕ
greedy q calls =
    ask_in (pos 0) (pos 0) (λ here. ask_out (pos 0) (pos 1) (λ gone. finish (calls + 1)))

-- What `allinit` makes of `start`.
abbrev pub first : Sim
first = (allinit-Running coin five programs 2 start true programs-IsTable refl start-sized refl).0.0

pub first-Running : Running first
first-Running =
    (allinit-Running coin five programs 2 start true programs-IsTable refl start-sized refl).2
