-- ===== src/Tests/Execution.antt =====
-- The theorems on the search, the branches and the steps of a process (assignments/pa7/simulator.c)
-- on concrete inputs.
use csci_3753_operating_syst.Prelude.{
  ℕ, ◌+◌, ◌≡◌, refl, ◌≢◌, ◌⊎◌, inl, inr, Bool, true, false, none, some, List, [], ◌∷◌, arith,
  replicate, All, All-get_elem?, All-replicate,
}
use csci_3753_operating_syst.Paging.{
  Branch, Bcontext, Process, for, branch_if, goto, max_brings, max_proc_pages,
}
use csci_3753_operating_syst.Paging.Search.{find_key}
use csci_3753_operating_syst.Paging.Search.Correct.{Answer, find_key_answer}
use csci_3753_operating_syst.Paging.Branching.{bcontext_init}
use csci_3753_operating_syst.Paging.Branching.Decide.{
  IsReady, decide_n, duration, expand, decide_cycle,
}
use csci_3753_operating_syst.Paging.Branching.Init.Forks.{Turns, bcontext_init-branch_if}
use csci_3753_operating_syst.Paging.Execution.{process_clear, process_load, process_step}
use csci_3753_operating_syst.Paging.Execution.Step.{
  IsProgram, IsLoaded, Stepped, process_step-loaded,
}
use csci_3753_operating_syst.Paging.Execution.Load.{FairBranch, load-clear}
use csci_3753_operating_syst.Paging.Programs.{program_1, program_3}
use csci_3753_operating_syst.Paging.Programs.Runnable.{
  IsSorted-of, programs_runnable, program_3_faults,
}
use csci_3753_operating_syst.Tests.Samples.{running, idle, coin, five}
use csci_3753_operating_syst.Prelude.Int.{ℤ, pos, negsuc}

abbrev keys : List ℕ
keys = 3 ∷ 7 ∷ 9 ∷ []

find_key_answer_example : Answer keys 3 7 (find_key keys 3 7)
find_key_answer_example =
    find_key_answer keys 3 7
      (IsSorted-of keys 3 (omega arith)
        ((omega arith, (omega arith, tt)), ((omega arith, tt), (tt, tt))))
      (omega arith)

abbrev pair_context : Bcontext
pair_context = record {
  btype = for;
  boffset = 0;
  bsize = 2;
  bvalue = true;
  bcount = 0;
  brings = 3 ∷ 1 ∷ replicate 98 0;
}

decide_cycle_example :
    decide_n 4 pair_context ≡ some (true ∷ true ∷ true ∷ false ∷ [], pair_context)
unfolding duration expand
decide_cycle_example =
    decide_cycle pair_context 1 (record { inside = omega arith; sized = omega arith; whole = refl })
      refl refl refl

abbrev loop : Branch
loop = record {
  wherefrom = 9;
  whereto = 0;
  btype = for;
  min_count = 2;
  max_count = 6;
  prob = 0;
  extent = 0;
}

abbrev fork : Branch
fork = record {
  wherefrom = 9;
  whereto = 0;
  btype = branch_if;
  min_count = 0;
  max_count = 0;
  prob = 5;
  extent = 0;
}

coin-Turns : (v : Bool) (r : Bool) → Turns coin five 2 5 v r
coin-Turns true true = inr (inl refl)
coin-Turns true false = inl refl
coin-Turns false true = inl refl
coin-Turns false false = inr (inl refl)

bcontext_init-branch_if_example :
    (c' : Bcontext) × (r' : Bool) × (bcontext_init coin five 201 idle fork true
      ≡ some (c', some 1, r'))
    × IsReady c'
    × (c'.bsize ≡ max_brings)
    × (c'.btype ≡ branch_if)
    × ((c'.boffset ≡ 0) × (c'.bcount ≡ 0))
bcontext_init-branch_if_example =
    bcontext_init-branch_if coin five 2 idle fork true coin-Turns refl refl

-- A program with a single branch.
program_1-IsProgram : IsProgram program_1
program_1-IsProgram = programs_runnable.2

running-IsLoaded : (age : ℤ) → IsLoaded program_1 (running age)
running-IsLoaded age = record {
  program = refl;
  inside = omega arith;
  paged = (refl, refl);
  contexts = omega arith;
  ready = λ i c lt at.
      All-get_elem? IsReady (replicate 40 idle) i c
        (All-replicate IsReady 40 idle
          (record { inside = omega arith; sized = omega arith; whole = refl }))
        at;
}

process_step-loaded_example :
    (out : Bool × Process) × (process_step (running (pos 0)) ≡ some out)
    × Stepped program_1 (running (pos 0)) out
    × ((pos 0 ≡ pos 0) × (out.1.compute ≡ 6) × (out.1.block ≡ 100)
        ⊎ (pos 0 ≢ pos 0) × (out.1.compute ≡ 5) × (out.1.block ≡ 101) × (out.0 ≡ true))
process_step-loaded_example =
    process_step-loaded program_1 (running (pos 0)) program_1-IsProgram (running-IsLoaded (pos 0))
      refl

program_3_faults_example :
    process_step (record (running (pos 0)) { program = some program_3 }) ≡ none
program_3_faults_example =
    program_3_faults (record (running (pos 0)) { program = some program_3 }) false refl refl refl
      refl (omega arith) (omega arith)

-- `program_1` has no `IF` branch, so nothing is asked of the draws.
program_1-FairBranch : All (FairBranch coin five 1) program_1.branches
program_1-FairBranch = (
  (λ e. cc),
  All-replicate (FairBranch coin five 1) 39
      (record {
        wherefrom = 0;
        whereto = 0;
        btype = goto;
        min_count = 0;
        max_count = 0;
        prob = 0;
        extent = 0;
      })
      (λ e. cc),
)

load-clear_example :
    (out : Process × Bool) × (process_load coin five 101
        (process_clear (running (pos 0)))
        program_1
        3
        1
        true
      ≡ some out)
    × IsLoaded program_1 out.0
    × (out.0.active ≡ true)
    × (out.0.pc ≡ 0)
    × (out.0.npages ≡ max_proc_pages)
    × (out.0.pages ≡ replicate max_proc_pages (negsuc 100))
    × (out.0.compute + out.0.block ≡ 0)
load-clear_example =
    load-clear coin five 1 (running (pos 0)) program_1 3 1 true program_1-IsProgram (omega arith)
      refl program_1-FairBranch
