-- ===== src/Paging/Programs/Runnable.antt =====
-- Which programs of assignments/pa7/programs.c the simulator of assignments/pa7/simulator.c can run.
use csci_3753_operating_syst.Prelude.{
  ℕ, zero, suc, ◌/◌, ◌≤◌, ◌<◌, min, ◌≡◌, refl, inl, inr, Bool, true, none, some, List, [], ◌∷◌,
  arith, length, get_elem?, get_or, take, length-take, get_or-take, All,
}
use csci_3753_operating_syst.Paging.{Process, page_size}
use csci_3753_operating_syst.Paging.Programs.{
  program_0, program_1, program_2, program_3, program_4, programs,
}
use csci_3753_operating_syst.Paging.Search.Correct.{IsSorted}
use csci_3753_operating_syst.Paging.Execution.{process_step}
use csci_3753_operating_syst.Paging.Execution.Step.{IsProgram, starts}
use csci_3753_operating_syst.Paging.Execution.Load.{no_branch_step}
use csci_3753_operating_syst.Paging.Execution.Unbranched.{IsUnbranched, IsLoadable}
use csci_3753_operating_syst.Prelude.Int.{pos}

-- Each entry is below the ones behind it.
abbrev pub Increasing : List ℕ → Type 0
Increasing [] = Unit
Increasing (x ∷ xs) = All (λ y. x < y) xs × Increasing xs

All-at : (x : ℕ) (xs : List ℕ) (i : ℕ) → All (λ y. x < y) xs → i < length xs → x < get_or xs i 0
All-at x [] i h lt = absurd (omega arith)
All-at x (y ∷ ys) zero h lt = h.0
All-at x (y ∷ ys) (suc i) h lt = All-at x ys i h.1 (omega arith)

Increasing-at :
    (xs : List ℕ) (i j : ℕ) → Increasing xs → i < j → j < length xs → get_or xs i 0 < get_or xs j 0
Increasing-at [] i j h ij jn = absurd (omega arith)
Increasing-at (x ∷ xs) i zero h ij jn = absurd (omega arith)
Increasing-at (x ∷ xs) zero (suc j) h ij jn = All-at x xs j h.0 (omega arith)
Increasing-at (x ∷ xs) (suc i) (suc j) h ij jn =
    Increasing-at xs i j h.1 (omega arith) (omega arith)

-- A table whose first `n` entries are the increasing list `xs`.
pub IsSorted-of :
    (keys : List ℕ) (n : ℕ) → n ≤ length keys → Increasing (take n keys) → IsSorted keys n
IsSorted-of keys n fits h = record {
  inside = fits;
  sorted = λ i j ij jn.
      let len : length (take n keys) ≡ min n (length keys) = length-take n keys in
      let lt = Increasing-at (take n keys) i j h ij (omega arith) in
      omega (arith, get_or-take n i keys 0 (omega arith), get_or-take n j keys 0 jn);
}

-- Programs 0, 1, 2 and 4 of the table are runnable: their tables of exits and branches are sorted,
-- hold an entry each and fit, and their code fits in the page table.
pub programs_runnable :
    (length programs ≡ 5)
    × IsProgram program_0
    × IsProgram program_1
    × IsProgram program_2
    × IsProgram program_4
programs_runnable = (refl, runnable_0, runnable_1, runnable_2, runnable_4)
  where
    runnable_0 : IsProgram program_0
    runnable_0 = record {
      exits_sorted = IsSorted-of program_0.exits 1 (omega arith) (tt, tt);
      exits_some = (omega arith, omega arith);
      branches_sorted =
          IsSorted-of (starts program_0) 3 (omega arith)
            ((omega arith, (omega arith, tt)), ((omega arith, tt), (tt, tt)));
      branches_some = (omega arith, omega arith);
      small = omega arith;
    }

    runnable_1 : IsProgram program_1
    runnable_1 = record {
      exits_sorted = IsSorted-of program_1.exits 1 (omega arith) (tt, tt);
      exits_some = (omega arith, omega arith);
      branches_sorted = IsSorted-of (starts program_1) 1 (omega arith) (tt, tt);
      branches_some = (omega arith, omega arith);
      small = omega arith;
    }

    runnable_2 : IsProgram program_2
    runnable_2 = record {
      exits_sorted = IsSorted-of program_2.exits 1 (omega arith) (tt, tt);
      exits_some = (omega arith, omega arith);
      branches_sorted =
          IsSorted-of (starts program_2) 2 (omega arith) ((omega arith, tt), (tt, tt));
      branches_some = (omega arith, omega arith);
      small = omega arith;
    }

    runnable_4 : IsProgram program_4
    runnable_4 = record {
      exits_sorted = IsSorted-of program_4.exits 1 (omega arith) (tt, tt);
      exits_some = (omega arith, omega arith);
      branches_sorted = IsSorted-of (starts program_4) 4 (omega arith) (
        (omega arith, (omega arith, (omega arith, tt))),
        ((omega arith, (omega arith, tt)), ((omega arith, tt), (tt, tt))),
      );
      branches_some = (omega arith, omega arith);
      small = omega arith;
    }

-- Each program of the table can be loaded: program 3 has no branch, but an exit.
pub programs-IsLoadable : All IsLoadable programs
programs-IsLoadable =
    let (five, runnable_0, runnable_1, runnable_2, runnable_4) = programs_runnable in
    let unbranched_3 : IsUnbranched program_3 = record {
      exits_sorted = IsSorted-of program_3.exits 1 (omega arith) (tt, tt);
      exits_some = (omega arith, omega arith);
      no_branch = refl;
      small = omega arith;
    } in
    (inl runnable_0, (inl runnable_1, (inl runnable_2, (inr unbranched_3, (inl runnable_4, tt)))))

only_exit : (i : ℕ) → i < 1 → get_or program_3.exits i 0 ≡ 1911
only_exit zero lt = refl
only_exit (suc i) lt = absurd (omega arith)

-- Program 3 of the table has no branch. An active process of it whose page is in memory faults at
-- every instruction between the first and the exit, since the step reads `branches[-1]`.
pub program_3_faults :
    (q : Process) (flag : Bool)
    → q.active ≡ true
    → q.program ≡ some program_3
    → get_elem? q.pages (q.pc / page_size) ≡ some (pos 0)
    → get_elem? q.blocked (q.pc / page_size) ≡ some flag
    → 0 < q.pc
    → q.pc < 1911
    → process_step q ≡ none
program_3_faults q flag active program here blocked low high =
    no_branch_step program_3 q _ flag (IsSorted-of program_3.exits 1 (omega arith) (tt, tt))
      (omega arith, omega arith) refl active program here blocked
      (λ i lt e. omega (arith, only_exit i lt)) refl (λ e. omega arith)
