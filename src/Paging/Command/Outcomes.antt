-- ===== src/Paging/Command/Outcomes.antt =====
-- How main of the simulator (assignments/pa7/simulator.c) ends, from the command line to the last round of its loop.
use csci_3753_operating_syst.Prelude.{
  ℕ, zero, suc, ◌+◌, ◌*◌, ◌^◌, ◌<◌, ◌≡◌, refl, ◌≢◌, ◌⊎◌, inl, inr, Bool, false, Option, none, some,
  List, arith, ltb, Bool-cases, length, All,
}
use Prim.Native.String.{String}
use csci_3753_operating_syst.Prelude.Int.{ℤ, pos, negsuc}
use csci_3753_operating_syst.Prelude.Sums.{total}
use csci_3753_operating_syst.Paging.{
  max_processes, Program, Sim, queue_size, max_branches, physical_pages,
}
use csci_3753_operating_syst.Paging.Pager.{Pentry, Calls}
use csci_3753_operating_syst.Paging.System.{allinit, simulate}
use csci_3753_operating_syst.Paging.System.Steps.{Loses}
use csci_3753_operating_syst.Paging.System.Start.{IsTable, main_runs}
use csci_3753_operating_syst.Paging.Frames.Conservation.{frames}
use csci_3753_operating_syst.Paging.Command.{
  is_zero, Options, Outcome, fault, exit_failure, exit_success, running, no_value, parse_loop,
  defaults, max_seed, seeded, time_seed, natural, run_options, main,
}
use csci_3753_operating_syst.Paging.Command.Accepted.{
  Within, Clean, after_last, has_stray, parse_loop-Clean, parse_loop_stray,
}

-- The seed is a number that srand48 gets as it is, and the slots that run are slots of `processes[]`.
pub record IsAccepted (o : Options) : Type 0 where
  pub seed_in : (n : ℕ) × (o.seed ≡ pos n) × (n < 2 ^ 30)
  pub procs_in : Within max_processes o.procs

seed_cases :
    (n : ℤ)
    → (n ≡ pos 0) ⊎ Within max_seed n
    → (n ≡ pos 0) ⊎ (m : ℕ) × (n ≡ pos (suc m)) × (suc m < 2 ^ 30)
seed_cases n (inl z) = inl z
seed_cases (pos zero) (inr w) = inl refl
seed_cases (pos (suc m)) (inr w) = inr (m, refl, omega (arith, w))
seed_cases (negsuc m) (inr w) = absurd (omega (arith, w))

seeded-IsAccepted :
    (times : ℕ × ℕ × ℕ) (o : Options) → Clean o → o.errors ≡ 0 → IsAccepted (seeded times o)
unfolding seeded time_seed is_zero
seeded-IsAccepted times o clean free =
    let good = clean free in
    elim (seed_cases o.seed good.seed_in) [
      | inl z ↦ rw z (record {
        seed_in = (time_seed times.0 times.1 times.2, refl, omega arith);
        procs_in = good.procs_in;
      })
      | inr (m, e, lt) ↦ rw e (record { seed_in = (suc m, refl, lt); procs_in = good.procs_in })
    ]

defaults-Clean : Clean defaults
defaults-Clean e = record { seed_in = inl refl; procs_in = (omega arith, omega arith) }

-- main runs the simulation on, without a fault and with all frames accounted for.
abbrev pub IsRunning : {P : Type 0} → Outcome P → Type 0
IsRunning {P} end =
    (o : Options) × (out : P × Sim) × (end ≡ running o out)
    × IsAccepted o
    × (out.1.pagesavail + total frames out.1.queue ≡ physical_pages)

module _ {F R P : Type 0} (sscanf : String → Option ℤ) (fopen : String → F → Bool × F)
    (srand48 : ℤ → R) (drand_lt : ℕ → R → Bool × R) (lrand48 : R → ℕ × R) (programs : List Program)
    (pageit : List Pentry → P → Calls P) (k : ℕ) where
  known :
      (argv : List String) (files : F) (read : Options) (files' : F)
      → ltb 0 read.errors ≡ false
      → parse_loop sscanf fopen argv no_value defaults files ≡ some (read, files')
      → has_stray argv no_value ≡ false
  known argv files read files' no_error reads = elim (Bool-cases (has_stray argv no_value)) [
    | inl stray ↦
        let some_error =
          parse_loop_stray sscanf fopen argv no_value defaults read files files' (inl stray)
            reads in
        absurd (ground (arith, some_error, no_error))
    | inr none_stray ↦ none_stray
  ]

  -- main runs the simulation into the read of `branches[-1]`.
  abbrev pub IsLosing : ℕ → P → Sim → Type 0
  IsLosing n memory s =
      (o : Options) × (start : Sim × R) × IsAccepted o
      × (allinit drand_lt lrand48 programs (100 * k + 1) (record s { procs = natural o.procs })
            (srand48 o.seed)
          ≡ some start)
      × (simulate pageit n memory start.0 ≡ none)
      × Loses pageit n memory start.0

  -- The ends that main can come to with these arguments.
  abbrev pub IsEnd : ℕ → P → Sim → List String → Outcome P → Type 0
  IsEnd n memory s argv end =
      (after_last argv no_value ≢ no_value) × (end ≡ fault)
      ⊎ (after_last argv no_value ≡ no_value)
        × ((end ≡ exit_failure)
            ⊎ (has_stray argv no_value ≡ false)
              × ((end ≡ exit_success) ⊎ IsRunning end ⊎ (end ≡ fault) × IsLosing n memory s))

  pub main_lem :
      (n : ℕ) (times : ℕ × ℕ × ℕ) (memory : P) (s : Sim) (argv : List String) (files : F)
      → IsTable drand_lt lrand48 programs k
      → length s.queue ≡ queue_size
      → All (λ q. length q.bcontexts ≡ max_branches) s.queue
      → s.pagesavail ≡ physical_pages
      → IsEnd n memory s argv (
          main sscanf fopen srand48 drand_lt lrand48 programs pageit
            (100 * k + 1)
            n
            times
            memory
            s
            argv
            files)
  unfolding main run_options
  main_lem n times memory s argv files table size sized avail =
      elim (parse_loop-Clean sscanf fopen argv no_value defaults files defaults-Clean) [
        | inl (missing, reads) ↦ inl (missing, rw (main, reads) refl)
        | inr ((read, files'), reads, given, clean) ↦ inr (
          given,
          elim (Bool-cases (ltb 0 read.errors)) [
            | inl some_error ↦ inl (rw (main, reads, some_error) refl)
            | inr no_error ↦ inr (
              known argv files read files' no_error reads,
              elim (Bool-cases (ltb 0 read.help)) [
                | inl help ↦ inl (rw (main, reads, no_error, help) refl)
                | inr no_help ↦
                    let o = seeded times read in
                    let s' : Sim = record s { procs = natural o.procs } in
                    let accepted = seeded-IsAccepted times read clean (ground (arith, no_error)) in
                    let (start, starts, end) =
                      main_runs drand_lt lrand48 programs k pageit n memory s' (srand48 o.seed)
                        table size sized avail in
                    elim end [
                      | inl (lost, loses) ↦ inr (
                          inr (
                            rw (main, reads, no_error, no_help, starts, lost) refl,
                            (o, start, accepted, starts, lost, loses),
                          ))
                      | inr (out, runs, sum) ↦ inr (
                          inl (
                            o,
                            out,
                            rw (main, reads, no_error, no_help, starts, runs) refl,
                            accepted,
                            sum,
                          ))
                    ]
              ],
            )
          ],
        )
      ]
