-- ===== src/Paging/System/Start.antt =====
-- The start of the simulation: allinit over a table of programs, as the one of assignments/pa7/programs.c.
use csci_3753_operating_syst.Prelude.{
  ℕ, zero, suc, ◌+◌, ◌*◌, ◌%◌, ◌<◌, ◌≡◌, refl, ap, ◌∙◌, ◌⊎◌, inl, inr, Bool, Option, none, some,
  List, [], ◌∷◌, arith, length, replicate, length-replicate, get_elem?_of_lt, All, All-get_elem?,
  All-replicate,
}
use csci_3753_operating_syst.Paging.{
  Program, Process, Sim, max_processes, max_proc_pages, queue_size, physical_pages, max_branches,
}
use csci_3753_operating_syst.Paging.Frames.Ages.{occupies, InRange}
use csci_3753_operating_syst.Paging.Frames.Conservation.{IsSound, frames}
use csci_3753_operating_syst.Paging.Execution.Unbranched.{IsLoadable}
use csci_3753_operating_syst.Paging.Execution.Load.{FairBranch, load_fits, IsLoadable-inside}
use csci_3753_operating_syst.Paging.Pager.{Pentry, Calls}
use csci_3753_operating_syst.Paging.System.{refill, fill_slots, load_queue, allinit, simulate}
use csci_3753_operating_syst.Paging.System.Shape.{IsRunnable, InQueue, Running, refill-Running}
use csci_3753_operating_syst.Paging.System.Steps.{Loses, simulate-Running}
use csci_3753_operating_syst.Prelude.Sums.{total}
use csci_3753_operating_syst.Prelude.Int.{negsuc}

fill_slots-Running : (n i : ℕ) (s : Sim) → Running s → Running (fill_slots n i s)
unfolding fill_slots
fill_slots-Running zero i s h = h
fill_slots-Running (suc n) i s h = fill_slots-Running n (i + 1) (refill i s) (refill-Running i s h)

module _ {R : Type 0} (drand_lt : ℕ → R → Bool × R) (lrand48 : R → ℕ × R) (programs : List Program)
    (k : ℕ) where
  -- The table: programs that are runnable or have no branch, that leave room for one more branch, with fair draws.
  pub record IsTable : Type 0 where
    pub five : length programs ≡ 5
    pub loadable : All IsLoadable programs
    pub roomy : All (λ p. p.nbranches < max_branches) programs
    pub fair : All (λ p. All (FairBranch drand_lt lrand48 k) p.branches) programs

  -- A queue as `initqueue` leaves it.
  record Loaded (queue : List Process) : Type 0 where
    ready : All IsRunnable queue
    sound : All IsSound queue
    free : total frames queue ≡ 0

  load_queue-Loaded :
      (i : ℕ) (queue : List Process) (r : R)
      → IsTable
      → All (λ q. length q.bcontexts ≡ max_branches) queue
      → (out : List Process × R) × (load_queue drand_lt lrand48 programs (100 * k + 1) i queue r
          ≡ some out)
        × Loaded out.0
        × (length out.0 ≡ length queue)
  unfolding load_queue total
  load_queue-Loaded i [] r table sized =
      (([], r), refl, record { ready = tt; sound = tt; free = refl }, refl)
  load_queue-Loaded i (q ∷ queue) r table sized =
      let (p, at) = get_elem?_of_lt programs (i % 5) (omega (arith, table.five)) in
      let hp : IsLoadable p = All-get_elem? IsLoadable programs (i % 5) p table.loadable at in
      let (first, runs, loaded, active, pc, npages, pages, ticks) =
        load_fits drand_lt lrand48 k q p i (i % 5) r (IsLoadable-inside p hp)
          (All-get_elem? (λ (p : Program). p.nbranches < max_branches) programs (i % 5) p
            table.roomy at)
          sized.0
          (All-get_elem? (λ (p : Program). All (FairBranch drand_lt lrand48 k) p.branches) programs
            (i % 5) p table.fair at) in
      let (rest, runs', done, same) = load_queue-Loaded (i + 1) queue first.1 table sized.1 in
      let none_in : total occupies first.0.pages ≡ 0 = rw pages refl in
      (
        (first.0 ∷ rest.0, rest.1),
        rw at (rw runs (rw runs' refl)),
        record {
          ready = ((p, hp, loaded), done.ready);
          sound = (
            record {
              paged = loaded.paged.0;
              fits = omega (arith, npages);
              aged = rw pages (All-replicate InRange max_proc_pages (negsuc 100) (omega arith));
            },
            done.sound,
          );
          free = omega (arith, none_in, done.free);
        },
        ap suc same,
      )

  -- `allinit` succeeds on such a table, with all frames free.
  pub allinit-Running :
      (s : Sim) (r : R)
      → IsTable
      → length s.queue ≡ queue_size
      → All (λ q. length q.bcontexts ≡ max_branches) s.queue
      → s.pagesavail ≡ physical_pages
      → (out : Sim × R) × (allinit drand_lt lrand48 programs (100 * k + 1) s r ≡ some out)
        × Running out.0
  unfolding allinit
  allinit-Running s r table size sized avail =
      let (out, runs, done, same) = load_queue-Loaded 0 s.queue r table sized in
      let s' : Sim = record s {
        queue = out.0;
        queueend = 0;
        processes = replicate max_processes none;
      } in
      let h : Running s' = record {
        conserved = record { sum = omega (arith, avail, done.free); sound = done.sound };
        shape = record {
          runnable = done.ready;
          slots = All-replicate InQueue max_processes none tt;
          places = length-replicate {A = Option ℕ} max_processes none;
          size = same ∙ size;
        };
      } in
      ((fill_slots s'.procs 0 s', out.1), rw runs refl, fill_slots-Running s'.procs 0 s' h)

  pub main_runs :
      {P : Type 0} (pageit : List Pentry → P → Calls P) (n : ℕ) (memory : P) (s : Sim) (r : R)
      → IsTable
      → length s.queue ≡ queue_size
      → All (λ q. length q.bcontexts ≡ max_branches) s.queue
      → s.pagesavail ≡ physical_pages
      → (start : Sim × R) × (allinit drand_lt lrand48 programs (100 * k + 1) s r ≡ some start)
        × ((simulate pageit n memory start.0 ≡ none) × Loses pageit n memory start.0
            ⊎ (out : P × Sim) × (simulate pageit n memory start.0 ≡ some out)
              × (out.1.pagesavail + total frames out.1.queue ≡ physical_pages))
  main_runs pageit n memory s r table size sized avail =
      let (start, runs, h) = allinit-Running s r table size sized avail in
      (
        start,
        runs,
        elim (simulate-Running pageit n memory start.0 h) [
          | inl lost ↦ inl lost
          | inr (out, runs', h') ↦ inr (out, runs', h'.conserved.sum)
        ],
      )
