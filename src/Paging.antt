-- ===== src/Paging.antt =====
-- The data of the paging simulator: assignments/pa7/simulator.h, and the static variables of
-- assignments/pa7/simulator.c. A pointer into `queue[]` is an index, NULL is `none`.
pub mod Frames
pub mod Branching
pub mod Search
pub mod Execution
pub mod Programs
pub mod Pager
pub mod System
pub mod Command
pub mod Display
use csci_3753_operating_syst.Prelude.{ℕ, Bool, List, Option, none, some, get_elem?, get_or}
use csci_3753_operating_syst.Prelude.Int.{ℤ}
use csci_3753_operating_syst.Prelude.Opt.{◌>>=◌}

abbrev pub max_proc_pages : ℕ
max_proc_pages = 20

abbrev pub max_processes : ℕ
max_processes = 20

abbrev pub page_size : ℕ
page_size = 128

abbrev pub page_wait : ℕ
page_wait = 100

abbrev pub physical_pages : ℕ
physical_pages = 100

abbrev pub queue_size : ℕ
queue_size = 40

abbrev pub max_branches : ℕ
max_branches = 40

abbrev pub max_exits : ℕ
max_exits = 10

abbrev pub max_brings : ℕ
max_brings = 100

pub data BranchType : Type 0 where
  goto for nfor branch_if : BranchType

-- `prob` is the probability in tenths; all its values in assignments/pa7/programs.c are tenths.
pub record Branch : Type 0 where
  pub wherefrom : ℕ
  pub whereto : ℕ
  pub btype : BranchType
  pub min_count : ℕ
  pub max_count : ℕ
  pub prob : ℕ
  pub extent : ℕ

pub record Program : Type 0 where
  pub size : ℕ
  pub nbranches : ℕ
  pub branches : List Branch
  pub nexits : ℕ
  pub exits : List ℕ

pub record Bcontext : Type 0 where
  pub btype : BranchType
  pub boffset : ℕ
  pub bsize : ℕ
  pub bvalue : Bool
  pub bcount : ℕ
  pub brings : List ℕ

-- A page's age: 0 in memory, `1 .. 100` coming in, `-1 .. -100` going out, `-101` out.
pub record Process : Type 0 where
  pub program : Option Program
  pub nbcontexts : ℕ
  pub bcontexts : List Bcontext
  pub pc : ℕ
  pub npages : ℕ
  pub pages : List ℤ
  pub blocked : List Bool
  pub active : Bool
  pub compute : ℕ
  pub block : ℕ
  pub pid : ℤ
  pub kind : ℤ

pub record Sim : Type 0 where
  pub sysclock : ℕ
  pub procs : ℕ
  pub pagesavail : ℕ
  pub processes : List (Option ℕ)
  pub pageouts : List ℕ
  pub queue : List Process
  pub queueend : ℕ

-- `processes[i]` with what it points to.
abbrev pub process_at : Sim → ℕ → Option (ℕ × Process)
process_at s i = get_or s.processes i none >>= λ k. get_elem? s.queue k >>= λ q. some (k, q)
