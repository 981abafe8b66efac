-- ===== src/Tests/Samples.antt =====
-- States of the paging simulator (assignments/pa7/simulator.c) for the tests.
use csci_3753_operating_syst.Prelude.{ℕ, Bool, true, false, not, some, [], ◌∷◌, replicate}
use csci_3753_operating_syst.Paging.{Bcontext, Process, Sim, goto}
use csci_3753_operating_syst.Paging.Programs.{program_1}
use csci_3753_operating_syst.Prelude.Int.{ℤ, pos, negsuc}

-- A generator whose draws alternate.
abbrev pub coin : ℕ → Bool → Bool × Bool
coin prob r = (r, not r)

abbrev pub five : Bool → ℕ × Bool
five r = (5, r)

abbrev pub idle : Bcontext
idle = record {
  btype = goto;
  boffset = 0;
  bsize = 1;
  bvalue = true;
  bcount = 0;
  brings = replicate 100 3;
}

-- The second program at its sixth instruction, with its first page of the given age.
abbrev pub running : ℤ → Process
running age = record {
  program = some program_1;
  nbcontexts = 1;
  bcontexts = replicate 40 idle;
  pc = 5;
  npages = 20;
  pages = age ∷ replicate 19 (negsuc 100);
  blocked = replicate 20 false;
  active = true;
  compute = 5;
  block = 100;
  pid = pos 0;
  kind = pos 1;
}

-- One running process.
abbrev pub one_process : ℕ → ℤ → Sim
one_process avail age = record {
  sysclock = 105;
  procs = 1;
  pagesavail = avail;
  processes = some 0 ∷ [];
  pageouts = 0 ∷ [];
  queue = running age ∷ [];
  queueend = 1;
}

-- A table of programs that all have branches.
