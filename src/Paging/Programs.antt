-- ===== src/Paging/Programs.antt =====
-- The programs that are simulated: assignments/pa7/programs.c. The unused entries of an array are
-- zero, as C initialises them.
pub mod Runnable
use csci_3753_operating_syst.Prelude.{
  ℕ, zero, suc, ◌+◌, ◌-◌, ◌*◌, ◌/◌, ◌%◌, ◌^◌, ◌≤◌, ◌<◌, min, ◌≡◌, refl, sym, ap, ◌∙◌, subst, ◌≢◌,
  ◌↔◌, ◌⊎◌, inl, inr, Bool, true, false, not, ◌&&◌, ◌||◌, Option, none, some, List, [], ◌∷◌, ◌++◌,
  map, arith, dec_lt, ℕ_discrete, ltb, leb, ◌==◌, if◌then◌else◌, ltb→lt, lt→ltb, leb→le, ==_iff,
  tests, Bool-cases, bool_eq, Option-cases, if_keeps, length, get_elem?, get_or, set, take, drop,
  replicate, length-append, length-set, set-set, length-replicate, get_elem?_lt,
  get_elem?-eq-get_or, get_elem?-set_self, get_elem?-set_ne, get_or-set_self, get_or-set_ne,
  length-take, length-drop, take-append-drop, length-map, get_elem?-map, get_elem?_of_lt,
  drop-eq-cons, get_elem?-take, get_or-eq_get_elem?, All, All-set, All-get_or, All-take,
  All-get_elem?, All-replicate,
}
use csci_3753_operating_syst.Paging.{
  Branch, Program, BranchType, goto, for, branch_if, max_branches, max_exits,
}

abbrev branch : ℕ → ℕ → BranchType → ℕ → ℕ → ℕ → Branch
branch from to kind lo hi prob = record {
  wherefrom = from;
  whereto = to;
  btype = kind;
  min_count = lo;
  max_count = hi;
  prob = prob;
  extent = 0;
}

abbrev unused : ℕ → List Branch
unused n = replicate (max_branches - n) (branch 0 0 goto 0 0 0)

abbrev one_exit : ℕ → List ℕ
one_exit pc = pc ∷ replicate (max_exits - 1) 0

abbrev pub program_0 : Program
program_0 = record {
  size = 1535;
  nbranches = 3;
  branches =
      branch 500 1402 branch_if 0 0 6
      ∷ branch 1401 1533 goto 0 0 10
      ∷ branch 1533 0 for 10 30 0
      ∷ unused 3;
  nexits = 1;
  exits = one_exit 1534;
}

abbrev pub program_1 : Program
program_1 = record {
  size = 1131;
  nbranches = 1;
  branches = branch 1129 0 for 20 50 0 ∷ unused 1;
  nexits = 1;
  exits = one_exit 1130;
}

abbrev pub program_2 : Program
program_2 = record {
  size = 1685;
  nbranches = 2;
  branches = branch 1682 1166 for 10 20 0 ∷ branch 1683 0 for 10 20 0 ∷ unused 2;
  nexits = 1;
  exits = one_exit 1684;
}

abbrev pub program_3 : Program
program_3 = record {
  size = 1912;
  nbranches = 0;
  branches = unused 0;
  nexits = 1;
  exits = one_exit 1911;
}

abbrev pub program_4 : Program
program_4 = record {
  size = 505;
  nbranches = 4;
  branches =
      branch 500 503 branch_if 0 0 5
      ∷ branch 501 0 goto 0 0 10
      ∷ branch 502 503 goto 0 0 10
      ∷ branch 503 0 for 10 20 0
      ∷ unused 4;
  nexits = 1;
  exits = one_exit 504;
}

abbrev pub programs : List Program
programs = program_0 ∷ program_1 ∷ program_2 ∷ program_3 ∷ program_4 ∷ []
