-- ===== src/Tests/Frames.antt =====
-- The theorems on frames and pagers (assignments/pa7/simulator.c, assignments/pa7/pager-basic.c) on
-- concrete states.
use csci_3753_operating_syst.Prelude.{
  ◌≤◌, ◌≡◌, refl, ◌↔◌, true, false, List, [], ◌∷◌, arith, replicate, All-replicate,
}
use csci_3753_operating_syst.Paging.Frames.{out}
use csci_3753_operating_syst.Paging.{page_wait}
use csci_3753_operating_syst.Paging.Frames.Ages.{InRange}
use csci_3753_operating_syst.Paging.Frames.Conservation.{Conserved}
use csci_3753_operating_syst.Paging.Frames.Requests.{Live, age_by, page_wait_exact}
use csci_3753_operating_syst.Paging.Pager.{Pentry}
use csci_3753_operating_syst.Paging.Pager.Basic.{pageit}
use csci_3753_operating_syst.Paging.Pager.Basic.Eviction.{NeverOut, pageit-NeverOut}
use csci_3753_operating_syst.Tests.Samples.{running, one_process}
use csci_3753_operating_syst.Prelude.Sums.{total}
use csci_3753_operating_syst.Prelude.Int.{pos, negsuc}

out-Conserved : Conserved (one_process 100 (negsuc 100))
unfolding total
out-Conserved = record {
  sum = refl;
  sound = (
    record {
      paged = refl;
      fits = omega arith;
      aged = (omega arith, All-replicate InRange 19 (negsuc 100) (omega arith));
    },
    tt,
  );
}

in-Conserved : Conserved (one_process 99 (pos 0))
unfolding total
in-Conserved = record {
  sum = refl;
  sound = (
    record {
      paged = refl;
      fits = omega arith;
      aged = (omega arith, All-replicate InRange 19 (negsuc 100) (omega arith));
    },
    tt,
  );
}

in-Live : Live (one_process 99 (pos 0)) 0 0 (running (pos 0))
in-Live = record { below = omega arith; slot = refl; on = refl }

out-Live : Live (one_process 100 (negsuc 100)) 0 0 (running (negsuc 100))
out-Live = record { below = omega arith; slot = refl; on = refl }

page_wait_exact_example :
    ((age_by 99 (pos page_wait) ≡ pos 0) ↔ (page_wait ≤ 99))
    × ((age_by 99 (negsuc 0) ≡ out) ↔ (page_wait ≤ 99))
page_wait_exact_example = page_wait_exact 99

-- A process whose page is out.
abbrev faulting : List Pentry
faulting = record { active = true; pc = 5; npages = 20; pages = replicate 20 false } ∷ []

pageit-NeverOut_example : NeverOut (pageit faulting)
pageit-NeverOut_example = pageit-NeverOut faulting
