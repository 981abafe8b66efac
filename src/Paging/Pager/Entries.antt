-- ===== src/Paging/Pager/Entries.antt =====
-- What the entries are like that callyou of assignments/pa7/simulator.c gives a pager.
use csci_3753_operating_syst.Prelude.{◌/◌, ◌<◌, ◌≡◌, true, List, length, All}
use csci_3753_operating_syst.Paging.{max_processes, max_proc_pages, page_size}
use csci_3753_operating_syst.Paging.Pager.{Pentry}

-- The entry of a slot: the program counter of an active process is in one of its pages.
abbrev pub IsEntry : Pentry → Type 0
IsEntry e =
    (length e.pages ≡ max_proc_pages) × (e.active ≡ true → e.pc / page_size < max_proc_pages)

abbrev pub IsEntries : List Pentry → Type 0
IsEntries q = (length q ≡ max_processes) × All IsEntry q
