-- ===== src/Lookup/Whole.antt =====
-- main of assignments/pa6/multi-lookup.c as a whole, from its arguments to how it returns.
use csci_3753_operating_syst.Prelude.{Bool, if◌then◌else◌}
use csci_3753_operating_syst.Prelude.Int.{ℤ, pos, negsuc}

-- What main returns behind `cleanup`, by whether it has failed before and whether the two files can be
-- closed.
unfoldable pub exit_code : Bool → Bool → Bool → ℤ
exit_code failed serviced_closes results_closes =
    let result = if failed then negsuc 0 else pos 0 in
    let result' = if serviced_closes then result else negsuc 0 in
    if results_closes then result' else negsuc 0
