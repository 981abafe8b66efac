-- ===== src/Tests/Starting.antt =====
-- The theorems on the start of assignments/pa6/multi-lookup.c and on dnslookup of assignments/pa6/util.c for
-- a few arguments and addresses.
use csci_3753_operating_syst.Prelude.{
  ℕ, ◌+◌, ◌-◌, ◌≤◌, ◌<◌, ◌≡◌, refl, ◌↔◌, Bool, true, Option, none, some, List, [], ◌∷◌, map, length,
  drop, replicate,
}
use csci_3753_operating_syst.Lookup.{Text}
use csci_3753_operating_syst.Lookup.Dns.{af_inet, af_inet6, Address, ipstr}
use csci_3753_operating_syst.Lookup.Start.{
  accepted, check_arguments, check_arguments_lem, thread_count, check_counts, check_files,
  check_data_files, is_bad_number, max_requester_threads, max_resolver_threads, data_start_idx,
  max_input_files,
}
use csci_3753_operating_syst.Lookup.Spawn.{ThreadArgs, spawn_threads, spawn_threads_lem}
use csci_3753_operating_syst.Prelude.Int.{ℤ, pos}

-- One digit.
abbrev strtol : Text → Option ℤ
strtol (c ∷ []) = some (pos (c - 48))
strtol _ = none

abbrev opens : Text → Bool
opens name = true

-- multi-lookup 2 3 s r n
abbrev argv : List Text
argv = (109 ∷ []) ∷ (50 ∷ []) ∷ (51 ∷ []) ∷ (115 ∷ []) ∷ (114 ∷ []) ∷ (110 ∷ []) ∷ []

argv-accepted : check_arguments strtol opens argv ≡ accepted (pos 2) (pos 3) ((110 ∷ []) ∷ [])
unfolding check_arguments thread_count check_counts check_files check_data_files is_bad_number
argv-accepted = refl

check_arguments_lem_example :
    ((k : ℕ) × (pos 2 ≡ pos k) × (k ≤ max_requester_threads))
    × ((j : ℕ) × (pos 3 ≡ pos j) × (j ≤ max_resolver_threads))
    × (((110 ∷ []) ∷ []) ≡ drop data_start_idx argv)
    × (1 ≤ length {A = Text} ((110 ∷ []) ∷ []))
    × (length {A = Text} ((110 ∷ []) ∷ []) ≤ max_input_files + 1)
check_arguments_lem_example =
    check_arguments_lem strtol opens argv (pos 2) (pos 3) ((110 ∷ []) ∷ []) argv-accepted

abbrev shared : ThreadArgs
shared = record { consume_arr = some 1; produce_arr = none; output_file = 1; num_serviced = 0 }

-- Three resolvers, and an array of two entries, since there are two requesters.
spawn_threads_lem_example :
    (spawn_threads (λ i. true) (λ i. pos 0) shared 3 (replicate 2 none) ≡ none)
    ↔ (length {A = Option ThreadArgs} (replicate 2 none) < 3)
spawn_threads_lem_example =
    spawn_threads_lem (λ i. true) (λ i. pos 0) shared 3 (replicate 2 none) (λ j. refl)

abbrev addresses : Text → Option (List Address)
addresses hostname =
    some (record { family = af_inet; addr = 9 ∷ [] } ∷ record { family = af_inet6; addr = [] } ∷ [])

abbrev ntop : List ℕ → Option Text
ntop addr = some (map (λ b. b + 48) addr)

first-ipstr : ipstr addresses ntop af_inet (9 ∷ []) ≡ some (57 ∷ [])
unfolding ipstr
first-ipstr = refl
