-- ===== src/Tests/Threads.antt =====
-- The theorems on the threads and the ints of the recitations (recitation/threads/thread_test.c,
-- recitation/kernel-mem-access/copy_sim.c, recitation/syscall-demo/syscall_demo.c) and of
-- assignments/pa1/csci3753_mult.c on concrete inputs.
use csci_3753_operating_syst.Prelude.{
  ℕ, ◌+◌, ◌*◌, ◌≤◌, ◌≡◌, refl, ◌↔◌, ◌⊎◌, true, false, some, List, [], ◌∷◌, ◌++◌, map, arith, ltb,
  leb, if◌then◌else◌, take, replicate, All,
}
use csci_3753_operating_syst.Prelude.Int.{ℤ, pos, negsuc}
use csci_3753_operating_syst.Prelude.Word.{to_int, IsInt}
use csci_3753_operating_syst.Counters.{
  Machine, at_loop, locked, finished, inc_no_lock, inc_with_lock, Step, Steps, run, stay, next,
  created,
}
use csci_3753_operating_syst.Counters.Finish.{count_exact}
use csci_3753_operating_syst.Counters.Race.{count_lost}
use csci_3753_operating_syst.BoundedQueue.{ready, push_wait}
use csci_3753_operating_syst.BoundedQueue.Driver.{
  Driver, Turn, Turns, no_turn, one_more, begin, part_6, begins, produces, consumes,
}
use csci_3753_operating_syst.BoundedQueue.Driver.Invariant.{up_to}
use csci_3753_operating_syst.BoundedQueue.Driver.Finish.{produced_consumed}
use csci_3753_operating_syst.Buffers.Labels.{read_label_bounded, make_tag, fn_bounds, newline}
use csci_3753_operating_syst.Buffers.Labels.Banner.{banner_lem}
use csci_3753_operating_syst.Buffers.Exchange.{case_1, got, write_refused, kbuf_size}
use csci_3753_operating_syst.Buffers.Exchange.Cases.{case_1_lem}
use csci_3753_operating_syst.Ints.{csci3753_mult, ◌*ℤ◌, sum_array}
use csci_3753_operating_syst.Ints.Exact.{csci3753_mult_lem, sum_from, sum_array_lem}

-- Two threads, of which the first has taken the lock.
abbrev taken : Machine
taken = record {
  memory = record { counter = 0; g_lock = true };
  threads = locked 0 ∷ at_loop 0 ∷ [];
}

taken-Steps : Steps (inc_with_lock 3) 1 (created 2) taken
unfolding inc_with_lock created
taken-Steps =
    next 0 (created 2) (created 2) taken (stay (created 2))
      (run (created 2) 0 (at_loop 0) (locked 0) (record { counter = 0; g_lock = true }) refl refl)

count_exact_example :
    (1 ≤ 2 * (5 * 3 + 1))
    × (((s' : Machine) × Step (inc_with_lock 3) taken s')
        ⊎ All (λ t. t ≡ finished) taken.threads × (taken.memory.counter ≡ 2 * 3))
count_exact_example = count_exact 3 2 1 taken taken-Steps

count_lost_example :
    (steps : ℕ) × (s : Machine) × Steps (inc_no_lock 5) steps (created 2) s
    × (s.threads ≡ finished ∷ finished ∷ [])
    × (s.memory.counter ≡ 2)
count_lost_example = count_lost 5 (omega arith)

abbrev slots : List ℕ
slots = 0 ∷ 0 ∷ 0 ∷ 0 ∷ []

-- The producer has begun its first push.
abbrev begun : Driver
begun = record {
  system = record (part_6 slots 12).system { threads = push_wait 1 ∷ ready ∷ [] };
  roles = produces 12 2 ∷ consumes 12 0 ∷ [];
}

begun-Turns : Turns 1 (part_6 slots 12) begun
unfolding part_6 begins
begun-Turns =
    one_more 0 (part_6 slots 12) (part_6 slots 12) begun (no_turn (part_6 slots 12))
      (begin (part_6 slots 12) 0 (produces 12 1) (produces 12 2) (push_wait 1) refl refl refl)

produced_consumed_example :
    (1 ≤ 14 * 12)
    × ((waiting : List ℕ) × (begun.system.pushed ≡ begun.system.popped ++ waiting))
    × (((d' : Driver) × Turn begun d')
        ⊎ (begun.system.threads ≡ ready ∷ ready ∷ []) × (begun.system.popped ≡ up_to 12))
produced_consumed_example = produced_consumed slots 12 1 begun refl begun-Turns

-- `abc`, in a line of its own.
banner_lem_example :
    let label = (read_label_bounded 16 ((97 ∷ 98 ∷ 99 ∷ []) ++ (newline ∷ 100 ∷ []))).0 in
    let (tag, tag_warned) = make_tag label in
    let (local, warned) = fn_bounds tag (84 ∷ 49 ∷ []) in
    (tag ≡ 84 ∷ 65 ∷ 71 ∷ 58 ∷ label)
    × (tag_warned ≡ false)
    × (warned ≡ leb 15 3)
    × (local ≡ 91 ∷ (tag ++ (58 ∷ 84 ∷ 49 ∷ (if leb 15 3 then [] else 93 ∷ []))))
banner_lem_example =
    banner_lem (97 ∷ 98 ∷ 99 ∷ []) (100 ∷ []) 84 49
      ((omega arith, omega arith), ((omega arith, omega arith), ((omega arith, omega arith), tt)))

case_1_lem_example :
    (case_1 (λ c. c) (104 ∷ 105 ∷ []) (replicate 32 7) (replicate 64 9)).0
    ≡ (if ltb 2 kbuf_size then got (map (λ c. c) (104 ∷ 105 ∷ [])) else write_refused)
case_1_lem_example =
    case_1_lem (λ c. c) (104 ∷ 105 ∷ []) (replicate 32 7) (replicate 64 9) refl
      ((omega arith), ((omega arith), tt)) (omega arith)

csci3753_mult_lem_example :
    ((csci3753_mult (λ z (u : ℤ). (0, z)) (pos 65536) (pos 65536) (pos 0)).1
      ≡ pos 65536 *ℤ pos 65536)
    ↔ IsInt (pos 65536 *ℤ pos 65536)
csci3753_mult_lem_example =
    csci3753_mult_lem (λ z (u : ℤ). (0, z)) (pos 65536) (pos 65536) (pos 0) (λ z u. refl)

sum_array_lem_example :
    let sum = sum_from (pos 0) (take 2 (pos 2147483647 ∷ negsuc 4 ∷ [])) in
    (sum_array (pos 2147483647 ∷ negsuc 4 ∷ []) 2 ≡ some (to_int sum))
    × ((to_int sum ≡ sum) ↔ IsInt sum)
sum_array_lem_example = sum_array_lem (pos 2147483647 ∷ negsuc 4 ∷ []) 2 (omega arith)
