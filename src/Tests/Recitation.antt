-- ===== src/Tests/Recitation.antt =====
-- The theorems on the recitations' queue and buffers (recitation/threads/thread_test.c,
-- recitation/kernel-mem-access/copy_sim.c, recitation/syscall-demo/syscall_demo.c) on concrete inputs.
use csci_3753_operating_syst.Prelude.{
  ℕ, ◌+◌, ◌-◌, ◌≤◌, ◌≡◌, refl, ◌&&◌, List, [], ◌∷◌, ◌++◌, arith, ltb, if◌then◌else◌, length, get_or,
}
use csci_3753_operating_syst.BoundedQueue.{
  qsize, System, Steps, call_push, run, stay, next, moved, initial, advance, q_init, ready,
  push_wait, push_lock,
}
use csci_3753_operating_syst.BoundedQueue.Accounts.{inside}
use csci_3753_operating_syst.BoundedQueue.Fifo.{bounded_fifo}
use csci_3753_operating_syst.Buffers.{reverse_in_place, swap_loop}
use csci_3753_operating_syst.Buffers.Reverse.{reverse_in_place_lem}
use csci_3753_operating_syst.Prelude.Sums.{total}

abbrev slots : List ℕ
slots = 0 ∷ 0 ∷ 0 ∷ 0 ∷ []

-- Thread 1 has called `q_push` with 7.
abbrev called : System
called = record (initial slots 2) { threads = ready ∷ push_wait 7 ∷ [] }

-- It has then taken a token of `empty`.
abbrev reserved_one : System
reserved_one = moved called 1 (push_wait 7) (push_lock 7) (record (q_init slots) { empty = 3 })

two-Steps : Steps (initial slots 2) reserved_one
unfolding advance q_init
two-Steps =
    next (initial slots 2) called reserved_one
      (next (initial slots 2) (initial slots 2) called (stay (initial slots 2))
        (call_push (initial slots 2) 1 7 refl))
      (run called 1 (push_wait 7) (push_lock 7) (record (q_init slots) { empty = 3 }) refl refl)

bounded_fifo_example :
    (waiting : List ℕ) × (reserved_one.pushed ≡ reserved_one.popped ++ waiting)
    × (length waiting ≤ qsize)
    × (total inside reserved_one.threads ≤ 1)
bounded_fifo_example = bounded_fifo slots 2 reserved_one refl two-Steps

-- Lower case letters to upper case letters.
abbrev upper : ℕ → ℕ
upper c = if ltb 96 c && ltb c 123 then c - 32 else c

abbrev hello : List ℕ
hello = 104 ∷ 101 ∷ 108 ∷ 108 ∷ 111 ∷ []

reverse_in_place_lem_example :
    (length (reverse_in_place hello) ≡ 5)
    × (get_or (reverse_in_place hello) 1 0 ≡ get_or hello (5 - 1 - 1) 0)
    × (swap_loop (5 + 2) 0 4 hello ≡ swap_loop 5 0 4 hello)
reverse_in_place_lem_example = reverse_in_place_lem hello 1 2 (omega arith)
