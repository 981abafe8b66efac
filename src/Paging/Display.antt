-- ===== src/Paging/Display.antt =====
-- What the simulator shows: allprint and allscore of assignments/pa7/simulator.c. A line of the display is the list
-- of its cells; the text around them is left out.
pub mod Cells
pub mod Scores
use csci_3753_operating_syst.Prelude.{
  ℕ, zero, suc, ◌+◌, ◌-◌, ◌*◌, ◌/◌, ◌%◌, ◌^◌, ◌≤◌, ◌<◌, min, ◌≡◌, refl, sym, ap, ◌∙◌, subst, ◌≢◌,
  ◌↔◌, ◌⊎◌, inl, inr, Bool, true, false, not, ◌&&◌, ◌||◌, Option, none, some, List, [], ◌∷◌, ◌++◌,
  map, arith, dec_lt, ℕ_discrete, ltb, leb, ◌==◌, if◌then◌else◌, ltb→lt, lt→ltb, leb→le, ==_iff,
  tests, Bool-cases, bool_eq, Option-cases, if_keeps, length, get_elem?, get_or, set, take, drop,
  replicate, length-append, length-set, set-set, length-replicate, get_elem?_lt,
  get_elem?-eq-get_or, get_elem?-set_self, get_elem?-set_ne, get_or-set_self, get_or-set_ne,
  length-take, length-drop, take-append-drop, length-map, get_elem?-map, get_elem?_of_lt,
  drop-eq-cons, get_elem?-take, get_or-take, get_or-eq_get_elem?, All, All-set, All-get_or,
  All-take, All-get_elem?, All-replicate,
}
use csci_3753_operating_syst.Prelude.Int.{ℤ, pos, negsuc, ltb_ℤ, ◌+ℤ◌}
use csci_3753_operating_syst.Prelude.Word.{to_int}
use csci_3753_operating_syst.Paging.{
  Process, Sim, process_at, page_size, max_proc_pages, max_processes,
}

-- `i%3ld`, `=in`, `=out` and `o%3ld`.
pub data Cell : Type 0 where
  coming_in : ℤ → Cell
  is_in : Cell
  is_out : Cell
  going_out : ℤ → Cell

-- The cell for `pages[j]`.
unfoldable pub page_cell : ℤ → Cell
page_cell (pos zero) = is_in
page_cell (pos (suc n)) = coming_in (pos (suc n))
page_cell (negsuc n) = if n == 99 then is_out else going_out (pos 100 +ℤ negsuc n)

-- `processes[i] && processes[i]->active`, with the process.
unfoldable pub shown : Sim → ℕ → Option Process
shown s i = elim (process_at s i) [ none ↦ none | some (k, q) ↦ if q.active then some q else none ]

-- The cell of page `j` of slot `i`: whether it has the star of the program counter, and its state.
unfoldable pub slot_cell : Sim → ℕ → ℕ → Option (Bool × Cell)
unfolding page_cell shown
slot_cell s j i = elim (shown s i) [
  | none ↦ none
  | some q ↦ some (j == q.pc / page_size, page_cell (get_or q.pages j (pos 0)))
]

-- The numbers `from`, `from + 1`, …, `n` of them.
unfoldable pub range : ℕ → ℕ → List ℕ
range from zero = []
range from (suc n) = from ∷ range (from + 1) n

-- The lines for one half of the slots.
pub record Half : Type 0 where
  pub process : List (Option ℕ)
  pub pc : List (Option ℕ)
  pub pages : List (List (Option (Bool × Cell)))

unfoldable pub print_half : Sim → ℕ → ℕ → Half
unfolding shown slot_cell range
print_half s from n = record {
  process = map (λ i. elim (shown s i) [ none ↦ none | some q ↦ some i ]) (range from n);
  pc = map (λ i. elim (shown s i) [ none ↦ none | some q ↦ some q.pc ]) (range from n);
  pages = map (λ j. map (slot_cell s j) (range from n)) (range 0 max_proc_pages);
}

-- `allprint`
unfoldable pub allprint : Sim → Half × Half
unfolding print_half
allprint s = (
  print_half s 0 (max_processes / 2),
  print_half s (max_processes / 2) (max_processes - max_processes / 2),
)

-- The loop of `allscore`: `block` and `compute` are ints.
unfoldable pub score_loop : List Process → ℤ × ℤ → ℤ × ℤ
score_loop [] sums = sums
score_loop (q ∷ queue) sums =
    score_loop queue (to_int (sums.0 +ℤ pos q.block), to_int (sums.1 +ℤ pos q.compute))

-- `allscore`: the two numbers that it prints, and its ratio's parts.
unfoldable pub allscore : Sim → ℤ × ℤ
unfolding score_loop
allscore s = score_loop s.queue (pos 0, pos 0)
