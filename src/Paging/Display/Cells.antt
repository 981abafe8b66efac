-- ===== src/Paging/Display/Cells.antt =====
-- What the display of allprint (assignments/pa7/simulator.c) says of the pages.
use csci_3753_operating_syst.Prelude.{
  ℕ, zero, suc, ◌+◌, ◌<◌, ◌≡◌, refl, ap, ◌∙◌, ◌↔◌, false, Option, none, some, [], ◌++◌, map, arith,
  ℕ_discrete, ◌==◌, get_elem?, get_or, get_elem?-map, get_or-eq_get_elem?,
}
use csci_3753_operating_syst.Prelude.Int.{ℤ, pos, negsuc}
use csci_3753_operating_syst.Paging.{Sim, max_proc_pages, max_processes}
use csci_3753_operating_syst.Paging.Frames.{out}
use csci_3753_operating_syst.Paging.Display.{
  is_in, is_out, going_out, page_cell, range, shown, slot_cell, print_half, allprint,
}

-- Of all ages, `=in` is shown for 0 and only for it, and `=out` for the one that has one more tick to
-- go and only for it: a page that is out is shown as one that is going out, in -1 ticks.
pub page_cell_lem :
    (age : ℤ)
    → (page_cell out ≡ going_out (negsuc 0))
      × ((page_cell age ≡ is_out) ↔ (age ≡ negsuc 99))
      × ((page_cell age ≡ is_in) ↔ (age ≡ pos 0))
unfolding page_cell
page_cell_lem (pos zero) = (refl, (λ e. absurd (cc), λ e. absurd (cc)), (λ e. refl, λ e. refl))
page_cell_lem (pos (suc n)) = (
  refl,
  (λ e. absurd (cc), λ e. absurd (cc)),
  (λ e. absurd (cc), λ e. let z : suc n ≡ 0 = cc in absurd (omega arith)),
)
page_cell_lem (negsuc n) = elim (ℕ_discrete n 99) [
  | yes e ↦ rw e (refl, (λ e. refl, λ e. refl), (λ e. absurd (cc), λ e. absurd (cc)))
  | no ne ↦
      let other : (n == 99) ≡ false = ground arith in
      rw other
        (refl, (λ e. absurd (cc), λ e. absurd (ne (cc))), (λ e. absurd (cc), λ e. absurd (cc)))
]

get_elem?-range : (n from i : ℕ) → i < n → get_elem? (range from n) i ≡ some (from + i)
unfolding range
get_elem?-range zero from i h = absurd (omega arith)
get_elem?-range (suc n) from zero h = ap some (omega arith)
get_elem?-range (suc n) from (suc i) h =
    get_elem?-range n (from + 1) i (omega arith) ∙ ap some (omega arith)

-- A line that is shown in two halves.
two_halves {ℓ} :
    {A : Type ℓ} (f : ℕ → A) (n m from i : ℕ)
    → i < n + m
    → get_elem? (map f (range from n) ++ map f (range (from + n) m)) i ≡ some (f (from + i))
unfolding range
two_halves f zero m from i h =
    get_elem?-map (range (from + 0) m) i f (from + i)
      (let z : from + 0 ≡ from = omega arith in rw z (get_elem?-range m from i (omega arith)))
two_halves f (suc n) m from zero h = ap (λ k. some (f k)) (omega arith)
two_halves f (suc n) m from (suc i) h =
    let e : from + suc n ≡ from + 1 + n = omega arith in
    let e' : from + suc i ≡ from + 1 + i = omega arith in
    rw (e, e') (two_halves f n m (from + 1) i (omega arith))

-- In its two halves, allprint shows every slot once and in its place, and for each page of a slot
-- that is in use its cell.
pub allprint_lem :
    (s : Sim) (i j : ℕ)
    → i < max_processes
    → j < max_proc_pages
    → let (first, second) = allprint s in
      (get_elem? (first.process ++ second.process) i
        ≡ some (elim (shown s i) [ none ↦ none | some q ↦ some i ]))
      × (get_elem? (get_or first.pages j [] ++ get_or second.pages j []) i ≡ some (slot_cell s j i))
unfolding allprint print_half
allprint_lem s i j hi hj =
    let row : (half n : ℕ)
        → get_or (map (λ j'. map (slot_cell s j') (range half n)) (range 0 max_proc_pages)) j []
          ≡ map (slot_cell s j) (range half n) =
      λ half n.
        get_or-eq_get_elem?
          (map (λ j'. map (slot_cell s j') (range half n)) (range 0 max_proc_pages)) j []
          (get_elem?-map (range 0 max_proc_pages) j (λ j'. map (slot_cell s j') (range half n)) j
            (get_elem?-range max_proc_pages 0 j hj ∙ ap some (omega arith))) in
    let name : ℕ → Option ℕ = λ i'. elim (shown s i') [ none ↦ none | some q ↦ some i' ] in
    let here : 0 + i ≡ i = omega arith in
    (
      two_halves name 10 10 0 i (omega arith) ∙ ap (λ k. some (name k)) here,
      ap (λ xs. get_elem? (xs ++ get_or (allprint s).1.pages j []) i) (row 0 10)
          ∙ ap (λ xs. get_elem? (map (slot_cell s j) (range 0 10) ++ xs) i) (row 10 10)
          ∙ two_halves (slot_cell s j) 10 10 0 i (omega arith)
          ∙ ap (λ k. some (slot_cell s j k)) here,
    )
