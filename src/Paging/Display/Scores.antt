-- ===== src/Paging/Display/Scores.antt =====
-- The sums that allscore of assignments/pa7/simulator.c prints.
use csci_3753_operating_syst.Prelude.{
  ℕ, ◌+◌, ◌-◌, ◌^◌, ◌<◌, ◌≡◌, refl, sym, ap, ◌∙◌, true, List, [], ◌∷◌, arith, leb,
}
use csci_3753_operating_syst.Prelude.Int.{pos, ◌+ℤ◌}
use csci_3753_operating_syst.Prelude.Sums.{total}
use csci_3753_operating_syst.Paging.{Process, Sim}
use csci_3753_operating_syst.Paging.Display.{score_loop, allscore}
use csci_3753_operating_syst.Prelude.Word.{to_int, to_int-add, to_int_exact}

pos_add : (m n : ℕ) → pos m +ℤ pos n ≡ pos (m + n)
pos_add m n =
    let e : leb 0 (m + n) ≡ true = ground arith in
    let z : m + n - 0 ≡ m + n = omega arith in rw (e, z) refl

to_int-step : (m n : ℕ) → to_int (to_int (pos m) +ℤ pos n) ≡ to_int (pos (m + n))
to_int-step m n = to_int-add (pos m) (pos n) ∙ ap to_int (pos_add m n)

score_loop_lem :
    (queue : List Process) (b c : ℕ)
    → score_loop queue (to_int (pos b), to_int (pos c)) ≡ (
      to_int (pos (b + total (λ q. q.block) queue)),
      to_int (pos (c + total (λ q. q.compute) queue)),
    )
unfolding score_loop total
score_loop_lem [] b c =
    let eb : b + 0 ≡ b = omega arith in let ec : c + 0 ≡ c = omega arith in rw (eb, ec) refl
score_loop_lem (q ∷ queue) b c =
    let block = total (λ q. q.block) queue in
    let compute = total (λ q. q.compute) queue in
    let eb : b + (q.block + block) ≡ b + q.block + block = omega arith in
    let ec : c + (q.compute + compute) ≡ c + q.compute + compute = omega arith in
    rw (to_int-step b q.block, to_int-step c q.compute, eb, ec)
      (score_loop_lem queue (b + q.block) (c + q.compute))

-- The two numbers that allscore prints are the sums of the blocked and of the compute cycles over
-- all processes, stored in an int.
pub allscore_ints :
    (s : Sim)
    → allscore s
      ≡ (to_int (pos (total (λ q. q.block) s.queue)), to_int (pos (total (λ q. q.compute) s.queue)))
unfolding allscore
allscore_ints s =
    ap (λ z. score_loop s.queue (z, z)) (sym ((to_int_exact (pos 0)).1 (omega arith)))
    ∙ score_loop_lem s.queue 0 0
    ∙ (let eb : 0 + total (λ q. q.block) s.queue ≡ total (λ q. q.block) s.queue = omega arith in
        let ec : 0 + total (λ q. q.compute) s.queue ≡ total (λ q. q.compute) s.queue =
          omega arith in
        rw (eb, ec) refl)

-- Sums below 2^31 are printed as they are.
pub allscore_exact :
    (s : Sim)
    → total (λ q. q.block) s.queue < 2 ^ 31
    → total (λ q. q.compute) s.queue < 2 ^ 31
    → allscore s ≡ (pos (total (λ q. q.block) s.queue), pos (total (λ q. q.compute) s.queue))
allscore_exact s h h' =
    allscore_ints s
    ∙ rw
        (
          (to_int_exact (pos (total (λ q. q.block) s.queue))).1 h,
          (to_int_exact (pos (total (λ q. q.compute) s.queue))).1 h',
        )
        refl
