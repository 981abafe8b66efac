-- ===== src/Paging/Branching/Init/Forks.antt =====
-- `bcontext_init` of an `IF` branch in assignments/pa7/simulator.c: its loop over drawn values.
use csci_3753_operating_syst.Prelude.{
  ℕ, zero, suc, ◌+◌, ◌*◌, ◌<◌, ◌≡◌, refl, ◌∙◌, ◌≢◌, ◌⊎◌, inl, inr, Bool, true, false, not, none,
  some, arith, ltb, if◌then◌else◌, Bool-cases, bool_eq, length, get_or, length-set,
}
use csci_3753_operating_syst.Paging.{Branch, Bcontext, branch_if, max_brings}
use csci_3753_operating_syst.Paging.Branching.{bcontext_init, IfLoop, next_run, if_loop, bump}
use csci_3753_operating_syst.Paging.Branching.Decide.{IsReady}

module _ {R : Type 0} (drand_lt : ℕ → R → Bool × R) (lrand48 : R → ℕ × R) where
  -- The state after one draw.
  abbrev if_step : IfLoop → Bool → IfLoop
  if_step l value =
      if bool_eq value l.cvalue then (record l { brings = bump l.brings l.bsize }) else next_run l

  -- `if_loop` draws, steps and goes on.
  if_loop_step :
      (fuel prob : ℕ) (l : IfLoop) (r : R)
      → l.bsize < max_brings
      → if_loop drand_lt lrand48 (suc fuel) prob l r
        ≡ if_loop drand_lt lrand48 fuel prob (if_step l (drand_lt prob r).0) (drand_lt prob r).1
  unfolding if_loop
  if_loop_step fuel prob l r lt = ground arith

  if_loop_stop :
      (fuel prob : ℕ) (l : IfLoop) (r : R)
      → l.bsize ≡ max_brings
      → if_loop drand_lt lrand48 (suc fuel) prob l r ≡ some (l, r)
  unfolding if_loop
  if_loop_stop fuel prob l r e = ground arith

  -- The values drawn from `r` on differ from `v` within `k` draws.
  abbrev pub Turns : ℕ → ℕ → Bool → R → Type 0
  Turns zero prob v r = ⊥
  Turns (suc k) prob v r = ((drand_lt prob r).0 ≡ not v) ⊎ Turns k prob v (drand_lt prob r).1

  -- What the loop has not written yet.
  record IfAt (d : ℕ) (l : IfLoop) : Type 0 where
    left : l.bsize + d ≡ max_brings
    whole : length l.brings ≡ max_brings
    spilled : d ≡ 0 → l.spill ≡ some 1

  IfAt-next_run : (d : ℕ) (l : IfLoop) → IfAt (suc d) l → IfAt d (next_run l)
  unfolding next_run
  IfAt-next_run d l a = record {
    left = omega (arith, a.left);
    whole = length-set l.brings (l.bsize + 1) 1 ∙ a.whole;
    spilled = λ z.
        let over : ltb (l.bsize + 1) max_brings ≡ false = ground (arith, a.left) in rw over refl;
  }

  IfAt-bump : (d : ℕ) (l : IfLoop) → IfAt d l → IfAt d (record l { brings = bump l.brings l.bsize })
  IfAt-bump d l a = record {
    left = a.left;
    whole = length-set l.brings l.bsize (get_or l.brings l.bsize 0 + 1) ∙ a.whole;
    spilled = a.spilled;
  }

  -- How many steps are left at most, with `d` entries to go and a turn within `j` draws.
  abbrev steps : ℕ → ℕ → ℕ → ℕ
  steps k zero j = 0
  steps k (suc d) j = d * k + j

  steps-next : (k d j fuel : ℕ) → steps k (suc d) (suc j) < suc fuel → steps k d k < fuel
  steps-next k zero j fuel h = omega arith
  steps-next k (suc d) j fuel h = omega arith

  same_value : (v c : Bool) → bool_eq v c ≡ true → v ≢ not c
  same_value true true e h = cc
  same_value true false e h = cc
  same_value false true e h = cc
  same_value false false e h = cc

  -- With both values turning up within every `k` draws the loop ends.
  if_loop_ends :
      (k prob : ℕ)
      → ((v : Bool) (r : R) → Turns k prob v r)
      → (fuel d j : ℕ) (l : IfLoop) (r : R) → IfAt d l
      → (d ≢ 0 → Turns j prob l.cvalue r)
      → steps k d j < fuel
      → (out : IfLoop × R) × (if_loop drand_lt lrand48 fuel prob l r ≡ some out) × IfAt 0 out.0
  if_loop_ends k prob fair zero d j l r a t m = absurd (omega arith)
  if_loop_ends k prob fair (suc fuel) zero j l r a t m =
      ((l, r), if_loop_stop fuel prob l r (omega (arith, a.left)), a)
  if_loop_ends k prob fair (suc fuel) (suc d) zero l r a t m = absurd (t (omega arith))
  if_loop_ends k prob fair (suc fuel) (suc d) (suc j) l r a t m =
      let (value, r') = drand_lt prob r in
      elim (Bool-cases (bool_eq value l.cvalue)) [
        | inl same ↦
            let rest : Turns j prob l.cvalue r' = elim (t (omega arith)) [
              | inl turn ↦ absurd (same_value value l.cvalue same turn)
              | inr rest ↦ rest
            ] in
            let (out, runs, done) =
              if_loop_ends k prob fair fuel (suc d) j (record l { brings = bump l.brings l.bsize })
                r' (IfAt-bump (suc d) l a) (λ _. rest) (omega arith) in
            (out, if_loop_step fuel prob l r (omega (arith, a.left)) ∙ rw same runs, done)
        | inr other ↦
            let (out, runs, done) =
              if_loop_ends k prob fair fuel d k (next_run l) r' (IfAt-next_run d l a)
                (λ _. fair (next_run l).cvalue r') (steps-next k d j fuel m) in
            (out, if_loop_step fuel prob l r (omega (arith, a.left)) ∙ rw other runs, done)
      ]

  -- `bcontext_init` of an `IF` branch, where its loop ends.
  branch_if_runs :
      (fuel : ℕ) (c : Bcontext) (b : Branch) (r : R) (out : IfLoop × R)
      → b.btype ≡ branch_if
      → if_loop drand_lt lrand48 fuel b.prob
          (record { cvalue = (drand_lt b.prob r).0; bsize = 0; brings = c.brings; spill = none })
          (drand_lt b.prob r).1
        ≡ some out
      → out.0.spill ≡ some 1
      → bcontext_init drand_lt lrand48 fuel c b r
        ≡ some (
          record {
            btype = b.btype;
            bcount = 0;
            boffset = 0;
            bsize = out.0.bsize;
            bvalue = (drand_lt b.prob r).0;
            brings = out.0.brings;
          },
          some 1,
          out.1,
        )
  unfolding bcontext_init
  branch_if_runs fuel c b r out e runs spilled = ground arith

  -- If both outcomes of the draw turn up within every `k` draws, `100 * k` rounds of fuel are
  -- enough for `bcontext_init` of an `IF` branch. The context is then ready and its array full, but
  -- the last step has written 1 to `brings[MAXBRINGS]`, outside the array.
  pub bcontext_init-branch_if :
      (k : ℕ) (c : Bcontext) (b : Branch) (r : R)
      → ((v : Bool) (r : R) → Turns k b.prob v r)
      → length c.brings ≡ max_brings
      → b.btype ≡ branch_if
      → (c' : Bcontext) × (r' : R) × (bcontext_init drand_lt lrand48 (100 * k + 1) c b r
          ≡ some (c', some 1, r'))
        × IsReady c'
        × (c'.bsize ≡ max_brings)
        × (c'.btype ≡ branch_if)
        × ((c'.boffset ≡ 0) × (c'.bcount ≡ 0))
  unfolding bcontext_init
  bcontext_init-branch_if k c b r fair len e =
      let (value, r0) = drand_lt b.prob r in
      let start : IfLoop = record { cvalue = value; bsize = 0; brings = c.brings; spill = none } in
      let (out, runs, done) =
        if_loop_ends k b.prob fair (100 * k + 1) max_brings k start r0
          (record { left = refl; whole = len; spilled = λ z. absurd (omega arith) })
          (λ _. fair value r0) (omega arith) in
      let full : out.0.bsize ≡ max_brings = omega (arith, done.left) in
      (
        record {
          btype = b.btype;
          bcount = 0;
          boffset = 0;
          bsize = out.0.bsize;
          bvalue = value;
          brings = out.0.brings;
        },
        out.1,
        branch_if_runs (100 * k + 1) c b r out e runs (done.spilled refl),
        record { inside = omega (arith, full); sized = omega (arith, full); whole = done.whole },
        full,
        e,
        (refl, refl),
      )
