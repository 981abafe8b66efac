-- ===== src/Paging/Branching/Init.antt =====
-- What `bcontext_init` leaves in a context, for each kind of branch.
pub mod Forks
use csci_3753_operating_syst.Prelude.{
  ℕ, zero, suc, ◌+◌, ◌-◌, ◌*◌, ◌/◌, ◌%◌, ◌^◌, ◌≤◌, ◌<◌, min, ◌≡◌, refl, sym, ap, ◌∙◌, subst, ◌≢◌,
  ◌↔◌, ◌⊎◌, inl, inr, Bool, true, false, not, ◌&&◌, ◌||◌, Option, none, some, List, [], ◌∷◌, ◌++◌,
  map, arith, dec_lt, ℕ_discrete, ltb, leb, ◌==◌, if◌then◌else◌, ltb→lt, lt→ltb, leb→le, ==_iff,
  tests, Bool-cases, bool_eq, Option-cases, if_keeps, length, get_elem?, get_or, set, take, drop,
  replicate, length-append, length-set, set-set, length-replicate, get_elem?_lt,
  get_elem?-eq-get_or, get_elem?-set_self, get_elem?-set_ne, get_or-set_self, get_or-set_ne,
  length-take, length-drop, take-append-drop, length-map, get_elem?-map, get_elem?_of_lt,
  drop-eq-cons, get_elem?-take, get_or-take, get_or-eq_get_elem?, All, All-set, All-get_or,
  All-take, All-get_elem?, All-replicate,
}
use csci_3753_operating_syst.Prelude.Writes.{get_or-set}
use csci_3753_operating_syst.Paging.{
  Branch, Bcontext, BranchType, goto, for, nfor, branch_if, max_brings,
}
use csci_3753_operating_syst.Paging.Branching.{
  bcontext_clear, bcontext_init, IfLoop, next_run, if_loop, pass_count, for_loop, bump,
}
use csci_3753_operating_syst.Paging.Branching.Decide.{IsReady}
use csci_3753_operating_syst.Prelude.Opt.{◌>>=◌}

-- A cleared context can be decided on.
pub bcontext_clear-IsReady : (c : Bcontext) → IsReady (bcontext_clear c)
unfolding bcontext_clear
bcontext_clear-IsReady c = omega arith

-- The entries of a loop branch: at even places a count of the branch, at odd places one failure.
pub record LoopCode (b : Branch) (brings : List ℕ) (i : ℕ) : Type 0 where
  pub enough : b.min_count ≤ get_or brings (2 * i) 0
  pub below : b.min_count < b.max_count → get_or brings (2 * i) 0 < b.max_count
  pub exact : b.max_count ≤ b.min_count → get_or brings (2 * i) 0 ≡ b.min_count
  pub failure : get_or brings (2 * i + 1) 0 ≡ 1

module _ {R : Type 0} (drand_lt : ℕ → R → Bool × R) (lrand48 : R → ℕ × R) where
  pass_count_bounds :
      (b : Branch) (r : R)
      → (b.min_count ≤ (pass_count drand_lt lrand48 b r).0)
        × (b.min_count < b.max_count → (pass_count drand_lt lrand48 b r).0 < b.max_count)
        × (b.max_count ≤ b.min_count → (pass_count drand_lt lrand48 b r).0 ≡ b.min_count)
  unfolding pass_count
  pass_count_bounds b r = ground arith

  record ForDone (b : Branch) (out : ℕ × List ℕ × R) : Type 0 where
    full : out.0 ≡ max_brings
    whole : length out.1 ≡ max_brings
    coded : (i : ℕ) → i < 50 → LoopCode b out.1 i

  -- One round writes the pair at its place and keeps the pairs before it.
  LoopCode-round :
      (b : Branch) (m n : ℕ) (brings : List ℕ) (r : R)
      → length brings ≡ max_brings
      → m < 50
      → n ≡ 2 * m
      → ((i : ℕ) → i < m → LoopCode b brings i)
      → (i : ℕ) → i < suc m
      → LoopCode b (set (set brings n (pass_count drand_lt lrand48 b r).0) (n + 1) 1) i
  LoopCode-round b m n brings r len room at old i lt =
      let v = (pass_count drand_lt lrand48 b r).0 in
      let inner = set brings n v in
      let even : (j : ℕ)
          → get_or (set inner (n + 1) 1) j 0
            ≡ (if n + 1 == j then 1 else (if n == j then v else get_or brings j 0)) =
        λ j.
          get_or-set inner (n + 1) j 1 0 (omega (arith, length-set brings n v))
          ∙ ap (λ z. if n + 1 == j then 1 else z) (get_or-set brings n j v 0 (omega arith)) in
      elim (dec_lt i m) [
        | yes earlier ↦
            let o : LoopCode b brings i = old i earlier in
            let a : get_or (set inner (n + 1) 1) (2 * i) 0 ≡ get_or brings (2 * i) 0 =
              even (2 * i) ∙ ground arith in
            let f : get_or (set inner (n + 1) 1) (2 * i + 1) 0 ≡ get_or brings (2 * i + 1) 0 =
              even (2 * i + 1) ∙ ground arith in
            record {
              enough = rw a o.enough;
              below = rw a o.below;
              exact = rw a o.exact;
              failure = rw f o.failure;
            }
        | no last ↦
            let bounds = pass_count_bounds b r in
            let a : get_or (set inner (n + 1) 1) (2 * i) 0 ≡ v = even (2 * i) ∙ ground arith in
            let f : get_or (set inner (n + 1) 1) (2 * i + 1) 0 ≡ 1 =
              even (2 * i + 1) ∙ ground arith in
            record {
              enough = rw a bounds.0;
              below = rw a bounds.1;
              exact = rw a bounds.2;
              failure = f;
            }
      ]

  -- From `m` pairs written, with `left` rounds to go.
  for_loop-ForDone :
      (fuel left m n : ℕ) (b : Branch) (brings : List ℕ) (r : R)
      → left < fuel
      → m + left ≡ 50
      → n ≡ 2 * m
      → length brings ≡ max_brings
      → ((i : ℕ) → i < m → LoopCode b brings i)
      → ForDone b (for_loop drand_lt lrand48 fuel b n brings r)
  unfolding for_loop
  for_loop-ForDone zero left m n b brings r lt sum at len old = absurd (omega arith)
  for_loop-ForDone (suc fuel) zero m n b brings r lt sum at len old =
      let stop : ltb n max_brings ≡ false = ground arith in
      let all : (i : ℕ) → i < 50 → LoopCode b brings i = λ i h. old i (omega arith) in
      rw stop (record { full = omega arith; whole = len; coded = all })
  for_loop-ForDone (suc fuel) (suc left) m n b brings r lt sum at len old =
      let go : ltb n max_brings ≡ true = ground arith in
      let v = (pass_count drand_lt lrand48 b r).0 in
      rw go (
        for_loop-ForDone fuel left (suc m) (n + 2) b (set (set brings n v) (n + 1) 1)
          (pass_count drand_lt lrand48 b r).1 (omega arith) (omega arith) (omega arith)
          (length-set (set brings n v) (n + 1) 1 ∙ length-set brings n v ∙ len)
          (LoopCode-round b m n brings r len (omega arith) at old))

  -- What `bcontext_init` of a `FOR` or `NFOR` branch leaves.
  pub record LoopContext (b : Branch) (c' : Bcontext) : Type 0 where
    pub ready : IsReady c'
    pub full : c'.bsize ≡ max_brings
    pub start : (c'.boffset ≡ 0) × (c'.bcount ≡ 0)
    pub kind : c'.btype ≡ b.btype
    pub coded : (i : ℕ) → i < 50 → LoopCode b c'.brings i

  for_context :
      (b : Branch) (v : Bool) (out : ℕ × List ℕ × R)
      → ForDone b out
      → LoopContext b (record {
        btype = b.btype;
        bcount = 0;
        boffset = 0;
        bsize = out.0;
        bvalue = v;
        brings = out.1;
      })
  for_context b v out d = record {
    ready = record {
      inside = omega (arith, d.full);
      sized = omega (arith, d.full);
      whole = d.whole;
    };
    full = d.full;
    start = (refl, refl);
    kind = refl;
    coded = d.coded;
  }

  -- `bcontext_init` of a `FOR` or `NFOR` branch always succeeds: all of `brings[]` is filled with a
  -- count of the branch (`min`, or from `min` to below `max`) and one failure in turn, and the
  -- first decision is to branch for a `FOR`, not to branch for an `NFOR`.
  pub bcontext_init-loop :
      (fuel : ℕ) (c : Bcontext) (b : Branch) (r : R) (v : Bool)
      → length c.brings ≡ max_brings
      → b.btype ≡ (if v then for else nfor)
      → (c' : Bcontext) × (r' : R) × (bcontext_init drand_lt lrand48 fuel c b r
          ≡ some (c', none, r'))
        × LoopContext b c'
        × (c'.bvalue ≡ v)
  unfolding bcontext_init
  bcontext_init-loop fuel c b r true len e =
      let out = for_loop drand_lt lrand48 max_brings b 0 c.brings r in
      (
        record {
          btype = b.btype;
          bcount = 0;
          boffset = 0;
          bsize = out.0;
          bvalue = true;
          brings = out.1;
        },
        out.2,
        ground arith,
        for_context b true out (
            for_loop-ForDone max_brings 50 0 0 b c.brings r (omega arith) (omega arith)
              (omega arith) len (λ i h. absurd (omega arith))),
        refl,
      )
  bcontext_init-loop fuel c b r false len e =
      let out = for_loop drand_lt lrand48 max_brings b 0 c.brings r in
      (
        record {
          btype = b.btype;
          bcount = 0;
          boffset = 0;
          bsize = out.0;
          bvalue = false;
          brings = out.1;
        },
        out.2,
        ground arith,
        for_context b false out (
            for_loop-ForDone max_brings 50 0 0 b c.brings r (omega arith) (omega arith)
              (omega arith) len (λ i h. absurd (omega arith))),
        refl,
      )
