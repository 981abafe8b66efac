-- ===== src/Paging/Branching.antt =====
-- Branch contexts: when a branch of a simulated program is taken (binary, bcontext_clear,
-- bcontext_init, bcontext_decide of assignments/pa7/simulator.c). The C library's drand48 and
-- lrand48 are parameters over a generator state `R`.
pub mod Decide
pub mod Init
use csci_3753_operating_syst.Prelude.{
  ℕ, zero, suc, ◌+◌, ◌-◌, ◌*◌, ◌/◌, ◌%◌, ◌^◌, ◌≤◌, ◌<◌, min, ◌≡◌, refl, sym, ap, ◌∙◌, subst, ◌≢◌,
  ◌↔◌, ◌⊎◌, inl, inr, Bool, true, false, not, ◌&&◌, ◌||◌, Option, none, some, List, [], ◌∷◌, ◌++◌,
  map, arith, dec_lt, ℕ_discrete, ltb, leb, ◌==◌, if◌then◌else◌, ltb→lt, lt→ltb, leb→le, ==_iff,
  tests, Bool-cases, bool_eq, Option-cases, if_keeps, length, get_elem?, get_or, set, take, drop,
  replicate, length-append, length-set, length-replicate, get_elem?_lt, get_elem?-eq-get_or,
  get_elem?-set_self, get_elem?-set_ne, get_or-set_self, get_or-set_ne, length-take, length-drop,
  take-append-drop, length-map, drop-eq-cons, get_elem?-take, get_or-eq_get_elem?, All, All-set,
  All-get_elem?, All-replicate,
}
use csci_3753_operating_syst.Paging.{
  Branch, Bcontext, BranchType, goto, for, nfor, branch_if, max_brings,
}
use csci_3753_operating_syst.Prelude.Opt.{◌>>=◌, ◌>>◌, guard}

-- `bcontext_clear`. The kind of the branch is left as it is.
unfoldable pub bcontext_clear : Bcontext → Bcontext
bcontext_clear c = record c {
  bcount = 0;
  boffset = 0;
  bsize = 1;
  bvalue = true;
  brings = 1 ∷ replicate 99 0;
}

-- `bcontext_decide`: a failed assertion, a read outside `brings[]` and a remainder by 0 are faults.
unfoldable pub bcontext_decide : Bcontext → Option (Bool × Bcontext)
bcontext_decide c = do
  guard (ltb c.boffset max_brings)
  ring ← get_elem? c.brings c.boffset
  let bcount = c.bcount + 1
  if leb ring bcount
      then (guard (not (c.bsize == 0))
          >> some (
            c.bvalue,
            record c { boffset = (c.boffset + 1) % c.bsize; bcount = 0; bvalue = not c.bvalue },
          ))
      else some (c.bvalue, record c { bcount = bcount })

-- `c->brings[i]++`
abbrev pub bump : List ℕ → ℕ → List ℕ
bump brings i = set brings i (get_or brings i 0 + 1)

-- The variables of the loop for an `IF`. `spill` is what was written to `brings[MAXBRINGS]`, which
-- is outside the array.
pub record IfLoop : Type 0 where
  pub cvalue : Bool
  pub bsize : ℕ
  pub brings : List ℕ
  pub spill : Option ℕ

-- `c->bsize++; c->brings[c->bsize]=1; cvalue=!cvalue;`
unfoldable pub next_run : IfLoop → IfLoop
next_run l = record {
  cvalue = not l.cvalue;
  bsize = l.bsize + 1;
  brings = set l.brings (l.bsize + 1) 1;
  spill = if ltb (l.bsize + 1) max_brings then l.spill else some 1;
}

module _ {R : Type 0} (drand_lt : ℕ → R → Bool × R) (lrand48 : R → ℕ × R) where
  -- `while (c->bsize<MAXBRINGS)` for an `IF`, on fuel: how long it runs is up to the generator.
  unfoldable pub if_loop : ℕ → ℕ → IfLoop → R → Option (IfLoop × R)
  unfolding next_run
  if_loop zero prob l r = none
  if_loop (suc fuel) prob l r =
      let (value, r') = drand_lt prob r in
      let same = if_loop fuel prob (record l { brings = bump l.brings l.bsize }) r' in
      let other = if_loop fuel prob (next_run l) r' in
      if not (ltb l.bsize max_brings)
      then some (l, r)
      else if bool_eq value l.cvalue
      then same
      else other

  -- The count of one pass of a `FOR` or `NFOR`.
  unfoldable pub pass_count : Branch → R → ℕ × R
  pass_count b r =
      if ltb b.min_count b.max_count
      then (let (n, r') = lrand48 r in (n % (b.max_count - b.min_count) + b.min_count, r'))
      else (b.min_count, r)

  -- `while (c->bsize<MAXBRINGS)` for a `FOR` or `NFOR`: two entries to a round.
  unfoldable pub for_loop : ℕ → Branch → ℕ → List ℕ → R → ℕ × List ℕ × R
  unfolding pass_count
  for_loop zero b bsize brings r = (bsize, brings, r)
  for_loop (suc fuel) b bsize brings r =
      let (n, r') = pass_count b r in
      let rest = for_loop fuel b (bsize + 2) (set (set brings bsize n) (bsize + 1) 1) r' in
      if ltb bsize max_brings then rest else (bsize, brings, r)

  -- `bcontext_init`. Of the write outside `brings[]` only `spill` is kept: it falls on the next
  -- context's `btype`, which that context's own `bcontext_init` writes.
  unfoldable pub bcontext_init : ℕ → Bcontext → Branch → R → Option (Bcontext × Option ℕ × R)
  bcontext_init fuel c b r = elim b.btype [
    | goto ↦ some (
      record {
        btype = b.btype;
        bcount = 0;
        boffset = 0;
        bsize = 1;
        bvalue = true;
        brings = 0x7fffffff ∷ replicate 99 0;
      },
      none,
      r,
    )
    | branch_if ↦
        let (value, r') = drand_lt b.prob r in
        let start : IfLoop = record {
          cvalue = value;
          bsize = 0;
          brings = c.brings;
          spill = none;
        } in
        if_loop fuel b.prob start r' >>= λ end. some (
          record {
            btype = b.btype;
            bcount = 0;
            boffset = 0;
            bsize = end.0.bsize;
            bvalue = value;
            brings = end.0.brings;
          },
          end.0.spill,
          end.1,
        )
    | for ↦
        let (bsize, brings, r') = for_loop max_brings b 0 c.brings r in
        some (
          record {
            btype = b.btype;
            bcount = 0;
            boffset = 0;
            bsize = bsize;
            bvalue = true;
            brings = brings;
          },
          none,
          r',
        )
    | nfor ↦
        let (bsize, brings, r') = for_loop max_brings b 0 c.brings r in
        some (
          record {
            btype = b.btype;
            bcount = 0;
            boffset = 0;
            bsize = bsize;
            bvalue = false;
            brings = brings;
          },
          none,
          r',
        )
  ]
