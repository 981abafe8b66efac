-- ===== src/Paging/Branching/Decide.antt =====
-- The decisions of a branch context are the run-length code that its `brings[]` holds.
use csci_3753_operating_syst.Prelude.{
  ℕ, zero, suc, ◌+◌, ◌*◌, ◌%◌, ◌≤◌, ◌<◌, ◌≡◌, refl, ap, ◌∙◌, Bool, true, false, not, Option, some,
  List, [], ◌∷◌, ◌++◌, arith, leb, if◌then◌else◌, length, get_elem?, get_or, take, drop, replicate,
  get_elem?-eq-get_or, length-take, length-drop, drop-eq-cons, get_elem?-take, get_or-eq_get_elem?,
}
use native.Mathlib.Nat.{mod-eq_of_lt, mod_self}
use csci_3753_operating_syst.Paging.{Bcontext, max_brings}
use csci_3753_operating_syst.Paging.Branching.{bcontext_decide}
use csci_3753_operating_syst.Prelude.Opt.{◌>>=◌}

-- The context can be decided on: its offset is inside its size, which is inside the array.
pub record IsReady (c : Bcontext) : Type 0 where
  pub inside : c.boffset < c.bsize
  pub sized : c.bsize ≤ max_brings
  pub whole : length c.brings ≡ max_brings

-- The length of one run: an entry of 0 still takes one decision.
abbrev pub run_length : ℕ → ℕ
run_length zero = 1
run_length (suc n) = suc n

-- The context after the last decision of a run.
abbrev pub turned : Bcontext → Bcontext
turned c = record c { boffset = (c.boffset + 1) % c.bsize; bcount = 0; bvalue = not c.bvalue }

-- `bcontext_decide` of a ready context returns the current value, and either counts on in the
-- run or turns to the next one.
pub decide_ready :
    (c : Bcontext)
    → IsReady c
    → bcontext_decide c
      ≡ some (
        c.bvalue,
        (if leb (get_or c.brings c.boffset 0) (c.bcount + 1)
            then turned c
            else (record c { bcount = c.bcount + 1 })),
      )
unfolding bcontext_decide
decide_ready c h =
    ground (arith, get_elem?-eq-get_or c.brings c.boffset 0, h.inside, h.sized, h.whole)

pub turned-IsReady : (c : Bcontext) → IsReady c → IsReady (turned c)
turned-IsReady c h = record { inside = omega (arith, h.inside); sized = h.sized; whole = h.whole }

-- `n` decisions in a row.
unfoldable pub decide_n : ℕ → Bcontext → Option (List Bool × Bcontext)
decide_n zero c = some ([], c)
decide_n (suc n) c =
    bcontext_decide c >>= λ d. decide_n n d.1 >>= λ rest. some (d.0 ∷ rest.0, rest.1)

-- One decision and `n` more.
decide_n-suc :
    (n : ℕ) (c c' : Bcontext) (v : Bool) (vs : List Bool) (end : Bcontext)
    → bcontext_decide c ≡ some (v, c')
    → decide_n n c' ≡ some (vs, end)
    → decide_n (suc n) c ≡ some (v ∷ vs, end)
unfolding decide_n
decide_n-suc n c c' v vs end d r = rw d (rw r refl)

-- The rest of a run, of `suc m` decisions, and the decisions after it.
run_rest :
    (m k : ℕ) (c : Bcontext) (ws : List Bool) (end : Bcontext)
    → IsReady c
    → run_length (get_or c.brings c.boffset 0) ≡ c.bcount + suc m
    → decide_n k (turned c) ≡ some (ws, end)
    → decide_n (suc m + k) c ≡ some (replicate (suc m) c.bvalue ++ ws, end)
run_rest zero k c ws end h e later =
    let count : 1 + k ≡ suc k = omega arith in
    rw count (decide_n-suc k c (turned c) c.bvalue ws end (decide_ready c h ∙ ground arith) later)
run_rest (suc m) k c ws end h e later =
    let count : suc (suc m) + k ≡ suc (suc m + k) = omega arith in
    rw count (
      decide_n-suc (suc m + k) c (record c { bcount = c.bcount + 1 }) c.bvalue _ end
        (decide_ready c h ∙ ground arith)
        (run_rest m k (record c { bcount = c.bcount + 1 }) ws end
          (record { inside = h.inside; sized = h.sized; whole = h.whole }) (omega arith) later))

-- A whole run, and the decisions after it.
run_whole :
    (n k : ℕ) (c : Bcontext) (ws : List Bool) (end : Bcontext)
    → IsReady c
    → c.bcount ≡ 0
    → get_or c.brings c.boffset 0 ≡ n
    → decide_n k (turned c) ≡ some (ws, end)
    → decide_n (run_length n + k) c ≡ some (replicate (run_length n) c.bvalue ++ ws, end)
run_whole zero k c ws end h z e later = run_rest 0 k c ws end h (ground arith) later
run_whole (suc n) k c ws end h z e later = run_rest n k c ws end h (ground arith) later

-- The values that runs of the given lengths stand for, starting with `v`.
unfoldable pub expand : Bool → List ℕ → List Bool
expand v [] = []
expand v (n ∷ runs) = replicate (run_length n) v ++ expand (not v) runs

-- How many decisions the runs take.
unfoldable pub duration : List ℕ → ℕ
duration [] = 0
duration (n ∷ runs) = run_length n + duration runs

-- The value behind the runs.
unfoldable pub flips : Bool → List ℕ → Bool
flips v [] = v
flips v (n ∷ runs) = flips (not v) runs

-- What the remaining entries say of the current one and of the offset.
record AtRun (c : Bcontext) (n : ℕ) (runs : List ℕ) : Type 0 where
  entry : get_or c.brings c.boffset 0 ≡ n
  left : c.boffset + suc (length runs) ≡ c.bsize
  rest : drop (suc c.boffset) (take c.bsize c.brings) ≡ runs

at_run :
    (c : Bcontext) (n : ℕ) (runs : List ℕ)
    → IsReady c
    → drop c.boffset (take c.bsize c.brings) ≡ n ∷ runs
    → AtRun c n runs
at_run c n runs h e =
    let parts : (get_elem? (take c.bsize c.brings) c.boffset ≡ some n)
        × (drop (suc c.boffset) (take c.bsize c.brings) ≡ runs) =
      drop-eq-cons c.boffset (take c.bsize c.brings) e in
    record {
      entry =
          get_or-eq_get_elem? c.brings c.boffset 0
            (get_elem?-take c.bsize c.boffset c.brings parts.0);
      left = omega (
        arith,
        ap length e,
        length-drop c.boffset (take c.bsize c.brings),
        length-take c.bsize c.brings,
        h.sized,
        h.whole,
        h.inside,
      );
      rest = parts.1;
    }

-- From the start of a run, the decisions up to the end of the array follow its remaining entries,
-- and leave the context at offset 0 for the next round.
cycle_from :
    (runs : List ℕ) (n : ℕ) (c : Bcontext)
    → IsReady c
    → c.bcount ≡ 0
    → drop c.boffset (take c.bsize c.brings) ≡ n ∷ runs
    → decide_n (duration (n ∷ runs)) c
      ≡ some (
        expand c.bvalue (n ∷ runs),
        record c { boffset = 0; bcount = 0; bvalue = flips c.bvalue (n ∷ runs) },
      )
unfolding duration expand flips decide_n
cycle_from [] n c h z e =
    let a : AtRun c n [] = at_run c n [] h e in
    let wrap : (c.boffset + 1) % c.bsize ≡ 0 =
      let e' : c.boffset + 1 ≡ c.bsize = omega (arith, a.left) in rw e' (mod_self c.bsize) in
    run_whole n 0 c [] _ h z a.entry (rw wrap refl)
cycle_from (m ∷ runs) n c h z e =
    let a : AtRun c n (m ∷ runs) = at_run c n (m ∷ runs) h e in
    let next : (c.boffset + 1) % c.bsize ≡ suc c.boffset =
      mod-eq_of_lt (omega (arith, a.left)) ∙ omega arith in
    run_whole n (duration (m ∷ runs)) c (expand (not c.bvalue) (m ∷ runs)) _ h z a.entry
      (cycle_from runs m (turned c) (turned-IsReady c h) refl (rw next a.rest))

flips_even : (n : ℕ) (v : Bool) (runs : List ℕ) → length runs ≡ 2 * n → flips v runs ≡ v
unfolding flips
flips_even zero v [] e = refl
flips_even zero v (r ∷ runs) e = absurd (omega arith)
flips_even (suc n) v [] e = refl
flips_even (suc n) v (r ∷ []) e = absurd (omega arith)
flips_even (suc n) true (r ∷ r' ∷ runs) e = flips_even n true runs (omega arith)
flips_even (suc n) false (r ∷ r' ∷ runs) e = flips_even n false runs (omega arith)

cycle_over :
    (c : Bcontext) (n : ℕ) (runs : List ℕ)
    → IsReady c
    → c.boffset ≡ 0
    → c.bcount ≡ 0
    → c.bsize ≡ 2 * n
    → take c.bsize c.brings ≡ runs
    → decide_n (duration runs) c ≡ some (expand c.bvalue runs, c)
cycle_over c n [] h o z even e =
    absurd (omega (arith, ap length e, length-take c.bsize c.brings, h.inside, h.sized, h.whole))
cycle_over c n (m ∷ runs) h o z even e =
    let size : length (m ∷ runs) ≡ 2 * n =
      omega (arith, ap length e, length-take c.bsize c.brings, h.sized, h.whole) in
    let same : flips c.bvalue (m ∷ runs) ≡ c.bvalue = flips_even n c.bvalue (m ∷ runs) size in
    let start : drop c.boffset (take c.bsize c.brings) ≡ m ∷ runs = rw o e in
    cycle_from runs m c h z start ∙ ground arith

-- For a context at the start of its array with an even number of entries, one round of decisions
-- gives each value in turn as often as its entry says (once for an entry of 0), starting with the
-- current value, and leaves the context as it was: the decisions are periodic.
pub decide_cycle :
    (c : Bcontext) (n : ℕ)
    → IsReady c
    → c.boffset ≡ 0
    → c.bcount ≡ 0
    → c.bsize ≡ 2 * n
    → decide_n (duration (take c.bsize c.brings)) c
      ≡ some (expand c.bvalue (take c.bsize c.brings), c)
decide_cycle c n h o z even = cycle_over c n (take c.bsize c.brings) h o z even refl
