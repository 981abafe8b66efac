-- ===== src/Tests/Lookup.antt =====
-- The theorems on assignments/pa6/multi-lookup.c for a file of two names, one thread of each kind and
-- shared arrays of two places.
use csci_3753_operating_syst.Prelude.{
  ℕ, ◌+◌, ◌-◌, ◌≤◌, ◌≡◌, refl, ap, subst, ◌≢◌, ◌⊎◌, inl, inr, Bool, Option, none, some, List, [],
  ◌∷◌, ◌++◌, arith, ltb, if◌then◌else◌, Option-cases, length, get_elem?, take, All,
}
use csci_3753_operating_syst.Lookup.{
  Text, Reply, waits, error, ok, Program, cleanup, requester, resolver, main_thread, Step, requests,
  resolves, runs_main, Steps, stay, next, started, opened, took_file, put_host, looked_up,
  took_host, put_file, put_pill, is_poison, cut_line, answer, same_text, all_left, all_gone,
}
use csci_3753_operating_syst.Lookup.Pool.{NoPill}
use csci_3753_operating_syst.Lookup.Account.{IsFifo, IsFile}
use csci_3753_operating_syst.Prelude.Int.{ℤ, pos}
use csci_3753_operating_syst.Lookup.Energy.{energy, step_count, run_bounded}
use csci_3753_operating_syst.Lookup.Progress.{CanMove, never_stuck}
use csci_3753_operating_syst.Prelude.Opt.{◌>>=◌}

-- A list of two names at most, of less than 18 bytes each.
abbrev put : Text → List Text → Reply (List Text)
put x q =
    if ltb (length x) 18 then (if ltb (length q) 2 then ok (q ++ x ∷ []) else waits) else error

abbrev get : List Text → Reply (Text × List Text)
get [] = waits
get (x ∷ q) = ok (x, q)

abbrev items : List Text → List Text
items q = q

put_cases :
    (x : Text) (q : List Text)
    → ((put x q ≡ ok (q ++ x ∷ [])))
      ⊎ (((put x q ≡ waits) × (2 ≤ length q)) ⊎ ((put x q ≡ error) × (18 ≤ length x)))
put_cases x q = ground arith

list-IsFifo : IsFifo put get items 18
list-IsFifo = record {
  put_ok = λ x q q' e. elim (put_cases x q) [
    | inl done ↦ cc
    | inr other ↦ elim other [ inl full ↦ absurd (cc) | inr wrong ↦ absurd (cc) ]
  ];
  put_error = λ x q short e. elim (put_cases x q) [
    | inl done ↦ cc
    | inr other ↦ elim other [ inl full ↦ cc | inr wrong ↦ omega (arith, wrong.1) ]
  ];
  put_waits = λ x q e none_in. elim (put_cases x q) [
    | inl done ↦ cc
    | inr other ↦ elim other [
      | inl full ↦ omega (arith, full.1, ap length none_in)
      | inr wrong ↦ cc
    ]
  ];
  get_ok = got;
  get_error = no_error;
  get_waits = waited;
}
  where
    got : (x : Text) (q q' : List Text) → get q ≡ ok (x, q') → q ≡ x ∷ q'
    got x [] q' e = absurd (cc)
    got x (y ∷ q) q' e = cc

    no_error : (q : List Text) → get q ≢ error
    no_error [] e = cc
    no_error (y ∷ q) e = cc

    waited : (q : List Text) → get q ≡ waits → q ≡ []
    waited [] e = refl
    waited (y ∷ q) e = absurd (cc)

-- The file "a" has the lines "b" and "c"; "b" has the address "d", and "c" has none.
abbrev files : Text → Option (List Text)
files name = some ((98 ∷ 10 ∷ []) ∷ (99 ∷ []) ∷ [])

abbrev addresses : Text → Option Text
addresses name = if same_text name (98 ∷ []) then some (100 ∷ []) else none

abbrev names : List Text
names = (97 ∷ []) ∷ []

names-NoPill : All (NoPill (IsFile files 18)) names
unfolding is_poison cut_line
names-NoPill = (
  (refl, (omega arith, omega arith, (_, refl, ((refl, omega arith), ((refl, omega arith), tt))))),
  tt,
)

-- Whose step it is.
data Turn : Type 0 where
  of_requester : ℕ → Turn
  of_resolver : ℕ → Turn
  of_main : Turn

abbrev turn : Turn → Program (List Text) → Option (Program (List Text))
turn (of_requester i) s =
    get_elem? s.requesters i >>= λ r. requester put get files addresses 18 i r s
turn (of_resolver i) s = get_elem? s.resolvers i >>= λ r. resolver put get files addresses 18 i r s
turn of_main s = main_thread put get files addresses 18 s.main s

abbrev run : List Turn → Program (List Text) → Option (Program (List Text))
run [] s = some s
run (t ∷ turns) s = turn t s >>= run turns

turn-Step :
    (t : Turn) (s s' : Program (List Text))
    → turn t s ≡ some s'
    → Step put get files addresses 18 s s'
turn-Step (of_requester i) s s' e = elim (Option-cases (get_elem? s.requesters i)) [
  | inl out ↦ absurd (cc)
  | inr (r, at) ↦
      requests s s' i r at
        (rw⁻¹ (ap (λ (o : Option _). o >>= λ r'. requester put get files addresses 18 i r' s) at) e)
]
turn-Step (of_resolver i) s s' e = elim (Option-cases (get_elem? s.resolvers i)) [
  | inl out ↦ absurd (cc)
  | inr (r, at) ↦
      resolves s s' i r at
        (rw⁻¹ (ap (λ (o : Option _). o >>= λ r'. resolver put get files addresses 18 i r' s) at) e)
]
turn-Step of_main s s' e = runs_main s s' e

run-Steps :
    (turns : List Turn) (s0 s s' : Program (List Text))
    → run turns s ≡ some s'
    → Steps put get files addresses 18 s0 s
    → Steps put get files addresses 18 s0 s'
run-Steps [] s0 s s' e before = subst (Steps put get files addresses 18 s0) (same s s' e) before
  where
    same : (a b : Program (List Text)) → some a ≡ some b → a ≡ b
    same a b p = cc
run-Steps (t ∷ turns) s0 s s' e before = elim (Option-cases (turn t s)) [
  | inl stuck ↦ absurd (cc)
  | inr (s1, moved) ↦
      run-Steps turns s0 s1 s' (rw⁻¹ (ap (λ (o : Option _). o >>= run turns) moved) e)
        (next s0 s s1 before (turn-Step t s s1 moved))
]

abbrev begun : Program (List Text)
begun = started put get files addresses 18 [] [] 1 1 ((97 ∷ []) ∷ [])

-- The requester reads the file while `main` waits for it, then the resolver has its turns.
abbrev schedule : List Turn
schedule =
    of_main
    ∷ of_main
    ∷ of_main
    ∷ of_main
    ∷ of_requester 0
    ∷ of_requester 0
    ∷ of_requester 0
    ∷ of_requester 0
    ∷ of_requester 0
    ∷ of_requester 0
    ∷ of_requester 0
    ∷ of_resolver 0
    ∷ of_resolver 0
    ∷ of_main
    ∷ of_main
    ∷ of_main
    ∷ of_resolver 0
    ∷ of_resolver 0
    ∷ of_resolver 0
    ∷ of_main
    ∷ []

abbrev finished : Program (List Text)
finished = elim (run schedule begun) [ none ↦ begun | some s ↦ s ]

finished-run : run schedule begun ≡ some finished
unfolding requester resolver main_thread opened took_file put_host looked_up took_host put_file
    put_pill is_poison cut_line answer all_left all_gone
finished-run = refl

finished-Steps : Steps put get files addresses 18 begun finished
finished-Steps = run-Steps schedule begun begun finished finished-run (stay begun)

-- The run up to the second name.
abbrev midway : Program (List Text)
midway = elim (run (take 8 schedule) begun) [ none ↦ begun | some s ↦ s ]

midway-run : run (take 8 schedule) begun ≡ some midway
unfolding requester resolver main_thread opened took_file put_host looked_up took_host put_file
    put_pill is_poison cut_line answer all_left all_gone
midway-run = refl

midway-Steps : Steps put get files addresses 18 begun midway
midway-Steps = run-Steps (take 8 schedule) begun begun midway midway-run (stay begun)

never_stuck_example :
    ((failed : Bool) × (midway.main ≡ cleanup failed)) ⊎ CanMove put get files addresses 18 midway
never_stuck_example =
    never_stuck put get items files addresses 18 list-IsFifo (omega arith) 1 1 [] []
      ((97 ∷ []) ∷ []) refl refl names-NoPill midway (omega arith) (omega arith) midway-Steps

run_bounded_example :
    step_count put get items files addresses 18 list-IsFifo finished-Steps
      + energy put get items files addresses 18 list-IsFifo finished
    ≤ energy put get items files addresses 18 list-IsFifo begun
run_bounded_example =
    run_bounded put get items files addresses 18 list-IsFifo begun finished finished-Steps

abbrev one_digit : Text → Option ℤ
one_digit (c ∷ []) = some (pos (c - 48))
one_digit _ = none

-- multi-lookup 1 1 s r a
abbrev argv : List Text
argv = (109 ∷ []) ∷ (49 ∷ []) ∷ (49 ∷ []) ∷ (115 ∷ []) ∷ (114 ∷ []) ∷ (97 ∷ []) ∷ []
