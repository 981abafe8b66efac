-- ===== src/BoundedQueue/Driver/Begun.antt =====
-- The calls that the producer and the consumer of part 6 (recitation/threads/thread_test.c) begin.
use csci_3753_operating_syst.Prelude.{
  ℕ, suc, ◌+◌, ◌≡◌, refl, sym, ap, ◌∙◌, subst, inl, inr, Bool, true, false, none, some, List, [],
  ◌∷◌, ◌++◌, arith, ltb, leb, if◌then◌else◌, ltb→lt, leb→le, length, get_elem?, set,
}
use csci_3753_operating_syst.BoundedQueue.{
  qsize, Thread, Step, call_push, call_pop, ready, push_wait, pop_wait,
}
use csci_3753_operating_syst.BoundedQueue.Fifo.{initial-IsSound}
use csci_3753_operating_syst.BoundedQueue.Driver.{
  Role, produces, consumes, begins, Driver, Turn, begin, go, part_6,
}
use mathlib.Core.List.{append-nil}
use csci_3753_operating_syst.BoundedQueue.Driver.Invariant.{
  up_to, in_flight, to_take, is_pusher, is_popper, IsDriven, pick_two, step_sound, go-IsDriven,
}

pub test_inv :
    (b : Bool) (x y : Thread × Role)
    → (if b then some x else none) ≡ some y
    → (b ≡ true) × (x.0 ≡ y.0) × (x.1 ≡ y.1)
test_inv true x y e =
    let same : x ≡ y = cc in
    (refl, ap (λ (z : Thread × Role). z.0) same, ap (λ (z : Thread × Role). z.1) same)
test_inv false x y e = absurd (cc)

-- The producer begins its next push.
push-IsDriven :
    (count : ℕ) (d : Driver) (t : Thread) (r' : Role)
    → (h : IsDriven count d) → get_elem? d.system.threads 0 ≡ some ready
    → h.tp ≡ ready
    → begins (produces count (h.made + 1)) ≡ some (t, r')
    → IsDriven count (record {
      system = record d.system { threads = set d.system.threads 0 t };
      roles = set d.roles 0 r';
    })
unfolding begins up_to
push-IsDriven count d t r' h at free e =
    let s = d.system in
    let i = h.made + 1 in
    let (more, call, role) =
      test_inv (leb i count) (push_wait i, produces count (i + 1)) (t, r') e in
    let number : i ≡ suc h.made = omega arith in
    record {
      tp = t;
      tc = h.tc;
      made = i;
      taken = h.taken;
      threads_are = rw h.threads_are refl;
      roles_are = rw (h.roles_are, sym role) refl;
      pusher = subst (λ u. is_pusher u ≡ true) call refl;
      popper = h.popper;
      made_in = leb→le i count more;
      taken_in = h.taken_in;
      log =
          ap (λ u. s.pushed ++ in_flight u) (sym call)
          ∙ ap (λ ys. ys ++ (i ∷ []))
              (sym (append-nil s.pushed) ∙ ap (λ u. s.pushed ++ in_flight u) (sym free) ∙ h.log)
          ∙ ap (λ k. up_to h.made ++ (k ∷ [])) number
          ∙ ap up_to (sym number);
      count_taken = h.count_taken;
      sound = step_sound s _ h.sound (
          subst (λ u. Step s (record s { threads = set s.threads 0 u })) call (call_push s 0 i at));
    }

-- The consumer begins its next pop.
pop-IsDriven :
    (count : ℕ) (d : Driver) (t : Thread) (r' : Role)
    → (h : IsDriven count d) → get_elem? d.system.threads 1 ≡ some ready
    → h.tc ≡ ready
    → begins (consumes count h.taken) ≡ some (t, r')
    → IsDriven count (record {
      system = record d.system { threads = set d.system.threads 1 t };
      roles = set d.roles 1 r';
    })
unfolding begins
pop-IsDriven count d t r' h at free e =
    let s = d.system in
    let (more, call, role) =
      test_inv (ltb h.taken count) (pop_wait, consumes count (h.taken + 1)) (t, r') e in
    record {
      tp = h.tp;
      tc = t;
      made = h.made;
      taken = h.taken + 1;
      threads_are = rw h.threads_are refl;
      roles_are = rw (h.roles_are, sym role) refl;
      pusher = h.pusher;
      popper = subst (λ u. is_popper u ≡ true) call refl;
      made_in = h.made_in;
      taken_in = omega (arith, ltb→lt h.taken count more);
      log = h.log;
      count_taken = omega (arith, h.count_taken, ap to_take call, ap to_take free);
      sound =
          step_sound s _ h.sound
            (subst (λ u. Step s (record s { threads = set s.threads 1 u })) call (call_pop s 1 at));
    }

pub Turn-IsDriven : (count : ℕ) (d d' : Driver) → Turn d d' → IsDriven count d → IsDriven count d'
Turn-IsDriven count d d' (go _ i t t' q' at e) h = go-IsDriven count d i t t' q' h at e
Turn-IsDriven count d d' (begin _ i r r' t at_r at_t e) h =
    let here = subst (λ ts. get_elem? ts i ≡ some ready) h.threads_are at_t in
    elim (pick_two (produces count (h.made + 1)) (consumes count h.taken) i r
      (subst (λ rs. get_elem? rs i ≡ some r) h.roles_are at_r)) [
        | inl (zeroth, role) ↦
            let its : some h.tp ≡ some ready =
              subst (λ k. get_elem? (h.tp ∷ h.tc ∷ []) k ≡ some ready) zeroth here in
            rw zeroth (
              push-IsDriven count d t r' h
                (subst (λ k. get_elem? d.system.threads k ≡ some ready) zeroth at_t) (cc)
                (subst (λ x. begins x ≡ some (t, r')) (sym role) e))
        | inr (first, role) ↦
            let its : some h.tc ≡ some ready =
              subst (λ k. get_elem? (h.tp ∷ h.tc ∷ []) k ≡ some ready) first here in
            rw first (
              pop-IsDriven count d t r' h
                (subst (λ k. get_elem? d.system.threads k ≡ some ready) first at_t) (cc)
                (subst (λ x. begins x ≡ some (t, r')) (sym role) e))
      ]

pub part_6-IsDriven :
    (slots : List ℕ) (count : ℕ) → length slots ≡ qsize → IsDriven count (part_6 slots count)
unfolding part_6 up_to
part_6-IsDriven slots count len = record {
  tp = ready;
  tc = ready;
  made = 0;
  taken = 0;
  threads_are = refl;
  roles_are = refl;
  pusher = refl;
  popper = refl;
  made_in = omega arith;
  taken_in = omega arith;
  log = refl;
  count_taken = refl;
  sound = initial-IsSound slots 2 len;
}
