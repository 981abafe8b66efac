-- ===== src/BoundedQueue/Driver/Invariant.antt =====
-- What the producer and the consumer of part 6 (recitation/threads/thread_test.c) keep to.
use csci_3753_operating_syst.Prelude.{
  ℕ, zero, suc, ◌+◌, ◌≤◌, ◌≡◌, refl, sym, ap, ◌∙◌, subst, ◌⊎◌, inl, inr, Bool, true, false, some,
  List, [], ◌∷◌, ◌++◌, arith, length, get_elem?, get_or, length-append,
}
use csci_3753_operating_syst.BoundedQueue.{
  Queue, Thread, System, Step, stay, next, run, moved, enters, leaves, advance, ready, push_wait,
  push_lock, push_write, push_advance, push_unlock, push_post, pop_wait, pop_lock, pop_read,
  pop_advance, pop_unlock, pop_post,
}
use csci_3753_operating_syst.BoundedQueue.Accounts.{IsSound}
use csci_3753_operating_syst.BoundedQueue.Fifo.{Steps-IsSound}
use csci_3753_operating_syst.BoundedQueue.Driver.{produces, consumes, Driver}
use csci_3753_operating_syst.BoundedQueue.Driver.Phases.{after_line, advance-after_line}
use mathlib.Core.List.{append_assoc, append-nil}

-- The values `1 .. n`, as the producer makes them.
unfoldable pub up_to : ℕ → List ℕ
up_to zero = []
up_to (suc n) = up_to n ++ (suc n ∷ [])

-- The value of a push that is not yet in the queue.
abbrev pub in_flight : Thread → List ℕ
in_flight (push_wait v) = v ∷ []
in_flight (push_lock v) = v ∷ []
in_flight (push_write v) = v ∷ []
in_flight (push_advance v) = v ∷ []
in_flight _ = []

-- A pop that has not yet taken its value.
abbrev pub to_take : Thread → ℕ
to_take pop_wait = 1
to_take pop_lock = 1
to_take pop_read = 1
to_take (pop_advance v) = 1
to_take _ = 0

-- The thread is outside a call, or pushes.
abbrev pub is_pusher : Thread → Bool
is_pusher ready = true
is_pusher (push_wait v) = true
is_pusher (push_lock v) = true
is_pusher (push_write v) = true
is_pusher (push_advance v) = true
is_pusher push_unlock = true
is_pusher push_post = true
is_pusher _ = false

-- The thread is outside a call, or pops.
abbrev pub is_popper : Thread → Bool
is_popper ready = true
is_popper pop_wait = true
is_popper pop_lock = true
is_popper pop_read = true
is_popper (pop_advance v) = true
is_popper (pop_unlock v) = true
is_popper (pop_post v) = true
is_popper _ = false

-- A producer's line: its value goes from the call to the log when it is in the queue.
pusher_line :
    (t : Thread) (v : ℕ)
    → is_pusher t ≡ true
    → (is_pusher (after_line t v) ≡ true)
      × (leaves t ≡ [])
      × (enters t ++ in_flight (after_line t v) ≡ in_flight t)
unfolding enters leaves
pusher_line ready v h = (refl, refl, refl)
pusher_line (push_wait w) v h = (refl, refl, refl)
pusher_line (push_lock w) v h = (refl, refl, refl)
pusher_line (push_write w) v h = (refl, refl, refl)
pusher_line (push_advance w) v h = (refl, refl, refl)
pusher_line push_unlock v h = (refl, refl, refl)
pusher_line push_post v h = (refl, refl, refl)
pusher_line pop_wait v h = absurd (cc)
pusher_line pop_lock v h = absurd (cc)
pusher_line pop_read v h = absurd (cc)
pusher_line (pop_advance w) v h = absurd (cc)
pusher_line (pop_unlock w) v h = absurd (cc)
pusher_line (pop_post w) v h = absurd (cc)

-- A consumer's line.
popper_line :
    (t : Thread) (v : ℕ)
    → is_popper t ≡ true
    → (is_popper (after_line t v) ≡ true)
      × (enters t ≡ [])
      × (length (leaves t) + to_take (after_line t v) ≡ to_take t)
unfolding enters leaves
popper_line ready v h = (refl, refl, refl)
popper_line pop_wait v h = (refl, refl, refl)
popper_line pop_lock v h = (refl, refl, refl)
popper_line pop_read v h = (refl, refl, refl)
popper_line (pop_advance w) v h = (refl, refl, refl)
popper_line (pop_unlock w) v h = (refl, refl, refl)
popper_line (pop_post w) v h = (refl, refl, refl)
popper_line (push_wait w) v h = absurd (cc)
popper_line (push_lock w) v h = absurd (cc)
popper_line (push_write w) v h = absurd (cc)
popper_line (push_advance w) v h = absurd (cc)
popper_line push_unlock v h = absurd (cc)
popper_line push_post v h = absurd (cc)

-- Thread 0 produces `1 .. count`, thread 1 takes `count` values; `made` calls of the one and `taken` of the other
-- have begun.
pub record IsDriven (count : ℕ) (d : Driver) : Type 0 where
  pub tp : Thread
  pub tc : Thread
  pub made : ℕ
  pub taken : ℕ
  pub threads_are : d.system.threads ≡ tp ∷ tc ∷ []
  pub roles_are : d.roles ≡ produces count (made + 1) ∷ consumes count taken ∷ []
  pub pusher : is_pusher tp ≡ true
  pub popper : is_popper tc ≡ true
  pub made_in : made ≤ count
  pub taken_in : taken ≤ count
  pub log : d.system.pushed ++ in_flight tp ≡ up_to made
  pub count_taken : length d.system.popped + to_take tc ≡ taken
  pub sound : IsSound d.system

pub pick_two :
    {A : Type 0} (a b : A) (i : ℕ) (t : A)
    → get_elem? (a ∷ b ∷ []) i ≡ some t
    → (i ≡ 0) × (a ≡ t) ⊎ (i ≡ 1) × (b ≡ t)
pick_two a b zero t e = inl (refl, cc)
pick_two a b (suc zero) t e = inr (refl, cc)
pick_two a b (suc (suc i)) t e = absurd (cc)

pub step_sound : (s s' : System) → IsSound s → Step s s' → IsSound s'
step_sound s s' h step = Steps-IsSound s s' (next s s s' (stay s) step) h

pub go-IsDriven :
    (count : ℕ) (d : Driver) (i : ℕ) (t t' : Thread) (q' : Queue)
    → IsDriven count d
    → get_elem? d.system.threads i ≡ some t
    → advance t d.system.queue ≡ some (t', q')
    → IsDriven count (record d { system = moved d.system i t t' q' })
go-IsDriven count d i t t' q' h at e =
    let s = d.system in
    let v = get_or s.queue.data_slots s.queue.head 0 in
    let phase : t' ≡ after_line t v = advance-after_line t s.queue (t', q') e in
    let sound = step_sound s (moved s i t t' q') h.sound (run s i t t' q' at e) in
    elim (pick_two h.tp h.tc i t (subst (λ ts. get_elem? ts i ≡ some t) h.threads_are at)) [
      | inl (zeroth, same) ↦
          let (pushes, nothing, same_value) =
            pusher_line t v (subst (λ u. is_pusher u ≡ true) same h.pusher) in
          record {
            tp = t';
            tc = h.tc;
            made = h.made;
            taken = h.taken;
            threads_are = rw (zeroth, h.threads_are) refl;
            roles_are = h.roles_are;
            pusher = subst (λ u. is_pusher u ≡ true) (sym phase) pushes;
            popper = h.popper;
            made_in = h.made_in;
            taken_in = h.taken_in;
            log =
                append_assoc s.pushed (enters t) (in_flight t')
                ∙ ap (λ ys. s.pushed ++ ys)
                    (ap (λ u. enters t ++ in_flight u) phase ∙ same_value ∙ ap in_flight (sym same))
                ∙ h.log;
            count_taken =
                ap (λ ys. length (s.popped ++ ys) + to_take h.tc) nothing
                ∙ ap (λ ys. length ys + to_take h.tc) (append-nil s.popped)
                ∙ h.count_taken;
            sound = sound;
          }
      | inr (first, same) ↦
          let (pops, nothing, one) =
            popper_line t v (subst (λ u. is_popper u ≡ true) same h.popper) in
          record {
            tp = h.tp;
            tc = t';
            made = h.made;
            taken = h.taken;
            threads_are = rw (first, h.threads_are) refl;
            roles_are = h.roles_are;
            pusher = h.pusher;
            popper = subst (λ u. is_popper u ≡ true) (sym phase) pops;
            made_in = h.made_in;
            taken_in = h.taken_in;
            log =
                ap (λ ys. (s.pushed ++ ys) ++ in_flight h.tp) nothing
                ∙ ap (λ ys. ys ++ in_flight h.tp) (append-nil s.pushed)
                ∙ h.log;
            count_taken = omega (
              arith,
              length-append s.popped (leaves t),
              one,
              ap to_take phase,
              ap to_take same,
              h.count_taken,
            );
            sound = sound;
          }
    ]
