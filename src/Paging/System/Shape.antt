-- ===== src/Paging/System/Shape.antt =====
-- The shape of a simulator between the rounds of its loop: every slot points into the queue, and every process
-- of the queue is loaded with a program, which may have no branch.
use csci_3753_operating_syst.Prelude.{
  ℕ, zero, suc, ◌+◌, ◌<◌, ◌≡◌, refl, sym, ap, ◌∙◌, subst, ◌⊎◌, inl, inr, Bool, false, Option, none,
  some, List, [], ◌∷◌, arith, Option-cases, if_keeps, length, get_elem?, set, take, length-set, All,
  All-set, All-get_elem?,
}
use csci_3753_operating_syst.Paging.{Program, Process, Sim, max_processes, page_wait, queue_size}
use csci_3753_operating_syst.Paging.Frames.{
  allage, age_slot, age_slots, age_pages, process_unload, unload_pages, unload_flags, pagein,
  pageout, pagein_live, pageout_live, set_age,
}
use csci_3753_operating_syst.Paging.Frames.Ages.{length-age_pages, length-unload_pages}
use csci_3753_operating_syst.Paging.Frames.Conservation.{
  pageout-keeps, pagein-keeps, Conserved, pagein_live_cases, pageout_live_cases, pagein-Conserved,
  pageout-Conserved,
}
use csci_3753_operating_syst.Paging.Execution.Step.{IsLoaded}
use csci_3753_operating_syst.Paging.Execution.Unbranched.{IsLoadable}
use csci_3753_operating_syst.Paging.Pager.{Calls, finish, ask_in, ask_out, run_calls}
use csci_3753_operating_syst.Paging.System.{dequeue, empty, refill}
use csci_3753_operating_syst.Prelude.Int.{ℤ, pos, negsuc}

abbrev pub IsRunnable : Process → Type 0
IsRunnable q = (p : Program) × IsLoadable p × IsLoaded p q

abbrev pub InQueue : Option ℕ → Type 0
InQueue none = Unit
InQueue (some k) = k < queue_size

pub record Shape (s : Sim) : Type 0 where
  pub runnable : All IsRunnable s.queue
  pub slots : All InQueue s.processes
  pub places : length s.processes ≡ max_processes
  pub size : length s.queue ≡ queue_size

-- A process's tables may be written as long as they keep their lengths.
pub IsRunnable-tables :
    (q : Process) (pages : List ℤ) (blocked : List Bool) (active : Bool)
    → IsRunnable q
    → length pages ≡ length q.pages
    → length blocked ≡ length q.blocked
    → IsRunnable (record q { pages = pages; blocked = blocked; active = active })
IsRunnable-tables q pages blocked active (p, hp, h) e e' = (
  p,
  hp,
  record {
    program = h.program;
    inside = h.inside;
    paged = (e ∙ h.paged.0, e' ∙ h.paged.1);
    contexts = h.contexts;
    ready = h.ready;
  },
)

pub Shape-set :
    (s : Sim) (k : ℕ) (q' : Process) {s' : Sim}
    → Shape s
    → IsRunnable q'
    → s'.queue ≡ set s.queue k q'
    → s'.processes ≡ s.processes
    → Shape s'
Shape-set s k q' h hq eq ep = record {
  runnable = rw eq (All-set IsRunnable s.queue k q' h.runnable hq);
  slots = rw ep h.slots;
  places = rw ep h.places;
  size = rw eq (length-set s.queue k q' ∙ h.size);
}

Shape-set_age :
    (s : Sim) (k : ℕ) (q : Process) (page : ℕ) (age : ℤ) {s' : Sim}
    → Shape s
    → get_elem? s.queue k ≡ some q
    → s'.queue ≡ (set_age s k q page age).queue
    → s'.processes ≡ s.processes
    → Shape s'
Shape-set_age s k q page age h at eq ep =
    Shape-set s k (record q { pages = set q.pages page age }) h
      (IsRunnable-tables q (set q.pages page age) q.blocked q.active
        (All-get_elem? IsRunnable s.queue k q h.runnable at) (length-set q.pages page age) refl)
      eq ep

pageout_live-Shape :
    (p page k : ℕ) (q : Process) (s : Sim)
    → Shape s
    → get_elem? s.queue k ≡ some q
    → Shape (pageout_live p page k q s).1
pageout_live-Shape p page k q s h at = elim (pageout_live_cases p page k q s) [
  | inl same ↦ subst Shape (sym same) h
  | inr (lt, zero_age, wrote) ↦
      Shape-set_age s k q page (negsuc 0) h at (rw wrote refl) (rw wrote refl)
]

pagein_live-Shape :
    (page k : ℕ) (q : Process) (s : Sim)
    → Shape s
    → get_elem? s.queue k ≡ some q
    → Shape (pagein_live page k q s).1
pagein_live-Shape page k q s h at = elim (pagein_live_cases page k q s) [
  | inl same ↦ subst Shape (sym same) h
  | inr (lt, is_out, free, wrote) ↦
      Shape-set_age s k q page (pos page_wait) h at (rw wrote refl) (rw wrote refl)
]

pub pageout-Shape : (p page : ℤ) (s : Sim) → Shape s → Shape (pageout p page s).1
pageout-Shape p page s h =
    pageout-keeps Shape p page s h (λ i j k q at. pageout_live-Shape i j k q s h at)

pub pagein-Shape : (p page : ℤ) (s : Sim) → Shape s → Shape (pagein p page s).1
pagein-Shape p page s h = pagein-keeps Shape p page s h (λ j k q at. pagein_live-Shape j k q s h at)

-- Frames are conserved, and the slots and the processes are as they should be.
pub record Running (s : Sim) : Type 0 where
  pub conserved : Conserved s
  pub shape : Shape s

-- No pager can break this: whatever calls it makes, and whatever they answer.
pub run_calls-Running :
    {A : Type 0} (calls : Calls A) (s : Sim) → Running s → Running (run_calls calls s).1
unfolding run_calls
run_calls-Running (finish a) s h = h
run_calls-Running (ask_in p page next) s h =
    let (b, s') = pagein p page s in
    run_calls-Running (next b) s' (record {
      conserved = pagein-Conserved p page s h.conserved;
      shape = pagein-Shape p page s h.shape;
    })
run_calls-Running (ask_out p page next) s h =
    let (b, s') = pageout p page s in
    run_calls-Running (next b) s' (record {
      conserved = pageout-Conserved p page s h.conserved;
      shape = pageout-Shape p page s h.shape;
    })

age_slot-Shape : (k : ℕ) (s : Sim) → Shape s → Shape (age_slot k s)
unfolding age_slot
age_slot-Shape k s h = elim (Option-cases (get_elem? s.queue k)) [
  | inl dangling ↦ rw (dangling, age_slot) h
  | inr (q, at) ↦
      rw (at, age_slot)
        (if_keeps Shape q.active
          (Shape-set s k (record q { pages = (age_pages q.npages q.pages).0 }) h
            (IsRunnable-tables q (age_pages q.npages q.pages).0 q.blocked q.active
              (All-get_elem? IsRunnable s.queue k q h.runnable at)
              (length-age_pages q.npages q.pages) refl)
            refl refl)
          h)
]

age_slots-Shape : (slots : List (Option ℕ)) (s : Sim) → Shape s → Shape (age_slots slots s)
unfolding age_slots
age_slots-Shape [] s h = h
age_slots-Shape (none ∷ slots) s h = age_slots-Shape slots s h
age_slots-Shape (some k ∷ slots) s h = age_slots-Shape slots (age_slot k s) (age_slot-Shape k s h)

pub allage-Shape : (s : Sim) → Shape s → Shape (allage s)
unfolding allage
allage-Shape s h = age_slots-Shape (take s.procs s.processes) s h

length-unload_flags :
    (n : ℕ) (ages : List ℤ) (flags : List Bool) → length (unload_flags n ages flags) ≡ length flags
unfolding unload_flags
length-unload_flags zero ages flags = refl
length-unload_flags (suc n) [] flags = refl
length-unload_flags (suc n) (a ∷ ages) [] = refl
length-unload_flags (suc n) (a ∷ ages) (b ∷ flags) = ap suc (length-unload_flags n ages flags)

pub process_unload-Shape :
    (k : ℕ) (q : Process) (s : Sim)
    → Shape s
    → get_elem? s.queue k ≡ some q
    → Shape (process_unload k q s)
unfolding process_unload
process_unload-Shape k q s h at =
    Shape-set s k _ h
      (IsRunnable-tables q (unload_pages q.npages q.pages).0
        (unload_flags q.npages q.pages q.blocked) false
        (All-get_elem? IsRunnable s.queue k q h.runnable at) (length-unload_pages q.npages q.pages)
        (length-unload_flags q.npages q.pages q.blocked))
      refl refl

-- The queue and the free frames decide, with the slots.
pub Running-slots :
    (s s' : Sim)
    → Running s
    → s'.queue ≡ s.queue
    → s'.pagesavail ≡ s.pagesavail
    → length s'.processes ≡ max_processes
    → All InQueue s'.processes
    → Running s'
Running-slots s s' h eq ea places slots = record {
  conserved = record { sum = rw (eq, ea) h.conserved.sum; sound = rw eq h.conserved.sound };
  shape = record {
    runnable = rw eq h.shape.runnable;
    slots = slots;
    places = places;
    size = rw eq h.shape.size;
  };
}

-- A slot that is refilled points to the next entry of the queue.
pub refill-cases :
    (i : ℕ) (s : Sim)
    → (refill i s ≡ s)
      ⊎ ((s.queueend < queue_size)
          × (refill i s ≡ record s {
            queueend = s.queueend + 1;
            processes = set s.processes i (some s.queueend);
          }))
unfolding refill dequeue empty
refill-cases i s = ground arith

pub refill-Running : (i : ℕ) (s : Sim) → Running s → Running (refill i s)
refill-Running i s h = elim (refill-cases i s) [
  | inl same ↦ subst Running (sym same) h
  | inr (lt, next) ↦ subst Running (sym next) (
      Running-slots s _ h refl refl (length-set s.processes i (some s.queueend) ∙ h.shape.places)
        (All-set InQueue s.processes i (some s.queueend) h.shape.slots lt))
]
