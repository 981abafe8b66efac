-- ===== src/Paging/System/Slots.antt =====
-- The steps of all slots in a round: what they keep, and the one fault that they can make.
use csci_3753_operating_syst.Prelude.{
  ℕ, zero, suc, ◌+◌, ◌<◌, ◌≡◌, refl, sym, ◌∙◌, subst, ◌⊎◌, inl, inr, Option, none, some, arith,
  if◌then◌else◌, Option-cases, if_keeps, get_elem?, get_or, set, length-set, get_elem?_of_lt,
  All-set, All-get_or, All-get_elem?,
}
use csci_3753_operating_syst.Paging.{Process, Sim}
use csci_3753_operating_syst.Paging.Frames.Conservation.{
  Conserved-set, IsSound, process_unload-Conserved,
}
use csci_3753_operating_syst.Paging.Execution.{process_step}
use csci_3753_operating_syst.Paging.Execution.Unbranched.{IsReading, step-IsLoadable}
use csci_3753_operating_syst.Paging.System.{unload_slot, replace_slot, step_slot, step_slots}
use csci_3753_operating_syst.Paging.System.Shape.{
  IsRunnable, InQueue, Shape-set, Running, Running-slots, refill-Running, process_unload-Shape,
}

unload_slot-Running : (slot : Option ℕ) (s : Sim) → Running s → Running (unload_slot slot s)
unfolding unload_slot
unload_slot-Running none s h = h
unload_slot-Running (some k) s h = elim (Option-cases (get_elem? s.queue k)) [
  | inl dangling ↦ rw (dangling, unload_slot) h
  | inr (q, at) ↦
      rw (at, unload_slot)
        (if_keeps Running q.active
          (record {
            conserved = process_unload-Conserved k q s h.conserved at;
            shape = process_unload-Shape k q s h.shape at;
          })
          h)
]

replace_slot-Running :
    (i : ℕ) (slot : Option ℕ) (s : Sim) → Running s → Running (replace_slot i slot s)
unfolding replace_slot
replace_slot-Running i slot s h =
    let h' : Running (unload_slot slot s) = unload_slot-Running slot s h in
    refill-Running i _ (
      Running-slots (unload_slot slot s) _ h' refl refl
        (length-set (unload_slot slot s).processes i none ∙ h'.shape.places)
        (All-set InQueue (unload_slot slot s).processes i none h'.shape.slots tt))

-- A process written back with its pages as they were.
Running-step :
    (s : Sim) (k : ℕ) (q q' : Process)
    → Running s
    → get_elem? s.queue k ≡ some q
    → IsRunnable q'
    → q'.pages ≡ q.pages
    → q'.npages ≡ q.npages
    → Running (record s { queue = set s.queue k q' })
Running-step s k q q' h at hq pages npages =
    let sound : IsSound q = All-get_elem? IsSound s.queue k q h.conserved.sound at in
    record {
      conserved =
          Conserved-set s k q q' s.pagesavail h.conserved at
            (record {
              paged = rw pages sound.paged;
              fits = rw npages sound.fits;
              aged = rw pages sound.aged;
            })
            (rw pages refl) refl refl;
      shape = Shape-set s k q' h.shape hq refl refl;
    }

-- Slot `i` holds a process of a program without a branch whose step is the read of `branches[-1]`.
pub record IsLost (i : ℕ) (s : Sim) : Type 0 where
  pub entry : ℕ
  pub process : Process
  pub slot : get_or s.processes i none ≡ some entry
  pub held : get_elem? s.queue entry ≡ some process
  pub reading : IsReading process
  pub lost : process_step process ≡ none

-- A step of one slot keeps the invariant, or is that read.
abbrev SlotEnd : ℕ → Sim → Option Sim → Type 0
SlotEnd i s o = ((o ≡ none) × IsLost i s) ⊎ ((s' : Sim) × (o ≡ some s') × Running s')

step_slot-Running : (i : ℕ) (s : Sim) → Running s → SlotEnd i s (step_slot i s)
unfolding step_slot
step_slot-Running i s h = elim (Option-cases (get_or s.processes i none)) [
  | inl null ↦
      inr (replace_slot i none s, rw (null, step_slot) refl, replace_slot-Running i none s h)
  | inr (k, e) ↦
      let there : InQueue (get_or s.processes i none) =
        All-get_or InQueue s.processes i none h.shape.slots tt in
      let inside : InQueue (some k) = subst InQueue e there in
      let (q, at) = get_elem?_of_lt s.queue k (omega (arith, inside, h.shape.size)) in
      let (p, hp, loaded) = All-get_elem? IsRunnable s.queue k q h.shape.runnable at in
      elim (step-IsLoadable p q hp loaded) [
        | inl (lost, reading) ↦ inl (
          rw (e, step_slot) (rw at (rw lost refl)),
          record { entry = k; process = q; slot = e; held = at; reading = reading; lost = lost },
        )
        | inr (out, runs, loaded', pages, npages) ↦
            let s' : Sim = record s { queue = set s.queue k out.1 } in
            let h' : Running s' = Running-step s k q out.1 h at (p, hp, loaded') pages npages in
            inr (
              if out.0 then s' else replace_slot i (some k) s',
              rw (e, step_slot) (rw at (rw runs refl)),
              if_keeps Running out.0 h' (replace_slot-Running i (some k) s' h'),
            )
      ]
]

-- The round of all slots that ends with the slots up to `j` behind slot `i`, and the read in slot `i + j`.
pub record LostIn (n i : ℕ) (s : Sim) : Type 0 where
  pub before : ℕ
  pub fewer : before < n
  pub state : Sim
  pub reaches : step_slots before i s ≡ some state
  pub loses : IsLost (i + before) state

pub step_slots-Running :
    (n i : ℕ) (s : Sim)
    → Running s
    → ((step_slots n i s ≡ none) × LostIn n i s)
      ⊎ (s' : Sim) × (step_slots n i s ≡ some s') × Running s'
unfolding step_slots
step_slots-Running zero i s h = inr (s, refl, h)
step_slots-Running (suc n) i s h = elim (step_slot-Running i s h) [
  | inl (lost, loses) ↦
      let here : i + 0 ≡ i = omega arith in
      inl (
        rw lost refl,
        record {
          before = 0;
          fewer = omega arith;
          state = s;
          reaches = refl;
          loses = subst (λ j. IsLost j s) (sym here) loses;
        },
      )
  | inr (s1, runs, h1) ↦ elim (step_slots-Running n (i + 1) s1 h1) [
    | inl (lost, later) ↦
        let there : i + 1 + later.before ≡ i + suc later.before = omega arith in
        inl (
          rw runs lost,
          record {
            before = suc later.before;
            fewer = omega (arith, later.fewer);
            state = later.state;
            reaches = rw runs later.reaches;
            loses = subst (λ j. IsLost j later.state) there later.loses;
          },
        )
    | inr (s2, runs', h2) ↦ inr (s2, rw runs runs', h2)
  ]
]
