-- ===== src/Paging/Pager/Predict/Recent.antt =====
-- The searches of assignments/pa8/pager-predict.c for the page that was used least recently.
use csci_3753_operating_syst.Prelude.{
  ℕ, zero, suc, ◌+◌, ◌≤◌, ◌<◌, ◌≡◌, refl, sym, ap, ◌∙◌, subst, ◌⊎◌, inl, inr, Bool, true, false,
  none, some, List, [], ◌∷◌, arith, dec_lt, Bool-cases,
}
use mathlib.Core.Path.{ap₂}
use csci_3753_operating_syst.Paging.Pager.Predict.{
  int_max, Pending, Lru, consider, scan_pages, find_lru_page_local, scan_procs,
  find_lru_page_global,
}

-- The page is in memory, no operation on it is under way, and it was last used at `time`.
abbrev pub Evictable : List Bool → List Pending → List ℕ → ℕ → ℕ → Type 0
Evictable (p ∷ pages) (w ∷ wait) (t ∷ times) zero time =
    (p ≡ true) × (w.waiting ≡ false) × (t ≡ time)
Evictable (p ∷ pages) (w ∷ wait) (t ∷ times) (suc k) time = Evictable pages wait times k time
Evictable _ _ _ k time = ⊥

-- What a search that started with `l` over a row of `proc` leaves.
pub record Scanned (proc vic : ℕ) (pages : List Bool) (wait : List Pending) (times : List ℕ)
    (l l' : Lru) : Type 0 where
  pub lower : l'.lru_time ≤ l.lru_time
  pub least : (k time : ℕ) → Evictable pages wait times k time → l'.lru_time ≤ time
  pub origin :
      (l' ≡ l)
      ⊎ ((k : ℕ) × Evictable pages wait times k l'.lru_time
          × (l'.place ≡ some (proc, vic + k))
          × (l'.lru_time < l.lru_time))

-- The body of the search, by its two outcomes.
consider_cases :
    (proc vic : ℕ) (p : Bool) (w : Pending) (t : ℕ) (l : Lru)
    → ((p ≡ true)
        × (w.waiting ≡ false)
        × (t < l.lru_time)
        × (consider proc vic p w t l ≡ record { place = some (proc, vic); lru_time = t }))
      ⊎ ((consider proc vic p w t l ≡ l) × (p ≡ true → w.waiting ≡ false → l.lru_time ≤ t))
unfolding consider
consider_cases proc vic p w t l = elim (Bool-cases p) [
  | inr out ↦ inr (ground arith, λ e. cc)
  | inl here ↦ elim (Bool-cases w.waiting) [
    | inl busy ↦ inr (ground arith, λ e e'. cc)
    | inr free ↦ elim (dec_lt t l.lru_time) [
      | yes lt ↦ inl (here, free, lt, ground arith)
      | no ge ↦ inr (ground arith, λ e e'. omega arith)
    ]
  ]
]

-- A bound for the first page of a row and for the others is one for all.
least_cons :
    (p : Bool) (w : Pending) (t : ℕ) (pages : List Bool) (wait : List Pending) (times : List ℕ)
    (bound : ℕ)
    → (p ≡ true → w.waiting ≡ false → bound ≤ t)
    → ((k time : ℕ) → Evictable pages wait times k time → bound ≤ time)
    → (k time : ℕ) → Evictable (p ∷ pages) (w ∷ wait) (t ∷ times) k time
    → bound ≤ time
least_cons p w t pages wait times bound now more zero time e =
    let le = now e.0 e.1 in omega (arith, e.2)
least_cons p w t pages wait times bound now more (suc k) time e = more k time e

module _ (proc vic : ℕ) (p : Bool) (w : Pending) (t : ℕ) (pages : List Bool) (wait : List Pending)
    (times : List ℕ) (l l' : Lru) where
  Scanned-skip :
      (p ≡ true → w.waiting ≡ false → l.lru_time ≤ t)
      → Scanned proc (vic + 1) pages wait times l l'
      → Scanned proc vic (p ∷ pages) (w ∷ wait) (t ∷ times) l l'
  Scanned-skip skip h = record {
    lower = h.lower;
    least =
        least_cons p w t pages wait times l'.lru_time
          (λ e e'. let le = skip e e' in omega (arith, h.lower)) h.least;
    origin = elim h.origin [
      | inl same ↦ inl same
      | inr (k, ev, at, lt) ↦ inr (suc k, ev, at ∙ ap (λ (x : ℕ). some (proc, x)) (omega arith), lt)
    ];
  }

  Scanned-take :
      p ≡ true
      → w.waiting ≡ false
      → t < l.lru_time
      → Scanned proc
          (vic + 1)
          pages
          wait
          times
          (record { place = some (proc, vic); lru_time = t })
          l'
      → Scanned proc vic (p ∷ pages) (w ∷ wait) (t ∷ times) l l'
  Scanned-take here free lt h = record {
    lower = omega (arith, h.lower);
    least = least_cons p w t pages wait times l'.lru_time (λ e e'. h.lower) h.least;
    origin = elim h.origin [
      | inl same ↦ inr (
        0,
        (here, free, sym (ap (λ (x : Lru). x.lru_time) same)),
        ap (λ (x : Lru). x.place) same ∙ ap (λ (x : ℕ). some (proc, x)) (omega arith),
        omega (arith, ap (λ (x : Lru). x.lru_time) same),
      )
      | inr (k, ev, at, less) ↦
          inr (suc k, ev, at ∙ ap (λ (x : ℕ). some (proc, x)) (omega arith), omega arith)
    ];
  }

pub scan_pages-Scanned :
    (proc vic : ℕ) (pages : List Bool) (wait : List Pending) (times : List ℕ) (l : Lru)
    → Scanned proc vic pages wait times l (scan_pages proc vic pages wait times l)
unfolding scan_pages
scan_pages-Scanned proc vic [] wait times l = record {
  lower = omega arith;
  least = λ k time e. absurd e;
  origin = inl refl;
}
scan_pages-Scanned proc vic (p ∷ pages) [] times l = record {
  lower = omega arith;
  least = λ k time e. absurd e;
  origin = inl refl;
}
scan_pages-Scanned proc vic (p ∷ pages) (w ∷ wait) [] l = record {
  lower = omega arith;
  least = λ k time e. absurd e;
  origin = inl refl;
}
scan_pages-Scanned proc vic (p ∷ pages) (w ∷ wait) (t ∷ times) l =
    let next = consider proc vic p w t l in
    let rest = scan_pages-Scanned proc (vic + 1) pages wait times next in
    elim (consider_cases proc vic p w t l) [
      | inr (kept, skip) ↦ Scanned-skip proc vic p w t pages wait times l _ skip (
          subst
            (λ n.
              Scanned proc (vic + 1) pages wait times n
                (scan_pages proc (vic + 1) pages wait times next))
            kept rest)
      | inl (here, free, lt, took) ↦ Scanned-take proc vic p w t pages wait times l _ here free lt (
          subst
            (λ n.
              Scanned proc (vic + 1) pages wait times n
                (scan_pages proc (vic + 1) pages wait times next))
            took rest)
    ]

-- What `find_lru_page_local` gives, for timestamps below INT_MAX: no page only if no page is in
-- memory with no operation under way; else such a page whose timestamp is the least of all these.
pub find_lru_page_local_lem :
    (proc : ℕ) (pages : List Bool) (wait : List Pending) (times : List ℕ)
    → ((k time : ℕ) → Evictable pages wait times k time → time < int_max)
    → let l = find_lru_page_local proc pages wait times in
      ((l.place ≡ none) × ((k time : ℕ) → ¬ Evictable pages wait times k time))
      ⊎ ((k : ℕ) × (l.place ≡ some (proc, k))
          × Evictable pages wait times k l.lru_time
          × ((j time : ℕ) → Evictable pages wait times j time → l.lru_time ≤ time))
unfolding find_lru_page_local
find_lru_page_local_lem proc pages wait times small =
    let l0 : Lru = record { place = none; lru_time = int_max } in
    let h = scan_pages-Scanned proc 0 pages wait times l0 in
    elim h.origin [
      | inl same ↦ inl (
        ap (λ (x : Lru). x.place) same,
        λ k time e.
            let le = h.least k time e in
            let lt = small k time e in
            let top : (scan_pages proc 0 pages wait times l0).lru_time ≡ int_max =
              ap (λ (x : Lru). x.lru_time) same in
            omega arith,
      )
      | inr (k, ev, at, lt) ↦
          inr (k, at ∙ ap (λ (x : ℕ). some (proc, x)) (omega arith), ev, h.least)
    ]

-- A page of some process, as `Evictable` is for the pages of one.
abbrev pub EvictableOf : List (List Bool) → List (List Pending) → List (List ℕ) → ℕ → ℕ → ℕ → Type 0
EvictableOf (p ∷ pages) (w ∷ wait) (t ∷ times) zero k time = Evictable p w t k time
EvictableOf (p ∷ pages) (w ∷ wait) (t ∷ times) (suc j) k time =
    EvictableOf pages wait times j k time
EvictableOf _ _ _ j k time = ⊥

-- What a search that started with `l` over the rows of the processes from `proc` on leaves.
pub record ScannedAll (proc : ℕ) (pages : List (List Bool)) (wait : List (List Pending))
    (times : List (List ℕ)) (l l' : Lru) : Type 0 where
  pub lower : l'.lru_time ≤ l.lru_time
  pub least : (j k time : ℕ) → EvictableOf pages wait times j k time → l'.lru_time ≤ time
  pub origin :
      (l' ≡ l)
      ⊎ ((j : ℕ) × (k : ℕ) × EvictableOf pages wait times j k l'.lru_time
          × (l'.place ≡ some (proc + j, k))
          × (l'.lru_time < l.lru_time))

least_rows :
    (p : List Bool) (w : List Pending) (t : List ℕ) (pages : List (List Bool))
    (wait : List (List Pending)) (times : List (List ℕ)) (bound : ℕ)
    → ((k time : ℕ) → Evictable p w t k time → bound ≤ time)
    → ((j k time : ℕ) → EvictableOf pages wait times j k time → bound ≤ time)
    → (j k time : ℕ) → EvictableOf (p ∷ pages) (w ∷ wait) (t ∷ times) j k time
    → bound ≤ time
least_rows p w t pages wait times bound now more zero k time e = now k time e
least_rows p w t pages wait times bound now more (suc j) k time e = more j k time e

pub scan_procs-ScannedAll :
    (proc : ℕ) (pages : List (List Bool)) (wait : List (List Pending)) (times : List (List ℕ))
    (l : Lru)
    → ScannedAll proc pages wait times l (scan_procs proc pages wait times l)
unfolding scan_procs
scan_procs-ScannedAll proc [] wait times l = record {
  lower = omega arith;
  least = λ j k time e. absurd e;
  origin = inl refl;
}
scan_procs-ScannedAll proc (p ∷ pages) [] times l = record {
  lower = omega arith;
  least = λ j k time e. absurd e;
  origin = inl refl;
}
scan_procs-ScannedAll proc (p ∷ pages) (w ∷ wait) [] l = record {
  lower = omega arith;
  least = λ j k time e. absurd e;
  origin = inl refl;
}
scan_procs-ScannedAll proc (p ∷ pages) (w ∷ wait) (t ∷ times) l =
    let l1 = scan_pages proc 0 p w t l in
    let row = scan_pages-Scanned proc 0 p w t l in
    let rest = scan_procs-ScannedAll (proc + 1) pages wait times l1 in
    record {
      lower = omega (arith, row.lower, rest.lower);
      least =
          least_rows p w t pages wait times _
            (λ k time e. let le = row.least k time e in omega (arith, rest.lower)) rest.least;
      origin = elim rest.origin [
        | inr (j, k, ev, at, lt) ↦
            inr (
              suc j,
              k,
              ev,
              at ∙ ap (λ (x : ℕ). some (x, k)) (omega arith),
              omega (arith, row.lower),
            )
        | inl same ↦ elim row.origin [
          | inl kept ↦ inl (same ∙ kept)
          | inr (k, ev, at, lt) ↦ inr (
            0,
            k,
            subst (λ (x : Lru). Evictable p w t k x.lru_time) (sym same) ev,
            ap (λ (x : Lru). x.place) same
                ∙ at
                ∙ ap₂ (λ (x y : ℕ). some (x, y)) (omega arith) (omega arith),
            omega (arith, ap (λ (x : Lru). x.lru_time) same),
          )
        ]
      ];
    }

-- What `find_lru_page_global` gives, for timestamps below INT_MAX: no page only if no page of any
-- process is in memory with no operation under way; else such a page, whose timestamp is the least
-- of all these.
pub find_lru_page_global_lem :
    (pages : List (List Bool)) (wait : List (List Pending)) (times : List (List ℕ))
    → ((j k time : ℕ) → EvictableOf pages wait times j k time → time < int_max)
    → let l = find_lru_page_global pages wait times in
      ((l.place ≡ none) × ((j k time : ℕ) → ¬ EvictableOf pages wait times j k time))
      ⊎ ((j : ℕ) × (k : ℕ) × (l.place ≡ some (j, k))
          × EvictableOf pages wait times j k l.lru_time
          × ((i h time : ℕ) → EvictableOf pages wait times i h time → l.lru_time ≤ time))
unfolding find_lru_page_global
find_lru_page_global_lem pages wait times small =
    let l0 : Lru = record { place = none; lru_time = int_max } in
    let h = scan_procs-ScannedAll 0 pages wait times l0 in
    elim h.origin [
      | inl same ↦ inl (
        ap (λ (x : Lru). x.place) same,
        λ j k time e.
            let le = h.least j k time e in
            let lt = small j k time e in
            let top : (scan_procs 0 pages wait times l0).lru_time ≡ int_max =
              ap (λ (x : Lru). x.lru_time) same in
            omega arith,
      )
      | inr (j, k, ev, at, lt) ↦
          inr (j, k, at ∙ ap (λ (x : ℕ). some (x, k)) (omega arith), ev, h.least)
    ]
