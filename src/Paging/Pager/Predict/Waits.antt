-- ===== src/Paging/Pager/Predict/Waits.antt =====
-- How long assignments/pa8/pager-predict.c takes a paging operation to be under way.
use csci_3753_operating_syst.Prelude.{
  ℕ, zero, suc, ◌+◌, ◌<◌, ◌≡◌, refl, sym, ap, ◌∙◌, ◌≢◌, Bool, true, some, List, [], ◌∷◌, map, arith,
  ltb, length, get_or, set, length-set, get_or-set_self, get_or-set_ne,
}
use csci_3753_operating_syst.Paging.{page_wait}
use csci_3753_operating_syst.Paging.Pager.Predict.{
  Pending, set_pending_page_op, finish_wait, finish_waits,
}

get_or-map :
    (xs : List Pending) (i : ℕ) (f : Pending → Pending) (d : Pending)
    → i < length xs
    → get_or (map f xs) i d ≡ f (get_or xs i d)
get_or-map [] i f d h = absurd (omega arith)
get_or-map (x ∷ xs) zero f d h = refl
get_or-map (x ∷ xs) (suc i) f d h = get_or-map xs i f d (omega arith)

finished :
    (now tick : ℕ) (b : Bool)
    → (finish_wait now (record {
      page_start = some tick;
      page_end = some (tick + page_wait);
      waiting = true;
      is_pagein = some b;
    })).waiting
      ≡ ltb now (tick + page_wait)
unfolding finish_wait
finished now tick b = ground arith

-- An operation that is set pending at `tick` is under way at exactly the ticks before
-- `tick + PAGEWAIT`, and the other pages of the process are seen as they were before.
pub pending_exact :
    (row : List Pending) (page other tick now : ℕ) (b : Bool) (idle : Pending)
    → page < length row
    → other < length row
    → other ≢ page
    → ((get_or (finish_waits now (set_pending_page_op row page tick b)) page idle).waiting
        ≡ ltb now (tick + page_wait))
      × (get_or (finish_waits now (set_pending_page_op row page tick b)) other idle
          ≡ get_or (finish_waits now row) other idle)
unfolding finish_waits set_pending_page_op
pending_exact row page other tick now b idle inside inside' ne =
    let fresh : Pending = record {
      page_start = some tick;
      page_end = some (tick + page_wait);
      waiting = true;
      is_pagein = some b;
    } in
    let len = length-set row page fresh in
    let f = finish_wait now in
    (
      ap (λ (w : Pending). w.waiting)
            (get_or-map (set row page fresh) page f idle (omega arith)
              ∙ ap f (get_or-set_self row page fresh idle inside))
          ∙ finished now tick b,
      get_or-map (set row page fresh) other f idle (omega arith)
          ∙ ap f (get_or-set_ne row page other fresh idle (λ e. ne (sym e)))
          ∙ sym (get_or-map row other f idle inside'),
    )
