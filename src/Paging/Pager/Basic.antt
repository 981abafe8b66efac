-- ===== src/Paging/Pager/Basic.antt =====
-- The basic pager: pageit of assignments/pa7/pager-basic.c. A run that reads outside an array ends
-- in `none`.
pub mod Eviction
use csci_3753_operating_syst.Prelude.{
  ℕ, zero, suc, ◌+◌, ◌-◌, ◌*◌, ◌/◌, ◌%◌, ◌^◌, ◌≤◌, ◌<◌, min, ◌≡◌, refl, sym, ap, ◌∙◌, subst, ◌≢◌,
  ◌↔◌, ◌⊎◌, inl, inr, Bool, true, false, not, ◌&&◌, ◌||◌, Option, none, some, List, [], ◌∷◌, ◌++◌,
  map, arith, dec_lt, ℕ_discrete, ltb, leb, ◌==◌, if◌then◌else◌, ltb→lt, lt→ltb, leb→le, ==_iff,
  tests, Bool-cases, bool_eq, Option-cases, if_keeps, length, get_elem?, get_or, set, take, drop,
  replicate, length-append, length-set, length-replicate, get_elem?_lt, get_elem?-eq-get_or,
  get_elem?-set_self, get_elem?-set_ne, get_or-set_self, get_or-set_ne, length-take, length-drop,
  take-append-drop, length-map, get_elem?-map, get_elem?_of_lt, drop-eq-cons, get_elem?-take,
  get_or-eq_get_elem?, All, All-set, All-get_or, All-take, All-get_elem?, All-replicate,
}
use csci_3753_operating_syst.Paging.{page_size, max_proc_pages}
use csci_3753_operating_syst.Paging.Pager.{Pentry, Calls, finish, ask_in, ask_out}
use csci_3753_operating_syst.Prelude.Int.{ℤ, pos}

abbrev pub Run : Type 0
Run = Calls (Option (Unit {0}))

-- `for (vic = 0; vic++ < MAXPROCPAGES;)`, at `vic` with `n` rounds to go; `there` is
-- `q[proc].pages[page] == 1`, and `rest` is what follows the loop.
unfoldable pub find_victim : ℕ → ℕ → ℕ → ℕ → Bool → Run → Run
find_victim zero vic proc page there rest = rest
find_victim (suc n) vic proc page there rest =
    let next = find_victim n (vic + 1) proc page there rest in
    if not there
    then next
    else if vic == page
    then next
    else ask_out (pos proc) (pos vic) (λ done. if done then rest else next)

-- What is done for an active process, from `q[proc].pages[page]` on.
unfoldable pub admit : Option Bool → ℕ → ℕ → Run → Run
admit none proc page rest = finish none
admit (some true) proc page rest = finish (some tt)
admit (some false) proc page rest = ask_in (pos proc) (pos page) (λ started.
    if started then finish (some tt) else find_victim max_proc_pages 1 proc page false rest)

-- The loop over the processes, from `proc` on.
unfoldable pub serve : List Pentry → ℕ → Run
serve [] proc = finish (some tt)
serve (e ∷ q) proc =
    let page = e.pc / page_size in
    let rest = serve q (proc + 1) in
    if not e.active then rest else admit (get_elem? e.pages page) proc page rest

-- `pageit`
unfoldable pub pageit : List Pentry → Run
pageit q = serve q 0
