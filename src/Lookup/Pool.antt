-- ===== src/Lookup/Pool.antt =====
-- A shared array of assignments/pa6/multi-lookup.c as the names and pills in it: how the pills and the
-- threads that take them are counted. No function of the code is modelled here.
use csci_3753_operating_syst.Prelude.{
  ℕ, suc, ◌+◌, ◌≤◌, ◌<◌, ◌≡◌, refl, ◌⊎◌, inl, inr, true, false, List, [], ◌∷◌, ◌++◌, arith,
  if◌then◌else◌, All,
}
use csci_3753_operating_syst.Lookup.{Text, poison, is_poison}
use csci_3753_operating_syst.Prelude.Sums.{total, total-append}

abbrev pub Poison : Text → Type 0
Poison x = is_poison x ≡ true

abbrev pub pill : Text → ℕ
pill x = if is_poison x then 1 else 0

-- Nothing but pills stands behind a pill.
abbrev pub PillsLast : List Text → Type 0
PillsLast [] = Unit
PillsLast (x ∷ xs) = (is_poison x ≡ true → All Poison xs) × PillsLast xs

abbrev pub All-snoc {ℓ κ} :
    {A : Type ℓ} (P : A → Type κ) (xs : List A) (x : A) → All P xs → P x → All P (xs ++ x ∷ [])
All-snoc P [] x h p = (p, tt)
All-snoc P (y ∷ ys) x h p = (h.0, All-snoc P ys x h.1 p)

module _ (Good : Text → Type 0) where
  abbrev pub NoPill : Text → Type 0
  NoPill x = (is_poison x ≡ false) × Good x

  abbrev pub Item : Text → Type 0
  Item x = Poison x ⊎ NoPill x

  -- The array of `size` threads, of which `live` have not taken a pill, when `unsent` pills have still
  -- to be put.
  pub record Pool (items : List Text) (live unsent size : ℕ) : Type 0 where
    pub sound : All Item items
    pub count : live ≡ total pill items + unsent
    pub last : PillsLast items
    pub room : live ≤ size
    pub spent : live < size → All Poison items

  Clean-Sound : (items : List Text) → All NoPill items → All Item items
  Clean-Sound [] h = tt
  Clean-Sound (x ∷ xs) h = (inr h.0, Clean-Sound xs h.1)

  Clean-pills : (items : List Text) → All NoPill items → total pill items ≡ 0
  unfolding total
  Clean-pills [] h = refl
  Clean-pills (x ∷ xs) h = rw h.0.0 (omega (arith, Clean-pills xs h.1))

  Clean-PillsLast : (items : List Text) → All NoPill items → PillsLast items
  Clean-PillsLast [] h = tt
  Clean-PillsLast (x ∷ xs) h = ((λ p. absurd (cc)), Clean-PillsLast xs h.1)

  -- While no pill was sent the array has names only.
  pub Clean-Pool : (items : List Text) (size : ℕ) → All NoPill items → Pool items size size size
  Clean-Pool items size h = record {
    sound = Clean-Sound items h;
    count = omega (arith, Clean-pills items h);
    last = Clean-PillsLast items h;
    room = omega arith;
    spent = λ lt. absurd (omega arith);
  }

  -- A name is put before any pill.
  pub Pool-put_name :
      (x : Text) (items : List Text) (live unsent size : ℕ)
      → NoPill x
      → All NoPill items
      → unsent ≡ size
      → Pool items live unsent size
      → Pool (items ++ x ∷ []) live unsent size
  Pool-put_name x items live unsent size name clean e h =
      let clean' = All-snoc NoPill items x clean name in
      let none_in = Clean-pills items clean in
      let none_in' = Clean-pills (items ++ x ∷ []) clean' in
      record {
        sound = Clean-Sound (items ++ x ∷ []) clean';
        count = omega (arith, h.count, none_in, none_in');
        last = Clean-PillsLast (items ++ x ∷ []) clean';
        room = h.room;
        spent = λ lt. absurd (omega (arith, h.count, none_in));
      }

  snoc-PillsLast : (items : List Text) → PillsLast items → PillsLast (items ++ poison ∷ [])
  unfolding is_poison
  snoc-PillsLast [] h = ((λ p. tt), tt)
  snoc-PillsLast (x ∷ xs) h = ((λ p. All-snoc Poison xs poison (h.0 p) refl), snoc-PillsLast xs h.1)

  -- A pill is put.
  pub Pool-put_pill :
      (items : List Text) (live unsent size : ℕ)
      → Pool items live (suc unsent) size
      → Pool (items ++ poison ∷ []) live unsent size
  unfolding is_poison total
  Pool-put_pill items live unsent size h = record {
    sound = All-snoc Item items poison h.sound (inl refl);
    count =
        let e : total pill (items ++ poison ∷ []) ≡ total pill items + 1 =
          total-append pill items (poison ∷ []) in
        omega (arith, h.count, e);
    last = snoc-PillsLast items h.last;
    room = h.room;
    spent = λ lt. All-snoc Poison items poison (h.spent lt) refl;
  }

  -- A name is taken; a pill is taken, and ends the thread.
  pub Pool-get_name :
      (x : Text) (items : List Text) (live unsent size : ℕ)
      → is_poison x ≡ false
      → Pool (x ∷ items) live unsent size
      → Pool items live unsent size
  unfolding total
  Pool-get_name x items live unsent size name h = record {
    sound = h.sound.1;
    count = let e : pill x ≡ 0 = rw name refl in omega (arith, h.count, e);
    last = h.last.1;
    room = h.room;
    spent = λ lt. (h.spent lt).1;
  }

  pub Pool-get_pill :
      (x : Text) (items : List Text) (live unsent size : ℕ)
      → is_poison x ≡ true
      → Pool (x ∷ items) (suc live) unsent size
      → Pool items live unsent size
  unfolding total
  Pool-get_pill x items live unsent size is_pill h = record {
    sound = h.sound.1;
    count = let e : pill x ≡ 1 = rw is_pill refl in omega (arith, h.count, e);
    last = h.last.1;
    room = omega (arith, h.room);
    spent = λ lt. h.last.0 is_pill;
  }

-- Pills weigh nothing.
abbrev pub of_name : (Text → ℕ) → Text → ℕ
of_name w x = if is_poison x then 0 else w x

pub total-Poison :
    (w : Text → ℕ) (items : List Text) → All Poison items → total (of_name w) items ≡ 0
unfolding total
total-Poison w [] h = refl
total-Poison w (x ∷ xs) h = rw h.0 (omega (arith, total-Poison w xs h.1))

pub total-pill :
    (w : Text → ℕ) (x : Text) (items : List Text)
    → is_poison x ≡ true
    → total (of_name w) (x ∷ items) ≡ total (of_name w) items
unfolding total
total-pill w x items h = rw h (omega arith)

pub total-name :
    (w : Text → ℕ) (x : Text) (items : List Text)
    → is_poison x ≡ false
    → total (of_name w) (x ∷ items) ≡ w x + total (of_name w) items
unfolding total
total-name w x items h = rw h refl
