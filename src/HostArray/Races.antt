-- ===== src/HostArray/Races.antt =====
-- Interleavings of two calls of assignments/pa4/array.c: the place where `array_put` writes is found
-- from the counter `full`, which other threads move outside the mutex.
use csci_3753_operating_syst.Prelude.{
  ℕ, suc, ◌+◌, ◌-◌, ◌%◌, ◌<◌, ◌≡◌, refl, ap, ◌∙◌, none, some, [], ◌∷◌, ◌++◌, arith, length, set,
  length-set, set-set, get_or-set_self,
}
use csci_3753_operating_syst.Ring.{items, items-push}
use csci_3753_operating_syst.HostArray.{
  array_size, max_name_length, Text, Shared, Outcome, done, array_put, put_body, wait_full,
  wait_empty, wait_mutex, post_mutex, post_full, ◌>>=◌,
}
use csci_3753_operating_syst.HostArray.Fifo.{IsIdle, contents, slot_at, put_runs}

-- A consumer of `array_get` has passed its wait on `full`, and `array_put` runs before the consumer
-- has the mutex. The new name is then written over the newest of the stored names: with `n + 1`
-- names stored, the first `n` and the new one are left.
pub get_put_race :
    (hostname : Text) (n : ℕ) (s : Shared)
    → IsIdle s
    → length hostname < max_name_length
    → s.full ≡ suc n
    → s.full < array_size
    → (s1 : Shared) × (s2 : Shared) × (wait_full s ≡ done tt s1)
      × (array_put hostname s1 ≡ done tt s2)
      × (s2.head ≡ s.head)
      × (items array_size none s2.arr s.head (suc n)
          ≡ items array_size none s.arr s.head n ++ (some hostname ∷ []))
unfolding wait_full
get_put_race hostname n s h short count room =
    let s1 = record s { full = s.full - 1 } in
    let i = (s1.head + s1.full) % array_size in
    let (old, at) = slot_at s.arr i (omega (arith, h.whole)) h.allocated in
    (
      s1,
      record s1 {
        tail = i;
        arr = set s.arr i (some hostname);
        full = s1.full + 1;
        empty = s.empty - 1;
      },
      ground arith,
      put_runs hostname old s1 h.free (omega (arith, h.counted)) short at,
      refl,
      items-push array_size none s.arr (some hostname) n s.head i h.whole h.inside (omega arith)
          (ap (λ k. (s.head + k) % array_size) (omega arith)),
    )

-- The state in which a producer of `hostname` has run `array_put` up to its `post_full`, which it has
-- yet to call.
abbrev pub before_post : Text → Shared → Outcome (Unit {0})
before_post hostname s = wait_empty s >>= λ _ s1.
    wait_mutex s1 >>= λ _ s2. put_body hostname s2 >>= λ _ s3. done tt (post_mutex s3)

-- Between the two posts of `array_put` for `first`, another thread runs `array_put` for `second`.
-- Both calls return 0, the counter `full` grows by two, and yet of the two names only `second` is
-- in the array: it is written over `first`.
pub put_put_race :
    (first second : Text) (s : Shared)
    → IsIdle s
    → length first < max_name_length
    → length second < max_name_length
    → suc s.full < array_size
    → (s1 : Shared) × (s2 : Shared) × (before_post first s ≡ done tt s1)
      × (array_put second s1 ≡ done tt s2)
      × ((post_full s2).full ≡ s.full + 2)
      × (items array_size none s2.arr s2.head (suc s.full) ≡ contents s ++ (some second ∷ []))
unfolding wait_empty wait_mutex put_body post_mutex post_full
put_put_race first second s h short1 short2 room =
    let i = (s.head + s.full) % array_size in
    let (old, at) = slot_at s.arr i (omega (arith, h.whole)) h.allocated in
    let arr1 = set s.arr i (some first) in
    let s1 = record s { tail = i; arr = arr1; empty = s.empty - 1 } in
    let lt : i < length s.arr = omega (arith, h.whole) in
    let whole1 : length arr1 ≡ array_size = length-set s.arr i (some first) ∙ h.whole in
    (
      s1,
      record s1 { arr = set arr1 i (some second); full = s.full + 1; empty = s1.empty - 1 },
      ground (arith, h.free, h.counted),
      put_runs second first s1 h.free (omega (arith, h.counted)) short2
          (get_or-set_self s.arr i (some first) none lt),
      omega arith,
      ap (λ a. items array_size none a s.head (suc s.full))
            (set-set s.arr i (some first) (some second))
          ∙ (items-push array_size none s.arr (some second) s.full s.head i h.whole h.inside
              (omega arith) refl),
    )
