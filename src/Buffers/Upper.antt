-- ===== src/Buffers/Upper.antt =====
-- What the callers of upper_reentrant and upper_not_reentrant (recitation/threads/thread_test.c) see.
use csci_3753_operating_syst.Prelude.{
  ℕ, zero, suc, ◌+◌, ◌-◌, ◌≤◌, ◌<◌, min, ◌≡◌, refl, ap, ◌∙◌, false, ◌&&◌, List, [], ◌∷◌, arith,
  dec_lt, ℕ_discrete, ltb, leb, ◌==◌, if◌then◌else◌, length, get_or, set, length-set,
}
use csci_3753_operating_syst.Buffers.{upper_bytes, upper_reentrant, upper_not_reentrant}
use csci_3753_operating_syst.Prelude.Writes.{get_or-set}

module _ (toupper : ℕ → ℕ) where
  length-upper_bytes :
      (n : ℕ) (s : List ℕ) (i : ℕ) (buf : List ℕ)
      → length (upper_bytes toupper n s i buf) ≡ length buf
  unfolding upper_bytes
  length-upper_bytes zero s i buf = refl
  length-upper_bytes (suc n) [] i buf = refl
  length-upper_bytes (suc n) (c ∷ s) i buf =
      length-upper_bytes n s (i + 1) (set buf i (toupper c)) ∙ length-set buf i (toupper c)

  -- Each byte of the buffer behind the loop.
  get_or-upper_bytes :
      (n : ℕ) (s : List ℕ) (i k : ℕ) (buf : List ℕ)
      → n ≤ length s
      → i + n ≤ length buf
      → get_or (upper_bytes toupper n s i buf) k 0
        ≡ (if leb i k && ltb k (i + n) then toupper (get_or s (k - i) 0) else get_or buf k 0)
  unfolding upper_bytes
  get_or-upper_bytes zero s i k buf fits room = ground arith
  get_or-upper_bytes (suc n) [] i k buf fits room = absurd (omega arith)
  get_or-upper_bytes (suc n) (c ∷ s) i k buf fits room =
      let rest =
        get_or-upper_bytes n s (i + 1) k (set buf i (toupper c)) (omega arith)
          (omega (arith, length-set buf i (toupper c))) in
      let here = get_or-set buf i k (toupper c) 0 (omega arith) in
      elim (dec_lt i k) [
        | yes lt ↦
            let e : k - i ≡ suc (k - (i + 1)) = omega arith in rw e (ground (arith, rest, here))
        | no ge ↦ elim (ℕ_discrete i k) [
          | yes at ↦ let z : k - i ≡ 0 = omega arith in rw z (ground (arith, rest, here))
          | no ne ↦ ground (arith, rest, here)
        ]
      ]

  -- `upper_reentrant` with room for at least one byte leaves the bytes of `s` in upper case, cut to
  -- `outcap - 1` of them, then the terminator; the rest of the buffer, and its length, are kept.
  pub upper_reentrant_lem :
      (s out : List ℕ) (outcap k : ℕ)
      → length out ≡ outcap
      → 0 < outcap
      → (length (upper_reentrant toupper s out outcap) ≡ outcap)
        × (get_or (upper_reentrant toupper s out outcap) k 0 ≡ (
            if ltb k (min (length s) (outcap - 1))
            then toupper (get_or s k 0)
            else if k == min (length s) (outcap - 1)
            then 0
            else get_or out k 0))
  unfolding upper_reentrant
  upper_reentrant_lem s out outcap k len some_room =
      let n = min (length s) (outcap - 1) in
      let cut : (if leb outcap (length s) then outcap - 1 else length s) ≡ n = ground arith in
      let body = upper_bytes toupper n s 0 out in
      let same : length body ≡ outcap = length-upper_bytes n s 0 out ∙ len in
      let bytes = get_or-upper_bytes n s 0 k out (omega arith) (omega arith) in
      let last = get_or-set body n k 0 0 (omega arith) in
      let nonzero : (outcap == 0) ≡ false = ground arith in
      rw (nonzero, cut)
        (
          length-set body n 0 ∙ same,
          elim (ℕ_discrete n k) [
            | yes nk ↦ ground (arith, last)
            | no ne ↦
                let z : get_or s (k - 0) 0 ≡ get_or s k 0 = ap (λ x. get_or s x 0) (omega arith) in
                ground (arith, last, bytes, z)
          ],
        )

  not_reentrant_eq :
      (s buf : List ℕ) → upper_not_reentrant toupper s buf ≡ upper_reentrant toupper s buf 64
  unfolding upper_not_reentrant upper_reentrant
  not_reentrant_eq s buf = refl

  -- Two calls of `upper_not_reentrant` return the same static buffer of 64 bytes. Behind them it
  -- holds the second string in upper case, cut to 63 bytes, and its terminator, whatever the first
  -- call had stored: the first caller's result reads as the second's.
  pub upper_not_reentrant_twice :
      (first second buf : List ℕ) (k : ℕ)
      → length buf ≡ 64
      → k ≤ min (length second) 63
      → get_or (upper_not_reentrant toupper second (upper_not_reentrant toupper first buf)) k 0
        ≡ (if ltb k (min (length second) 63) then toupper (get_or second k 0) else 0)
  upper_not_reentrant_twice first second buf k len low =
      let b1 = upper_not_reentrant toupper first buf in
      let len1 : length b1 ≡ 64 =
        ap length (not_reentrant_eq first buf)
        ∙ (upper_reentrant_lem first buf 64 k len (omega arith)).0 in
      let both = (upper_reentrant_lem second b1 64 k len1 (omega arith)).1 in
      ground (arith, ap (λ b. get_or b k 0) (not_reentrant_eq second b1), both)
