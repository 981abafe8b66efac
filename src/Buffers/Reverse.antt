-- ===== src/Buffers/Reverse.antt =====
-- The loop of reverse_in_place in recitation/syscall-demo/syscall_demo.c.
use csci_3753_operating_syst.Prelude.{
  ℕ, zero, suc, ◌+◌, ◌-◌, ◌≤◌, ◌<◌, ◌≡◌, refl, ap, ◌∙◌, ◌&&◌, List, arith, dec_lt, ℕ_discrete, leb,
  if◌then◌else◌, length, get_or, set, length-set,
}
use csci_3753_operating_syst.Buffers.{swap_loop, reverse_in_place}
use csci_3753_operating_syst.Prelude.Writes.{get_or-set}

length-swap_loop : (fuel i j : ℕ) (s : List ℕ) → length (swap_loop fuel i j s) ≡ length s
unfolding swap_loop
length-swap_loop zero i j s = refl
length-swap_loop (suc fuel) i j s =
    let s' = set (set s i (get_or s j 0)) j (get_or s i 0) in
    let rest = length-swap_loop fuel (i + 1) (j - 1) s' in
    let same =
      length-set (set s i (get_or s j 0)) j (get_or s i 0) ∙ length-set s i (get_or s j 0) in
    ground (arith, rest, same)

-- The loop turns the part from `i` to `j` round.
get_or-swap_loop :
    (fuel i j k : ℕ) (s : List ℕ)
    → j < length s
    → j < i + fuel
    → get_or (swap_loop fuel i j s) k 0
      ≡ (if leb i k && leb k j then get_or s (i + j - k) 0 else get_or s k 0)
unfolding swap_loop
get_or-swap_loop zero i j k s inside enough = ground arith
get_or-swap_loop (suc fuel) i j k s inside enough =
    let s1 = set s i (get_or s j 0) in
    let s' = set s1 j (get_or s i 0) in
    let len = length-set s i (get_or s j 0) in
    let m = i + j - k in
    let k2 = get_or-set s1 j k (get_or s i 0) 0 (omega arith) in
    let m2 = get_or-set s1 j m (get_or s i 0) 0 (omega arith) in
    elim (dec_lt i j) [
      | yes lt ↦
          let e : i + 1 + (j - 1) - k ≡ m = omega arith in
          let rest =
            get_or-swap_loop fuel (i + 1) (j - 1) k s'
              (omega (arith, length-set s1 j (get_or s i 0))) (omega arith) in
          let k1 = get_or-set s i k (get_or s j 0) 0 (omega arith) in
          let m1 = get_or-set s i m (get_or s j 0) 0 (omega arith) in
          let same : get_or s' (i + 1 + (j - 1) - k) 0 ≡ get_or s' m 0 =
            ap (λ x. get_or s' x 0) e in
          elim (ℕ_discrete k i) [
            | yes ki ↦
                let mj : get_or s m 0 ≡ get_or s j 0 = ap (λ x. get_or s x 0) (omega arith) in
                ground (arith, rest, same, k2, k1, mj)
            | no ni ↦ elim (ℕ_discrete k j) [
              | yes kj ↦
                  let mi : get_or s m 0 ≡ get_or s i 0 = ap (λ x. get_or s x 0) (omega arith) in
                  ground (arith, rest, same, k2, k1, mi)
              | no nj ↦ ground (arith, rest, same, k2, k1, m2, m1)
            ]
          ]
      | no ge ↦ elim (ℕ_discrete m k) [
        | yes mk ↦
            let here : get_or s m 0 ≡ get_or s k 0 = ap (λ x. get_or s x 0) mk in
            ground (arith, here)
        | no nk ↦ ground arith
      ]
    ]

swap_done : (fuel i j : ℕ) (s : List ℕ) → j ≤ i → swap_loop fuel i j s ≡ s
unfolding swap_loop
swap_done zero i j s h = refl
swap_done (suc fuel) i j s h = ground arith

-- Fuel beyond the distance of the two places changes nothing.
swap_enough :
    (fuel extra i j : ℕ) (s : List ℕ)
    → j ≤ i + fuel
    → swap_loop (fuel + extra) i j s ≡ swap_loop fuel i j s
unfolding swap_loop
swap_enough zero extra i j s h = swap_done (0 + extra) i j s (omega arith)
swap_enough (suc fuel) extra i j s h =
    let e : suc fuel + extra ≡ suc (fuel + extra) = omega arith in
    let rest =
      swap_enough fuel extra (i + 1) (j - 1) (set (set s i (get_or s j 0)) j (get_or s i 0))
        (omega arith) in
    rw (e, rest) refl

-- `reverse_in_place` keeps the length of a string and turns it round: the byte at `k` is the one
-- that was as far from the end. Its loop ends within as many rounds as there are bytes.
pub reverse_in_place_lem :
    (s : List ℕ) (k extra : ℕ)
    → k < length s
    → (length (reverse_in_place s) ≡ length s)
      × (get_or (reverse_in_place s) k 0 ≡ get_or s (length s - 1 - k) 0)
      × (swap_loop (length s + extra) 0 (length s - 1) s ≡ swap_loop (length s) 0 (length s - 1) s)
unfolding reverse_in_place
reverse_in_place_lem s k extra lt =
    let turned = get_or-swap_loop (length s) 0 (length s - 1) k s (omega arith) (omega arith) in
    let z : get_or s (0 + (length s - 1) - k) 0 ≡ get_or s (length s - 1 - k) 0 =
      ap (λ x. get_or s x 0) (omega arith) in
    (
      ground (arith, length-swap_loop (length s) 0 (length s - 1) s),
      ground (arith, turned, z),
      swap_enough (length s) extra 0 (length s - 1) s (omega arith),
    )
