-- ===== src/Buffers/Copy.antt =====
-- A round trip of bytes through the kernel's buffer of recitation/kernel-mem-access/copy_sim.c.
use csci_3753_operating_syst.Prelude.{
  ℕ, zero, suc, ◌≤◌, ◌<◌, ◌≡◌, refl, ap, some, List, [], ◌∷◌, ◌++◌, arith, length, take, drop,
}
use csci_3753_operating_syst.Buffers.{copy_from_user_sim, copy_to_user_sim}

pub take-all : (n : ℕ) (xs ys : List ℕ) → length xs ≡ n → take n (xs ++ ys) ≡ xs
take-all zero [] ys h = refl
take-all zero (x ∷ xs) ys h = absurd (omega arith)
take-all (suc n) [] ys h = absurd (omega arith)
take-all (suc n) (x ∷ xs) ys h = ap (λ t. x ∷ t) (take-all n xs ys (omega arith))

take_whole : (xs : List ℕ) → take (length xs) xs ≡ xs
take_whole [] = refl
take_whole (x ∷ xs) = ap (λ t. x ∷ t) (take_whole xs)

-- Bytes that fit into both buffers come back as they were, and nothing behind them is changed in
-- either buffer; the two results are their number. Bytes that do not fit into the kernel's buffer
-- are refused with 0 and leave it alone, and bytes of the kernel that do not fit into the user's
-- buffer are refused in the same way.
pub copy_round_trip :
    (bytes kbuf ubuf : List ℕ) (kernel_cap user_cap : ℕ)
    → (length bytes ≤ kernel_cap
        → length bytes ≤ user_cap
        → (kbuf' : List ℕ) × (copy_from_user_sim (some bytes) (length bytes) kbuf kernel_cap
            ≡ (length bytes, kbuf'))
          × (kbuf' ≡ bytes ++ drop (length bytes) kbuf)
          × (copy_to_user_sim kbuf' (length bytes) (some ubuf) user_cap
              ≡ (length bytes, some (bytes ++ drop (length bytes) ubuf))))
      × (kernel_cap < length bytes
          → copy_from_user_sim (some bytes) (length bytes) kbuf kernel_cap ≡ (0, kbuf))
      × (user_cap < length bytes
          → copy_to_user_sim kbuf (length bytes) (some ubuf) user_cap ≡ (0, some ubuf))
unfolding copy_from_user_sim copy_to_user_sim
copy_round_trip bytes kbuf ubuf kernel_cap user_cap =
    let n = length bytes in
    (
      λ fits fits'. (
        bytes ++ drop n kbuf,
        ground (arith, take_whole bytes),
        refl,
        ground (arith, take-all n bytes (drop n kbuf) refl),
      ),
      λ big. ground arith,
      λ big. ground arith,
    )
