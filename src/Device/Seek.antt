-- ===== src/Device/Seek.antt =====
-- Where a seek leaves the position.
use csci_3753_operating_syst.Prelude.{ℕ, ◌<◌, ◌≡◌, refl, none, some, arith}
use csci_3753_operating_syst.Device.{buffer_size, seek, clamp, add_loff}
use csci_3753_operating_syst.Prelude.Int.{ℤ, pos, negsuc, ◌≤ℤ◌}

-- On the device: `0 <= z <= BUFFER_SIZE`.
abbrev pub OnDevice : ℤ → Type 0
OnDevice z = (pos 0 ≤ℤ z) × (z ≤ℤ pos buffer_size)

-- The nearest position on the device.
clamp_lem :
    (z : ℤ)
    → OnDevice (clamp z)
      × (OnDevice z → clamp z ≡ z)
      × (z ≤ℤ pos 0 → clamp z ≡ pos 0)
      × (pos buffer_size ≤ℤ z → clamp z ≡ pos buffer_size)
unfolding clamp
clamp_lem (pos n) = ground arith
clamp_lem (negsuc n) = ground arith

-- `z` is where a seek for `target` ends.
pub record Sought (target z : ℤ) : Type 0 where
  pub on_device : OnDevice z
  pub kept : OnDevice target → z ≡ target
  pub low : target ≤ℤ pos 0 → z ≡ pos 0
  pub high : pos buffer_size ≤ℤ target → z ≡ pos buffer_size

clamp-Sought : (target : ℤ) → Sought target (clamp target)
clamp-Sought target =
    let (on, kept, low, high) = clamp_lem target in
    record { on_device = on; kept = kept; low = low; high = high }

-- A seek with `whence` 0, 1 or 2, for any offset and position, succeeds with its target if that is on
-- the device, and else with the end of the device that is nearest to the target. The target is the offset, or the sum
-- of the offset and the position, or of the offset and the end, as the sum wraps in 64 bits: a sum that
-- is too large is a negative target. Any other `whence` fails.
pub seek_lem :
    (now offset : ℤ) (whence : ℕ)
    → 2 < whence
    → (z0 z1 z2 : ℤ) × (seek now offset 0 ≡ some z0)
      × Sought offset z0
      × (seek now offset 1 ≡ some z1)
      × Sought (add_loff offset now) z1
      × (seek now offset 2 ≡ some z2)
      × Sought (add_loff offset (pos buffer_size)) z2
      × (seek now offset whence ≡ none)
unfolding seek
seek_lem now offset whence h = (
  clamp offset,
  clamp (add_loff offset now),
  clamp (add_loff offset (pos buffer_size)),
  refl,
  clamp-Sought offset,
  refl,
  clamp-Sought (add_loff offset now),
  refl,
  clamp-Sought (add_loff offset (pos buffer_size)),
  ground arith,
)
