-- ===== src/Device/Words.antt =====
-- size_t and loff_t: 64-bit words, and integers in two's complement.
use csci_3753_operating_syst.Prelude.{
  ℕ, ◌+◌, ◌-◌, ◌%◌, ◌^◌, ◌≤◌, ◌<◌, ◌≡◌, arith, ltb, if◌then◌else◌,
}
use csci_3753_operating_syst.Prelude.Int.{ℤ, pos, negsuc}

abbrev word_mod : ℕ
word_mod = 2 ^ 64

-- `(size_t)`
unfoldable pub size_t : ℤ → ℕ
size_t (pos n) = n % word_mod
size_t (negsuc n) = word_mod - 1 - n % word_mod

-- A word read as a loff_t.
unfoldable pub loff_t : ℕ → ℤ
loff_t w = if ltb w (2 ^ 63) then pos w else negsuc (word_mod - 1 - w)

-- `a - b` of size_t
unfoldable pub sub_size : ℕ → ℕ → ℕ
sub_size a b = (a + word_mod - b) % word_mod

-- `a + b` of loff_t
unfoldable pub add_loff : ℤ → ℤ → ℤ
unfolding size_t loff_t
add_loff a b = loff_t ((size_t a + size_t b) % word_mod)

-- A sum that fits is the sum.
pub add_loff_small : (a b : ℕ) → a + b < 2 ^ 63 → add_loff (pos a) (pos b) ≡ pos (a + b)
unfolding add_loff
add_loff_small a b h = ground arith

pub available_small : (a b : ℕ) → b ≤ a → a < 2 ^ 63 → sub_size a (size_t (pos b)) ≡ a - b
unfolding sub_size size_t
available_small a b le h = omega arith
