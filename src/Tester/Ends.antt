-- ===== src/Tester/Ends.antt =====
-- That the program of assignments/pa2/pa2test.c ends, on a file whose writes make progress.

-- It ends with a value or with exit, within the fuel.
use csci_3753_operating_syst.Prelude.{
  ℕ, suc, ◌<◌, ◌≡◌, ◌⊎◌, Option, none, some, List, ◌∷◌, length, All,
}
use csci_3753_operating_syst.Tester.{
  Loop, ended, exits, Command, read_command, write_command, seek_command, other_command,
}
use csci_3753_operating_syst.Prelude.Int.{ℤ, pos, negsuc}

abbrev Ends : {A : Type 0} → Loop A → Type 0
Ends {A} l = (l ≡ exits) ⊎ ((a : A) × (l ≡ ended a))

module _ {F : Type 0} (read : ℕ → F → Option (List ℕ × F)) (write : List ℕ → F → Option (ℕ × F))
    (lseek : ℤ → ℤ → F → Option F) where
  module _
      (progress : (c : ℕ) (bytes : List ℕ) (s s' : F)
        → ¬ (write (c ∷ bytes) s ≡ some (0, s'))) where
    -- The fuel is enough for a command.
    abbrev Fits : ℕ → Command → Type 0
    Fits fuel (read_command (pos n)) = n < fuel
    Fits fuel (read_command (negsuc n)) = 0 < fuel
    Fits fuel (write_command line) = suc (length line) < fuel
    Fits fuel (seek_command offset whence) = Unit
    Fits fuel other_command = Unit

    module _ (strtol : List ℕ → Option ℤ) (fuel : ℕ)
        (numbers : (line : List ℕ) (n : ℕ) → strtol line ≡ some (pos n) → n < fuel) where
      -- The command fits, and so do the lines that are left, which are fewer than k.
      abbrev Next : ℕ → Option (Command × List (List ℕ)) → Type 0
      Next k none = Unit
      Next k (some (c, rest)) =
          Fits fuel c × All (λ line. suc (length line) < fuel) rest × (length rest < k)
