-- ===== src/Prelude/Opt.antt =====
-- Chains of steps that may fault: `none` is a fault, such as an access outside an array.
use csci_3753_operating_syst.Prelude.{Option, none, some, Bool, true, false}

infixl 5 ◌>>=◌ ◌>>◌
abbrev pub ◌>>=◌ {ℓ κ} : {A : Type ℓ} {B : Type κ} → Option A → (A → Option B) → Option B
none >>= f = none
some a >>= f = f a

abbrev pub ◌>>◌ {ℓ} : {B : Type ℓ} → Option (Unit {0}) → Option B → Option B
m >> k = m >>= λ _. k

-- A failed assertion ends the run.
abbrev pub guard : Bool → Option (Unit {0})
guard true = some tt
guard false = none
