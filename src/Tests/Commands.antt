-- ===== src/Tests/Commands.antt =====
-- The theorems on assignments/pa2/pa2test.c for a file that moves one byte in each call, and for the driver
-- of assignments/pa3/pa3_char_device_driver.c one byte before the end of the device.
use csci_3753_operating_syst.Prelude.{
  ℕ, zero, suc, ◌-◌, ◌≤◌, ◌<◌, ◌≡◌, refl, ap, true, ◌||◌, Option, none, some, List, [], ◌∷◌, ◌++◌,
  arith, ltb, if◌then◌else◌, length, take, replicate,
}
use csci_3753_operating_syst.Device.{Driver}
use csci_3753_operating_syst.Tester.{ended, unfinished, handle_write}
use csci_3753_operating_syst.Tester.Loops.{
  IsWriter, handle_write_lem, File, device_read, device_write, device_lseek, handle_write_stuck,
}
use csci_3753_operating_syst.Prelude.Int.{ℤ, pos}

abbrev byte_read : ℕ → List ℕ → Option (List ℕ × List ℕ)
byte_read zero s = some ([], s)
byte_read (suc n) [] = some ([], [])
byte_read (suc n) (b ∷ s) = some (b ∷ [], s)

abbrev byte_write : List ℕ → List ℕ → Option (ℕ × List ℕ)
byte_write [] s = some (0, s)
byte_write (b ∷ bytes) s = some (1, s ++ b ∷ [])

abbrev no_seek : ℤ → ℤ → List ℕ → Option (List ℕ)
no_seek offset whence s = none

byte_write-IsWriter : IsWriter byte_write (λ s. s)
byte_write-IsWriter = record { succeeds = runs; takes = taken }
  where
    runs : (bytes s : List ℕ) → (out : ℕ × List ℕ) × (byte_write bytes s ≡ some out)
    runs [] s = (_, refl)
    runs (b ∷ bytes) s = (_, refl)

    append_nothing : (xs : List ℕ) → xs ++ [] ≡ xs
    append_nothing [] = refl
    append_nothing (x ∷ xs) = ap (λ l. x ∷ l) (append_nothing xs)

    taken :
        (bytes s s' : List ℕ) (n : ℕ)
        → byte_write bytes s ≡ some (n, s')
        → (n ≤ length bytes) × (s' ≡ s ++ take n bytes) × (0 < length bytes → 0 < n)
    taken [] s s' n e =
        let nothing : n ≡ 0 = cc in
        let same : s' ≡ s = cc in
        (
          omega (arith, nothing),
          rw (nothing, same, append_nothing s) refl,
          λ lt. absurd (omega arith),
        )
    taken (b ∷ bytes) s s' n e =
        let one : n ≡ 1 = cc in
        let more : s' ≡ s ++ b ∷ [] = cc in
        (omega (arith, one), rw (one, more) refl, λ lt. omega (arith, one))

handle_write_lem_example :
    (s' : List ℕ) × (handle_write byte_read byte_write no_seek 3 (8 ∷ 9 ∷ []) (7 ∷ []) ≡ ended s')
    × (s' ≡ (7 ∷ []) ++ 8 ∷ 9 ∷ [])
handle_write_lem_example =
    handle_write_lem byte_read byte_write no_seek (λ s. s) byte_write-IsWriter 3 (8 ∷ 9 ∷ [])
      (7 ∷ []) (omega arith)

abbrev full_copy : ℕ → ℕ
full_copy n = 0

abbrev driver : Driver
driver = record {
  device_buffer = some (replicate 900 0);
  open_count = 1;
  close_count = 0;
  registered = true;
}

handle_write_stuck_example :
    handle_write {F = File}
      (device_read full_copy)
      (device_write full_copy)
      (device_lseek full_copy)
      5
      (1 ∷ 2 ∷ [])
      (driver, pos 899)
    ≡ unfinished
handle_write_stuck_example =
    handle_write_stuck full_copy (λ n. omega arith) 5 (1 ∷ 2 ∷ []) (replicate 900 0) driver 899 refl
      refl (omega arith) (omega arith)

-- strtol of a line whose first character is a digit, taken as the number of that digit alone.
abbrev digit : List ℕ → Option ℤ
digit [] = none
digit (c ∷ line) = if ltb c 48 || ltb 57 c then none else some (pos (c - 48))

-- The input is "w", "hi", "r", "5" and "q".
abbrev typed : List (List ℕ)
typed =
    (119 ∷ 10 ∷ [])
    ∷ (104 ∷ 105 ∷ 10 ∷ [])
    ∷ (114 ∷ 10 ∷ [])
    ∷ (53 ∷ 10 ∷ [])
    ∷ (113 ∷ 10 ∷ [])
    ∷ []
