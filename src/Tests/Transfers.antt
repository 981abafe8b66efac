-- ===== src/Tests/Transfers.antt =====
-- The theorems on the character driver (assignments/pa3/pa3_char_device_driver.c) and the shared array of
-- host names (assignments/pa4/array.c) on concrete states.
use csci_3753_operating_syst.Prelude.{
  ℕ, ◌+◌, ◌-◌, ◌≤◌, ◌<◌, min, ◌≡◌, refl, ◌⊎◌, true, none, some, List, [], ◌∷◌, ◌++◌, arith, ltb,
  if◌then◌else◌, length, get_or, take, replicate,
}
use csci_3753_operating_syst.Device.{buffer_size, Driver, Moved, read, write, seek, add_loff}
use csci_3753_operating_syst.Device.Transfer.{read_lem, write_lem}
use csci_3753_operating_syst.Device.Seek.{Sought, seek_lem}
use csci_3753_operating_syst.HostArray.{
  array_size, Text, Shared, blocked, failed, done, array_put, array_get, post_full,
}
use csci_3753_operating_syst.HostArray.Fifo.{IsIdle, contents, Copied, array_put_lem, array_get_lem}
use csci_3753_operating_syst.HostArray.Failures.{IsDead, array_put_too_long}
use csci_3753_operating_syst.HostArray.Races.{before_post, put_put_race}
use csci_3753_operating_syst.Ring.{items}
use csci_3753_operating_syst.Prelude.Int.{ℤ, pos, negsuc}

abbrev bytes : List ℕ
bytes = replicate 900 7

abbrev driver : Driver
driver = record { device_buffer = some bytes; open_count = 1; close_count = 0; registered = true }

-- The last byte of each copy is not copied.
abbrev last_fails : ℕ → ℕ
last_fails n = if ltb 0 n then 1 else 0

last_fails-le : (n : ℕ) → last_fails n ≤ n
last_fails-le n = ground arith

read_lem_example :
    (m : Moved) × (read last_fails driver 20 (pos 890) ≡ some m)
    × (m.total ≤ 20)
    × (890 + m.total ≤ buffer_size)
    × (m.offset ≡ pos (890 + m.total))
    × (m.bytes ≡ take m.total bytes)
    × (length m.bytes ≡ m.total)
read_lem_example = read_lem last_fails last_fails-le driver bytes 20 890 refl refl (omega arith)

-- Two bytes, of which the second is not copied.
abbrev word : List ℕ
word = 104 ∷ 105 ∷ []

write_lem_example :
    (d' : Driver) × (m : Moved) × (buffer' : List ℕ) × (write last_fails driver word 2 (pos 800)
      ≡ some (d', m))
    × (d'.device_buffer ≡ some buffer')
    × (length buffer' ≡ buffer_size)
    × (m.total ≤ 2)
    × (800 + m.total ≤ buffer_size)
    × (m.offset ≡ pos (800 + m.total))
    × (m.total + last_fails (min 2 (buffer_size - 800)) ≡ min 2 (buffer_size - 800))
    × ((i : ℕ)
        → get_or buffer' i 0 ≡ (
            if ltb i m.total
            then get_or word i 0
            else if ltb i (min 2 (buffer_size - 800))
            then 0
            else get_or bytes i 0))
write_lem_example = write_lem last_fails last_fails-le driver bytes word 800 refl refl (omega arith)

seek_lem_example :
    (z0 z1 z2 : ℤ) × (seek (pos 4) (negsuc 8) 0 ≡ some z0)
    × Sought (negsuc 8) z0
    × (seek (pos 4) (negsuc 8) 1 ≡ some z1)
    × Sought (add_loff (negsuc 8) (pos 4)) z1
    × (seek (pos 4) (negsuc 8) 2 ≡ some z2)
    × Sought (add_loff (negsuc 8) (pos buffer_size)) z2
    × (seek (pos 4) (negsuc 8) 7 ≡ none)
seek_lem_example = seek_lem (pos 4) (negsuc 8) 7 (omega arith)

-- Two names in the last two slots, and a third slot that was used before.
abbrev two_names : Shared
two_names = record {
  arr =
      some []
      ∷ some (97 ∷ [])
      ∷ some []
      ∷ some []
      ∷ some []
      ∷ some []
      ∷ some (98 ∷ [])
      ∷ some (99 ∷ [])
      ∷ [];
  head = 6;
  tail = 7;
  mutex = 1;
  full = 2;
  empty = 6;
}

two_names-IsIdle : IsIdle two_names
two_names-IsIdle = record {
  free = refl;
  counted = refl;
  inside = omega arith;
  whole = refl;
  allocated = (
    ([], refl),
    (
      (97 ∷ [], refl),
      (
        ([], refl),
        (([], refl), (([], refl), (([], refl), ((98 ∷ [], refl), ((99 ∷ [], refl), tt))))),
      ),
    ),
  );
}

abbrev name : Text
name = 100 ∷ 101 ∷ []

array_put_lem_example :
    (two_names.full ≡ array_size) × (array_put name two_names ≡ blocked two_names)
    ⊎ (two_names.full < array_size)
      × ((s' : Shared) × (array_put name two_names ≡ done tt s')
          × IsIdle s'
          × (contents s' ≡ contents two_names ++ (some name ∷ [])))
array_put_lem_example = array_put_lem name two_names two_names-IsIdle (omega arith)

-- The caller's buffer.
abbrev hostname : List ℕ
hostname = replicate 18 120

array_get_lem_example :
    (two_names.full ≡ 0) × (array_get (some hostname) two_names ≡ blocked two_names)
    ⊎ (0 < two_names.full)
      × ((host : Text) × (bytes : List ℕ) × (s' : Shared) × (array_get (some hostname) two_names
            ≡ done bytes s')
          × Copied host hostname bytes
          × IsIdle s'
          × (contents two_names ≡ some host ∷ contents s'))
array_get_lem_example = array_get_lem hostname two_names two_names-IsIdle

array_put_too_long_example :
    (s' : Shared) × (array_put (replicate 18 97) two_names ≡ failed s')
    × (s'.full + s'.empty + 1 ≡ array_size)
    × IsDead s'
array_put_too_long_example =
    array_put_too_long (replicate 18 97) two_names two_names-IsIdle (omega arith) (omega arith)

put_put_race_example :
    (s1 : Shared) × (s2 : Shared) × (before_post name two_names ≡ done tt s1)
    × (array_put (97 ∷ []) s1 ≡ done tt s2)
    × ((post_full s2).full ≡ 4)
    × (items array_size none s2.arr s2.head 3 ≡ contents two_names ++ (some (97 ∷ []) ∷ []))
put_put_race_example =
    put_put_race name (97 ∷ []) two_names two_names-IsIdle (omega arith) (omega arith) (omega arith)
