-- ===== src/Device.antt =====
-- The character device driver: assignments/pa3/pa3_char_device_driver.c. What it prints is left
-- out. kmalloc, copy_to_user and copy_from_user are parameters: an allocation, and the number of
-- bytes that a copy of `n` bytes leaves uncopied. Addresses are not modelled, bytes are numbers.
mod Words
pub mod Transfer
pub mod Seek
use csci_3753_operating_syst.Prelude.{
  ℕ, zero, suc, ◌+◌, ◌-◌, ◌*◌, ◌/◌, ◌%◌, ◌^◌, ◌≤◌, ◌<◌, min, ◌≡◌, refl, sym, ap, ◌∙◌, subst, ◌≢◌,
  ◌↔◌, ◌⊎◌, inl, inr, Bool, true, false, not, ◌&&◌, ◌||◌, Option, none, some, List, [], ◌∷◌, ◌++◌,
  map, arith, dec_lt, ℕ_discrete, ltb, leb, ◌==◌, if◌then◌else◌, ltb→lt, lt→ltb, leb→le, ==_iff,
  tests, Bool-cases, bool_eq, Option-cases, if_keeps, length, get_elem?, get_or, set, take, drop,
  replicate, length-append, length-set, length-replicate, get_elem?_lt, get_elem?-eq-get_or,
  get_elem?-set_self, get_elem?-set_ne, get_or-set_self, get_or-set_ne, length-take, length-drop,
  take-append-drop, length-map, get_elem?-map, get_elem?_of_lt, drop-eq-cons, get_elem?-take,
  get_or-eq_get_elem?, All, All-set, All-get_or, All-take, All-get_elem?, All-replicate,
}
pub use Words.{size_t, loff_t, sub_size, add_loff}
use csci_3753_operating_syst.Prelude.Int.{ℤ, pos, negsuc, ltb_ℤ}
use csci_3753_operating_syst.Prelude.Opt.{◌>>=◌}

abbrev pub buffer_size : ℕ
buffer_size = 900

-- The static variables of the module, and whether its device number is registered.
pub record Driver : Type 0 where
  pub device_buffer : Option (List ℕ)
  pub open_count : ℕ
  pub close_count : ℕ
  pub registered : Bool

-- What a read or a write leaves: the bytes that were moved, their number, and `*offset`.
pub record Moved : Type 0 where
  pub bytes : List ℕ
  pub total : ℕ
  pub offset : ℤ

-- `bytes_available`, then the test for the end of the device.
unfoldable pub bytes_available : ℤ → ℕ
bytes_available offset =
    if not (ltb_ℤ offset (pos buffer_size)) then 0 else sub_size buffer_size (size_t offset)

-- `bytes_to_copy`
unfoldable pub bytes_to_copy : ℕ → ℤ → ℕ
unfolding bytes_available
bytes_to_copy len offset = if ltb len (bytes_available offset) then len else bytes_available offset

module _ (uncopied : ℕ → ℕ) where
  -- `pa3_char_driver_read`: the source of the copy is `device_buffer`, whatever the offset is. A NULL
  -- buffer is a fault.
  unfoldable pub read : Driver → ℕ → ℤ → Option Moved
  unfolding bytes_to_copy
  read d len offset = d.device_buffer >>= λ buffer.
      let n = bytes_to_copy len offset in
      let total = n - uncopied n in
      some
        (record { bytes = take total buffer; total = total; offset = add_loff offset (pos total) })

  -- `pa3_char_driver_write` of the bytes `src`, `len` of them: the target of the copy is
  -- `device_buffer`, whatever the offset is.
  unfoldable pub write : Driver → List ℕ → ℕ → ℤ → Option (Driver × Moved)
  unfolding bytes_to_copy
  write d src len offset = d.device_buffer >>= λ buffer.
      let n = bytes_to_copy len offset in
      let total = n - uncopied n in
      some (
        record d {
          device_buffer =
              some (take total src ++ replicate (uncopied n) 0 ++ drop (total + uncopied n) buffer);
        },
        record { bytes = take total src; total = total; offset = add_loff offset (pos total) },
      )

-- `pa3_char_driver_open` and `pa3_char_driver_close`
unfoldable pub open_device : Driver → Driver
open_device d = record d { open_count = d.open_count + 1 }

unfoldable pub close_device : Driver → Driver
close_device d = record d { close_count = d.close_count + 1 }

-- The position that `whence` asks for; `none` is any other `whence`.
unfoldable pub seek_target : ℤ → ℤ → ℕ → Option ℤ
seek_target pos_now offset whence =
    if whence == 0
    then some offset
    else if whence == 1
    then some (add_loff offset pos_now)
    else if whence == 2
    then some (add_loff offset (pos buffer_size))
    else none

-- The check of the bounds.
unfoldable pub clamp : ℤ → ℤ
clamp z =
    if ltb_ℤ z (pos 0) then pos 0 else if ltb_ℤ (pos buffer_size) z then pos buffer_size else z

-- `pa3_char_driver_seek`: the new `f_pos`, which is also the result; `none` is -EINVAL.
unfoldable pub seek : ℤ → ℤ → ℕ → Option ℤ
unfolding seek_target clamp
seek pos_now offset whence = seek_target pos_now offset whence >>= λ z. some (clamp z)

-- `pa3_char_driver_init`: kmalloc gives a buffer or NULL; `false` is -ENOMEM.
unfoldable pub init : Option (List ℕ) → Driver → Bool × Driver
init none d = (false, record d { device_buffer = none })
init (some buffer) d = (true, record d { device_buffer = some buffer; registered = true })

-- `pa3_char_driver_exit`
unfoldable pub exit : Driver → Driver
exit d = record d { device_buffer = none; registered = false }
