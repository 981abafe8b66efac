-- ===== src/Tester/Loops.antt =====
-- The loop of assignments/pa2/pa2test.c that writes in pieces: on a file that behaves as write is
-- documented, and on the driver of assignments/pa3/pa3_char_device_driver.c.
use csci_3753_operating_syst.Prelude.{
  ℕ, zero, suc, ◌+◌, ◌≤◌, ◌<◌, ◌≡◌, refl, sym, ap, ◌∙◌, Option, none, some, List, [], ◌∷◌, ◌++◌,
  arith, length, take, drop, length-drop, take-append-drop,
}
use csci_3753_operating_syst.Tester.{ended, unfinished, handle_write}
use csci_3753_operating_syst.Device.{Driver, buffer_size}
use csci_3753_operating_syst.Device.Transfer.{write_lem}
use csci_3753_operating_syst.Device.{
  read as device_read_call, write as device_write_call, seek as device_seek_call,
}
use csci_3753_operating_syst.Prelude.Int.{ℤ, pos, negsuc}
use csci_3753_operating_syst.Prelude.Opt.{◌>>=◌}

-- `content` is what has been written: write takes some of what it is given, at least a byte.
pub record IsWriter {F : Type 0} (write : List ℕ → F → Option (ℕ × F)) (content : F → List ℕ)
    : Type 0 where
  pub succeeds : (bytes : List ℕ) (s : F) → (out : ℕ × F) × (write bytes s ≡ some out)
  pub takes :
      (bytes : List ℕ) (s s' : F) (n : ℕ)
      → write bytes s ≡ some (n, s')
      → (n ≤ length bytes) × (content s' ≡ content s ++ take n bytes) × (0 < length bytes → 0 < n)

append_assoc : (xs ys zs : List ℕ) → (xs ++ ys) ++ zs ≡ xs ++ (ys ++ zs)
append_assoc [] ys zs = refl
append_assoc (x ∷ xs) ys zs = ap (λ l. x ∷ l) (append_assoc xs ys zs)

module _ {F : Type 0} (read : ℕ → F → Option (List ℕ × F)) (write : List ℕ → F → Option (ℕ × F))
    (lseek : ℤ → ℤ → F → Option F) where
  module _ (content : F → List ℕ) (writer : IsWriter write content) where
    -- With one round more than there are bytes `handle_write` ends, and has written all of the buffer
    -- behind what was written before, in however many pieces write takes them. write is one that
    -- does not fail and takes at least a byte.
    pub handle_write_lem :
        (fuel : ℕ) (buffer : List ℕ) (s : F)
        → length buffer < fuel
        → (s' : F) × (handle_write read write lseek fuel buffer s ≡ ended s')
          × (content s' ≡ content s ++ buffer)
    unfolding handle_write
    handle_write_lem zero buffer s lt = absurd (omega arith)
    handle_write_lem (suc fuel) [] s lt = (s, refl, sym (append_nothing (content s)))
      where
        append_nothing : (xs : List ℕ) → xs ++ [] ≡ xs
        append_nothing [] = refl
        append_nothing (x ∷ xs) = ap (λ l. x ∷ l) (append_nothing xs)
    handle_write_lem (suc fuel) (c ∷ buffer) s lt =
        let ((n, s1), e) = writer.succeeds (c ∷ buffer) s in
        let (le, wrote, some_byte) = writer.takes (c ∷ buffer) s s1 n e in
        let len = length-drop n (c ∷ buffer) in
        let (s2, rest, all) =
          handle_write_lem fuel (drop n (c ∷ buffer)) s1
            (omega (arith, len, lt, some_byte (omega arith))) in
        (
          s2,
          rw (e, handle_write) rest,
          all
              ∙ ap (λ l. l ++ drop n (c ∷ buffer)) wrote
              ∙ append_assoc (content s) (take n (c ∷ buffer)) (drop n (c ∷ buffer))
              ∙ ap (λ l. content s ++ l) (take-append-drop n (c ∷ buffer)),
        )

-- The driver's file: the driver and the position in it.
abbrev pub File : Type 0
File = Driver × ℤ

module _ (uncopied : ℕ → ℕ) where
  abbrev pub device_read : ℕ → File → Option (List ℕ × File)
  device_read n (d, offset) =
      device_read_call uncopied d n offset >>= λ m. some (m.bytes, (d, m.offset))

  abbrev pub device_write : List ℕ → File → Option (ℕ × File)
  device_write bytes (d, offset) =
      device_write_call uncopied d bytes (length bytes) offset >>= λ out.
      some (out.1.total, (out.0, out.1.offset))

  abbrev pub device_lseek : ℤ → ℤ → File → Option File
  device_lseek offset (negsuc w) (d, now) = none
  device_lseek offset (pos w) (d, now) = device_seek_call now offset w >>= λ z. some (d, z)

  -- On the driver, `handle_write` of bytes that go past the end of the device never ends: at the end the
  -- driver takes 0 bytes, which is neither an error nor progress.
  pub handle_write_stuck :
      (law : (n : ℕ) → uncopied n ≤ n) (fuel : ℕ) (bytes buffer : List ℕ) (d : Driver) (off : ℕ)
      → d.device_buffer ≡ some buffer
      → length buffer ≡ buffer_size
      → off ≤ buffer_size
      → buffer_size < off + length bytes
      → handle_write device_read device_write device_lseek fuel bytes (d, pos off) ≡ unfinished
  unfolding handle_write
  handle_write_stuck law zero bytes buffer d off at size le past = refl
  handle_write_stuck law (suc fuel) [] buffer d off at size le past = absurd (omega arith)
  handle_write_stuck law (suc fuel) (c ∷ bytes) buffer d off at size le past =
      let (d', m, buffer', wrote, at', size', some_of, inside, moved, whole, spliced) =
        write_lem uncopied law d buffer (c ∷ bytes) off at size le in
      let len = length-drop m.total (c ∷ bytes) in
      let rest =
        handle_write_stuck law fuel (drop m.total (c ∷ bytes)) buffer' d' (off + m.total) at' size'
          inside (omega (arith, len, past, some_of)) in
      rw (handle_write, wrote, moved) rest
