-- ===== src/Device/Transfer.antt =====
-- What read and write move, and where from and to.
use csci_3753_operating_syst.Prelude.{
  ℕ, zero, suc, ◌+◌, ◌-◌, ◌≤◌, min, ◌≡◌, refl, sym, subst, some, List, [], ◌∷◌, ◌++◌, arith, ltb,
  if◌then◌else◌, length, get_or, take, drop, replicate, length-replicate, length-append,
  length-take, length-drop,
}
use csci_3753_operating_syst.Device.{buffer_size, Driver, Moved, bytes_to_copy, read, write}
use csci_3753_operating_syst.Device.Words.{add_loff_small, available_small}
use csci_3753_operating_syst.Prelude.Int.{pos}

-- At an offset on the device, as many bytes are copied as were asked for and are left.
pub bytes_to_copy_lem :
    (len off : ℕ) → off ≤ buffer_size → bytes_to_copy len (pos off) ≡ min len (buffer_size - off)
unfolding bytes_to_copy
bytes_to_copy_lem len off h = ground (arith, available_small buffer_size off h)

drop_nothing : (n : ℕ) → drop {A = ℕ} n [] ≡ []
drop_nothing zero = refl
drop_nothing (suc n) = refl

-- `k` zeros before the rest of a list.
get_or-zeros :
    (k : ℕ) (ys : List ℕ) (i : ℕ)
    → get_or (replicate k 0 ++ drop k ys) i 0 ≡ (if ltb i k then 0 else get_or ys i 0)
get_or-zeros zero ys i = ground arith
get_or-zeros (suc k) [] zero = ground arith
get_or-zeros (suc k) (y ∷ ys) zero = ground arith
get_or-zeros (suc k) [] (suc i) = ground (arith, get_or-zeros k [] i, drop_nothing k)
get_or-zeros (suc k) (y ∷ ys) (suc i) = ground (arith, get_or-zeros k ys i)

get_or-drop_1 : (ys : List ℕ) (i : ℕ) → get_or ys (suc i) 0 ≡ get_or (drop 1 ys) i 0
get_or-drop_1 [] i = refl
get_or-drop_1 (y ∷ ys) i = refl

drop-suc : (n k : ℕ) (ys : List ℕ) → drop (suc n + k) ys ≡ drop (n + k) (drop 1 ys)
drop-suc n k ys = let e : suc n + k ≡ suc (n + k) = omega arith in rw e (by_shape ys)
  where
    by_shape : (ys : List ℕ) → drop (suc (n + k)) ys ≡ drop (n + k) (drop 1 ys)
    by_shape [] = sym (drop_nothing (n + k))
    by_shape (y ∷ ys) = refl

-- The first `n` items of one list, `k` zeros, and the rest of another.
get_or-padded :
    (n k : ℕ) (xs ys : List ℕ) (i : ℕ)
    → n ≤ length xs
    → get_or (take n xs ++ replicate k 0 ++ drop (n + k) ys) i 0
      ≡ (if ltb i n then get_or xs i 0 else if ltb i (n + k) then 0 else get_or ys i 0)
get_or-padded zero k xs ys i h =
    let e : 0 + k ≡ k = omega arith in rw (e, get_or-zeros k ys i) (ground arith)
get_or-padded (suc n) k [] ys i h = absurd (omega arith)
get_or-padded (suc n) k (x ∷ xs) ys zero h = ground arith
get_or-padded (suc n) k (x ∷ xs) ys (suc i) h =
    let start = get_or-padded n k xs (drop 1 ys) i (omega arith) in
    let e : drop (suc n + k) ys ≡ drop (n + k) (drop 1 ys) = drop-suc n k ys in
    rw (e, get_or-drop_1 ys i) (ground (arith, start))

module _ (uncopied : ℕ → ℕ) (law : (n : ℕ) → uncopied n ≤ n) where
  -- From an offset on the device, `read` gives no more than was asked for, moves the offset by what
  -- it gives and not off the device, and gives the first bytes of the buffer, whatever the offset.
  pub read_lem :
      (d : Driver) (buffer : List ℕ) (len off : ℕ)
      → d.device_buffer ≡ some buffer
      → length buffer ≡ buffer_size
      → off ≤ buffer_size
      → (m : Moved) × (read uncopied d len (pos off) ≡ some m)
        × (m.total ≤ len)
        × (off + m.total ≤ buffer_size)
        × (m.offset ≡ pos (off + m.total))
        × (m.bytes ≡ take m.total buffer)
        × (length m.bytes ≡ m.total)
  unfolding read
  read_lem d buffer len off at size h =
      let n = min len (buffer_size - off) in
      let total = n - uncopied n in
      (
        record { bytes = take total buffer; total = total; offset = pos (off + total) },
        rw at (rw (bytes_to_copy_lem len off h, add_loff_small off total (omega arith)) refl),
        omega arith,
        omega arith,
        refl,
        refl,
        omega (arith, length-take total buffer),
      )

  -- From an offset on the device, `write` takes no more than it is given and moves the offset by
  -- what it takes and not off the device. The bytes go to the start of the buffer, whatever the
  -- offset. Behind them the bytes that were to be copied and were not are zero, and the rest of the buffer stays as
  -- it is.
  pub write_lem :
      (d : Driver) (buffer src : List ℕ) (off : ℕ)
      → d.device_buffer ≡ some buffer
      → length buffer ≡ buffer_size
      → off ≤ buffer_size
      → (d' : Driver) × (m : Moved) × (buffer' : List ℕ) × (write uncopied d src
            (length src)
            (pos off)
          ≡ some (d', m))
        × (d'.device_buffer ≡ some buffer')
        × (length buffer' ≡ buffer_size)
        × (m.total ≤ length src)
        × (off + m.total ≤ buffer_size)
        × (m.offset ≡ pos (off + m.total))
        × (m.total + uncopied (min (length src) (buffer_size - off))
            ≡ min (length src) (buffer_size - off))
        × ((i : ℕ)
            → get_or buffer' i 0 ≡ (
                if ltb i m.total
                then get_or src i 0
                else if ltb i (min (length src) (buffer_size - off))
                then 0
                else get_or buffer i 0))
  unfolding write
  write_lem d buffer src off at size h =
      let n = min (length src) (buffer_size - off) in
      let lost = uncopied n in
      let total = n - lost in
      let few : lost ≤ n = law n in
      let whole : total + lost ≡ n = omega arith in
      let buffer' = take total src ++ replicate lost 0 ++ drop (total + lost) buffer in
      (
        record d { device_buffer = some buffer' },
        record { bytes = take total src; total = total; offset = pos (off + total) },
        buffer',
        rw at (
            rw (bytes_to_copy_lem (length src) off h, add_loff_small off total (omega arith)) refl),
        refl,
        omega (
          arith,
          length-append (take total src ++ replicate lost 0) (drop (total + lost) buffer),
          length-append (take total src) (replicate lost 0),
          length-replicate {A = ℕ} lost 0,
          length-take total src,
          length-drop (total + lost) buffer,
        ),
        omega arith,
        omega arith,
        refl,
        whole,
        λ i.
            subst
              (λ k. get_or buffer' i 0 ≡ (
                if ltb i total then get_or src i 0 else if ltb i k then 0 else get_or buffer i 0))
              whole (get_or-padded total lost src buffer i (omega arith)),
      )
