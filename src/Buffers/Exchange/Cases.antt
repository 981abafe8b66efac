-- ===== src/Buffers/Exchange/Cases.antt =====
-- How the three exchanges of recitation/kernel-mem-access/copy_sim.c go.
use csci_3753_operating_syst.Prelude.{
  ℕ, zero, suc, ◌+◌, ◌≤◌, ◌<◌, ◌≡◌, refl, sym, ap, ◌∙◌, ◌≢◌, true, false, List, [], ◌∷◌, ◌++◌, map,
  arith, dec_lt, ltb, ◌==◌, if◌then◌else◌, lt→ltb, length, take, drop, replicate, length-append,
  length-map, All,
}
use csci_3753_operating_syst.Buffers.{copy_from_user_sim, copy_to_user_sim}
use csci_3753_operating_syst.Buffers.Copy.{take-all}
use mathlib.Core.List.{append_assoc, append-nil}
use csci_3753_operating_syst.Buffers.Labels.{c_string}
use csci_3753_operating_syst.Buffers.Exchange.{
  write_refused, read_refused, got, kbuf_size, read_back, upper_in_place, write_message, case_1,
  case_2, case_3, main, hello_kernel,
}

-- A message that fits is at the start of the kernel's bytes; a longer one is refused, and changes nothing.
write_fits :
    (msg kbuf : List ℕ)
    → length msg < kbuf_size
    → write_message msg kbuf ≡ (length msg + 1, (msg ++ (0 ∷ [])) ++ drop (length msg + 1) kbuf)
unfolding write_message copy_from_user_sim
write_fits msg kbuf h =
    let n = length msg + 1 in
    let fits : ltb kbuf_size n ≡ false = ground (arith, h) in
    let whole : take n (msg ++ (0 ∷ [])) ≡ msg ++ (0 ∷ []) =
      sym (ap (λ xs. take n xs) (append-nil (msg ++ (0 ∷ []))))
      ∙ take-all n (msg ++ (0 ∷ [])) [] (length-append msg (0 ∷ [])) in
    rw (fits, whole) refl

write_too_long : (msg kbuf : List ℕ) → kbuf_size ≤ length msg → write_message msg kbuf ≡ (0, kbuf)
unfolding write_message copy_from_user_sim
write_too_long msg kbuf h =
    let big : ltb kbuf_size (length msg + 1) ≡ true = ground (arith, h) in rw big refl

-- The kernel's work on a message and its terminator.
upper_in_place_text :
    (toupper : ℕ → ℕ) (s rest : List ℕ) (n : ℕ)
    → n ≡ length s + 1
    → upper_in_place toupper n ((s ++ (0 ∷ [])) ++ rest) ≡ map toupper s ++ (toupper 0 ∷ rest)
unfolding upper_in_place
upper_in_place_text toupper s rest zero h = absurd (omega (arith, h))
upper_in_place_text toupper [] rest (suc zero) h = refl
upper_in_place_text toupper [] rest (suc (suc n)) h = absurd (omega (arith, h))
upper_in_place_text toupper (c ∷ s) rest (suc n) h =
    ap (λ r. toupper c ∷ r) (upper_in_place_text toupper s rest n (omega (arith, h)))

All-map : (f : ℕ → ℕ) (s : List ℕ) → All (λ c. f c ≢ 0) s → All (λ c. c ≢ 0) (map f s)
All-map f [] h = tt
All-map f (c ∷ s) h = (h.0, All-map f s h.1)

-- A string that is copied with its terminator.
c_string-append : (s rest : List ℕ) → All (λ c. c ≢ 0) s → c_string (s ++ (0 ∷ rest)) ≡ s
unfolding c_string
c_string-append [] rest h = refl
c_string-append (c ∷ s) rest h = ground (arith, c_string-append s rest h.1, h)

-- What the kernel gives back of a string of its own, into a buffer with room for it, or without.
read_back_fits :
    (s rest user : List ℕ)
    → All (λ c. c ≢ 0) s
    → length s < length user
    → read_back (length s + 1) (s ++ (0 ∷ rest)) user (length user) ≡ got s
unfolding read_back copy_to_user_sim
read_back_fits s rest user plain h =
    let n = length s + 1 in
    let fits : ltb (length user) n ≡ false = ground (arith, h) in
    let some_taken : (n == 0) ≡ false = ground arith in
    let whole : take n (s ++ (0 ∷ rest)) ≡ s ++ (0 ∷ []) =
      ap (λ xs. take n xs) (sym (append_assoc s (0 ∷ []) rest))
      ∙ take-all n (s ++ (0 ∷ [])) rest (length-append s (0 ∷ [])) in
    rw (fits, some_taken, whole, append_assoc s (0 ∷ []) (drop n user))
      (ap got (c_string-append s (drop n user) plain))

read_back_too_long :
    (taken : ℕ) (kbuf user : List ℕ)
    → length user < taken
    → read_back taken kbuf user (length user) ≡ read_refused
unfolding read_back copy_to_user_sim
read_back_too_long taken kbuf user h = rw (lt→ltb (length user) taken h) refl

-- Case 1: a message that fits into the kernel's buffer and into the program's comes back in upper case; one
-- that does not fit into the kernel's is refused.
pub case_1_lem :
    (toupper : ℕ → ℕ) (msg kbuf user : List ℕ)
    → toupper 0 ≡ 0
    → All (λ c. toupper c ≢ 0) msg
    → length msg < length user
    → (case_1 toupper msg kbuf user).0
      ≡ (if ltb (length msg) kbuf_size then got (map toupper msg) else write_refused)
unfolding case_1
case_1_lem toupper msg kbuf user end plain room = elim (dec_lt (length msg) kbuf_size) [
  | yes fits ↦
      let n = length msg + 1 in
      let rest = drop n kbuf in
      let some_taken : (n == 0) ≡ false = ground arith in
      let upper : upper_in_place toupper n ((msg ++ (0 ∷ [])) ++ rest)
          ≡ map toupper msg ++ (0 ∷ rest) =
        upper_in_place_text toupper msg rest n refl ∙ ap (λ c. map toupper msg ++ (c ∷ rest)) end in
      rw (write_fits msg kbuf fits, some_taken, upper, lt→ltb (length msg) kbuf_size fits)
        (ap (λ k. read_back (k + 1) (map toupper msg ++ (0 ∷ rest)) user (length user))
            (sym (length-map msg toupper))
          ∙ read_back_fits (map toupper msg) rest user (All-map toupper msg plain)
              (omega (arith, room, length-map msg toupper)))
  | no big ↦
      let no_room : ltb (length msg) kbuf_size ≡ false = ground (arith, big) in
      rw (write_too_long msg kbuf (omega (arith, big)), no_room) refl
]

-- The three cases of main, whatever its buffers hold at first: the first message comes back in upper
-- case, the second is refused by the kernel, and the third by the check of the program's buffer.
pub main_lem :
    (toupper : ℕ → ℕ) (kbuf user_out1 tiny_user_out : List ℕ)
    → toupper 0 ≡ 0
    → All (λ c. toupper c ≢ 0) hello_kernel
    → length user_out1 ≡ 64
    → length tiny_user_out ≡ 2
    → main toupper kbuf user_out1 tiny_user_out
      ≡ (got (map toupper hello_kernel), true, read_refused)
unfolding main case_2 case_3
main_lem toupper kbuf user tiny end plain size tiny_size =
    let first = case_1_lem toupper hello_kernel kbuf user end plain (omega (arith, size)) in
    let kbuf1 = (case_1 toupper hello_kernel kbuf user).1 in
    let second = write_too_long (replicate 127 65) kbuf1 (omega arith) in
    let third = write_fits (79 ∷ 75 ∷ []) kbuf1 (omega arith) in
    let last = read_back_too_long 3 (79 ∷ 75 ∷ 0 ∷ drop 3 kbuf1) tiny (omega (arith, tiny_size)) in
    rw (first, second, third, last) refl
