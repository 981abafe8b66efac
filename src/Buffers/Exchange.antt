-- ===== src/Buffers/Exchange.antt =====
-- main of recitation/kernel-mem-access/copy_sim.c: its three exchanges between a program and the simulated
-- kernel. toupper is a parameter; what is printed is left out, but for which message it is.
pub mod Cases
use csci_3753_operating_syst.Prelude.{
  ℕ, zero, suc, ◌+◌, ◌-◌, ◌*◌, ◌/◌, ◌%◌, ◌^◌, ◌≤◌, ◌<◌, min, ◌≡◌, refl, sym, ap, ◌∙◌, subst, ◌≢◌,
  ◌↔◌, ◌⊎◌, inl, inr, Bool, true, false, not, ◌&&◌, ◌||◌, Option, none, some, List, [], ◌∷◌, ◌++◌,
  map, arith, dec_lt, ℕ_discrete, ltb, leb, ◌==◌, if◌then◌else◌, ltb→lt, lt→ltb, leb→le, ==_iff,
  tests, Bool-cases, bool_eq, Option-cases, if_keeps, length, get_elem?, get_or, set, take, drop,
  replicate, length-append, length-set, set-set, length-replicate, get_elem?_lt,
  get_elem?-eq-get_or, get_elem?-set_self, get_elem?-set_ne, get_or-set_self, get_or-set_ne,
  length-take, length-drop, take-append-drop, length-map, get_elem?-map, get_elem?_of_lt,
  drop-eq-cons, get_elem?-take, get_or-take, get_or-eq_get_elem?, All, All-set, All-get_or,
  All-take, All-get_elem?, All-replicate,
}
use csci_3753_operating_syst.Buffers.{copy_from_user_sim, copy_to_user_sim}
use csci_3753_operating_syst.Buffers.Labels.{c_string}

-- `KBUF_SIZE`
abbrev pub kbuf_size : ℕ
kbuf_size = 32

-- What an exchange comes to: the kernel does not take the message, or does not give it back, or
-- the program has this string.
pub data Exchange : Type 0 where
  write_refused : Exchange
  read_refused : Exchange
  got : List ℕ → Exchange

-- What follows a write of `taken` bytes: the kernel's bytes go to the program's buffer of `cap` bytes.
unfoldable pub read_back : ℕ → List ℕ → List ℕ → ℕ → Exchange
unfolding c_string
read_back taken kbuf user cap =
    let (out, user') = copy_to_user_sim kbuf taken (some user) cap in
    if out == 0
    then read_refused
    else elim user' [ none ↦ read_refused | some bytes ↦ got (c_string bytes) ]

-- The loop in which the kernel works on its first `klen` bytes.
unfoldable pub upper_in_place : (ℕ → ℕ) → ℕ → List ℕ → List ℕ
upper_in_place toupper zero kbuf = kbuf
upper_in_place toupper (suc klen) [] = []
upper_in_place toupper (suc klen) (c ∷ kbuf) = toupper c ∷ upper_in_place toupper klen kbuf

-- The message and its terminator, to the kernel.
unfoldable pub write_message : List ℕ → List ℕ → ℕ × List ℕ
write_message msg kbuf = copy_from_user_sim (some (msg ++ (0 ∷ []))) (length msg + 1) kbuf kbuf_size

-- Case 1, with the program's buffer.
unfoldable pub case_1 : (ℕ → ℕ) → List ℕ → List ℕ → List ℕ → Exchange × List ℕ
unfolding write_message read_back upper_in_place
case_1 toupper msg kbuf user =
    let (taken, kbuf') = write_message msg kbuf in
    let kbuf'' = upper_in_place toupper taken kbuf' in
    if taken == 0
    then (write_refused, kbuf')
    else (read_back taken kbuf'' user (length user), kbuf'')

-- Case 2.
unfoldable pub case_2 : List ℕ → List ℕ → Bool × List ℕ
unfolding write_message
case_2 msg kbuf = let (taken, kbuf') = write_message msg kbuf in (taken == 0, kbuf')

-- Case 3, with the program's buffer.
unfoldable pub case_3 : List ℕ → List ℕ → List ℕ → Exchange
unfolding write_message read_back
case_3 msg kbuf user =
    let (taken, kbuf') = write_message msg kbuf in
    if taken == 0 then write_refused else read_back taken kbuf' user (length user)

-- `hello kernel`
abbrev pub hello_kernel : List ℕ
hello_kernel = 104 ∷ 101 ∷ 108 ∷ 108 ∷ 111 ∷ 32 ∷ 107 ∷ 101 ∷ 114 ∷ 110 ∷ 101 ∷ 108 ∷ []

-- `main`, by what its buffers hold before it writes them.
unfoldable pub main : (ℕ → ℕ) → List ℕ → List ℕ → List ℕ → Exchange × Bool × Exchange
unfolding case_1 case_2 case_3
main toupper kbuf user_out1 tiny_user_out =
    let (first, kbuf1) = case_1 toupper hello_kernel kbuf user_out1 in
    let (second, kbuf2) = case_2 (replicate 127 65) kbuf1 in
    let third = case_3 (79 ∷ 75 ∷ []) kbuf2 tiny_user_out in (first, second, third)
