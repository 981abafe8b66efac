-- ===== src/Tester.antt =====
-- assignments/pa2/pa2test.c: a program that reads, writes and seeks a file on command. The state of the
-- file is a type of its own; open, read, write and lseek are parameters, `none` being -1, and so is malloc,
-- false being NULL. Its input, line by line, is a list of commands. What it prints but the bytes that were
-- read is left out.
pub mod Loops
pub mod Ends
use csci_3753_operating_syst.Prelude.{
  ℕ, zero, suc, ◌+◌, ◌-◌, ◌*◌, ◌/◌, ◌%◌, ◌^◌, ◌≤◌, ◌<◌, min, ◌≡◌, refl, sym, ap, ◌∙◌, subst, ◌≢◌,
  ◌↔◌, ◌⊎◌, inl, inr, Bool, true, false, not, ◌&&◌, ◌||◌, Option, none, some, List, [], ◌∷◌, ◌++◌,
  map, arith, dec_lt, ℕ_discrete, ltb, leb, ◌==◌, if◌then◌else◌, ltb→lt, lt→ltb, leb→le, ==_iff,
  tests, Bool-cases, bool_eq, Option-cases, if_keeps, length, get_elem?, get_or, set, take, drop,
  replicate, length-append, length-set, set-set, length-replicate, get_elem?_lt,
  get_elem?-eq-get_or, get_elem?-set_self, get_elem?-set_ne, get_or-set_self, get_or-set_ne,
  length-take, length-drop, take-append-drop, length-map, get_elem?-map, get_elem?_of_lt,
  drop-eq-cons, get_elem?-take, get_or-take, get_or-eq_get_elem?, All, All-set, All-get_or,
  All-take, All-get_elem?, All-replicate,
}
use csci_3753_operating_syst.Prelude.Opt.{◌>>=◌}
use csci_3753_operating_syst.Prelude.Int.{ℤ, pos, negsuc, ltb_ℤ}

-- How a loop on the file ends: with a value, with exit(EXIT_FAILURE), or not within the fuel.
pub data Loop (A : Type 0) : Type 0 where
  ended : A → Loop A
  exits : Loop A
  unfinished : Loop A

-- What has been read goes before what a later round reads.
unfoldable pub prepend : {F : Type 0} → List ℕ → Loop (List ℕ × F) → Loop (List ℕ × F)
prepend bytes (ended (rest, s)) = ended (bytes ++ rest, s)
prepend bytes exits = exits
prepend bytes unfinished = unfinished

-- `handle_null_terminate`: the bytes of the buffer up to `*len`, the terminator included.
unfoldable pub handle_null_terminate : List ℕ → List ℕ
handle_null_terminate [] = 0 ∷ []
handle_null_terminate (c ∷ []) = if c == 10 then 0 ∷ [] else c ∷ 0 ∷ []
handle_null_terminate (c ∷ d ∷ line) = c ∷ handle_null_terminate (d ∷ line)

-- A command: what follows `r`, `w` or `s`; anything else does nothing.
pub data Command : Type 0 where
  read_command : ℤ → Command
  write_command : List ℕ → Command
  seek_command : ℤ → ℤ → Command
  other_command : Command

-- `handle_input`: the next line that fgets gives, or exit at the end of the input.
unfoldable pub handle_input : List (List ℕ) → Option (List ℕ × List (List ℕ))
handle_input [] = none
handle_input (line ∷ lines) = some (line, lines)

-- strtol gives no number where it parses nothing.
module _ (strtol : List ℕ → Option ℤ) where
  unfoldable pub handle_numeric_input : List (List ℕ) → Option (ℤ × List (List ℕ))
  unfolding handle_input
  handle_numeric_input lines = handle_input lines >>= λ input.
      some (elim (strtol input.0) [ none ↦ pos 0 | some n ↦ n ], input.1)

  -- The input of one round of the loop of `main`, by the first character of its first line.
  unfoldable pub next_command : List (List ℕ) → Option (Command × List (List ℕ))
  unfolding handle_numeric_input
  next_command lines = handle_input lines >>= λ input.
      let option = get_or input.0 0 0 in
      if option == 114
      then (handle_numeric_input input.1 >>= λ n. some (read_command n.0, n.1))
      else if option == 119
      then (handle_input input.1 >>= λ line. some (write_command line.0, line.1))
      else if option == 115
      then (handle_numeric_input input.1 >>= λ offset. handle_numeric_input offset.1 >>= λ whence.
          some (seek_command offset.0 whence.0, whence.1))
      else some (other_command, input.1)

-- `int bytes_to_read = n`, as read gets it: the low 32 bits, as a signed number, in a size_t.
unfoldable pub as_count : ℕ → ℕ
as_count n = let low = n % 2 ^ 32 in if ltb low (2 ^ 31) then low else low + (2 ^ 64 - 2 ^ 32)

module _ {F : Type 0} (read : ℕ → F → Option (List ℕ × F)) (write : List ℕ → F → Option (ℕ × F))
    (lseek : ℤ → ℤ → F → Option F) where
  -- `handle_read` of `bytes_requested` bytes.
  unfoldable pub handle_read : ℕ → ℕ → F → Loop (List ℕ × F)
  unfolding prepend as_count
  handle_read zero bytes_requested s = unfinished
  handle_read (suc fuel) bytes_requested s =
      if bytes_requested == 0 then ended ([], s) else elim (read (as_count bytes_requested) s) [
        | none ↦ exits
        | some (bytes, s') ↦
            let rest = handle_read fuel (bytes_requested - length bytes) s' in
            if length bytes == 0 then ended ([], s') else prepend bytes rest
      ]

  -- `handle_write` of `buffer`, of which an int holds the length.
  unfoldable pub handle_write : ℕ → List ℕ → F → Loop F
  handle_write zero buffer s = unfinished
  handle_write (suc fuel) [] s = ended s
  handle_write (suc fuel) (c ∷ buffer) s = elim (write (c ∷ buffer) s) [
    | none ↦ exits
    | some (num_written, s') ↦ handle_write fuel (drop num_written (c ∷ buffer)) s'
  ]

  -- `handle_seek`
  unfoldable pub handle_seek : ℤ → ℤ → F → Loop F
  handle_seek offset whence s = elim (lseek offset whence s) [ none ↦ exits | some s' ↦ ended s' ]

  -- The rest of a command, with the bytes to print.
  unfoldable pub printing : List ℕ → Loop F → Loop (List ℕ × F)
  printing bytes (ended s) = ended (bytes, s)
  printing bytes exits = exits
  printing bytes unfinished = unfinished

  -- One round of the loop of `main`; a negative number of bytes is less than the 0 read so far.
  unfoldable pub command : ℕ → Command → F → Loop (List ℕ × F)
  unfolding handle_read handle_write handle_seek printing
  command fuel (read_command (pos n)) s = handle_read fuel n s
  command fuel (read_command (negsuc n)) s = handle_read fuel 0 s
  command fuel (write_command line) s =
      printing [] (handle_write fuel (handle_null_terminate line) s)
  command fuel (seek_command offset whence) s =
      if ltb_ℤ whence (pos 0) || ltb_ℤ (pos 3) whence
      then ended ([], s)
      else printing [] (handle_seek offset whence s)
  command fuel other_command s = ended ([], s)

  -- The loop of `main`, for a number of rounds; it ends with the input.
  unfoldable pub main_loop : (List ℕ → Option ℤ) → ℕ → ℕ → List (List ℕ) → F → Loop (List ℕ × F)
  unfolding command next_command
  main_loop strtol zero fuel lines s = unfinished
  main_loop strtol (suc rounds) fuel lines s = elim (next_command strtol lines) [
    | none ↦ exits
    | some (c, rest) ↦ elim (command fuel c s) [
      | exits ↦ exits
      | unfinished ↦ unfinished
      | ended (bytes, s') ↦ prepend bytes (main_loop strtol rounds fuel rest s')
    ]
  ]

  -- `main`: argv has the program's name and one path, which opens, and malloc gives both buffers.
  unfoldable pub main :
      (open_file : List ℕ → Option F) (malloc : ℕ → Bool) (strtol : List ℕ → Option ℤ)
      (rounds fuel : ℕ) (argv lines : List (List ℕ))
      → Loop (List ℕ × F)
  unfolding main_loop
  main open_file malloc strtol rounds fuel argv lines =
      if ltb (length argv) 2
      then exits
      else if ltb 2 (length argv)
      then exits
      else elim (open_file (get_or argv 1 [])) [
        | none ↦ exits
        | some s ↦ if malloc 4096 && malloc 80 then main_loop strtol rounds fuel lines s else exits
      ]
