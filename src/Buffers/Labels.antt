-- ===== src/Buffers/Labels.antt =====
-- Part 5 of recitation/threads/thread_test.c: read_label_bounded, chomp_newline, fn_bounds and the tag that main
-- makes of the label. The input is the list of the bytes that stdin has left; a string is the list of its
-- bytes before the terminator. What is printed is left out, but for the warnings of truncation.
pub mod Banner
use csci_3753_operating_syst.Prelude.{
  ℕ, zero, suc, ◌+◌, ◌-◌, ◌*◌, ◌/◌, ◌%◌, ◌^◌, ◌≤◌, ◌<◌, min, ◌≡◌, refl, sym, ap, ◌∙◌, subst, ◌≢◌,
  ◌↔◌, ◌⊎◌, inl, inr, Bool, true, false, not, ◌&&◌, ◌||◌, Option, none, some, List, [], ◌∷◌, ◌++◌,
  map, arith, dec_lt, ℕ_discrete, ltb, leb, ◌==◌, if◌then◌else◌, ltb→lt, lt→ltb, leb→le, ==_iff,
  tests, Bool-cases, bool_eq, Option-cases, if_keeps, length, get_elem?, get_or, set, take, drop,
  replicate, length-append, length-set, set-set, length-replicate, get_elem?_lt,
  get_elem?-eq-get_or, get_elem?-set_self, get_elem?-set_ne, get_or-set_self, get_or-set_ne,
  length-take, length-drop, take-append-drop, length-map, get_elem?-map, get_elem?_of_lt,
  drop-eq-cons, get_elem?-take, get_or-take, get_or-eq_get_elem?, All, All-set, All-get_or,
  All-take, All-get_elem?, All-replicate,
}

abbrev pub newline : ℕ
newline = 10

-- The string at the start of these bytes.
unfoldable pub c_string : List ℕ → List ℕ
c_string [] = []
c_string (c ∷ bytes) = if c == 0 then [] else c ∷ c_string bytes

-- The bytes that fgets reads, with room for `n` of them, and what it leaves.
unfoldable pub line_of : ℕ → List ℕ → List ℕ × List ℕ
line_of zero input = ([], input)
line_of (suc n) [] = ([], [])
line_of (suc n) (c ∷ input) =
    let (line, rest) = line_of n input in if c == newline then (c ∷ [], input) else (c ∷ line, rest)

-- `fgets` with room for `n` bytes and the terminator; `none` is NULL.
unfoldable pub fgets : ℕ → List ℕ → Option (List ℕ × List ℕ)
unfolding line_of
fgets zero input = some ([], input)
fgets (suc n) [] = none
fgets (suc n) (c ∷ input) = some (line_of (suc n) (c ∷ input))

-- `strchr(s, c) != NULL`
unfoldable pub strchr : List ℕ → ℕ → Bool
strchr [] c = false
strchr (d ∷ s) c = if d == c then true else strchr s c

-- `while ((c = getchar()) != '\n' && c != EOF)`
unfoldable pub flush : List ℕ → List ℕ
flush [] = []
flush (c ∷ input) = if c == newline then input else flush input

-- `chomp_newline`
unfoldable pub chomp_newline : List ℕ → List ℕ
chomp_newline [] = []
chomp_newline (c ∷ []) = if c == newline then [] else c ∷ []
chomp_newline (c ∷ d ∷ s) = c ∷ chomp_newline (d ∷ s)

-- `read_label_bounded`: the label, and the input that is left.
unfoldable pub read_label_bounded : ℕ → List ℕ → List ℕ × List ℕ
unfolding c_string fgets strchr flush chomp_newline
read_label_bounded cap input = elim (fgets (cap - 1) input) [
  | none ↦ ([], input)
  | some (line, rest) ↦
      let dst = c_string line in
      let truncated = not (strchr dst newline) in
      (chomp_newline dst, if truncated then flush rest else rest)
]

-- `snprintf` of a text into `cap` bytes: the string in them, and the length of the text.
unfoldable pub snprintf : ℕ → List ℕ → List ℕ × ℕ
snprintf cap text = (take (cap - 1) text, length text)

-- `TAG:%s` in 20 bytes, and whether main warns.
unfoldable pub make_tag : List ℕ → List ℕ × Bool
unfolding snprintf
make_tag label = let (tag, need) = snprintf 20 (84 ∷ 65 ∷ 71 ∷ 58 ∷ label) in (tag, leb 20 need)

-- `fn_bounds`: `[%s:%s]` in 24 bytes, and whether it warns.
unfoldable pub fn_bounds : List ℕ → List ℕ → List ℕ × Bool
unfolding snprintf
fn_bounds tag name =
    let (local, need) = snprintf 24 (91 ∷ (tag ++ (58 ∷ (name ++ (93 ∷ []))))) in
    (local, leb 24 need)
