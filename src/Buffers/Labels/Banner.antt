-- ===== src/Buffers/Labels/Banner.antt =====
-- From a line of input to the banner of a thread, in part 5 of recitation/threads/thread_test.c.
use csci_3753_operating_syst.Prelude.{
  ℕ, zero, suc, ◌+◌, ◌-◌, ◌≤◌, ◌<◌, min, ◌≡◌, refl, ap, ◌∙◌, ◌≢◌, true, false, some, List, [], ◌∷◌,
  ◌++◌, arith, dec_lt, leb, ◌==◌, if◌then◌else◌, length, take, drop, length-append, length-take,
  All, All-take,
}
use csci_3753_operating_syst.Buffers.Labels.{
  newline, c_string, line_of, fgets, strchr, flush, chomp_newline, read_label_bounded, snprintf,
  make_tag, fn_bounds,
}

-- A byte of a line's text: neither a terminator nor a newline.
abbrev pub Printable : ℕ → Type 0
Printable c = (c ≢ 0) × (c ≢ newline)

line_of_short :
    (n : ℕ) (line more : List ℕ)
    → All Printable line
    → length line < n
    → line_of n (line ++ (newline ∷ more)) ≡ (line ++ (newline ∷ []), more)
unfolding line_of
line_of_short zero line more plain h = absurd (omega arith)
line_of_short (suc n) [] more plain h = refl
line_of_short (suc n) (c ∷ line) more plain h =
    let other : (c == newline) ≡ false = ground (arith, plain) in
    rw (other, line_of_short n line more plain.1 (omega arith)) refl

line_of_long :
    (n : ℕ) (line more : List ℕ)
    → All Printable line
    → n ≤ length line
    → line_of n (line ++ (newline ∷ more)) ≡ (take n line, drop n line ++ (newline ∷ more))
unfolding line_of
line_of_long zero line more plain h = refl
line_of_long (suc n) [] more plain h = absurd (omega arith)
line_of_long (suc n) (c ∷ line) more plain h =
    let other : (c == newline) ≡ false = ground (arith, plain) in
    rw (other, line_of_long n line more plain.1 (omega arith)) refl

fgets-line_of :
    (n : ℕ) (line more : List ℕ)
    → fgets n (line ++ (newline ∷ more)) ≡ some (line_of n (line ++ (newline ∷ more)))
unfolding fgets line_of
fgets-line_of zero line more = refl
fgets-line_of (suc n) [] more = refl
fgets-line_of (suc n) (c ∷ line) more = refl

c_string_lem : (s : List ℕ) → All Printable s → c_string s ≡ s
unfolding c_string
c_string_lem [] plain = refl
c_string_lem (c ∷ s) plain = ground (arith, c_string_lem s plain.1, plain)

c_string-newline :
    (s : List ℕ) → All Printable s → c_string (s ++ (newline ∷ [])) ≡ s ++ (newline ∷ [])
unfolding c_string
c_string-newline [] plain = refl
c_string-newline (c ∷ s) plain = ground (arith, c_string-newline s plain.1, plain)

strchr_plain : (s : List ℕ) → All Printable s → strchr s newline ≡ false
unfolding strchr
strchr_plain [] plain = refl
strchr_plain (c ∷ s) plain = ground (arith, strchr_plain s plain.1, plain)

strchr-newline : (s : List ℕ) → strchr (s ++ (newline ∷ [])) newline ≡ true
unfolding strchr
strchr-newline [] = refl
strchr-newline (c ∷ s) = ground (arith, strchr-newline s)

flush_lem : (s more : List ℕ) → All Printable s → flush (s ++ (newline ∷ more)) ≡ more
unfolding flush
flush_lem [] more plain = refl
flush_lem (c ∷ s) more plain = ground (arith, flush_lem s more plain.1, plain)

chomp_newline_plain : (s : List ℕ) → All Printable s → chomp_newline s ≡ s
unfolding chomp_newline
chomp_newline_plain [] plain = refl
chomp_newline_plain (c ∷ []) plain = ground (arith, plain)
chomp_newline_plain (c ∷ d ∷ s) plain = ap (λ r. c ∷ r) (chomp_newline_plain (d ∷ s) plain.1)

chomp_newline-newline : (s : List ℕ) → chomp_newline (s ++ (newline ∷ [])) ≡ s
unfolding chomp_newline
chomp_newline-newline [] = refl
chomp_newline-newline (c ∷ []) = refl
chomp_newline-newline (c ∷ d ∷ s) = ap (λ r. c ∷ r) (chomp_newline-newline (d ∷ s))

take-all : (n : ℕ) (s : List ℕ) → length s ≤ n → take n s ≡ s
take-all zero [] h = refl
take-all zero (c ∷ s) h = absurd (omega arith)
take-all (suc n) [] h = refl
take-all (suc n) (c ∷ s) h = ap (λ r. c ∷ r) (take-all n s (omega arith))

All-drop : (n : ℕ) (s : List ℕ) → All Printable s → All Printable (drop n s)
All-drop zero s h = h
All-drop (suc n) [] h = tt
All-drop (suc n) (c ∷ s) h = All-drop n s h.1

take-append : (n : ℕ) (s t : List ℕ) → length s ≤ n → take n (s ++ t) ≡ s ++ take (n - length s) t
take-append n [] t h = ap (λ k. take k t) (omega arith)
take-append zero (c ∷ s) t h = absurd (omega arith)
take-append (suc n) (c ∷ s) t h =
    ap (λ r. c ∷ r) (take-append n s t (omega arith) ∙ ap (λ k. s ++ take k t) (omega arith))

-- The banner's text behind its bracket and `TAG:`, for a label of at most 15 bytes.
banner_text :
    (label : List ℕ) (a b n : ℕ)
    → length label ≡ min 15 n
    → take 18 (label ++ (58 ∷ a ∷ b ∷ 93 ∷ []))
      ≡ label ++ (58 ∷ a ∷ b ∷ (if leb 15 n then [] else 93 ∷ []))
banner_text label a b n len =
    take-append 18 label (58 ∷ a ∷ b ∷ 93 ∷ []) (omega (arith, len)) ∙ (elim (dec_lt n 15) [
      | yes short ↦
          let no_cut : leb 15 n ≡ false = ground (arith, short) in
          rw
            (
              no_cut,
              take-all (18 - length label) (58 ∷ a ∷ b ∷ 93 ∷ []) (omega (arith, len, short)),
            )
            refl
      | no long ↦
          let cut : leb 15 n ≡ true = ground (arith, long) in
          let three : 18 - length label ≡ 3 = omega (arith, len, long) in rw (cut, three) refl
    ])

-- `read_label_bounded` on a line of any length: the label is the line's text, cut to `cap - 1`
-- bytes, and the rest of the line is gone from the input, its newline included.
pub read_label_bounded_lem :
    (cap : ℕ) (line more : List ℕ)
    → All Printable line
    → read_label_bounded cap (line ++ (newline ∷ more)) ≡ (take (cap - 1) line, more)
unfolding read_label_bounded
read_label_bounded_lem cap line more plain = elim (dec_lt (length line) (cap - 1)) [
  | yes short ↦
      let whole = take-all (cap - 1) line (omega arith) in
      rw
        (
          read_label_bounded,
          fgets-line_of (cap - 1) line more,
          line_of_short (cap - 1) line more plain short,
          c_string-newline line plain,
          strchr-newline line,
          chomp_newline-newline line,
          whole,
        )
        refl
  | no long ↦
      let cut = All-take Printable (cap - 1) line plain in
      rw
        (
          read_label_bounded,
          fgets-line_of (cap - 1) line more,
          line_of_long (cap - 1) line more plain (omega arith),
          c_string_lem (take (cap - 1) line) cut,
          strchr_plain (take (cap - 1) line) cut,
          chomp_newline_plain (take (cap - 1) line) cut,
        )
        (ap (λ rest. (take (cap - 1) line, rest))
          (flush_lem (drop (cap - 1) line) more (All-drop (cap - 1) line plain)))
]

-- Part 5 of main, for a line of any length: the label has room in the tag, which is never cut; the banner of a
-- thread with a name of two bytes is cut, with a warning, exactly if the line has 15 bytes or more, and
-- then only its closing bracket is lost.
pub banner_lem :
    (line more : List ℕ) (a b : ℕ)
    → All Printable line
    → let label = (read_label_bounded 16 (line ++ (newline ∷ more))).0 in
      let (tag, tag_warned) = make_tag label in
      let (local, warned) = fn_bounds tag (a ∷ b ∷ []) in
      (tag ≡ 84 ∷ 65 ∷ 71 ∷ 58 ∷ label)
      × (tag_warned ≡ false)
      × (warned ≡ leb 15 (length line))
      × (local ≡ 91 ∷ (tag ++ (58 ∷ a ∷ b ∷ (if leb 15 (length line) then [] else 93 ∷ []))))
unfolding make_tag fn_bounds snprintf
banner_lem line more a b plain =
    let label = take 15 line in
    let len : length label ≡ min 15 (length line) = length-take 15 line in
    let same = take-all 15 label (omega (arith, len)) in
    let size : length (label ++ (58 ∷ a ∷ b ∷ 93 ∷ [])) ≡ length label + 4 =
      length-append label (58 ∷ a ∷ b ∷ 93 ∷ []) in
    rw (read_label_bounded_lem 16 line more plain, same)
      (
        refl,
        ground (arith, len),
        rw size (ground (arith, len)),
        ap (λ s. 91 ∷ 84 ∷ 65 ∷ 71 ∷ 58 ∷ s) (banner_text label a b (length line) len),
      )
