-- ===== src/Config/Reader/Check.antt =====
-- `check_for_line` on the unread data of a buffer.
use newsbaoter.Common.{
  ℕ, zero, suc, ◌+◌, ◌-◌, ◌≤◌, ◌<◌, ◌≡◌, refl, sym, ◌∙◌, ap, true, false, [], ◌∷◌, ◌++◌,
  append_assoc, Bytes, length, length-append, length-drop, take, drop, leb, arith,
}
use newsbaoter.Config.Reader.{
  ConfRead, newline, skip_newlines, check_for_line, move_buf, move_front,
}
use newsbaoter.Config.Reader.Slices.{set-append, take-append, append-cons, length-concat}
use newsbaoter.Config.Reader.Scan.{
  newlines, IsLine, Holds, GivesLine, length-newlines, StartsLine, skip_newlines-append,
  find_newline-append, find_newline-none, skip_blanks_zero, check_found, check_none,
  move_front-append,
}

module _ (c : ConfRead) (n : ℕ) (text : Bytes) (h : Holds c (newlines n ++ text)) where
  -- the buffer up to the text that is left when the newlines are passed
  passed : Bytes
  passed = h.used ++ newlines n

  length-passed : length passed ≡ length h.used + n
  unfolding passed
  length-passed = omega (arith, length-append h.used (newlines n), length-newlines n)

  stored-passed : c.b_stored ≡ length passed + length text
  stored-passed =
      omega (arith, h.stored, length-passed, length-append (newlines n) text, length-newlines n)

  whole-passed : c.buf ≡ passed ++ (text ++ h.spare)
  unfolding passed
  whole-passed = h.whole ∙ simp append_assoc

  skip-passed : StartsLine text → skip_newlines c.buf (c.b_stored - c.l_ret) c.l_ret ≡ length passed
  skip-passed start =
      rw (h.whole, append_assoc (newlines n) text h.spare, h.returned)
        (skip_newlines-append n h.used text h.spare (c.b_stored - length h.used) start
            (omega (arith, stored-passed, length-passed))
          ∙ sym length-passed)

length-concat' : (xs : Bytes) (x : ℕ) → length (xs ++ x ∷ []) ≡ length xs + 1
length-concat' xs x = omega (arith, length-concat xs x)

StartsLine-append : (line rest : Bytes) → IsLine line → 0 < length line → StartsLine (line ++ rest)
StartsLine-append [] rest h lt = absurd (omega arith)
StartsLine-append (x ∷ line) rest h lt = h.0

module _ (c : ConfRead) (n : ℕ) (line rest : Bytes)
    (h : Holds c (newlines n ++ (line ++ newline ∷ rest))) where
  pub before_line : Bytes
  before_line = passed c n (line ++ newline ∷ rest) h

  abbrev cut_text : Bytes
  cut_text = line ++ 0 ∷ rest

  abbrev cut_buf : Bytes
  cut_buf = (before_line ++ line) ++ 0 ∷ (rest ++ h.spare)

  abbrev pub returned_line : ConfRead
  returned_line = record c {
    buf = cut_text ++ drop (length cut_text) (before_line ++ (cut_text ++ h.spare));
    b_stored = length cut_text;
    l_ret = length line + 1;
  }

  length-cut_text : length cut_text ≡ length (line ++ newline ∷ rest)
  length-cut_text =
      omega (arith, length-append line (0 ∷ rest), length-append line (newline ∷ rest))

  stored-before : c.b_stored ≡ length before_line + length cut_text
  unfolding before_line
  stored-before = omega (arith, stored-passed c n (line ++ newline ∷ rest) h, length-cut_text)

  whole-before : c.buf ≡ (before_line ++ line) ++ newline ∷ (rest ++ h.spare)
  unfolding before_line
  whole-before = whole-passed c n (line ++ newline ∷ rest) h ∙ simp append_assoc

  moved :
      move_buf
        (length (before_line ++ line))
        (record c { buf = cut_buf; l_ret = length before_line })
      ≡ returned_line
  moved =
      let stored : c.b_stored - length before_line ≡ length cut_text =
        omega (arith, stored-before) in
      let back : length (before_line ++ line) - length before_line + 1 ≡ length line + 1 =
        omega (arith, length-append before_line line) in
      let regroup : cut_buf ≡ before_line ++ (cut_text ++ h.spare) = simp append_assoc in
      let front =
        ap (move_front cut_buf (length before_line)) stored
        ∙ ap (λ b. move_front b (length before_line) (length cut_text)) regroup
        ∙ move_front-append before_line cut_text h.spare in
      λ i. record c { buf = front i; b_stored = stored i; l_ret = back i }

  text_at_front : take (length line + 1) returned_line.buf ≡ line ++ 0 ∷ []
  text_at_front =
      rw (← length-concat' line 0, ← append-cons line rest 0, append_assoc (line ++ 0 ∷ []))
        (take-append (line ++ 0 ∷ []) _)

  length-returned_line : length returned_line.buf ≡ c.b_alloc
  length-returned_line = omega (
    arith,
    h.sized,
    ap length whole-before,
    length-append (before_line ++ line) (newline ∷ (rest ++ h.spare)),
    length-append before_line line,
    length-append rest h.spare,
    length-append cut_text (drop (length cut_text) (before_line ++ (cut_text ++ h.spare))),
    length-drop (length cut_text) (before_line ++ (cut_text ++ h.spare)),
    length-append before_line (cut_text ++ h.spare),
    length-append cut_text h.spare,
    length-append line (0 ∷ rest),
  )

  module _ (is_line : IsLine line) (some_text : 0 < length line) where
    -- A line behind any newlines is cut off, ended by NUL and moved to the start of the buffer; what
    -- follows it is left unread.
    pub check_for_line-line : check_for_line c ≡ (returned_line, true)
    check_for_line-line =
        let find =
          find_newline-append before_line line (rest ++ h.spare) (c.b_stored - length before_line)
            is_line (omega (arith, stored-before, length-append line (0 ∷ rest))) in
        let len : length before_line ≡ length h.used + n =
          unfold before_line in length-passed c n (line ++ newline ∷ rest) h in
        check_found c (length before_line) (length (before_line ++ line)) cut_buf
          (omega (arith, stored-before, h.returned, length-append line (0 ∷ rest), len))
          (unfold before_line in
            skip-passed c n (line ++ newline ∷ rest) h (StartsLine-append line _ is_line some_text))
          (rw
            (
              whole-before,
              append_assoc before_line line (newline ∷ (rest ++ h.spare)),
              length-append,
            )
            find)
          (rw whole-before (set-append (before_line ++ line) (rest ++ h.spare) newline 0))
          (skip_blanks_zero (before_line ++ line) (rest ++ h.spare) _)
        ∙ ap (λ r. (r, true)) moved

    pub returned_line-GivesLine : GivesLine returned_line line rest
    returned_line-GivesLine = record {
      text = text_at_front;
      returned = refl;
      unread = record {
        used = line ++ 0 ∷ [];
        spare = drop (length cut_text) (before_line ++ (cut_text ++ h.spare));
        whole = simp append_assoc;
        returned = omega (arith, length-concat line 0);
        stored = omega (arith, length-append line (0 ∷ rest), length-concat line 0);
        sized = length-returned_line;
        has_room = omega (
          arith,
          h.has_room,
          length-drop (length cut_text) (before_line ++ (cut_text ++ h.spare)),
          length-append before_line (cut_text ++ h.spare),
          length-append cut_text h.spare,
        );
      };
    }

module _ (c : ConfRead) (n : ℕ) (line rest : Bytes)
    (h : Holds c (newlines n ++ (line ++ newline ∷ rest))) where
  pub check_for_line-GivesLine :
      IsLine line
      → 0 < length line
      → (c' : ConfRead) × (check_for_line c ≡ (c', true))
        × GivesLine c' line rest
        × (c'.eof ≡ c.eof)
  check_for_line-GivesLine is_line some_text = (
    returned_line c n line rest h,
    check_for_line-line c n line rest h is_line some_text,
    returned_line-GivesLine c n line rest h is_line some_text,
    refl,
  )

leb_of_le : (a b : ℕ) → b ≤ a → leb b a ≡ true
leb_of_le a b h = ground arith

pub check_empty : (c : ConfRead) → c.b_stored ≤ c.l_ret → check_for_line c ≡ (c, false)
unfolding check_for_line
check_empty c le = rw (leb_of_le c.l_ret c.b_stored le)

IsLine-StartsLine : (text : Bytes) → IsLine text → StartsLine text
IsLine-StartsLine [] h = h
IsLine-StartsLine (x ∷ text) h = h.0

module _ (c : ConfRead) (n : ℕ) (text : Bytes) (h : Holds c (newlines n ++ text))
    (is_line : IsLine text) where
  -- the newlines are passed
  abbrev skipped : ConfRead
  skipped = record c { l_ret = length (passed c n text h) }

  skipped-Holds : Holds skipped text
  skipped-Holds = record {
    used = passed c n text h;
    spare = h.spare;
    whole = whole-passed c n text h;
    returned = refl;
    stored = stored-passed c n text h;
    sized = h.sized;
    has_room = h.has_room;
  }

  check_skipped : 0 < n + length text → check_for_line c ≡ (skipped, false)
  check_skipped some_text =
      let find =
        find_newline-none (passed c n text h) text h.spare (c.b_stored - length (passed c n text h))
          is_line (omega (arith, stored-passed c n text h)) in
      check_none c (length (passed c n text h))
        (omega (arith, h.returned, stored-passed c n text h, length-passed c n text h))
        (skip-passed c n text h (IsLine-StartsLine text is_line))
        (rw (whole-passed c n text h) find)

-- Without a line there is none, and the newlines are passed.
pub check_for_line-none :
    (c : ConfRead) (n : ℕ) (text : Bytes)
    → Holds c (newlines n ++ text)
    → IsLine text
    → (c' : ConfRead) × (check_for_line c ≡ (c', false)) × Holds c' text × (c'.eof ≡ c.eof)
check_for_line-none c zero [] h is_line =
    (c, check_empty c (omega (arith, h.stored, h.returned)), h, refl)
check_for_line-none c zero (x ∷ text) h is_line = (
  skipped c 0 (x ∷ text) h is_line,
  check_skipped c 0 (x ∷ text) h is_line (omega arith),
  skipped-Holds c 0 (x ∷ text) h is_line,
  refl,
)
check_for_line-none c (suc n) text h is_line = (
  skipped c (suc n) text h is_line,
  check_skipped c (suc n) text h is_line (omega arith),
  skipped-Holds c (suc n) text h is_line,
  refl,
)
