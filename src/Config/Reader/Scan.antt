-- ===== src/Config/Reader/Scan.antt =====
-- The unread data of a buffer, and the loops of `check_for_line` over it.
use newsbaoter.Common.{
  ℕ, zero, suc, ◌+◌, ◌-◌, ◌<◌, ◌≡◌, ◌≢◌, refl, ◌∙◌, ap, true, false, Option, none, some, [], ◌∷◌,
  ◌++◌, Bytes, length, set, take, drop, leb, ◌==◌, arith,
}
use native.Mathlib.Numerals.{add-one}
use newsbaoter.Config.Reader.{
  ConfRead, newline, skip_newlines, find_newline, skip_blanks, check_for_line, move_buf, move_front,
}
use newsbaoter.Config.Reader.Slices.{
  get_or-append, take-append, drop-append, append-cons, length-concat,
}

-- `n` newlines
abbrev pub newlines : ℕ → Bytes
newlines zero = []
newlines (suc n) = newline ∷ newlines n

-- The unread data of `c` is `text`: it stands between what was returned and what is free, and one
-- byte at least is free.
pub record Holds (c : ConfRead) (text : Bytes) : Type 0 where
  pub used : Bytes
  pub spare : Bytes
  pub whole : c.buf ≡ used ++ (text ++ spare)
  pub returned : c.l_ret ≡ length used
  pub stored : c.b_stored ≡ length used + length text
  pub sized : length c.buf ≡ c.b_alloc
  pub has_room : 0 < length spare

-- no newline in it
abbrev pub IsLine : Bytes → Type 0
IsLine [] = Unit
IsLine (x ∷ xs) = (x ≢ newline) × IsLine xs

pub length-newlines : (n : ℕ) → length (newlines n) ≡ n
length-newlines zero = refl
length-newlines (suc n) = ap suc (length-newlines n)

ne-newline : (x : ℕ) → x ≢ newline → (x == newline) ≡ false
ne-newline x h = ground arith

-- The text behind the newlines does not begin with one.
abbrev pub StartsLine : Bytes → Type 0
StartsLine [] = Unit
StartsLine (x ∷ xs) = x ≢ newline

-- the loop's next round, seen with one more byte in front of the cut
module _ (f : Bytes → ℕ → ℕ) where
  next_cut :
      (used rest : Bytes) (x k : ℕ)
      → f ((used ++ x ∷ []) ++ rest) (length (used ++ x ∷ [])) ≡ k
      → f (used ++ x ∷ rest) (length used + 1) ≡ k
  next_cut used rest x k h =
      rw (add-one (length used)) (rw (append-cons used rest x, length-concat used x) at h)

module _ (f : Bytes → ℕ → Option ℕ) where
  next_cut? :
      (used rest : Bytes) (x : ℕ) (k : Option ℕ)
      → f ((used ++ x ∷ []) ++ rest) (length (used ++ x ∷ [])) ≡ k
      → f (used ++ x ∷ rest) (length used + 1) ≡ k
  next_cut? used rest x k h =
      rw (add-one (length used)) (rw (append-cons used rest x, length-concat used x) at h)

pub skip_newlines-append :
    (n : ℕ) (used text spare : Bytes) (rounds : ℕ)
    → StartsLine text
    → rounds ≡ n + length text
    → skip_newlines (used ++ (newlines n ++ (text ++ spare))) rounds (length used) ≡ length used + n
unfolding skip_newlines
skip_newlines-append zero used text spare zero h e = omega arith
skip_newlines-append zero used [] spare (suc r) h e = absurd (omega arith)
skip_newlines-append zero used (x ∷ text) spare (suc r) h e =
    rw (get_or-append used (text ++ spare) x 0, ne-newline x h) (omega arith)
skip_newlines-append (suc n) used text spare zero h e = absurd (omega arith)
skip_newlines-append (suc n) used text spare (suc r) h e =
    rw (get_or-append used (newlines n ++ (text ++ spare)) newline 0) (
      next_cut (λ b. skip_newlines b r) used _ newline _
        (skip_newlines-append n (used ++ newline ∷ []) text spare r h (omega arith)
          ∙ omega (arith, length-concat used newline)))

pub find_newline-append :
    (used line rest : Bytes) (rounds : ℕ)
    → IsLine line
    → length line < rounds
    → find_newline (used ++ (line ++ newline ∷ rest)) rounds (length used)
      ≡ some (length used + length line)
unfolding find_newline
find_newline-append used line rest zero h e = absurd (omega arith)
find_newline-append used [] rest (suc r) h e =
    rw (get_or-append used rest newline 0) (ap some (omega arith))
find_newline-append used (x ∷ line) rest (suc r) h e =
    rw (get_or-append used (line ++ newline ∷ rest) x 0, ne-newline x h.0)
      (next_cut? (λ b. find_newline b r) used _ x _
        (find_newline-append (used ++ x ∷ []) line rest r h.1 (omega arith)
          ∙ ap some (omega (arith, length-concat used x))))

pub find_newline-none :
    (used text spare : Bytes) (rounds : ℕ)
    → IsLine text
    → rounds ≡ length text
    → find_newline (used ++ (text ++ spare)) rounds (length used) ≡ none
unfolding find_newline
find_newline-none used text spare zero h e = refl
find_newline-none used [] spare (suc r) h e = absurd (omega arith)
find_newline-none used (x ∷ text) spare (suc r) h e =
    rw (get_or-append used (text ++ spare) x 0, ne-newline x h.0)
      (next_cut? (λ b. find_newline b r) used _ x _
        (find_newline-none (used ++ x ∷ []) text spare r h.1 (omega arith)))

-- The byte just cleared is no blank.
pub skip_blanks_zero :
    (used rest : Bytes) (rounds : ℕ)
    → skip_blanks (used ++ 0 ∷ rest) rounds (length used) ≡ length used
unfolding skip_blanks
skip_blanks_zero used rest zero = refl
skip_blanks_zero used rest (suc r) = rw (get_or-append used rest 0 0)

pub leb_of_lt : (a b : ℕ) → a < b → leb b a ≡ false
leb_of_lt a b h = ground arith

pub check_found :
    (c : ConfRead) (from i : ℕ) (cut : Bytes)
    → c.l_ret < c.b_stored
    → skip_newlines c.buf (c.b_stored - c.l_ret) c.l_ret ≡ from
    → find_newline c.buf (c.b_stored - from) from ≡ some i
    → set c.buf i 0 ≡ cut
    → skip_blanks cut (c.b_stored - i) i ≡ i
    → check_for_line c ≡ (move_buf i (record c { buf = cut; l_ret = from }), true)
unfolding check_for_line
check_found c from i cut lt skip find write blanks =
    rw (leb_of_lt c.l_ret c.b_stored lt, skip, find, check_for_line, write, blanks, skip)

pub check_none :
    (c : ConfRead) (from : ℕ)
    → c.l_ret < c.b_stored
    → skip_newlines c.buf (c.b_stored - c.l_ret) c.l_ret ≡ from
    → find_newline c.buf (c.b_stored - from) from ≡ none
    → check_for_line c ≡ (record c { l_ret = from }, false)
unfolding check_for_line
check_none c from lt skip find =
    rw (leb_of_lt c.l_ret c.b_stored lt, skip, find, check_for_line, skip)

-- the text in front of the cut moves to the start of the buffer
pub move_front-append :
    (used text spare : Bytes)
    → move_front (used ++ (text ++ spare)) (length used) (length text)
      ≡ text ++ drop (length text) (used ++ (text ++ spare))
move_front-append used text spare = rw (drop-append used (text ++ spare), take-append text spare)

-- `c'` has the line, ended by NUL, at the start of its buffer, and `rest` unread.
pub record GivesLine (c' : ConfRead) (line rest : Bytes) : Type 0 where
  pub text : take (length line + 1) c'.buf ≡ line ++ 0 ∷ []
  pub returned : c'.l_ret ≡ length line + 1
  pub unread : Holds c' rest
