-- ===== src/Config/Words.antt =====
-- src/config.c, the words of a line: `get_line_word`, `copy_str` and `copy_strarr`. A pointer into the
-- line is the memory from it on, and a read behind the last byte of that memory is a fault. The line
-- is cut in place: what a call writes is part of its result.
pub mod Cut
pub mod Ends
use newsbaoter.Common.{
  ℕ, zero, suc, ◌+◌, ◌≡◌, Bool, true, false, ◌||◌, Option, none, some, List, [], ◌∷◌, ◌++◌, Bytes,
  length, ◌==◌, if◌then◌else◌,
}
use newsbaoter.Common.Run.{Run, ok, fault, out_of_bounds, diverges, ◌>>=◌}
use newsbaoter.Config.Reader.{is_blank}

abbrev pub ends_word : ℕ → Bool
ends_word c = c == 0 || is_blank c

-- the bytes that the first loop passes, and the memory from `p` on
unfoldable pub pass_word : Bytes → Run (Bytes × Bytes)
pass_word [] = fault out_of_bounds
pass_word (c ∷ mem) =
    let rest = pass_word mem in
    if ends_word c then ok ([], c ∷ mem) else (rest >>= λ r. ok (c ∷ r.0, r.1))

-- the same for the loop over blanks, from `np` on
unfoldable pub pass_blanks : Bytes → Run (Bytes × Bytes)
pass_blanks [] = fault out_of_bounds
pass_blanks (c ∷ mem) =
    let rest = pass_blanks mem in
    if is_blank c then (rest >>= λ r. ok (c ∷ r.0, r.1)) else ok ([], c ∷ mem)

-- A word; the memory after the call is `word ++ gap ++ next`, with the byte written at `p` the first
-- of `gap`, or of `next` where the line ends with the word.
pub record Word : Type 0 where
  pub word : Bytes
  pub gap : Bytes
  pub next : Bytes

-- `*p=0`, on the memory from `p` on
abbrev pub end_word : Bytes → Bytes → Run Word
end_word word [] = fault out_of_bounds
end_word word (zero ∷ mem) = ok (record { word = word; gap = []; next = zero ∷ mem })
end_word word (suc c ∷ mem) =
    pass_blanks mem >>= λ r. ok (record { word = word; gap = zero ∷ r.0; next = r.1 })

-- `buf` is no NULL; the result is `none` for NULL.
unfoldable pub get_line_word : Bytes → Run (Option Word)
unfolding pass_word pass_blanks
get_line_word [] = fault out_of_bounds
get_line_word (zero ∷ mem) = ok none
get_line_word (suc c ∷ mem) = pass_word (suc c ∷ mem) >>= λ r. end_word r.0 r.1 >>= λ w. ok (some w)

-- a string, and the memory behind its NUL
unfoldable pub c_string : Bytes → Run (Bytes × Bytes)
c_string [] = fault out_of_bounds
c_string (zero ∷ mem) = ok ([], mem)
c_string (suc c ∷ mem) = c_string mem >>= λ r. ok (suc c ∷ r.0, r.1)

-- `copy_str`: the string stored, or `none` where the result is 1
unfoldable pub copy_str : Bytes → Run (Option Bytes)
unfolding get_line_word c_string
copy_str next = get_line_word next >>= λ v. elim v [
  | none ↦ ok none
  | some w ↦ c_string (w.word ++ (w.gap ++ w.next)) >>= λ r. ok (some r.0)
]

-- The first loop of `copy_strarr`: the number of words, and the memory after it.
unfoldable pub count_words : ℕ → Bytes → Run (ℕ × Bytes)
unfolding get_line_word
count_words zero next = fault diverges
count_words (suc rounds) next = get_line_word next >>= λ v. elim v [
  | none ↦ ok (0, next)
  | some w ↦ count_words rounds w.next >>= λ r. ok (suc r.0, w.word ++ (w.gap ++ r.1))
]

-- Its second loop: `n` strings, one behind the other.
unfoldable pub copy_strings : ℕ → Bytes → Run (List Bytes)
unfolding c_string
copy_strings zero v = ok []
copy_strings (suc n) v = c_string v >>= λ r. copy_strings n r.1 >>= λ ss. ok (r.0 ∷ ss)

-- `copy_strarr`, on as many rounds as the line has bytes
unfoldable pub copy_strarr : Bytes → Run (Option (List Bytes))
unfolding count_words copy_strings
copy_strarr next = count_words (length next) next >>= λ r. elim r.0 [
  | zero ↦ ok none
  | suc n ↦ copy_strings (suc n) r.1 >>= λ ss. ok (some ss)
]
