-- ===== src/Config/Words/Cut.antt =====
-- src/config.c: lines made of words and blanks, and the words cut off them.
use newsbaoter.Common.{
  ℕ, zero, suc, ◌+◌, ◌<◌, ◌≡◌, ◌≢◌, refl, true, false, some, List, [], ◌∷◌, ◌++◌, append_assoc, map,
  Bytes, length, length-append, arith,
}
use newsbaoter.Common.Run.{ok}
use newsbaoter.Config.Reader.{is_blank}
use newsbaoter.Config.Words.{
  ends_word, pass_word, pass_blanks, end_word, get_line_word, c_string, count_words, copy_strings,
  copy_strarr,
}

-- no NUL and no blank in it, and not empty
abbrev pub AllInWord : Bytes → Type 0
AllInWord [] = Unit
AllInWord (c ∷ cs) = (ends_word c ≡ false) × AllInWord cs

abbrev pub IsWord : Bytes → Type 0
IsWord cs = (0 < length cs) × AllInWord cs

abbrev pub AllBlank : Bytes → Type 0
AllBlank [] = Unit
AllBlank (c ∷ cs) = (is_blank c ≡ true) × AllBlank cs

-- A word behind blanks: the first one, and any more.
pub record Spaced : Type 0 where
  pub blank : ℕ
  pub more : Bytes
  pub word : Bytes

abbrev pub AllSpaced : List Spaced → Type 0
AllSpaced [] = Unit
AllSpaced (s ∷ ss) = (is_blank s.blank ≡ true) × AllBlank s.more × IsWord s.word × AllSpaced ss

-- the memory of a line, up to its NUL and on
abbrev pub render : Bytes → List Spaced → Bytes → Bytes
render word [] post = word ++ 0 ∷ post
render word (s ∷ ss) post = word ++ s.blank ∷ (s.more ++ render s.word ss post)

pass_word-append :
    (word : Bytes) (c : ℕ) (mem : Bytes)
    → AllInWord word
    → ends_word c ≡ true
    → pass_word (word ++ c ∷ mem) ≡ ok (word, c ∷ mem)
unfolding pass_word
pass_word-append [] c mem h e = rw e
pass_word-append (x ∷ word) c mem h e = rw (h.0, pass_word-append word c mem h.1 e)

pass_blanks-append :
    (blanks : Bytes) (c : ℕ) (mem : Bytes)
    → AllBlank blanks
    → is_blank c ≡ false
    → pass_blanks (blanks ++ c ∷ mem) ≡ ok (blanks, c ∷ mem)
unfolding pass_blanks
pass_blanks-append [] c mem h e = rw e
pass_blanks-append (x ∷ blanks) c mem h e = rw (h.0, pass_blanks-append blanks c mem h.1 e)

blank_ends : (c : ℕ) → is_blank c ≡ true → ends_word c ≡ true
blank_ends c h = ground arith

blank_nonzero : (c : ℕ) → is_blank c ≡ true → c ≢ 0
blank_nonzero c h = ground arith

word_nonzero : (c : ℕ) → ends_word c ≡ false → c ≢ 0
word_nonzero c h = ground arith

not_blank : (c : ℕ) → ends_word c ≡ false → is_blank c ≡ false
not_blank c h = ground arith

abbrev pub AllNonzero : Bytes → Type 0
AllNonzero [] = Unit
AllNonzero (c ∷ cs) = (c ≢ 0) × AllNonzero cs

pub AllNonzero-append : (xs ys : Bytes) → AllNonzero xs → AllInWord ys → AllNonzero (xs ++ ys)
AllNonzero-append [] [] h k = tt
AllNonzero-append [] (y ∷ ys) h k = (word_nonzero y k.0, AllNonzero-append [] ys tt k.1)
AllNonzero-append (x ∷ xs) ys h k = (h.0, AllNonzero-append xs ys h.1 k)

pub AllBlank-AllNonzero : (xs : Bytes) → AllBlank xs → AllNonzero xs
AllBlank-AllNonzero [] h = tt
AllBlank-AllNonzero (x ∷ xs) h = (blank_nonzero x h.0, AllBlank-AllNonzero xs h.1)

pub c_string-append : (s mem : Bytes) → AllNonzero s → c_string (s ++ 0 ∷ mem) ≡ ok (s, mem)
unfolding c_string
c_string-append [] mem h = refl
c_string-append (zero ∷ s) mem h = absurd (h.0 refl)
c_string-append (suc c ∷ s) mem h = rw (c_string-append s mem h.1)

pub get_line_word-last :
    (word post : Bytes)
    → IsWord word
    → get_line_word (word ++ 0 ∷ post)
      ≡ ok (some (record { word = word; gap = []; next = 0 ∷ post }))
unfolding get_line_word
get_line_word-last [] post h = absurd (omega (arith, h.0))
get_line_word-last (zero ∷ word) post h = absurd (word_nonzero 0 h.1.0 refl)
get_line_word-last (suc c ∷ word) post h = rw (pass_word-append (suc c ∷ word) 0 post h.1 refl)

pass_blanks-render :
    (more word : Bytes) (ss : List Spaced) (post : Bytes)
    → AllBlank more
    → IsWord word
    → pass_blanks (more ++ render word ss post) ≡ ok (more, render word ss post)
pass_blanks-render more [] ss post b h = absurd (omega (arith, h.0))
pass_blanks-render more (c ∷ word) [] post b h = pass_blanks-append more c _ b (not_blank c h.1.0)
pass_blanks-render more (c ∷ word) (s ∷ ss) post b h =
    pass_blanks-append more c _ b (not_blank c h.1.0)

end_word-blank :
    (word : Bytes) (c : ℕ) (mem more next : Bytes)
    → is_blank c ≡ true
    → pass_blanks mem ≡ ok (more, next)
    → end_word word (c ∷ mem) ≡ ok (record { word = word; gap = 0 ∷ more; next = next })
end_word-blank word zero mem more next b e = absurd (blank_nonzero 0 b refl)
end_word-blank word (suc c) mem more next b e = rw e

pub get_line_word-next :
    (word : Bytes) (s : Spaced) (ss : List Spaced) (post : Bytes)
    → IsWord word
    → AllSpaced (s ∷ ss)
    → get_line_word (render word (s ∷ ss) post)
      ≡ ok (some (record { word = word; gap = 0 ∷ s.more; next = render s.word ss post }))
unfolding get_line_word
get_line_word-next [] s ss post h a = absurd (omega (arith, h.0))
get_line_word-next (zero ∷ word) s ss post h a = absurd (word_nonzero 0 h.1.0 refl)
get_line_word-next (suc c ∷ word) s ss post h a = rw (
  pass_word-append (suc c ∷ word) s.blank _ h.1 (blank_ends s.blank a.0),
  end_word-blank (suc c ∷ word) s.blank (s.more ++ render s.word ss post) s.more
      (render s.word ss post) a.0 (pass_blanks-render s.more s.word ss post a.1 a.2),
)

-- the line after every word is ended
abbrev pub cut_up : Bytes → List Spaced → Bytes → Bytes
cut_up word [] post = word ++ 0 ∷ post
cut_up word (s ∷ ss) post = word ++ 0 ∷ (s.more ++ cut_up s.word ss post)

count_words-render :
    (word : Bytes) (ss : List Spaced) (post : Bytes) (rounds : ℕ)
    → IsWord word
    → AllSpaced ss
    → length ss + 1 < rounds
    → count_words rounds (render word ss post) ≡ ok (suc (length ss), cut_up word ss post)
unfolding count_words
count_words-render word ss post zero h a e = absurd (omega arith)
count_words-render word ss post (suc zero) h a e = absurd (omega arith)
count_words-render word [] post (suc (suc r)) h a e = rw (get_line_word-last word post h)
count_words-render word (s ∷ ss) post (suc (suc r)) h a e = rw (
  get_line_word-next word s ss post h a,
  count_words-render s.word ss post (suc r) a.2 a.3 (omega arith),
)

-- the strings that the second loop of `copy_strarr` finds
abbrev pub strings_of : List Spaced → List Bytes
strings_of ss = map (λ s. s.more ++ s.word) ss

copy_strings-cut_up :
    (pre word : Bytes) (ss : List Spaced) (post : Bytes)
    → AllNonzero pre
    → IsWord word
    → AllSpaced ss
    → copy_strings (suc (length ss)) (pre ++ cut_up word ss post)
      ≡ ok ((pre ++ word) ∷ strings_of ss)
unfolding copy_strings
copy_strings-cut_up pre word [] post n h a = rw (
  ← append_assoc pre word (0 ∷ post),
  c_string-append (pre ++ word) post (AllNonzero-append pre word n h.1),
)
copy_strings-cut_up pre word (s ∷ ss) post n h a = rw (
  ← append_assoc pre word (0 ∷ (s.more ++ cut_up s.word ss post)),
  c_string-append (pre ++ word) (s.more ++ cut_up s.word ss post)
      (AllNonzero-append pre word n h.1),
  copy_strings-cut_up s.more s.word ss post (AllBlank-AllNonzero s.more a.1) a.2 a.3,
)

pub length-render :
    (word : Bytes) (ss : List Spaced) (post : Bytes)
    → IsWord word
    → AllSpaced ss
    → length ss + 1 < length (render word ss post)
length-render word [] post h a = omega (arith, h.0, length-append word (0 ∷ post))
length-render word (s ∷ ss) post h a = omega (
  arith,
  h.0,
  length-append word (s.blank ∷ (s.more ++ render s.word ss post)),
  length-append s.more (render s.word ss post),
  length-render s.word ss post a.2 a.3,
)

-- On a line that begins with a word, copy_strarr stores the first word, and for each further word the
-- blanks before it, without the first one, with the word behind them.
pub copy_strarr-render :
    (word : Bytes) (ss : List Spaced) (post : Bytes)
    → IsWord word
    → AllSpaced ss
    → copy_strarr (render word ss post) ≡ ok (some (word ∷ strings_of ss))
unfolding copy_strarr
copy_strarr-render word ss post h a = rw (
  count_words-render word ss post (length (render word ss post)) h a
      (length-render word ss post h a),
  copy_strings-cut_up [] word ss post tt h a,
)
