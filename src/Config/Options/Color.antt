-- ===== src/Config/Options/Color.antt =====
-- src/config.c, `copy_color` on a line of words.
use newsbaoter.Common.{
  ℕ, zero, suc, ◌<◌, bit_or, ◌≡◌, refl, Option, none, some, List, [], ◌∷◌, Bytes, length, set,
  arith,
}
use newsbaoter.Common.Int.{ℤ, pos, negsuc}
use newsbaoter.Common.Run.{ok}
use newsbaoter.Config.Words.{get_line_word}
use newsbaoter.Config.Words.Cut.{
  IsWord, Spaced, AllSpaced, render, get_line_word-last, get_line_word-next, length-render,
}
use newsbaoter.Config.Options.{
  NbColor, set_nbcolor, at_index, word_index, read_attrs, get_color_attr, get_color_type_index,
  get_color_name_index, copy_color,
}

-- the line after a word
abbrev pub after : List Spaced → Bytes → Bytes
after [] post = 0 ∷ post
after (s ∷ ss) post = render s.word ss post

pub get_line_word-render :
    (word : Bytes) (ss : List Spaced) (post : Bytes)
    → IsWord word
    → AllSpaced ss
    → (gap : Bytes) × (get_line_word (render word ss post)
        ≡ ok (some (record { word = word; gap = gap; next = after ss post })))
get_line_word-render word [] post h a = ([], get_line_word-last word post h)
get_line_word-render word (s ∷ ss) post h a = (0 ∷ s.more, get_line_word-next word s ss post h a)

pub word_index-render :
    (index : Bytes → ℤ) (word : Bytes) (ss : List Spaced) (post : Bytes)
    → IsWord word
    → AllSpaced ss
    → word_index index (render word ss post) ≡ ok (at_index (index word) (after ss post))
unfolding word_index
word_index-render index word ss post h a = rw (get_line_word-render word ss post h a).1

module _ (attr_value : ℕ → ℕ) where
  -- the attributes of some words, united
  abbrev pub united : ℕ → List Spaced → ℕ
  united cat [] = cat
  united cat (s ∷ ss) = united (bit_or cat (get_color_attr attr_value s.word)) ss

  read_attrs-after :
      (ss : List Spaced) (post : Bytes) (rounds cat : ℕ)
      → AllSpaced ss
      → length ss < rounds
      → read_attrs attr_value rounds cat (after ss post) ≡ ok (united cat ss)
  unfolding read_attrs get_line_word
  read_attrs-after ss post zero cat a e = absurd (omega arith)
  read_attrs-after [] post (suc r) cat a e = refl
  read_attrs-after (s ∷ ss) post (suc r) cat a e = rw (
    (get_line_word-render s.word ss post a.2 a.3).1,
    read_attrs-after ss post r (bit_or cat (get_color_attr attr_value s.word)) a.3 (omega arith),
  )

pub length-after :
    (ss : List Spaced) (post : Bytes) → AllSpaced ss → length ss < length (after ss post)
length-after [] post a = omega arith
length-after (s ∷ ss) post a = omega (arith, length-render s.word ss post a.2 a.3)

module _ (strtol : Bytes → ℤ) (attr_value : ℕ → ℕ) where
  -- what a line is to do, from the indices of its first three words and the attributes behind
  abbrev pub colored : List NbColor → ℤ → ℤ → ℤ → ℕ → Option (List NbColor)
  colored cd (pos t) (pos f) (pos b) cat = some (set cd t (set_nbcolor f b cat))
  colored cd (pos t) (pos f) (negsuc b) cat = none
  colored cd (pos t) (negsuc f) b cat = none
  colored cd (negsuc t) f b cat = none

  module _ (cd : List NbColor) (ty : Bytes) (fg bg : Spaced) (attrs : List Spaced) (post : Bytes)
      (is_word : IsWord ty) (spaced : AllSpaced (fg ∷ bg ∷ attrs)) where
    type_read :
        word_index get_color_type_index (render ty (fg ∷ bg ∷ attrs) post)
        ≡ ok (at_index (get_color_type_index ty) (render fg.word (bg ∷ attrs) post))
    type_read = word_index-render get_color_type_index ty (fg ∷ bg ∷ attrs) post is_word spaced

    front_read :
        word_index (get_color_name_index strtol) (render fg.word (bg ∷ attrs) post)
        ≡ ok (at_index (get_color_name_index strtol fg.word) (render bg.word attrs post))
    front_read =
        word_index-render (get_color_name_index strtol) fg.word (bg ∷ attrs) post spaced.2 spaced.3

    back_read :
        word_index (get_color_name_index strtol) (render bg.word attrs post)
        ≡ ok (at_index (get_color_name_index strtol bg.word) (after attrs post))
    back_read =
        word_index-render (get_color_name_index strtol) bg.word attrs post spaced.3.2 spaced.3.3

    attrs_read :
        read_attrs attr_value (length (after attrs post)) 0 (after attrs post)
        ≡ ok (united attr_value 0 attrs)
    attrs_read =
        read_attrs-after attr_value attrs post (length (after attrs post)) 0 spaced.3.3
          (length-after attrs post spaced.3.3)

    copy_color-indices :
        (t f b : ℤ)
        → get_color_type_index ty ≡ t
        → get_color_name_index strtol fg.word ≡ f
        → get_color_name_index strtol bg.word ≡ b
        → copy_color strtol attr_value cd (render ty (fg ∷ bg ∷ attrs) post)
          ≡ ok (colored cd t f b (united attr_value 0 attrs))
    unfolding copy_color
    copy_color-indices (pos t) (pos f) (pos b) et ef eb =
        rw (type_read, et, front_read, ef, back_read, eb, attrs_read)
    copy_color-indices (pos t) (pos f) (negsuc b) et ef eb =
        rw (type_read, et, front_read, ef, back_read, eb)
    copy_color-indices (pos t) (negsuc f) b et ef eb = rw (type_read, et, front_read, ef)
    copy_color-indices (negsuc t) f b et ef eb = rw (type_read, et)

    -- On a line of three words or more, copy_color sets the colour of the type that the first word
    -- names to the two colours that the next words name, with the attributes of all words behind
    -- united; where one of the three names nothing, it stores nothing and returns 1.
    pub copy_color-render :
        copy_color strtol attr_value cd (render ty (fg ∷ bg ∷ attrs) post)
        ≡ ok (
            colored cd
              (get_color_type_index ty)
              (get_color_name_index strtol fg.word)
              (get_color_name_index strtol bg.word)
              (united attr_value 0 attrs))
    copy_color-render = copy_color-indices _ _ _ refl refl refl
