-- ===== src/Config/Options.antt =====
-- src/config.c: colours, integers and Booleans of the options. strtol(3) in base ten and the values
-- of the attributes of curses are arguments.
pub mod Color
pub mod Ends
use newsbaoter.Common.{
  ℕ, zero, suc, ◌+◌, ◌*◌, ◌%◌, ◌^◌, bit_or, ◌≡◌, Bool, true, false, ◌||◌, Option, none, some, List,
  [], ◌∷◌, Bytes, length, set, get_or, str_eq, ◌==◌, if◌then◌else◌,
}
use newsbaoter.Common.Int.{ℤ, pos, negsuc}
use newsbaoter.Common.Run.{Run, ok, fault, diverges, ◌>>=◌}
use newsbaoter.Config.Words.{Word, get_line_word}

abbrev pub color_type_strings : List Bytes
color_type_strings =
    (b'n' ∷ b'o' ∷ b't' ∷ b'a' ∷ b'c' ∷ b'o' ∷ b'l' ∷ b'o' ∷ b'r' ∷ [])
    ∷ (b'l' ∷ b'i' ∷ b's' ∷ b't' ∷ b'n' ∷ b'o' ∷ b'r' ∷ b'm' ∷ b'a' ∷ b'l' ∷ [])
    ∷ (b'l' ∷ b'i' ∷ b's' ∷ b't' ∷ b'f' ∷ b'o' ∷ b'c' ∷ b'u' ∷ b's' ∷ [])
    ∷ (b'l' ∷ b'i' ∷ b's' ∷ b't' ∷ b'n' ∷ b'o' ∷ b'r' ∷ b'm' ∷ b'a' ∷ b'l' ∷ b'_' ∷ b'u' ∷ b'n'
        ∷ b'r' ∷ b'e' ∷ b'a' ∷ b'd' ∷ [])
    ∷ (b'l' ∷ b'i' ∷ b's' ∷ b't' ∷ b'f' ∷ b'o' ∷ b'c' ∷ b'u' ∷ b's' ∷ b'_' ∷ b'u' ∷ b'n' ∷ b'r'
        ∷ b'e' ∷ b'a' ∷ b'd' ∷ [])
    ∷ (b'i' ∷ b'n' ∷ b'f' ∷ b'o' ∷ [])
    ∷ (b'a' ∷ b'r' ∷ b't' ∷ b'i' ∷ b'c' ∷ b'l' ∷ b'e' ∷ [])
    ∷ (b'b' ∷ b'a' ∷ b'c' ∷ b'k' ∷ b'g' ∷ b'r' ∷ b'o' ∷ b'u' ∷ b'n' ∷ b'd' ∷ [])
    ∷ []

abbrev pub color_name_strings : List Bytes
color_name_strings =
    (b'b' ∷ b'l' ∷ b'a' ∷ b'c' ∷ b'k' ∷ [])
    ∷ (b'r' ∷ b'e' ∷ b'd' ∷ [])
    ∷ (b'g' ∷ b'r' ∷ b'e' ∷ b'e' ∷ b'n' ∷ [])
    ∷ (b'y' ∷ b'e' ∷ b'l' ∷ b'l' ∷ b'o' ∷ b'w' ∷ [])
    ∷ (b'b' ∷ b'l' ∷ b'u' ∷ b'e' ∷ [])
    ∷ (b'm' ∷ b'a' ∷ b'g' ∷ b'e' ∷ b'n' ∷ b't' ∷ b'a' ∷ [])
    ∷ (b'c' ∷ b'y' ∷ b'a' ∷ b'n' ∷ [])
    ∷ (b'w' ∷ b'h' ∷ b'i' ∷ b't' ∷ b'e' ∷ [])
    ∷ []

-- the names of `curses_attr_map`
abbrev pub attr_names : List Bytes
attr_names =
    (b's' ∷ b't' ∷ b'a' ∷ b'n' ∷ b'd' ∷ b'o' ∷ b'u' ∷ b't' ∷ [])
    ∷ (b'u' ∷ b'n' ∷ b'd' ∷ b'e' ∷ b'r' ∷ b'l' ∷ b'i' ∷ b'n' ∷ b'e' ∷ [])
    ∷ (b'r' ∷ b'e' ∷ b'v' ∷ b'e' ∷ b'r' ∷ b's' ∷ b'e' ∷ [])
    ∷ (b'b' ∷ b'l' ∷ b'i' ∷ b'n' ∷ b'k' ∷ [])
    ∷ (b'd' ∷ b'i' ∷ b'm' ∷ [])
    ∷ (b'b' ∷ b'o' ∷ b'l' ∷ b'd' ∷ [])
    ∷ (b'p' ∷ b'r' ∷ b'o' ∷ b't' ∷ b'e' ∷ b'c' ∷ b't' ∷ [])
    ∷ (b'i' ∷ b'n' ∷ b'v' ∷ b'i' ∷ b's' ∷ [])
    ∷ []

-- The loops over the arrays of names.
unfoldable pub find_name : List Bytes → ℕ → Bytes → ℤ
find_name [] i s = negsuc 0
find_name (n ∷ ns) i s = let rest = find_name ns (i + 1) s in if str_eq n s then pos i else rest

unfoldable pub get_color_type_index : Bytes → ℤ
unfolding find_name
get_color_type_index s = find_name color_type_strings 0 s

-- `s+i` after the loop over `ebc`, where that is passed
unfoldable pub strip_prefix : Bytes → Bytes → Option Bytes
strip_prefix [] s = some s
strip_prefix (e ∷ ebc) [] = none
strip_prefix (e ∷ ebc) (c ∷ s) = let rest = strip_prefix ebc s in if e == c then rest else none

-- `nbcolor_t`
pub record NbColor : Type 0 where
  pub color : ℕ
  pub attr : ℕ
  pub is_set : Bool

abbrev pub set_nbcolor : ℕ → ℕ → ℕ → NbColor
set_nbcolor cfi cbi attr = record {
  color = bit_or cfi (cbi * 2 ^ 16 % 2 ^ 32);
  attr = attr;
  is_set = true;
}

module _ (strtol : Bytes → ℤ) where
  unfoldable pub get_color_name_index : Bytes → ℤ
  unfolding strip_prefix find_name
  get_color_name_index s = elim (strip_prefix (b'c' ∷ b'o' ∷ b'l' ∷ b'o' ∷ b'r' ∷ []) s) [
    | some number ↦ strtol number
    | none ↦ find_name color_name_strings 0 s
  ]

  -- `copy_int`: the number stored, or `none` where the result is 1
  unfoldable pub copy_int : Bytes → Run (Option ℤ)
  unfolding get_line_word
  copy_int next = get_line_word next >>= λ v. elim v [
    | none ↦ ok none
    | some w ↦
        let c = get_or w.word 0 0 in
        ok (
          some (
            if c == b'y' || c == b'Y'
            then pos 1
            else if c == b'n' || c == b'N'
            then pos 0
            else strtol w.word))
  ]

module _ (attr_value : ℕ → ℕ) where
  unfoldable pub find_attr : List Bytes → ℕ → Bytes → ℕ
  find_attr [] i s = 0
  find_attr (n ∷ ns) i s =
      let rest = find_attr ns (i + 1) s in if str_eq n s then attr_value i else rest

  abbrev pub get_color_attr : Bytes → ℕ
  get_color_attr s = find_attr attr_names 0 s

  -- The loop over the attributes of `copy_color`.
  unfoldable pub read_attrs : ℕ → ℕ → Bytes → Run ℕ
  unfolding get_line_word
  read_attrs zero cat next = fault diverges
  read_attrs (suc rounds) cat next = get_line_word next >>= λ v. elim v [
    | none ↦ ok cat
    | some w ↦ read_attrs rounds (bit_or cat (get_color_attr w.word)) w.next
  ]

-- The index of the next word, or `none` where `copy_color` returns 1.
abbrev pub at_index : ℤ → Bytes → Option (ℕ × Bytes)
at_index (pos i) next = some (i, next)
at_index (negsuc i) next = none

unfoldable pub word_index : (Bytes → ℤ) → Bytes → Run (Option (ℕ × Bytes))
unfolding get_line_word
word_index index next = get_line_word next >>= λ v. elim v [
  | none ↦ ok none
  | some w ↦ ok (at_index (index w.word) w.next)
]

module _ (strtol : Bytes → ℤ) (attr_value : ℕ → ℕ) where
  -- `copy_color`: the array of colours after it, or `none` where the result is 1
  unfoldable pub copy_color : List NbColor → Bytes → Run (Option (List NbColor))
  copy_color cd next = word_index get_color_type_index next >>= λ a. elim a [
    | none ↦ ok none
    | some (cti, next1) ↦ word_index (get_color_name_index strtol) next1 >>= λ b. elim b [
      | none ↦ ok none
      | some (cfi, next2) ↦ word_index (get_color_name_index strtol) next2 >>= λ c. elim c [
        | none ↦ ok none
        | some (cbi, next3) ↦ read_attrs attr_value (length next3) 0 next3 >>= λ cat.
            ok (some (set cd cti (set_nbcolor cfi cbi cat)))
      ]
    ]
  ]
