-- ===== src/Config/OptionTests.antt =====
-- src/config.c: runs of the options on concrete lines.
use newsbaoter.Common.{
  ℕ, ◌+◌, ◌-◌, ◌*◌, ◌^◌, ◌≡◌, refl, false, str_eq, some, List, [], ◌∷◌, Bytes, replicate, arith,
}
use newsbaoter.Common.Int.{ℤ, pos}
use newsbaoter.Common.Run.{ok}
use newsbaoter.Config.Words.{copy_strarr}
use newsbaoter.Config.Words.Cut.{IsWord, Spaced, AllSpaced, render}
use newsbaoter.Config.Options.{NbColor, get_color_type_index, get_color_name_index, copy_color}
use newsbaoter.Config.Options.Color.{colored, united, copy_color-render}

abbrev less : Bytes
less = b'l' ∷ b'e' ∷ b's' ∷ b's' ∷ []

-- two blanks before the option
abbrev less_options : List Spaced
less_options = record { blank = b' '; more = b' ' ∷ []; word = b'-' ∷ b'R' ∷ [] } ∷ []

unfoldable pub digits : ℕ → Bytes → ℕ
digits n [] = n
digits n (c ∷ s) = digits (n * 10 + (c - b'0')) s

abbrev pub decimal : Bytes → ℤ
decimal s = pos (digits 0 s)

abbrev pub bits : ℕ → ℕ
bits i = 2 ^ i

abbrev unset : NbColor
unset = record { color = 0; attr = 0; is_set = false }

abbrev info : Bytes
info = b'i' ∷ b'n' ∷ b'f' ∷ b'o' ∷ []

abbrev spaced : Bytes → Spaced
spaced s = record { blank = b' '; more = []; word = s }

abbrev green : Spaced
green = spaced (b'g' ∷ b'r' ∷ b'e' ∷ b'e' ∷ b'n' ∷ [])

abbrev color7 : Spaced
color7 = spaced (b'c' ∷ b'o' ∷ b'l' ∷ b'o' ∷ b'r' ∷ b'7' ∷ [])

abbrev bold : Spaced
bold = spaced (b'b' ∷ b'o' ∷ b'l' ∷ b'd' ∷ [])

info-IsWord : IsWord info
info-IsWord = (omega arith, (refl, (refl, (refl, (refl, tt)))))

colors-AllSpaced : AllSpaced (green ∷ color7 ∷ bold ∷ [])
colors-AllSpaced = (
  refl,
  tt,
  (omega arith, (refl, (refl, (refl, (refl, (refl, tt)))))),
  (
    refl,
    tt,
    (omega arith, (refl, (refl, (refl, (refl, (refl, (refl, tt))))))),
    (refl, tt, (omega arith, (refl, (refl, (refl, (refl, tt))))), tt),
  ),
)

copy_color-render_example :
    copy_color decimal bits (replicate 8 unset) (render info (green ∷ color7 ∷ bold ∷ []) [])
    ≡ ok (
        colored decimal bits
          (replicate 8 unset)
          (get_color_type_index info)
          (get_color_name_index decimal green.word)
          (get_color_name_index decimal color7.word)
          (united bits 0 (bold ∷ [])))
copy_color-render_example =
    copy_color-render decimal bits (replicate 8 unset) info green color7 (bold ∷ []) [] info-IsWord
      colors-AllSpaced

info_index : get_color_type_index info ≡ pos 5
unfolding get_color_type_index str_eq
info_index = refl

color7_index : get_color_name_index decimal color7.word ≡ pos 7
unfolding get_color_name_index str_eq digits
color7_index = refl

-- The second string keeps a blank.
less_strings :
    copy_strarr (render less less_options []) ≡ ok (some (less ∷ (b' ' ∷ b'-' ∷ b'R' ∷ []) ∷ []))
unfolding copy_strarr
less_strings = refl
