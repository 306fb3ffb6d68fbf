-- ===== src/Colors/Tests.antt =====
-- src/ui/view.c: colours on concrete lines.
use newsbaoter.Common.{
  ℕ, ◌≡◌, refl, some, List, [], ◌∷◌, Bytes, codes, str_eq, false, get_or, ◌==◌, if◌then◌else◌,
  arith,
}
use newsbaoter.Common.Int.{ℤ, pos}
use newsbaoter.Common.Run.{ok, Returns}
use newsbaoter.Config.Words.Cut.{IsWord, Spaced, AllSpaced, render}
use newsbaoter.Config.Options.{
  NbColor, set_nbcolor, get_color_type_index, get_color_name_index, copy_color,
}
use newsbaoter.Colors.{setup_colors}
use newsbaoter.Colors.Pairs.{shown, front_back}
use newsbaoter.Colors.Shown.{IsShown, chosen, setup_colors-IsShown, copy_color-shown}

abbrev unset : NbColor
unset = record { color = 0; attr = 0; is_set = false }

-- the information line is green on black
abbrev some_colors : List NbColor
some_colors = unset ∷ unset ∷ unset ∷ unset ∷ unset ∷ set_nbcolor 2 0 0 ∷ unset ∷ unset ∷ []

setup_colors-IsShown_example :
    Returns
      (setup_colors 32 some_colors)
      (IsShown unset 5 (chosen 32 (get_or some_colors 5 unset) 5))
setup_colors-IsShown_example =
    setup_colors-IsShown 32 some_colors unset 5 refl (omega arith) (omega arith)

abbrev no_number : Bytes → ℤ
no_number s = pos 0

abbrev no_attrs : ℕ → ℕ
no_attrs i = 0

abbrev spaced : Bytes → Spaced
spaced s = record { blank = b' '; more = []; word = s }

abbrev info : Bytes
info = codes "info"

abbrev colors_of_line : List Spaced
colors_of_line = spaced (codes "green") ∷ spaced (codes "blue") ∷ []

info-IsWord : IsWord info
info-IsWord = ground arith

colors_of_line-AllSpaced : AllSpaced colors_of_line
colors_of_line-AllSpaced = ground arith

info_index : get_color_type_index info ≡ pos 5
unfolding get_color_type_index str_eq
info_index = refl

green_index : get_color_name_index no_number (codes "green") ≡ pos 2
unfolding get_color_name_index str_eq
green_index = refl

blue_index : get_color_name_index no_number (codes "blue") ≡ pos 4
unfolding get_color_name_index str_eq
blue_index = refl

copy_color-shown_example :
    (cs' : List NbColor) × (copy_color no_number no_attrs some_colors
        (render info colors_of_line [])
      ≡ ok (some cs'))
    × Returns (setup_colors 32 cs') (λ p.
      shown 5 p.pairs
      ≡ some (if 5 == 5 then (2, 4) else front_back (chosen 32 (get_or some_colors 5 unset) 5)))
copy_color-shown_example =
    copy_color-shown no_number no_attrs 32 some_colors unset refl info (spaced (codes "green"))
      (spaced (codes "blue")) [] [] info-IsWord colors_of_line-AllSpaced 5 2 4 5 info_index
      green_index blue_index (omega arith) (omega arith) (omega arith) (omega arith) (omega arith)
      (omega arith)
