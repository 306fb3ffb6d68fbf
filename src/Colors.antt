-- ===== src/Colors.antt =====
-- src/ui/view.c, the pairs of colours that curses is given, from the colours of src/config.c. `init_pair`
-- of curses is outside: a call of it is kept with its pair, foreground and background, the last one in
-- front.
pub mod Pairs
pub mod Painted
pub mod Shown
mod Tests
use newsbaoter.Common.{
  ℕ, zero, suc, ◌+◌, ◌-◌, ◌/◌, ◌^◌, bit_and, Bool, Option, none, some, List, [], ◌∷◌, get_elem?,
  set, ◌==◌, if◌then◌else◌,
}
use newsbaoter.Common.Run.{Run, ok, fault, out_of_bounds, ◌>>=◌}
use newsbaoter.Config.Options.{NbColor, set_nbcolor}

-- foreground, background and attributes
unfoldable pub get_nbcolor : NbColor → ℕ × ℕ × ℕ
get_nbcolor cd = (bit_and cd.color (2 ^ 16 - 1), cd.color / 2 ^ 16, cd.attr)

-- `global_config.colors` and the calls of `init_pair`
pub record Palette : Type 0 where
  pub colors : List NbColor
  pub pairs : List (ℕ × ℕ × ℕ)

abbrev pub init_pair : ℕ → ℕ → ℕ → Palette → Palette
init_pair n f b p = record p { pairs = (n, f, b) ∷ p.pairs }

unfoldable pub set_color_pair : ℕ → ℕ → ℕ → ℕ → Palette → Run Palette
set_color_pair n f b a p = elim (get_elem? p.colors n) [
  | none ↦ fault out_of_bounds
  | some c ↦ ok (
      init_pair n f b
        (record p { colors = if c.is_set then p.colors else set p.colors n (set_nbcolor f b a) }))
]

abbrev pub color_red : ℕ
color_red = 1

abbrev pub color_blue : ℕ
color_blue = 4

abbrev pub color_cyan : ℕ
color_cyan = 6

abbrev pub color_white : ℕ
color_white = 7

-- `enum nbcolor_cp`
abbrev pub cp_listnormal : ℕ
cp_listnormal = 1

abbrev pub cp_listfocus : ℕ
cp_listfocus = 2

abbrev pub cp_listnormal_ur : ℕ
cp_listnormal_ur = 3

abbrev pub cp_listfocus_ur : ℕ
cp_listfocus_ur = 4

abbrev pub cp_info : ℕ
cp_info = 5

abbrev pub cp_article : ℕ
cp_article = 6

abbrev pub cp_background : ℕ
cp_background = 7

abbrev pub cp_null : ℕ
cp_null = 8

abbrev pub cp_alert : ℕ
cp_alert = 9

-- the arguments of a call of `set_color_pair`
pub record PairArgs : Type 0 where
  pub n : ℕ
  pub f : ℕ
  pub b : ℕ
  pub a : ℕ

abbrev pub args : ℕ → ℕ → ℕ → ℕ → PairArgs
args n f b a = record { n = n; f = f; b = b; a = a }

unfoldable pub set_color_pairs : List PairArgs → Palette → Run Palette
set_color_pairs [] p = ok p
set_color_pairs (x ∷ xs) p = set_color_pair x.n x.f x.b x.a p >>= set_color_pairs xs

-- the calls that `set_default_colors` makes; `bold` is A_BOLD of curses
abbrev pub default_pairs : ℕ → List PairArgs
default_pairs bold =
    args cp_listnormal color_white 0 0
    ∷ args cp_listnormal_ur color_white 0 0
    ∷ args cp_listfocus color_cyan 0 bold
    ∷ args cp_listfocus_ur color_cyan 0 bold
    ∷ args cp_info color_white color_blue 0
    ∷ args cp_article color_white 0 0
    ∷ args cp_background color_white 0 0
    ∷ []

unfoldable pub set_default_colors : ℕ → Palette → Run Palette
unfolding set_color_pairs
set_default_colors bold p = set_color_pairs (default_pairs bold) p >>= λ p'.
    ok (init_pair cp_alert color_white color_red p')

-- The loop of `set_config_colors`, by the rounds left.
unfoldable pub set_config_from : ℕ → ℕ → Palette → Run Palette
set_config_from zero i p = ok p
set_config_from (suc rounds) i p = elim (get_elem? p.colors i) [
  | none ↦ fault out_of_bounds
  | some c ↦
      set_config_from rounds (i + 1)
        (if c.is_set then init_pair i (get_nbcolor c).0 (get_nbcolor c).1 p else p)
]

unfoldable pub set_config_colors : Palette → Run Palette
unfolding set_config_from
set_config_colors p = set_config_from cp_null 0 p

-- the calls for colours that `setup_ui` makes
unfoldable pub setup_colors : ℕ → List NbColor → Run Palette
unfolding set_default_colors set_config_colors
setup_colors bold colors =
    set_default_colors bold (record { colors = colors; pairs = [] }) >>= set_config_colors
