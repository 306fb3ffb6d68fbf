-- ===== src/Colors/Shown.antt =====
-- src/ui/view.c and src/config.c: the colours that are shown, from the lines of the configuration.
use newsbaoter.Common.{
  ℕ, ◌<◌, ◌^◌, ◌≡◌, refl, ap, ◌∙◌, Bool, true, false, some, List, [], ◌∷◌, Bytes, length,
  length-set, get_or, get_or-set, set, ◌==◌, if◌then◌else◌, arith,
}
use newsbaoter.Common.Int.{ℤ, pos}
use newsbaoter.Common.Run.{ok, Returns}
use newsbaoter.Config.Options.{
  NbColor, set_nbcolor, get_color_type_index, get_color_name_index, copy_color,
}
use newsbaoter.Config.Options.Color.{united, copy_color-render}
use newsbaoter.Config.Words.Cut.{IsWord, Spaced, AllSpaced, render}
use newsbaoter.Colors.{
  Palette, init_pair, default_pairs, set_default_colors, set_config_colors, setup_colors, color_red,
  color_white, color_blue, color_cyan, cp_alert,
}
use newsbaoter.Colors.Pairs.{shown, front_back, get_nbcolor-set_nbcolor, set_config_from-shown}
use newsbaoter.Colors.Painted.{painted, set_color_pairs-IsPainted}

-- what is shown where nothing is configured: foreground, background and attributes
abbrev pub plain : ℕ → ℕ → NbColor
plain bold m =
    if m == 2
    then set_nbcolor color_cyan 0 bold
    else if m == 4
    then set_nbcolor color_cyan 0 bold
    else if m == 5
    then set_nbcolor color_white color_blue 0
    else set_nbcolor color_white 0 0

abbrev pub chosen : ℕ → NbColor → ℕ → NbColor
chosen bold c m = if c.is_set then c else plain bold m

painted-chosen :
    (bold m : ℕ) (c : NbColor) → 0 < m → m < 8 → painted (default_pairs bold) m c ≡ chosen bold c m
painted-chosen bold m c low high = ground arith

chosen_set : (bold m : ℕ) (c : NbColor) → (chosen bold c m).is_set ≡ true
chosen_set bold m c = ground arith

-- The pair of a type, and the colours that stand for it.
abbrev pub IsShown : NbColor → ℕ → NbColor → Palette → Type 0
IsShown d m c p = (get_or p.colors m d ≡ c) × (shown m p.pairs ≡ some (front_back c))

-- With a colour for each type, set or not, the calls for colours of setup_ui come back, and curses then
-- has for each type but the first the two colours that are configured, where some are, and the
-- default ones otherwise; the same colours, with their attributes, then stand in the configuration.
pub setup_colors-IsShown :
    (bold : ℕ) (cs : List NbColor) (d : NbColor) (m : ℕ)
    → length cs ≡ 8
    → 0 < m
    → m < 8
    → Returns (setup_colors bold cs) (IsShown d m (chosen bold (get_or cs m d) m))
unfolding setup_colors set_default_colors set_config_colors
setup_colors-IsShown bold cs d m eight low high =
    let p0 : Palette = record { colors = cs; pairs = [] } in
    let c : NbColor = chosen bold (get_or cs m d) m in
    let (p1, run, (len, color)) =
      set_color_pairs-IsPainted d (default_pairs bold) m p0 (omega (arith, eight)) in
    let p2 : Palette = init_pair cp_alert color_white color_red p1 in
    let here : get_or p1.colors m d ≡ c = color ∙ painted-chosen bold m (get_or cs m d) low high in
    let (p3, run3, (colors, pairs)) =
      set_config_from-shown d 8 0 m p2 (omega (arith, len, eight)) (omega arith) (omega arith)
        (ap (λ x. x.is_set) here ∙ chosen_set bold m (get_or cs m d)) in
    (
      p3,
      rw (run, run3),
      (ap (λ x. get_or x m d) colors ∙ here, pairs ∙ ap (λ x. some (front_back x)) here),
    )

of_line :
    (bold m f b a : ℕ) (c : NbColor)
    → f < 2 ^ 16
    → b < 2 ^ 16
    → (same : Bool)
    → front_back (chosen bold (if same then set_nbcolor f b a else c) m)
      ≡ (if same then (f, b) else front_back (chosen bold c m))
of_line bold m f b a c hf hb true =
    let p = get_nbcolor-set_nbcolor f b a hf hb in λ i. ((p i).0, (p i).1)
of_line bold m f b a c hf hb false = refl

module _ (strtol : Bytes → ℤ) (attr_value : ℕ → ℕ) (bold : ℕ) (cs : List NbColor) (d : NbColor)
    (eight : length cs ≡ 8) (ty : Bytes) (fg bg : Spaced) (attrs : List Spaced) (post : Bytes)
    (is_word : IsWord ty) (spaced : AllSpaced (fg ∷ bg ∷ attrs)) where
  abbrev pub written : ℕ → ℕ → ℕ → List NbColor
  written t f b = set cs t (set_nbcolor f b (united attr_value 0 attrs))

  after_line :
      (t f b m : ℕ)
      → t < 8
      → get_or (written t f b) m d
        ≡ (if m == t then set_nbcolor f b (united attr_value 0 attrs) else get_or cs m d)
  after_line t f b m h = get_or-set cs t m _ d (omega (arith, h, eight))

  -- A line `color` that names a type but the first, two colours below 2 ^ 16 and any attributes, in a
  -- configuration with a colour for each type: copy_color returns 0, and after the calls for colours
  -- of setup_ui curses has the two colours for that type, and for each other type but the first what
  -- it would have without the line.
  pub copy_color-shown :
      (t f b m : ℕ)
      → get_color_type_index ty ≡ pos t
      → get_color_name_index strtol fg.word ≡ pos f
      → get_color_name_index strtol bg.word ≡ pos b
      → 0 < t
      → t < 8
      → f < 2 ^ 16
      → b < 2 ^ 16
      → 0 < m
      → m < 8
      → (cs' : List NbColor) × (copy_color strtol attr_value cs (render ty (fg ∷ bg ∷ attrs) post)
          ≡ ok (some cs'))
        × Returns (setup_colors bold cs') (λ p.
          shown m p.pairs
          ≡ some (if m == t then (f, b) else front_back (chosen bold (get_or cs m d) m)))
  copy_color-shown t f b m et ef eb t_low t_high f_fits b_fits low high =
      let run = copy_color-render strtol attr_value cs ty fg bg attrs post is_word spaced in
      let (p, setup, (color, pairs)) =
        setup_colors-IsShown bold (written t f b) d m (length-set cs t _ ∙ eight) low high in
      (
        written t f b,
        rw (run, et, ef, eb),
        (
          p,
          setup,
          pairs
              ∙ ap (λ x. some (front_back (chosen bold x m))) (after_line t f b m t_high)
              ∙ ap some (
                  of_line bold m f b (united attr_value 0 attrs) (get_or cs m d) f_fits b_fits
                    (m == t)),
        ),
      )
