-- ===== src/Colors/Painted.antt =====
-- src/ui/view.c: what the calls of `set_color_pair` make of the colours.
use newsbaoter.Common.{
  ℕ, ◌<◌, ◌≡◌, refl, sym, subst, ap, ◌∙◌, true, false, List, [], ◌∷◌, length, get_or,
  get_elem?-get_or, get_or-set, set, length-set, inl, inr, Bool-cases, ℕ_discrete, ◌==◌,
  if◌then◌else◌, arith,
}
use newsbaoter.Common.Run.{Returns, Returns->>=}
use newsbaoter.Config.Options.{NbColor, set_nbcolor}
use newsbaoter.Colors.{Palette, PairArgs, init_pair, set_color_pair, set_color_pairs}

-- a colour after a call of `set_color_pair`
abbrev pub painted_by : PairArgs → ℕ → NbColor → NbColor
painted_by x m c = if m == x.n then (if c.is_set then c else set_nbcolor x.f x.b x.a) else c

abbrev pub painted : List PairArgs → ℕ → NbColor → NbColor
painted [] m c = c
painted (x ∷ xs) m c = painted xs m (painted_by x m c)

abbrev pub AllBelow : ℕ → List PairArgs → Type 0
AllBelow k [] = Unit
AllBelow k (x ∷ xs) = (x.n < k) × AllBelow k xs

module _ (d : NbColor) (x : PairArgs) (m : ℕ) (cs : List NbColor) where
  left_set : (get_or cs x.n d).is_set ≡ true → get_or cs m d ≡ painted_by x m (get_or cs m d)
  left_set is_set = elim (ℕ_discrete m x.n) [
    | yes e ↦ ground (arith, ap (λ k. (get_or cs k d).is_set) e)
    | no ne ↦ ground arith
  ]

  newly_set :
      x.n < length cs
      → (get_or cs x.n d).is_set ≡ false
      → get_or (set cs x.n (set_nbcolor x.f x.b x.a)) m d ≡ painted_by x m (get_or cs m d)
  newly_set h unset = get_or-set cs x.n m (set_nbcolor x.f x.b x.a) d h ∙ elim (ℕ_discrete m x.n) [
    | yes e ↦ ground (arith, ap (λ k. (get_or cs k d).is_set) e)
    | no ne ↦ ground arith
  ]

module _ (d : NbColor) where
  -- The colours after it, as many as before.
  abbrev pub IsPainted : List PairArgs → ℕ → Palette → Palette → Type 0
  IsPainted xs m p p' =
      (length p'.colors ≡ length p.colors)
      × (get_or p'.colors m d ≡ painted xs m (get_or p.colors m d))

  set_color_pair-IsPainted :
      (x : PairArgs) (m : ℕ) (p : Palette)
      → x.n < length p.colors
      → Returns (set_color_pair x.n x.f x.b x.a p) (IsPainted (x ∷ []) m p)
  unfolding set_color_pair
  set_color_pair-IsPainted x m p h =
      let c : NbColor = get_or p.colors x.n d in
      let found = get_elem?-get_or p.colors x.n d h in
      elim (Bool-cases c.is_set) [
        | inl is_set ↦ (
          init_pair x.n x.f x.b p,
          rw (set_color_pair, found, is_set),
          (refl, left_set d x m p.colors is_set),
        )
        | inr unset ↦ (
          init_pair x.n x.f x.b (record p { colors = set p.colors x.n (set_nbcolor x.f x.b x.a) }),
          rw (set_color_pair, found, unset),
          (length-set p.colors x.n (set_nbcolor x.f x.b x.a), newly_set d x m p.colors h unset),
        )
      ]

  pub set_color_pairs-IsPainted :
      (xs : List PairArgs) (m : ℕ) (p : Palette)
      → AllBelow (length p.colors) xs
      → Returns (set_color_pairs xs p) (IsPainted xs m p)
  unfolding set_color_pairs
  set_color_pairs-IsPainted [] m p h = (p, refl, (refl, refl))
  set_color_pairs-IsPainted (x ∷ xs) m p h =
      Returns->>= (set_color_pair x.n x.f x.b x.a p) (set_color_pairs xs)
        (set_color_pair-IsPainted x m p h.0)
        (λ p1 (len, color).
          let (p2, run, (len2, color2)) =
            set_color_pairs-IsPainted xs m p1 (subst (λ k. AllBelow k xs) (sym len) h.1) in
          (p2, run, (len2 ∙ len, color2 ∙ ap (painted xs m) color)))
