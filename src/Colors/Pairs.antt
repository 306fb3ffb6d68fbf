-- ===== src/Colors/Pairs.antt =====
-- src/ui/view.c: what the calls of `init_pair` leave in a pair, and what becomes of the colours.
use newsbaoter.Common.{
  ℕ, zero, suc, ◌+◌, ◌-◌, ◌*◌, ◌/◌, ◌%◌, ◌^◌, ◌<◌, ◌≤◌, bit_and, bit_or, ◌≡◌, refl, sym, subst, ap,
  ◌∙◌, true, Option, none, some, List, [], ◌∷◌, length, get_or, get_elem?-get_or, inl, inr,
  ℕ_discrete, ◌≢◌, ◌⊎◌, ◌==◌, if◌then◌else◌, arith,
}
use newsbaoter.Common.Bits.{bit_or-shifted, bit_and-ones}
use newsbaoter.Common.Run.{fault, out_of_bounds, Returns}
use newsbaoter.Config.Options.{NbColor, set_nbcolor}
use newsbaoter.Colors.{Palette, get_nbcolor, init_pair, set_config_from}

-- the last call for a pair: its foreground and background
abbrev pub shown : ℕ → List (ℕ × ℕ × ℕ) → Option (ℕ × ℕ)
shown m [] = none
shown m ((n, f, b) ∷ pairs) = if m == n then some (f, b) else shown m pairs

-- What set_nbcolor packs, get_nbcolor reads back, where both colours have 16 bits.
pub get_nbcolor-set_nbcolor :
    (f b a : ℕ) → f < 2 ^ 16 → b < 2 ^ 16 → get_nbcolor (set_nbcolor f b a) ≡ (f, b, a)
unfolding get_nbcolor
get_nbcolor-set_nbcolor f b a hf hb =
    let whole : b * 2 ^ 16 % 2 ^ 32 ≡ b * 2 ^ 16 = omega arith in
    let packed : bit_or f (b * 2 ^ 16 % 2 ^ 32) ≡ b * 2 ^ 16 + f =
      ap (bit_or f) whole ∙ bit_or-shifted 16 f b hf in
    let low : bit_and (bit_or f (b * 2 ^ 16 % 2 ^ 32)) (2 ^ 16 - 1) ≡ f =
      ap (λ (x : ℕ). bit_and x (2 ^ 16 - 1)) packed ∙ bit_and-ones 16 f b hf in
    let high : bit_or f (b * 2 ^ 16 % 2 ^ 32) / 2 ^ 16 ≡ b =
      ap (λ (x : ℕ). x / 2 ^ 16) packed ∙ omega arith in
    λ i. (low i, high i, a)

-- the colours of a pair, as curses is given them
abbrev pub front_back : NbColor → ℕ × ℕ
front_back c = ((get_nbcolor c).0, (get_nbcolor c).1)

-- one round of the loop of `set_config_colors`
abbrev pub config_round : ℕ → NbColor → Palette → Palette
config_round i c p = if c.is_set then init_pair i (get_nbcolor c).0 (get_nbcolor c).1 p else p

module _ (i : ℕ) (c : NbColor) (p : Palette) where
  round-colors : (config_round i c p).colors ≡ p.colors
  round-colors = ground arith

  round_other : (m : ℕ) → m ≢ i → shown m (config_round i c p).pairs ≡ shown m p.pairs
  round_other m h = ground arith

  round_same : c.is_set ≡ true → shown i (config_round i c p).pairs ≡ some (front_back c)
  round_same h = ground arith

module _ (d : NbColor) where
  config_step :
      (rounds i : ℕ) (p : Palette)
      → i < length p.colors
      → set_config_from (suc rounds) i p
        ≡ set_config_from rounds (i + 1) (config_round i (get_or p.colors i d) p)
  unfolding set_config_from
  config_step rounds i p h =
      ap
        (λ (x : Option NbColor). elim x [
          | none ↦ fault out_of_bounds
          | some c ↦ set_config_from rounds (i + 1) (config_round i c p)
        ])
        (get_elem?-get_or p.colors i d h)

  -- The loop leaves alone the colours, and the pairs that it does not pass.
  pub set_config_from-kept :
      (rounds i m : ℕ) (p : Palette)
      → i + rounds ≤ length p.colors
      → (m < i) ⊎ (i + rounds ≤ m)
      → Returns
          (set_config_from rounds i p)
          (λ p'. (p'.colors ≡ p.colors) × (shown m p'.pairs ≡ shown m p.pairs))
  unfolding set_config_from
  set_config_from-kept zero i m p fits out = (p, refl, (refl, refl))
  set_config_from-kept (suc rounds) i m p fits out =
      let p1 : Palette = config_round i (get_or p.colors i d) p in
      let same = round-colors i (get_or p.colors i d) p in
      let (p', run, (colors, pairs)) =
        set_config_from-kept rounds (i + 1) m p1 (omega (arith, ap length same, fits))
          (later out) in
      (
        p',
        config_step rounds i p (omega (arith, fits)) ∙ run,
        (colors ∙ same, pairs ∙ round_other i (get_or p.colors i d) p m (λ e. differ e out)),
      )
    where
      later : (m < i) ⊎ (i + suc rounds ≤ m) → (m < i + 1) ⊎ (i + 1 + rounds ≤ m)
      later (inl h) = inl (omega arith)
      later (inr h) = inr (omega arith)

      differ : m ≡ i → (m < i) ⊎ (i + suc rounds ≤ m) → ⊥
      differ e (inl h) = absurd (omega arith)
      differ e (inr h) = absurd (omega arith)

  -- The pair `m` has the colours that are set for it.
  abbrev Shows : Palette → ℕ → Palette → Type 0
  Shows p m p' =
      (p'.colors ≡ p.colors) × (shown m p'.pairs ≡ some (front_back (get_or p.colors m d)))

  first_shown :
      (rounds i : ℕ) (p : Palette)
      → i + suc rounds ≤ length p.colors
      → (get_or p.colors i d).is_set ≡ true
      → Returns (set_config_from (suc rounds) i p) (Shows p i)
  first_shown rounds i p fits is_set =
      let c : NbColor = get_or p.colors i d in
      let same = round-colors i c p in
      let (p', run, (colors, pairs)) =
        set_config_from-kept rounds (i + 1) i (config_round i c p)
          (omega (arith, ap length same, fits)) (inl (omega arith)) in
      (
        p',
        config_step rounds i p (omega (arith, fits)) ∙ run,
        (colors ∙ same, pairs ∙ round_same i c p is_set),
      )

  pub set_config_from-shown :
      (rounds i m : ℕ) (p : Palette)
      → i + rounds ≤ length p.colors
      → i ≤ m
      → m < i + rounds
      → (get_or p.colors m d).is_set ≡ true
      → Returns (set_config_from rounds i p) (Shows p m)
  set_config_from-shown zero i m p fits low high is_set = absurd (omega arith)
  set_config_from-shown (suc rounds) i m p fits low high is_set =
      let same = round-colors i (get_or p.colors i d) p in
      elim (ℕ_discrete i m) [
        | yes e ↦
            subst (λ k. Returns (set_config_from (suc rounds) i p) (Shows p k)) e
              (first_shown rounds i p fits
                (subst (λ k. (get_or p.colors k d).is_set ≡ true) (sym e) is_set))
        | no ne ↦
            let p1 : Palette = config_round i (get_or p.colors i d) p in
            let (p', run, (colors, pairs)) =
              set_config_from-shown rounds (i + 1) m p1 (omega (arith, ap length same, fits))
                (omega (arith, low, ne)) (omega arith)
                (ap (λ cs. (get_or cs m d).is_set) same ∙ is_set) in
            (
              p',
              config_step rounds i p (omega (arith, fits)) ∙ run,
              (colors ∙ same, pairs ∙ ap (λ cs. some (front_back (get_or cs m d))) same),
            )
      ]
