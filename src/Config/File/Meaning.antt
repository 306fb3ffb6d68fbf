-- ===== src/Config/File/Meaning.antt =====
-- src/config.c: a line of the file of options.
use newsbaoter.Common.{
  ℕ, suc, ◌+◌, ◌<◌, ◌≡◌, refl, sym, ap, ◌∙◌, inl, inr, ◌⊎◌, false, Bool-cases, Option, none, some,
  List, [], ◌∷◌, ◌++◌, append_assoc, map, Bytes, length, length-append, get_or, get_elem?, str_eq,
  ◌==◌, arith,
}
use newsbaoter.Common.Int.{ℤ, pos, negsuc}
use newsbaoter.Common.Run.{ok, fault, out_of_bounds, ◌>>=◌}
use newsbaoter.Config.Words.Cut.{IsWord, Spaced, AllSpaced, render}
use newsbaoter.Config.Options.{find_name}
use newsbaoter.Config.Options.Color.{after, get_line_word-render}
use newsbaoter.Config.File.{
  Settings, Setting, process, process_at, find_config_index, config_options, read_option,
}
use newsbaoter.Config.File.Lines.{
  line_text, IsName, find_setting, option_meaning, Line, comment, option, text_of, IsWritten,
  line_meaning,
}
use newsbaoter.Config.File.Process.{process-meaning}

-- The index of an option and the option itself, both the first of that name.
find_name-find_setting :
    (os : List (Bytes × Setting)) (n : ℕ) (s : Bytes)
    → ((find_setting os s ≡ none) × (find_name (map (λ o. o.0) os) n s ≡ negsuc 0))
      ⊎ ((j : ℕ) × (o : Bytes × Setting) × (find_setting os s ≡ some o.1)
          × (find_name (map (λ o. o.0) os) n s ≡ pos (n + j))
          × (get_elem? os j ≡ some o))
unfolding find_setting find_name
find_name-find_setting [] n s = inl (refl, refl)
find_name-find_setting ((name, o) ∷ os) n s = elim (Bool-cases (str_eq name s)) [
  | inl same ↦ inr (0, (name, o), rw same, rw same (ap pos (omega arith)), refl)
  | inr other ↦ elim (find_name-find_setting os (n + 1) s) [
    | inl (e, e') ↦ inl (rw other e, rw other e')
    | inr (j, o', e, e', e'') ↦
        inr (suc j, o', rw other e, rw other (e' ∙ ap pos (omega arith)), e'')
  ]
]

find_config_index-cases :
    (s : Bytes)
    → ((find_setting config_options s ≡ none) × (find_config_index s ≡ negsuc 0))
      ⊎ ((j : ℕ) × (o : Bytes × Setting) × (find_setting config_options s ≡ some o.1)
          × (find_config_index s ≡ pos j)
          × (get_elem? config_options j ≡ some o))
unfolding find_config_index
find_config_index-cases s = elim (find_name-find_setting config_options 0 s) [
  | inl p ↦ inl p
  | inr (j, o, e, e', e'') ↦ inr (j, o, e, e' ∙ ap pos (omega arith), e'')
]

pub render-line_text :
    (word : Bytes) (ss : List Spaced) (post : Bytes)
    → render word ss post ≡ line_text word ss ++ 0 ∷ post
render-line_text word [] post = refl
render-line_text word (s ∷ ss) post = rw (render-line_text s.word ss post) (simp append_assoc)

pub line_text_pos : (word : Bytes) (ss : List Spaced) → IsWord word → 0 < length (line_text word ss)
line_text_pos word [] h = h.0
line_text_pos word (s ∷ ss) h =
    omega (arith, h.0, length-append word (s.blank ∷ (s.more ++ line_text s.word ss)))

no_comment :
    (word : Bytes) (ss : List Spaced) (post : Bytes)
    → IsWord word
    → IsName word
    → (get_or (render word ss post) 0 0 == b'#') ≡ false
no_comment [] ss post h n = absurd (omega (arith, h.0))
no_comment (c ∷ word) [] post h n = ground arith
no_comment (c ∷ word) (s ∷ ss) post h n = ground arith

module _ (strtol : Bytes → ℤ) (attr_value : ℕ → ℕ) (mbtowc : Bytes → Option ℤ) (post : Bytes)
    (s : Settings) where
  row_run :
      (next : Bytes) (j : ℕ) (o : Bytes × Setting)
      → get_elem? config_options j ≡ some o
      → process_at strtol attr_value mbtowc (pos j) next s
        ≡ process strtol attr_value mbtowc o.1 next s
  unfolding process_at
  row_run next j o e =
      ap
        (λ (x : Option (Bytes × Setting)). elim x [
          | none ↦ fault out_of_bounds
          | some y ↦ process strtol attr_value mbtowc y.1 next s
        ])
        e

  process_at-meaning :
      (name : Bytes) (ws : List Spaced)
      → AllSpaced ws
      → process_at strtol attr_value mbtowc (find_config_index name) (after ws post) s
        ≡ option_meaning strtol attr_value mbtowc (find_setting config_options name) ws s
  unfolding process_at
  process_at-meaning name ws a = elim (find_config_index-cases name) [
    | inl (e, e') ↦
        ap (λ i. process_at strtol attr_value mbtowc i (after ws post) s) e'
        ∙ unknown 0
        ∙ ap (λ o. option_meaning strtol attr_value mbtowc o ws s) (sym e)
    | inr (j, o, e, e', e'') ↦
        ap (λ i. process_at strtol attr_value mbtowc i (after ws post) s) e'
        ∙ row_run (after ws post) j o e''
        ∙ process-meaning strtol attr_value mbtowc post s o.1 ws a
        ∙ ap (λ o. option_meaning strtol attr_value mbtowc o ws s) (sym e)
  ]
    where
      unknown : (n : ℕ) → process_at strtol attr_value mbtowc (negsuc n) (after ws post) s ≡ ok s
      unknown n = refl

  pub read_option-meaning :
      (l : Line)
      → IsWritten l
      → read_option strtol attr_value mbtowc (text_of l ++ 0 ∷ post) s
        ≡ (line_meaning strtol attr_value mbtowc l s >>= λ s'. ok (some s'))
  unfolding read_option
  read_option-meaning (comment text) h = refl
  read_option-meaning (option name ws) h = rw (
    ← render-line_text name ws post,
    no_comment name ws post h.1 h.2,
    (get_line_word-render name ws post h.1 h.3).1,
    process_at-meaning name ws h.3,
  )
