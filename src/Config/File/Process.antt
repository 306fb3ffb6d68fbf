-- ===== src/Config/File/Process.antt =====
-- src/config.c: the code of each option on the words of a line.
use newsbaoter.Common.{
  ℕ, ◌≡◌, refl, ap, true, false, Option, none, some, List, [], ◌∷◌, ◌++◌, Bytes,
}
use newsbaoter.Common.Int.{ℤ, pos, negsuc}
use newsbaoter.Common.Run.{Run, ok, fault, ◌>>=◌}
use newsbaoter.Hash.{Table}
use newsbaoter.Keys.{Handler, bind_key, unbind_key, find_handler}
use newsbaoter.Config.Words.{get_line_word, copy_str, copy_strarr}
use newsbaoter.Config.Words.Cut.{
  IsWord, Spaced, AllSpaced, AllNonzero-append, render, c_string-append, get_line_word-last,
  get_line_word-next, copy_strarr-render,
}
use newsbaoter.Config.Options.{
  word_index, get_color_type_index, get_color_name_index, copy_int, copy_color,
}
use newsbaoter.Config.Options.Color.{
  after, get_line_word-render, word_index-render, copy_color-render,
}
use newsbaoter.Config.Bindings.{bind_found, config_bind_key}
use newsbaoter.Config.File.{
  Settings, Setting, to_str, to_int, to_strarr, to_colors, to_keys, in_config, stored, process,
}
use newsbaoter.Config.File.Lines.{with_keys, number_of, meaning}

copy_str-render :
    (word : Bytes) (ss : List Spaced) (post : Bytes)
    → IsWord word
    → AllSpaced ss
    → copy_str (render word ss post) ≡ ok (some word)
unfolding copy_str
copy_str-render word [] post h a =
    rw
      (get_line_word-last word post h, c_string-append word post (AllNonzero-append [] word tt h.1))
copy_str-render word (s ∷ ss) post h a = rw (
  get_line_word-next word s ss post h a,
  c_string-append word (s.more ++ render s.word ss post) (AllNonzero-append [] word tt h.1),
)

module _ (strtol : Bytes → ℤ) where
  copy_int-render :
      (word : Bytes) (ss : List Spaced) (post : Bytes)
      → IsWord word
      → AllSpaced ss
      → copy_int strtol (render word ss post) ≡ ok (some (number_of strtol word))
  unfolding copy_int
  copy_int-render word ss post h a = rw (get_line_word-render word ss post h a).1

word_index-nothing : (index : Bytes → ℤ) (post : Bytes) → word_index index (0 ∷ post) ≡ ok none
unfolding word_index get_line_word
word_index-nothing index post = refl

module _ (strtol : Bytes → ℤ) (attr_value : ℕ → ℕ) (s : Settings) (post : Bytes) where
  one_word :
      (ty : Spaced) (t : ℤ)
      → AllSpaced (ty ∷ [])
      → get_color_type_index ty.word ≡ t
      → copy_color strtol attr_value s.config.colors (render ty.word [] post) ≡ ok none
  unfolding copy_color
  one_word ty (pos t) a e = rw (
    word_index-render get_color_type_index ty.word [] post a.2 a.3,
    e,
    word_index-nothing (get_color_name_index strtol) post,
  )
  one_word ty (negsuc t) a e =
      rw (word_index-render get_color_type_index ty.word [] post a.2 a.3, e)

  two_words :
      (ty fg : Spaced) (t f : ℤ)
      → AllSpaced (ty ∷ fg ∷ [])
      → get_color_type_index ty.word ≡ t
      → get_color_name_index strtol fg.word ≡ f
      → copy_color strtol attr_value s.config.colors (render ty.word (fg ∷ []) post) ≡ ok none
  unfolding copy_color
  two_words ty fg (pos t) (pos f) a e e' = rw (
    word_index-render get_color_type_index ty.word (fg ∷ []) post a.2 a.3,
    e,
    word_index-render (get_color_name_index strtol) fg.word [] post a.3.2 a.3.3,
    e',
    word_index-nothing (get_color_name_index strtol) post,
  )
  two_words ty fg (pos t) (negsuc f) a e e' = rw (
    word_index-render get_color_type_index ty.word (fg ∷ []) post a.2 a.3,
    e,
    word_index-render (get_color_name_index strtol) fg.word [] post a.3.2 a.3.3,
    e',
  )
  two_words ty fg (negsuc t) f a e e' =
      rw (word_index-render get_color_type_index ty.word (fg ∷ []) post a.2 a.3, e)

module _ (s : Settings) where
  stored_keys :
      (m : Run (Table Handler))
      → stored (λ t s'. record s' { keys = t }) (m >>= λ t. ok (some t)) s ≡ with_keys s m
  stored_keys (fault why) = refl
  stored_keys (ok t) = refl

  stored_bind :
      (key : ℤ) (h : Option Handler)
      → stored (λ t s'. record s' { keys = t }) (bind_found key h s.keys) s
        ≡ elim h [ none ↦ ok s | some h' ↦ with_keys s (bind_key key (some h') s.keys) ]
  stored_bind key none = refl
  stored_bind key (some h) = stored_keys (bind_key key (some h) s.keys)

  module _ (mbtowc : Bytes → Option ℤ) (post : Bytes) where
    unbind_line :
        (w : Spaced) (ws : List Spaced) (k : Option ℤ)
        → AllSpaced (w ∷ ws)
        → mbtowc w.word ≡ k
        → stored
            (λ t s'. record s' { keys = t })
            (config_bind_key mbtowc true s.names (render w.word ws post) s.keys)
            s
          ≡ elim k [ none ↦ ok s | some key ↦ with_keys s (unbind_key key s.keys) ]
    unfolding config_bind_key
    unbind_line w ws none a e = rw ((get_line_word-render w.word ws post a.2 a.3).1, e)
    unbind_line w ws (some key) a e =
        rw ((get_line_word-render w.word ws post a.2 a.3).1, e)
          (stored_keys (unbind_key key s.keys))

    bind_line :
        (w name : Spaced) (ws : List Spaced) (k : Option ℤ)
        → AllSpaced (w ∷ name ∷ ws)
        → mbtowc w.word ≡ k
        → stored
            (λ t s'. record s' { keys = t })
            (config_bind_key mbtowc false s.names (render w.word (name ∷ ws) post) s.keys)
            s
          ≡ elim k [
            | none ↦ ok s
            | some key ↦ elim (find_handler s.names name.word) [
              | none ↦ ok s
              | some h ↦ with_keys s (bind_key key (some h) s.keys)
            ]
          ]
    unfolding config_bind_key
    bind_line w name ws none a e = rw ((get_line_word-render w.word (name ∷ ws) post a.2 a.3).1, e)
    bind_line w name ws (some key) a e =
        rw
          (
            (get_line_word-render w.word (name ∷ ws) post a.2 a.3).1,
            e,
            (get_line_word-render name.word ws post a.3.2 a.3.3).1,
          )
          (stored_bind key (find_handler s.names name.word))

    -- a key without a handler
    lone_key :
        (w : Spaced) (k : Option ℤ)
        → AllSpaced (w ∷ [])
        → mbtowc w.word ≡ k
        → stored
            (λ t s'. record s' { keys = t })
            (config_bind_key mbtowc false s.names (render w.word [] post) s.keys)
            s
          ≡ ok s
    unfolding config_bind_key get_line_word
    lone_key w none a e = rw ((get_line_word-render w.word [] post a.2 a.3).1, e)
    lone_key w (some key) a e = rw ((get_line_word-render w.word [] post a.2 a.3).1, e)

module _ (strtol : Bytes → ℤ) (attr_value : ℕ → ℕ) (mbtowc : Bytes → Option ℤ) (post : Bytes)
    (s : Settings) where
  pub process-meaning :
      (o : Setting) (ws : List Spaced)
      → AllSpaced ws
      → process strtol attr_value mbtowc o (after ws post) s
        ≡ meaning strtol attr_value mbtowc o ws s
  unfolding process meaning get_line_word copy_str copy_int copy_strarr copy_color word_index
      config_bind_key
  process-meaning (to_str write) [] a = refl
  process-meaning (to_str write) (w ∷ ws) a =
      ap (λ m. stored (in_config write) m s) (copy_str-render w.word ws post a.2 a.3)
  process-meaning (to_int write) [] a = refl
  process-meaning (to_int write) (w ∷ ws) a =
      ap (λ m. stored (in_config write) m s) (copy_int-render strtol w.word ws post a.2 a.3)
  process-meaning (to_strarr write) [] a = refl
  process-meaning (to_strarr write) (w ∷ ws) a =
      ap (λ m. stored (in_config write) m s) (copy_strarr-render w.word ws post a.2 a.3)
  process-meaning to_colors [] a = refl
  process-meaning to_colors (ty ∷ []) a =
      ap (λ m. stored (in_config (λ v c. record c { colors = v })) m s)
        (one_word strtol attr_value s post ty _ a refl)
  process-meaning to_colors (ty ∷ fg ∷ []) a =
      ap (λ m. stored (in_config (λ v c. record c { colors = v })) m s)
        (two_words strtol attr_value s post ty fg _ _ a refl refl)
  process-meaning to_colors (ty ∷ fg ∷ bg ∷ attrs) a =
      ap (λ m. stored (in_config (λ v c. record c { colors = v })) m s)
        (copy_color-render strtol attr_value s.config.colors ty.word fg bg attrs post a.2 a.3)
  process-meaning (to_keys true) [] a = refl
  process-meaning (to_keys false) [] a = refl
  process-meaning (to_keys true) (w ∷ ws) a = unbind_line s mbtowc post w ws _ a refl
  process-meaning (to_keys false) (w ∷ []) a = lone_key s mbtowc post w _ a refl
  process-meaning (to_keys false) (w ∷ name ∷ ws) a = bind_line s mbtowc post w name ws _ a refl
