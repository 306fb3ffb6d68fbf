-- ===== src/Config/File/Lines.antt =====
-- What a file of options says: its lines, and what each is to do.
use newsbaoter.Common.{
  ℕ, ◌≢◌, true, false, ◌||◌, Option, none, some, List, [], ◌∷◌, ◌++◌, Bytes, get_or, str_eq, ◌==◌,
  if◌then◌else◌,
}
use newsbaoter.Common.Int.{ℤ, pos}
use newsbaoter.Common.Run.{Run, ok, ◌>>=◌}
use newsbaoter.Hash.{Table}
use newsbaoter.Keys.{Handler, bind_key, unbind_key, find_handler}
use newsbaoter.Config.Reader.{newline}
use newsbaoter.Config.Reader.Scan.{IsLine}
use newsbaoter.Config.Words.Cut.{IsWord, Spaced, AllSpaced, strings_of}
use newsbaoter.Config.Options.{get_color_type_index, get_color_name_index}
use newsbaoter.Config.Options.Color.{colored, united}
use newsbaoter.Config.File.{
  Settings, Setting, to_str, to_int, to_strarr, to_colors, to_keys, in_config, config_options,
}

-- a comment, without its `#`, or the name of an option with its words
pub data Line : Type 0 where
  comment : Bytes → Line
  option : Bytes → List Spaced → Line

abbrev pub line_text : Bytes → List Spaced → Bytes
line_text word [] = word
line_text word (s ∷ ss) = word ++ s.blank ∷ (s.more ++ line_text s.word ss)

abbrev pub text_of : Line → Bytes
text_of (comment text) = b'#' ∷ text
text_of (option name ss) = line_text name ss

abbrev pub IsName : Bytes → Type 0
IsName [] = Unit
IsName (c ∷ cs) = c ≢ b'#'

-- A line can be written as it is meant.
abbrev pub IsWritten : Line → Type 0
IsWritten (comment text) = IsLine text
IsWritten (option name ss) = IsLine (line_text name ss) × IsWord name × IsName name × AllSpaced ss

abbrev pub AllWritten : List Line → Type 0
AllWritten [] = Unit
AllWritten (l ∷ ls) = IsWritten l × AllWritten ls

abbrev pub file_of : List Line → Bytes
file_of [] = []
file_of (l ∷ ls) = text_of l ++ newline ∷ file_of ls

abbrev pub with_keys : Settings → Run (Table Handler) → Run Settings
with_keys s m = m >>= λ t. ok (record s { keys = t })

-- the option of a name
unfoldable pub find_setting : List (Bytes × Setting) → Bytes → Option Setting
find_setting [] s = none
find_setting ((n, o) ∷ os) s = let rest = find_setting os s in if str_eq n s then some o else rest

module _ (strtol : Bytes → ℤ) where
  -- a yes, a no, or a number
  abbrev pub number_of : Bytes → ℤ
  number_of word =
      let c = get_or word 0 0 in
      if c == b'y' || c == b'Y'
      then pos 1
      else if c == b'n' || c == b'N'
      then pos 0
      else strtol word

module _ (strtol : Bytes → ℤ) (attr_value : ℕ → ℕ) where
  abbrev pub with_colors : Settings → Bytes → Spaced → Spaced → List Spaced → Settings
  with_colors s ty fg bg attrs =
      elim (colored strtol attr_value s.config.colors (get_color_type_index ty)
        (get_color_name_index strtol fg.word) (get_color_name_index strtol bg.word)
        (united attr_value 0 attrs)) [
          | none ↦ s
          | some cd ↦ in_config (λ v c. record c { colors = v }) cd s
        ]

module _ (strtol : Bytes → ℤ) (attr_value : ℕ → ℕ) (mbtowc : Bytes → Option ℤ) where
  -- what an option does with its words; one that lacks words does nothing
  unfoldable pub meaning : Setting → List Spaced → Settings → Run Settings
  meaning (to_str write) [] s = ok s
  meaning (to_str write) (w ∷ ws) s = ok (in_config write w.word s)
  meaning (to_int write) [] s = ok s
  meaning (to_int write) (w ∷ ws) s = ok (in_config write (number_of strtol w.word) s)
  meaning (to_strarr write) [] s = ok s
  meaning (to_strarr write) (w ∷ ws) s = ok (in_config write (w.word ∷ strings_of ws) s)
  meaning to_colors [] s = ok s
  meaning to_colors (ty ∷ []) s = ok s
  meaning to_colors (ty ∷ fg ∷ []) s = ok s
  meaning to_colors (ty ∷ fg ∷ bg ∷ attrs) s =
      ok (with_colors strtol attr_value s ty.word fg bg attrs)
  meaning (to_keys unbinds) [] s = ok s
  meaning (to_keys true) (w ∷ ws) s = elim (mbtowc w.word) [
    | none ↦ ok s
    | some key ↦ with_keys s (unbind_key key s.keys)
  ]
  meaning (to_keys false) (w ∷ []) s = ok s
  meaning (to_keys false) (w ∷ name ∷ ws) s = elim (mbtowc w.word) [
    | none ↦ ok s
    | some key ↦ elim (find_handler s.names name.word) [
      | none ↦ ok s
      | some h ↦ with_keys s (bind_key key (some h) s.keys)
    ]
  ]

  abbrev pub option_meaning : Option Setting → List Spaced → Settings → Run Settings
  option_meaning none ws s = ok s
  option_meaning (some o) ws s = meaning o ws s

  -- An unknown option does nothing.
  abbrev pub line_meaning : Line → Settings → Run Settings
  line_meaning (comment text) s = ok s
  line_meaning (option name ws) s = option_meaning (find_setting config_options name) ws s

  unfoldable pub run_lines : List Line → Settings → Run Settings
  run_lines [] s = ok s
  run_lines (l ∷ ls) s = line_meaning l s >>= run_lines ls
