-- ===== src/Config/File/Ends.antt =====
-- src/config.c: reading a file of options, whatever bytes it has.
use newsbaoter.Common.{
  ℕ, zero, suc, ◌+◌, ◌<◌, ◌≢◌, refl, Bool, true, false, Option, none, some, [], Bytes, length,
  get_elem?, get_or, ◌==◌, arith,
}
use newsbaoter.Common.Int.{ℤ, pos, negsuc}
use newsbaoter.Common.Run.{
  Run, ok, fault, out_of_bounds, diverges, ◌>>=◌, Ends, returns, Ends-ok, Ends->>=, Ends-if,
  Ends-out_of_bounds, Ends-diverges,
}
use newsbaoter.Hash.{Table}
use newsbaoter.Hash.Valid.{IsValid}
use newsbaoter.Keys.{Handler, bind_defaults, default_keys}
use newsbaoter.Keys.Bind.{bind_all-Binds, init-Binds}
use newsbaoter.Config.Reader.{Source, ConfRead, new_conf_read, allocate, read_config_line}
use newsbaoter.Config.Reader.Scan.{Holds}
use newsbaoter.Config.Reader.Store.{allocate-new}
use newsbaoter.Config.Reader.Rounds.{left}
use newsbaoter.Config.Reader.Ends.{IsRead, read_config_line-Ends}
use newsbaoter.Config.Words.{copy_str, copy_strarr}
use newsbaoter.Config.Words.Ends.{Anything, word-Ends, copy_str-Ends, copy_strarr-Ends}
use newsbaoter.Config.Options.{copy_int, copy_color}
use newsbaoter.Config.Options.Ends.{
  IsValidTable, copy_int-Ends, copy_color-Ends, config_bind_key-Ends,
}
use newsbaoter.Config.Bindings.{config_bind_key}
use newsbaoter.Config.File.{
  Settings, Setting, to_str, to_int, to_strarr, to_colors, to_keys, NbConfig, config_options,
  find_config_index, stored, in_config, process, process_at, read_option, read_options,
  start_settings, finish_options, read_config_options_file,
}

-- the key table stays valid
abbrev HasKeys : Settings → Type 0
HasKeys s = IsValid s.keys

abbrev MayHaveKeys : Option Settings → Type 0
MayHaveKeys none = Unit
MayHaveKeys (some s) = HasKeys s

module _ (s : Settings) (valid : HasKeys s) where
  config-Ends {ℓ} :
      {A : Type ℓ} (write : A → NbConfig → NbConfig) (m : Run (Option A))
      → Ends m Anything
      → Ends (stored (in_config write) m s) HasKeys
  config-Ends {A} write m h = Ends->>= m _ h (λ r p. Ends-ok _ (kept r))
    where
      kept : (r : Option A) → HasKeys (elim r [ none ↦ s | some v ↦ in_config write v s ])
      kept none = valid
      kept (some v) = valid

  keys-Ends :
      (m : Run (Option (Table Handler)))
      → Ends m IsValidTable
      → Ends (stored (λ t s'. record s' { keys = t }) m s) HasKeys
  keys-Ends m h = Ends->>= m _ h (λ r p. Ends-ok _ (kept r p))
    where
      kept :
          (r : Option (Table Handler))
          → IsValidTable r
          → HasKeys (elim r [ none ↦ s | some t ↦ record s { keys = t } ])
      kept none p = valid
      kept (some t) p = p

  module _ (strtol : Bytes → ℤ) (attr_value : ℕ → ℕ) (mbtowc : Bytes → Option ℤ) (next : Bytes)
      (some_bytes : 0 < length next) where
    process-Ends :
        (setting : Setting) → Ends (process strtol attr_value mbtowc setting next s) HasKeys
    unfolding process
    process-Ends (to_str write) = config-Ends write (copy_str next) (copy_str-Ends next)
    process-Ends (to_int write) =
        config-Ends write (copy_int strtol next) (copy_int-Ends strtol next)
    process-Ends (to_strarr write) =
        config-Ends write (copy_strarr next) (copy_strarr-Ends next some_bytes)
    process-Ends to_colors =
        config-Ends (λ v c. record c { colors = v })
          (copy_color strtol attr_value s.config.colors next)
          (copy_color-Ends strtol attr_value s.config.colors next)
    process-Ends (to_keys unbinds) =
        keys-Ends (config_bind_key mbtowc unbinds s.names next s.keys)
          (config_bind_key-Ends mbtowc s.names s.keys valid unbinds next)

    process_at-Ends : (i : ℤ) → Ends (process_at strtol attr_value mbtowc i next s) HasKeys
    unfolding process_at
    process_at-Ends (negsuc n) = Ends-ok s valid
    process_at-Ends (pos i) = of_row (get_elem? config_options i)
      where
        of_row :
            (o : Option (Bytes × Setting))
            → Ends
                (elim o [
                  | none ↦ fault out_of_bounds
                  | some o ↦ process strtol attr_value mbtowc o.1 next s
                ])
                HasKeys
        of_row none = Ends-out_of_bounds
        of_row (some o) = process-Ends o.1

module _ (strtol : Bytes → ℤ) (attr_value : ℕ → ℕ) (mbtowc : Bytes → Option ℤ) where
  read_option-Ends :
      (buf : Bytes) (s : Settings)
      → HasKeys s
      → Ends (read_option strtol attr_value mbtowc buf s) MayHaveKeys
  unfolding read_option
  read_option-Ends buf s valid = Ends-if (get_or buf 0 0 == b'#') _ _ (Ends-ok (some s) valid) (
      word-Ends buf (ok none) _ (Ends-ok none tt) (λ w p.
        Ends->>= (process_at strtol attr_value mbtowc (find_config_index w.word) w.next s) _
          (process_at-Ends s valid strtol attr_value mbtowc w.next p.0 (find_config_index w.word))
          (λ s' v. Ends-ok (some s') v)))

  module _ (source : Source) (junk : ℕ → ℕ) where
    open source use {State, remaining}

    -- what the later rounds of the loop do
    abbrev LaterRounds : ℕ → ℕ → Type 0
    LaterRounds rounds reads =
        (s : State) (c : ConfRead) (text : Bytes) (settings : Settings)
        → HasKeys settings
        → Holds (allocate source junk c) text
        → left source junk text s c.eof < rounds
        → left source junk text s c.eof < reads
        → Ends (read_options strtol attr_value mbtowc source junk rounds reads s c settings) HasKeys

    module _ (rounds reads : ℕ) (later : LaterRounds rounds reads) (settings : Settings)
        (valid : HasKeys settings) (s : State) (text : Bytes) (eof : Bool)
        (enough : left source junk text s eof < rounds + 1)
        (room : left source junk text s eof < reads) where
      after_option :
          (s' : State) (c' : ConfRead) (o : Option Settings)
          → MayHaveKeys o
          → IsRead source junk text s eof (s', c', true)
          → Ends
              (elim o [
                | none ↦ ok settings
                | some settings' ↦
                    read_options strtol attr_value mbtowc source junk rounds reads s' c' settings'
              ])
              HasKeys
      after_option s' c' none p r = Ends-ok settings valid
      after_option s' c' (some settings') p r =
          later s' c' r.unread settings' p r.holds (omega (arith, enough, r.fewer refl))
            (omega (arith, room, r.fewer refl))

      after_line :
          (s' : State) (c' : ConfRead) (more : Bool)
          → IsRead source junk text s eof (s', c', more)
          → Ends
              (elim more [
                | false ↦ ok settings
                | true ↦ read_option strtol attr_value mbtowc c'.buf settings >>= λ o. elim o [
                  | none ↦ ok settings
                  | some settings' ↦
                      read_options strtol attr_value mbtowc source junk rounds reads s' c' settings'
                ]
              ])
              HasKeys
      after_line s' c' false r = Ends-ok settings valid
      after_line s' c' true r =
          Ends->>= (read_option strtol attr_value mbtowc c'.buf settings) _
            (read_option-Ends c'.buf settings valid) (λ o p. after_option s' c' o p r)

    read_options-Ends : (rounds reads : ℕ) → LaterRounds rounds reads
    unfolding read_options
    read_options-Ends zero reads s c text settings valid h enough room = absurd (omega arith)
    read_options-Ends (suc rounds) reads s c text settings valid h enough room =
        Ends->>= (read_config_line source junk reads s c) _
          (read_config_line-Ends source junk reads s c text (omega (arith, room)) h)
          (λ r p.
            after_line rounds reads
              (λ s' c' text' settings' v h' e' r'.
                read_options-Ends rounds reads s' c' text' settings' v h' e' r')
              settings valid s text c.eof (omega (arith, enough)) room r.0 r.1 r.2 p)

    -- Whatever bytes a configuration file has, with newlines, NUL bytes or neither, in whatever pieces
    -- it is read, and whatever it binds: where the loops have more rounds than the file has bytes, and
    -- one more, read_config_options_file does not run for ever.
    pub read_config_options_file-ne-diverges :
        (rounds reads : ℕ) (s : State)
        → length (remaining s) + 1 < rounds
        → length (remaining s) + 1 < reads
        → read_config_options_file strtol attr_value mbtowc source junk rounds reads (some s)
          ≢ fault diverges
    unfolding read_config_options_file bind_defaults
    read_config_options_file-ne-diverges rounds reads s enough room =
        let (t, run, b) = bind_all-Binds default_keys _ (λ c. none) 0 init-Binds (omega arith) in
        Ends-diverges _ (
          Ends->>= {P = IsValid} bind_defaults _ (returns t run b.valid) (λ t' valid.
            Ends->>= {Q = HasKeys}
              (read_options strtol attr_value mbtowc source junk rounds reads s new_conf_read
                (start_settings t'))
              _
              (read_options-Ends rounds reads s new_conf_read [] (start_settings t') valid
                (allocate-new source junk) (omega arith) (omega arith))
              (λ s' v. Ends-ok (finish_options s') v)))
