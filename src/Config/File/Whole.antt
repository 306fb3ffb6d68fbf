-- ===== src/Config/File/Whole.antt =====
-- src/config.c: a file of lines, read to its end.
use newsbaoter.Common.{
  ℕ, zero, suc, ◌<◌, ◌≡◌, ◌≢◌, refl, sym, ap, subst, ◌∙◌, inl, Bool, true, false, fun_ext, Option,
  none, some, List, [], ◌∷◌, ◌++◌, append-empty, Bytes, length, length-append, arith,
}
use newsbaoter.Common.Int.{ℤ}
use newsbaoter.Common.Run.{Run, ok, fault, ◌>>=◌}
use newsbaoter.Keys.{bind_defaults}
use newsbaoter.Config.Reader.{Source, ConfRead, newline, new_conf_read, allocate, read_config_line}
use newsbaoter.Config.Reader.Scan.{Holds, IsLine}
use newsbaoter.Config.Reader.Stream.{first_line, first_line-append}
use newsbaoter.Config.Reader.Store.{allocate-new, allocate-Holds}
use newsbaoter.Config.Reader.Fill.{AtEnd, read_config_line-first_line}
use newsbaoter.Config.Reader.Last.{read_config_line-nothing}
use newsbaoter.Config.Reader.Given.{GivesLine-buf}
use newsbaoter.Config.File.{
  Settings, read_option, read_options, start_settings, finish_options, read_config_options_file,
}
use newsbaoter.Config.File.Lines.{
  Line, comment, option, text_of, IsWritten, AllWritten, file_of, line_meaning, run_lines,
}
use newsbaoter.Config.File.Meaning.{line_text_pos, read_option-meaning}

text_of-IsLine : (l : Line) → IsWritten l → IsLine (text_of l)
text_of-IsLine (comment text) h = ((λ e. absurd (omega (arith, e))), h)
text_of-IsLine (option name ss) h = h.0

text_pos : (l : Line) → IsWritten l → 0 < length (text_of l)
text_pos (comment text) h = omega arith
text_pos (option name ss) h = line_text_pos name ss h.1

-- what follows the body of the loop
chain :
    (m : Run Settings) (f g : Settings → Run Settings) (d : Run Settings)
    → ((s : Settings) → f s ≡ g s)
    → ((m >>= λ s. ok (some s)) >>= λ o. elim o [ none ↦ d | some s ↦ f s ]) ≡ (m >>= g)
chain (fault why) f g d h = refl
chain (ok s) f g d h = h s

module _ (strtol : Bytes → ℤ) (attr_value : ℕ → ℕ) (mbtowc : Bytes → Option ℤ) (source : Source)
    (junk : ℕ → ℕ) where
  open source use {State, read, remaining}

  -- the body of the loop with the later rounds
  abbrev after_option : ℕ → ℕ → State → ConfRead → Settings → Option Settings → Run Settings
  after_option rounds reads s c settings o = elim o [
    | none ↦ ok settings
    | some s' ↦ read_options strtol attr_value mbtowc source junk rounds reads s c s'
  ]

  abbrev after_read : ℕ → ℕ → Settings → State × ConfRead × Bool → Run Settings
  after_read rounds reads settings r = elim r.2 [
    | false ↦ ok settings
    | true ↦ read_option strtol attr_value mbtowc (r.1).buf settings >>= λ o.
        after_option rounds reads r.0 r.1 settings o
  ]

  read_options_step :
      (rounds reads : ℕ) (s : State) (c : ConfRead) (settings : Settings)
      → read_options strtol attr_value mbtowc source junk (suc rounds) reads s c settings
        ≡ (read_config_line source junk reads s c >>= after_read rounds reads settings)
  unfolding read_options
  read_options_step rounds reads s c settings = refl

  module _ (no_error : (s : State) (n : ℕ) → read s n ≢ none) where
    read_options-run_lines :
        (lines : List Line) (rounds reads : ℕ) (s : State) (c : ConfRead) (text : Bytes)
        (settings : Settings)
        → AllWritten lines
        → Holds (allocate source junk c) text
        → AtEnd source junk c s
        → text ++ remaining s ≡ file_of lines
        → length lines < rounds
        → length (file_of lines) < reads
        → read_options strtol attr_value mbtowc source junk rounds reads s c settings
          ≡ run_lines strtol attr_value mbtowc lines settings
    unfolding run_lines
    read_options-run_lines lines zero reads s c text settings w h at_end e enough room =
        absurd (omega arith)
    read_options-run_lines [] (suc rounds) reads s c text settings w h at_end e enough room =
        let (no_text, nothing) = append-empty text (remaining s) e in
        let (s', c', run) =
          read_config_line-nothing source junk no_error reads s c
            (subst (Holds (allocate source junk c)) no_text h) nothing (omega arith) in
        read_options_step rounds reads s c settings
        ∙ ap (λ m. m >>= after_read rounds reads settings) run
    read_options-run_lines (l ∷ ls) (suc rounds) reads s c text settings w h at_end e enough room =
        let first : first_line (text ++ remaining s) ≡ some (text_of l, file_of ls) =
          ap first_line e
          ∙ first_line-append (text_of l) (file_of ls) (text_of-IsLine l w.0) (text_pos l w.0) in
        let bound : length (text_of l ++ newline ∷ file_of ls) < reads = room in
        let (s', c', run, (unread, gives, eof, rest), at_end') =
          read_config_line-first_line source junk no_error reads s c text (text_of l) (file_of ls) h
            at_end first (omega (arith, bound, ap length e, length-append text (remaining s))) in
        let buf = GivesLine-buf c' (text_of l) unread gives in
        read_options_step rounds reads s c settings
        ∙ ap (λ m. m >>= after_read rounds reads settings) run
        ∙ ap
            (λ b.
              read_option strtol attr_value mbtowc b settings
              >>= after_option rounds reads s' c' settings)
            buf
        ∙ ap (λ m. m >>= after_option rounds reads s' c' settings)
            (read_option-meaning strtol attr_value mbtowc _ settings l w.0)
        ∙ chain (line_meaning strtol attr_value mbtowc l settings)
            (λ s1. read_options strtol attr_value mbtowc source junk rounds reads s' c' s1)
            (run_lines strtol attr_value mbtowc ls) (ok settings)
            (λ s1.
              read_options-run_lines ls rounds reads s' c' unread s1 w.1
                (subst (λ x. Holds x unread)
                  (sym (allocate-Holds source junk c' unread gives.unread)) gives.unread)
                at_end' (sym rest) (omega (arith, enough))
                (omega (arith, bound, length-append (text_of l) (newline ∷ file_of ls))))

    -- A file of comments and options, each line ended by a newline, in whatever pieces it is read by a
    -- read(2) that does not fail: read_config_options_file takes the lines in their order, each does
    -- what it says, an option that is unknown or lacks words nothing, and then the pager and the
    -- downloader are completed. There are more rounds than lines and more than bytes.
    pub read_config_options_file-run_lines :
        (lines : List Line) (rounds reads : ℕ) (s : State)
        → AllWritten lines
        → remaining s ≡ file_of lines
        → length lines < rounds
        → length (file_of lines) < reads
        → read_config_options_file strtol attr_value mbtowc source junk rounds reads (some s) ≡ (
            bind_defaults >>= λ t.
            run_lines strtol attr_value mbtowc lines (start_settings t) >>= λ s'.
            ok (finish_options s'))
    unfolding read_config_options_file
    read_config_options_file-run_lines lines rounds reads s w e enough room =
        ap (λ k. bind_defaults >>= k)
          (fun_ext (λ t.
            ap (λ m. m >>= λ s'. ok (finish_options s'))
              (read_options-run_lines lines rounds reads s new_conf_read [] (start_settings t) w
                (allocate-new source junk) (inl refl) e enough room)))
