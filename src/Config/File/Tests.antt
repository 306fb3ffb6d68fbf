-- ===== src/Config/File/Tests.antt =====
-- src/config.c: runs of a small file of options, with a read(2) that returns five bytes at most.
use newsbaoter.Common.{
  ◌≡◌, ◌≢◌, refl, Option, none, some, List, [], ◌∷◌, Bytes, codes, str_eq, arith,
}
use newsbaoter.Common.Int.{ℤ, pos}
use newsbaoter.Common.Run.{Run, ok, fault, diverges, ◌>>=◌}
use newsbaoter.Keys.{bind_defaults, bind_key, key_name}
use newsbaoter.Hash.{set_hash_var, init_table, hash_func}
use newsbaoter.Config.Reader.{read_config_line, check_for_line, fill_from, finish_read}
use newsbaoter.Config.Options.{copy_int}
use newsbaoter.Config.Words.{copy_strarr}
use newsbaoter.Config.Words.Cut.{Spaced}
use newsbaoter.Config.Tests.{slow, zeros, no_error}
use newsbaoter.Config.OptionTests.{decimal, bits, digits}
use newsbaoter.Config.File.{Settings, start_settings, finish_options, read_config_options_file}
use newsbaoter.Config.File.Lines.{Line, comment, option, AllWritten, file_of, run_lines}
use newsbaoter.Config.File.Ends.{read_config_options_file-ne-diverges}
use newsbaoter.Config.File.Whole.{read_config_options_file-run_lines}

-- a locale of single bytes
abbrev single : Bytes → Option ℤ
single [] = none
single (c ∷ s) = some (pos c)

-- neither newlines nor words
abbrev torn : Bytes
torn = 0 ∷ 255 ∷ b' ' ∷ b'#' ∷ []

read_config_options_file-ne-diverges_example :
    read_config_options_file decimal bits single slow zeros 9 9 (some torn) ≢ fault diverges
read_config_options_file-ne-diverges_example =
    read_config_options_file-ne-diverges decimal bits single slow zeros 9 9 torn (omega arith)
      (omega arith)

abbrev spaced : Bytes → Spaced
spaced s = record { blank = b' '; more = []; word = s }

abbrev some_lines : List Line
some_lines =
    comment (codes " mine")
    ∷ option (codes "reload-time") (spaced (codes "5") ∷ [])
    ∷ option (codes "pager") (spaced (codes "cat") ∷ spaced (codes "-v") ∷ [])
    ∷ option (codes "colour") []
    ∷ []

some_lines-AllWritten : AllWritten some_lines
some_lines-AllWritten = ground arith

read_config_options_file-run_lines_example :
    read_config_options_file decimal bits single slow zeros 9 99 (some (file_of some_lines)) ≡ (
      bind_defaults >>= λ t.
      run_lines decimal bits single some_lines (start_settings t) >>= λ s'. ok (finish_options s'))
read_config_options_file-run_lines_example =
    read_config_options_file-run_lines decimal bits single slow zeros no_error some_lines 9 99
      (file_of some_lines) some_lines-AllWritten refl (omega arith) (omega arith)

reload_time_of : Run Settings → ℤ
reload_time_of (fault why) = pos 0
reload_time_of (ok s) = s.config.reload_time

reload_time_read :
    reload_time_of
      (read_config_options_file decimal bits single slow zeros 9 99 (some (file_of some_lines)))
    ≡ pos 5
unfolding reload_time_of read_config_options_file digits bind_defaults bind_key set_hash_var
    init_table hash_func key_name str_eq read_config_line check_for_line fill_from finish_read
    copy_int copy_strarr
reload_time_read = refl
