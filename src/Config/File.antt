-- ===== src/Config/File.antt =====
-- src/config.c: the configuration, its defaults, and the file of options. What an option writes into its
-- line, to end the words, is left out: the next line is cut from behind it.
pub mod Ends
pub mod Lines
pub mod Process
pub mod Meaning
pub mod Whole
mod Tests
use newsbaoter.Common.{
  ℕ, zero, suc, ◌+◌, ◌*◌, ◌++◌, length, Bool, true, false, Option, none, some, List, [], ◌∷◌, Bytes,
  codes, map, get_elem?, get_or, replicate, ◌==◌, if◌then◌else◌,
}
use newsbaoter.Common.Int.{ℤ, pos, negsuc}
use newsbaoter.Common.Run.{Run, ok, fault, out_of_bounds, null_pointer, diverges, ◌>>=◌}
use newsbaoter.Hash.{Table}
use newsbaoter.Lines.Format.{cut}
use newsbaoter.Keys.{Handler, Names, bind_defaults, handler_names, unset_handler}
use newsbaoter.Config.Reader.{ConfRead, Source, new_conf_read, read_config_line}
use newsbaoter.Config.Words.{get_line_word, copy_str, copy_strarr}
use newsbaoter.Config.Options.{NbColor, find_name, copy_int, copy_color}
use newsbaoter.Config.Bindings.{config_bind_key}

-- `struct nb_config`
pub record NbConfig : Type 0 where
  pub proxy : Option Bytes
  pub dl_retries : ℤ
  pub auto_reload : ℤ
  pub reload_time : ℤ
  pub show_read_feeds : ℤ
  pub show_read_entries : ℤ
  pub parallel_reload : ℤ
  pub confirm_exit : ℤ
  pub notify_beep : ℤ
  pub entry_retention : ℤ
  pub pager : Option (List Bytes)
  pub downloader : Option (List Bytes)
  pub html_pager : ℤ
  pub colors : List NbColor

abbrev pub unset_color : NbColor
unset_color = record { color = 0; attr = 0; is_set = false }

-- `global_config` before main, with its colours of zeros
abbrev pub global_config : NbConfig
global_config = record {
  proxy = none;
  dl_retries = pos 1;
  auto_reload = pos 1;
  reload_time = pos 30;
  show_read_feeds = pos 1;
  show_read_entries = pos 1;
  parallel_reload = pos 5;
  confirm_exit = pos 0;
  notify_beep = pos 0;
  entry_retention = pos (3 * 24 * 60 * 60);
  pager = none;
  downloader = none;
  html_pager = pos 0;
  colors = replicate 8 unset_color;
}

-- the path of a file below HOME, which may be unset
abbrev pub get_config_file : Option Bytes → Bytes → Run Bytes
get_config_file none file = fault null_pointer
get_config_file (some home) file = ok (cut (length home + length file + 2) (home ++ b'/' ∷ file))

-- what the options change: the configuration, the key table and the names of the handlers
pub record Settings : Type 0 where
  pub config : NbConfig
  pub keys : Table Handler
  pub names : Names

-- `process` with `doff`, in a row of `config_options`
pub data Setting : Type 0 where
  to_str : (Bytes → NbConfig → NbConfig) → Setting
  to_int : (ℤ → NbConfig → NbConfig) → Setting
  to_strarr : (List Bytes → NbConfig → NbConfig) → Setting
  to_colors : Setting
  to_keys : Bool → Setting

-- The Boolean of `to_keys` is whether `doff` is 0.
abbrev pub config_options : List (Bytes × Setting)
config_options =
    (codes "proxy", to_str (λ v c. record c { proxy = some v }))
    ∷ (codes "download-retries", to_int (λ v c. record c { dl_retries = v }))
    ∷ (codes "auto-reload", to_int (λ v c. record c { auto_reload = v }))
    ∷ (codes "reload-time", to_int (λ v c. record c { reload_time = v }))
    ∷ (codes "show-read-feeds", to_int (λ v c. record c { show_read_feeds = v }))
    ∷ (codes "show-read-articles", to_int (λ v c. record c { show_read_entries = v }))
    ∷ (codes "reload-threads", to_int (λ v c. record c { parallel_reload = v }))
    ∷ (codes "confirm-exit", to_int (λ v c. record c { confirm_exit = v }))
    ∷ (codes "notify-beep", to_int (λ v c. record c { notify_beep = v }))
    ∷ (codes "color", to_colors)
    ∷ (codes "bind-key", to_keys false)
    ∷ (codes "unbind-key", to_keys true)
    ∷ (codes "cache-retention", to_int (λ v c. record c { entry_retention = v }))
    ∷ (codes "pager", to_strarr (λ v c. record c { pager = some v }))
    ∷ (codes "downloader", to_strarr (λ v c. record c { downloader = some v }))
    ∷ (codes "html-pager", to_int (λ v c. record c { html_pager = v }))
    ∷ []

-- the index of the option, or -1
unfoldable pub find_config_index : Bytes → ℤ
unfolding find_name
find_config_index s = find_name (map (λ o. o.0) config_options) 0 s

-- What is stored of a result; the result 1, `none`, is ignored.
abbrev pub stored {ℓ} :
    {A : Type ℓ} → (A → Settings → Settings) → Run (Option A) → Settings → Run Settings
stored write m s = m >>= λ r. ok (elim r [ none ↦ s | some v ↦ write v s ])

abbrev pub in_config {ℓ} : {A : Type ℓ} → (A → NbConfig → NbConfig) → A → Settings → Settings
in_config write v s = record s { config = write v s.config }

abbrev pub less_pager : List Bytes
less_pager = codes "/usr/bin/less" ∷ []

-- what follows the loop
abbrev pub set_pager : NbConfig → NbConfig
set_pager c = elim c.pager [ none ↦ record c { pager = some less_pager } | some p ↦ c ]

abbrev pub finish_options : Settings → Settings
finish_options s = record s {
  config = set_pager s.config;
  names = elim s.config.downloader [
    | none ↦ unset_handler s.names (codes "download")
    | some d ↦ s.names
  ];
}

abbrev pub start_settings : Table Handler → Settings
start_settings t = record { config = global_config; keys = t; names = handler_names }

module _ (strtol : Bytes → ℤ) (attr_value : ℕ → ℕ) (mbtowc : Bytes → Option ℤ) where
  -- the call of `process`
  unfoldable pub process : Setting → Bytes → Settings → Run Settings
  process (to_str write) next s = stored (in_config write) (copy_str next) s
  process (to_int write) next s = stored (in_config write) (copy_int strtol next) s
  process (to_strarr write) next s = stored (in_config write) (copy_strarr next) s
  process to_colors next s =
      stored (in_config (λ v c. record c { colors = v }))
        (copy_color strtol attr_value s.config.colors next) s
  process (to_keys unbinds) next s =
      stored (λ t s'. record s' { keys = t }) (config_bind_key mbtowc unbinds s.names next s.keys) s

  unfoldable pub process_at : ℤ → Bytes → Settings → Run Settings
  unfolding process
  process_at (negsuc n) next s = ok s
  process_at (pos i) next s = elim (get_elem? config_options i) [
    | none ↦ fault out_of_bounds
    | some o ↦ process o.1 next s
  ]

  -- The body of the loop of `read_config_options_file`: `none` for its `break`.
  unfoldable pub read_option : Bytes → Settings → Run (Option Settings)
  unfolding get_line_word find_config_index process_at
  read_option buf s =
      if get_or buf 0 0 == b'#'
      then ok (some s)
      else get_line_word buf >>= λ bp. elim bp [
        | none ↦ ok none
        | some w ↦ process_at (find_config_index w.word) w.next s >>= λ s'. ok (some s')
      ]

  module _ (source : Source) (junk : ℕ → ℕ) where
    open source use {State}

    -- the loop, with the rounds of each call that reads a line
    unfoldable pub read_options : ℕ → ℕ → State → ConfRead → Settings → Run Settings
    unfolding read_option
    read_options zero reads s c settings = fault diverges
    read_options (suc rounds) reads s c settings = read_config_line source junk reads s c >>= λ r.
        elim r.2 [
          | false ↦ ok settings
          | true ↦ read_option (r.1).buf settings >>= λ o. elim o [
            | none ↦ ok settings
            | some settings' ↦ read_options rounds reads r.0 r.1 settings'
          ]
        ]

    -- `read_config_options_file`, where `open` gives a descriptor, or `none` for -1
    unfoldable pub read_config_options_file : ℕ → ℕ → Option State → Run Settings
    unfolding read_options
    read_config_options_file rounds reads fd = bind_defaults >>= λ t. elim fd [
      | none ↦ ok (start_settings t)
      | some s ↦ read_options rounds reads s new_conf_read (start_settings t) >>= λ s'.
          ok (finish_options s')
    ]
