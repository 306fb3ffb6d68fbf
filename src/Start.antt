-- ===== src/Start.antt =====
-- src/newsbaoter.c: what `main` does before the loop of `run_ui`, and that loop for a sequence of events.
-- open(2), `init_db` and what is behind them are outside: they give a descriptor or none, and the tables.
pub mod Establish
mod Tests
use newsbaoter.Common.{
  ℕ, ◌-◌, Bool, true, false, not, Option, none, some, List, [], ◌∷◌, Bytes, codes, str_eq, ◌==◌,
  if◌then◌else◌,
}
use newsbaoter.Common.Int.{ℤ, pos, negsuc}
use newsbaoter.Common.Run.{Run, ok, fault, exits, ◌>>=◌}
use newsbaoter.Cache.{Db}
use newsbaoter.Colors.{Palette, setup_colors}
use newsbaoter.Config.File.{NbConfig, Settings, get_config_file, read_config_options_file}
use newsbaoter.Config.Reader.{Source}
use newsbaoter.Hash.{Table}
use newsbaoter.Keys.{Handler}
use newsbaoter.Keys.Help.{set_foot_help_string}
use newsbaoter.Lines.{Locale, chars_to_widechars}
use newsbaoter.Screen.{View, Answer, no_handler, stay, leave, update, World, resize_mainwindow}
use newsbaoter.Urls.{Feeds, urlparse}
use newsbaoter.Views.{request_list_update, update_view, refreshed}
use newsbaoter.Views.Press.{press}
use newsbaoter.Window.{Window, Context, null, feeds, Shows}

abbrev pub nb_conf_file : Bytes
nb_conf_file = codes ".newsbaoter/config"

abbrev pub nb_url_file : Bytes
nb_url_file = codes ".newsbaoter/urls"

abbrev pub nb_debug_file : Bytes
nb_debug_file = codes ".newsbaoter/debug"

-- where `debug_print` writes
pub data Debug : Type 0 where
  nowhere : Debug
  to_file : Bytes → Debug
  to_stderr : Debug

-- the arguments of the program, without its name
unfoldable pub debug_output : Option Bytes → List Bytes → Run Debug
debug_output home [] = ok nowhere
debug_output home (arg ∷ args) =
    if str_eq arg (codes "-d")
    then (get_config_file home nb_debug_file >>= λ file. ok (to_file file))
    else if str_eq arg (codes "-D")
    then ok to_stderr
    else ok nowhere

-- `if(x)` for an `int`
abbrev pub is_true : ℤ → Bool
is_true (pos n) = not (n == 0)
is_true (negsuc n) = true

abbrev pub shows_of : NbConfig → Shows
shows_of c = record {
  show_read_feeds = is_true c.show_read_feeds;
  show_read_entries = is_true c.show_read_entries;
}

-- the world with the options that are read
abbrev pub configured : NbConfig → World → World
configured c world = record world {
  html_pager = is_true c.html_pager;
  notify_beep = is_true c.notify_beep;
  confirm_exit = is_true c.confirm_exit;
}

-- `memset(mw,0,sizeof(*mw))` and the static variables of src/ui/view.c, with the tables of later
abbrev pub zero_view : Db → View
zero_view db = record {
  win = record {
    header = [];
    footer = [];
    body = [];
    lv = [];
    body_len = 0;
    width = 0;
    page = 0;
    ctx_type = null;
    ctx_id = 0;
    beep_request = false;
    db = db;
  };
  cursor_i = 0;
  content_bw_max = 0;
  backup_cursor_i = 0;
  backup_page_num = 0;
  newsize = false;
}

-- `setup_ui`: the colours, and the window with its memory
unfoldable pub setup_ui : ℕ → World → NbConfig → Db → Run (Palette × View)
unfolding setup_colors resize_mainwindow
setup_ui bold world config db = setup_colors bold config.colors >>= λ p.
    resize_mainwindow world.junk world.junk_row world.lines world.cols (zero_view db) >>= λ v.
    ok (p, record v { win = record v.win { ctx_type = feeds; ctx_id = 0 } })

module _ (locale : Locale) where
  -- the header and the footer that `main` sets
  unfoldable pub set_header_footer : Bytes → View → Run View
  unfolding chars_to_widechars
  set_header_footer fs v =
      chars_to_widechars locale v.win.header 0 (some (codes "Feed List")) v.win.width >>= λ h.
      chars_to_widechars locale v.win.footer 0 (some fs) v.win.width >>= λ f.
      ok (record v { win = record v.win { header = h.1; footer = f.1 } })

-- `run_ui` up to its loop; what the first call of `handle_urls` returns is not read
abbrev pub first_reload : Bool → World → View → View
first_reload auto_reload world v =
    if auto_reload then record v { win = record v.win { db = (world.fetch v.win.db).1 } } else v

-- What a round of the loop waits for: a key, with whether the exit that it may ask for is confirmed,
-- or the end of the time or news of a transfer.
pub data Event : Type 0 where
  key : ℤ → Bool → Event
  transfer : Event

abbrev pub is_leave : Answer → Bool
is_leave leave = true
is_leave no_handler = false
is_leave stay = false
is_leave update = false

module _ (locale : Locale) (day : ℤ → Bytes) (stale : Bytes) where
  unfoldable pub begin_ui : Shows → Bool → World → View → Run View
  unfolding update_view
  begin_ui shows auto_reload world v =
      update_view locale day stale shows world (first_reload auto_reload world v)

  -- what a round of the loop does after select(2); the Boolean is whether it is the last one
  unfoldable pub ui_round : Shows → World → Table Handler → Event → View → Run (Bool × View)
  unfolding press
  ui_round shows world keys (key c confirmed) v =
      press locale day stale shows world keys c confirmed v >>= λ r. ok (is_leave r.0, r.1)
  ui_round shows world keys transfer v =
      refreshed locale day stale shows world v (world.fetch v.win.db) >>= λ r. ok (false, r.1)

  -- the loop of `run_ui`, for what the rounds wait for
  unfoldable pub run_events : Shows → World → Table Handler → List Event → View → Run View
  unfolding ui_round
  run_events shows world keys [] v = ok v
  run_events shows world keys (e ∷ es) v = ui_round shows world keys e v >>= λ r. elim r.0 [
    | true ↦ ok r.1
    | false ↦ run_events shows world keys es r.1
  ]

module _ (source : Source) (junk : ℕ → ℕ) (rounds reads : ℕ) where
  open source use {State}

  -- the file of URLs, which has to be there
  unfoldable pub read_urls : Option State → Run Feeds
  unfolding urlparse
  read_urls none = fault (exits 1)
  read_urls (some s) = urlparse source junk rounds reads s

-- What `main` has when it calls `run_ui`.
pub record Started : Type 0 where
  pub debug : Debug
  pub settings : Settings
  pub feeds_read : Feeds
  pub palette : Palette
  pub view : View

module _ (locale : Locale) (day : ℤ → Bytes) (stale : Bytes) where
  -- `run_ui`, for what the rounds of its loop wait for
  unfoldable pub run_ui : World → List Event → Started → Run View
  unfolding begin_ui run_events
  run_ui world events s =
      let w = configured s.settings.config world in
      let shows = shows_of s.settings.config in
      begin_ui locale day stale shows (is_true s.settings.config.auto_reload) w s.view >>= λ v.
      run_events locale day stale shows w s.settings.keys events v

module _ (locale : Locale) (day : ℤ → Bytes) (stale : Bytes) (strtol : Bytes → ℤ)
    (attr_value : ℕ → ℕ) (mbtowc : Bytes → Option ℤ) (strtol16 : Bytes → ℕ) (lc : ℕ → Bytes)
    (bold : ℕ) (source : Source) (junk : ℕ → ℕ) (rounds reads : ℕ) where
  open source use {State}

  -- `main` up to its call of `run_ui`
  unfoldable pub start_up :
      Option Bytes → (Bytes → Option State) → List Bytes → World → Db → Run Started
  unfolding debug_output read_config_options_file read_urls setup_ui set_header_footer
      set_foot_help_string request_list_update
  start_up home open_file args world db = do
    debug ← debug_output home args
    conf ← get_config_file home nb_conf_file
    settings ←
        read_config_options_file strtol attr_value mbtowc source junk rounds reads (open_file conf)
    urls ← get_config_file home nb_url_file
    fs ← read_urls source junk rounds reads (open_file urls)
    (p, v) ← setup_ui bold world settings.config db
    foot ← set_foot_help_string strtol16 lc 50 settings.keys
    v1 ← set_header_footer locale foot v
    (r, v2) ← request_list_update locale day stale (shows_of settings.config) v1
    ok (record { debug = debug; settings = settings; feeds_read = fs; palette = p; view = v2 })

  -- `main`, for what the rounds of the loop wait for
  unfoldable pub main_run :
      Option Bytes → (Bytes → Option State) → List Bytes → World → Db → List Event → Run View
  unfolding start_up run_ui
  main_run home open_file args world db events =
      start_up home open_file args world db >>= run_ui locale day stale world events
