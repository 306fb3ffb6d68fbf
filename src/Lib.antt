-- ===== src/Lib.antt =====
-- A model of newsbaoter, a feed reader for the terminal in C, and theorems about it.
--
-- The program. main (src/newsbaoter.c) opens the configuration and the URL file, both read line by
-- line through `read_config_line` (src/config.c); the URL lines become a list of feeds and tags
-- (src/urlparse.c), the tags and the key bindings (src/ui/keys.c) live in two instances of one hash
-- table (src/hash.c). The views (src/ui/view.c) start a reload, which fetches the feeds in batches
-- (src/httpfetch.c) through libcurl, hands each document to src/xmlproc.c and stores its entries in
-- the SQLite cache (src/sql).
--
-- The files.
--   Common and the modules below it: arrays as lists, Boolean tests on numbers, integers, and `Run`,
--     the result of code that may fault, exit or not come back. A use of a row that the list on the
--     screen does not have is a fault of its own, `no_row`, which `Safe` rules out.
--   Hash: src/hash.c and src/hash.h. `find_hash`, `set_hash_var`, `unset_hash_var`, `get_hash_var`,
--     `grow_hash`, `next_hash_pair` and `init_table` are the functions of these names;
--     `init_table` is both init functions, and the wrappers for the two tables are the functions
--     themselves. A slot is NULL, the tombstone or an entry.
--   Hash.View, Hash.Probe, Hash.Valid, Hash.Laws: the map that a table stands for, the search, the
--     invariant and the writes. Hash.Refine: sequences of calls against a map. Hash.Overfull: what a
--     full table does. Hash.Iterate: the loop over `next_hash_pair` of src/ui/keys.c. Hash.Safe: searches.
--   Fetch: src/httpfetch.c with `struct urllist` of src/urlparse.h. `load_new_handles`,
--     `http_fetch_init`, `process_multi_group`, `handle_urls` and `http_get_timeout` are the functions
--     of these names; `finish_messages` is the message loop of `finish_batch`; `run_cycle` is the
--     sequence of calls that the loop of `run_ui` (src/ui/view.c) makes. `urllist` is a list and a
--     pointer into it a position.
--   Fetch.Load, Fetch.Batch, Fetch.Cycle: what a batch takes, what it does to the feeds, and a whole
--     reload. Fetch.Faults: retries, and reloads with nothing to load.
--   Config.Reader: the line reader of src/config.c: `read_config_line`, `check_for_line` and
--     `move_buf` on `struct conf_read`. Its child modules: Slices and Scan (buffers cut at an index,
--     and the loops over them), Check (`check_for_line`), Stream (the lines of a text), Store (one
--     round of the reading loop), Fill (the call), Given (the buffer after it) and Last (the call behind
--     the last line); Rounds and Ends take a file of any bytes.
--   Config.Words: `get_line_word`, `copy_str` and `copy_strarr` on the memory of a line, which is cut in
--     place. Config.Words.Cut: lines made of words and blanks.
--   Config.Options: the names of colours and attributes, `copy_int` and `copy_color` of src/config.c.
--     Config.Options.Color: `copy_color` on a line of words. Config.Bindings: `config_bind_key`.
--     Hash.Ends, Config.Words.Ends and Config.Options.Ends: these readers on memory of any content.
--   Config.File: `read_config_options_file` with `struct nb_config` and `config_options`. `Settings` is
--     what the options change: `global_config`, the key table and the names of handlers; `process` is a
--     call through `config_options`, `read_option` the body of the loop and `finish_options` what
--     follows it. Config.File.Lines: what the lines of a file are to do. Config.File.Process,
--     Config.File.Meaning and Config.File.Whole: the code on one option, on one line and on a file.
--     Config.File.Ends: files of any bytes.
--   Urls: src/urlparse.c with `LIST_ADD` of src/list.h. `add_line` is the body of the loop of
--     `urlparse`, `read_feeds` the loop. A feed is named by the number of feeds read before it, and a
--     `taglist` is a list of these. Urls.Line: one line. Urls.Whole: a file.
--   Keys: the bindings of src/ui/keys.c. `bind_all` is the loop of `bind_defaults`; `process_key` gives
--     the handler that is called. Keys.Hex: the names of keys. Keys.Bind: the bindings. Keys.Help: the
--     help texts; `help_keys` is `set_foot_help_string` before it prints.
--   Cache: src/sql/create.c, with `get_num_unread` of src/sql/viewio.c. A table is the list of its rows
--     in the order of their keys, and each function that changes the tables is what its statement says.
--     `create_db` is the empty database. Cache.Table and Cache.Upsert: what the statements ask of
--     SQLite. Cache.Rows: UPDATE and DELETE on rows. Cache.Valid: the invariant. Cache.Lookup: the entry
--     of a feed under a name. Cache.Calls: sequences of calls, dates, and the count of unread entries.
--   Document: src/xmlproc.c, from the tree that libxslt returns to the cache. `feed_data` is
--     `update_feed` up to its call of `cache_update_feed`; `entry_data` is the body of `update_entry`
--     between the reading of the fields (`raw_entry`) and `cache_update_entry`; `update_nodes` is the
--     loop of `update_entries`. Document.Refresh: the loop. Document.Cycle: a refresh, and entries that
--     are no longer listed. Document.Entries: the end of a transfer.
--   Lines: src/sql/viewio.c up to `write_entry_line`, with `chars_to_widechars` of src/ui/view.c. `body` is
--     one array with the lines of all rows. Lines.Format: what snprintf(3) writes. Lines.Query: the rows
--     of the queries. Lines.Ascii, Lines.Bounds, Lines.Entries, Lines.Overflow: where the lines of
--     entries and of feeds are written. Lines.Sizes: the size of the memory.
--   Window: the rest of src/sql/viewio.c, on `struct mainwindow` of src/ui/ui_common.h. `put_lines` and
--     `gen_lines` are the halves of `cache_gen_lines`. Window.Sizes: what an update of the lines keeps.
--   Screen: the drawing of src/ui/view.c. A `View` is the window and the static variables; `draw_view` is
--     `update_view` behind the change of the size. Screen.Crop: sizes. Screen.InRange: the invariant.
--   Colors: `set_color_pair`, `set_default_colors` and `set_config_colors` of src/ui/view.c with
--     `get_nbcolor` of src/config.c; `setup_colors` is what setup_ui does about colours, and
--     `default_pairs` the arguments of its calls. Colors.Pairs: the pairs that curses is given.
--     Colors.Painted: the colours in the configuration. Colors.Shown: both, from a line on.
--   Views: the handlers of src/ui/view.c, with `request_list_update`, `catchup_entries`,
--     `toggle_read_ipc` and `pipe_fields` of src/ui/util.c. A handler returns its answer with the new
--     view. `open_feed`, `step_next`, `step_prev`, `next_page` and `refreshed` are parts of handlers.
--     Views.Press: a key of the loop of `run_ui`. Views.Wait: its timeout. Views.Cursor and
--     Views.Handlers: the invariant. Views.Moves: the cursor in a page. Views.Contexts: feeds, entries
--     and the tables.
--   Process: the process that `pipe_fields` of src/ui/util.c writes an entry to. `feed_process` is what it
--     does with `pipe_to_process` and `wait_for_process`, and Views has what it does to the view.
--     Process.Pipe: the descriptors of both sides, and the wait.
--   Start: `main` of src/newsbaoter.c with `setup_ui` and `run_ui` of src/ui/view.c. `start_up` is main
--     up to its call of `run_ui`, and `main_run` the whole for a list of events, one for each round of
--     the loop: a key, or news of a transfer. Start.Establish: the invariant of the view.
--   The modules named Tests, OptionTests and BindingTests hold runs at concrete inputs.
--
-- Outside the model, as arguments: what libcurl answers (`Curl`, with what `xmlproc_finish` returns
-- for a handle) and read(2) (`Source`: it returns pieces of what remains, of any size, and nothing
-- only at the end). Fresh memory holds any bytes (`junk`). strtol(3), mbtowc(3) and the values of
-- the attributes of curses are arguments, too, as are strptime(3) and strftime(3) (`TimeLib`), the
-- trees of libxml2 and libxslt (`Node`, `Parsed`), the clock of SQLite and the random names that it
-- gives to entries without one, and the answers of pipe(2), fork(2), execvp(3) and
-- waitpid(2). A statement of SQLite does not fail, and its rows come in the order of their keys where
-- no other is asked for; ids stay below 2 ^ 31. mbstowcs(3) is `Locale`: it
-- stores at most as many characters as it is told, and ASCII as it is. `World` is the terminal,
-- fresh memory, the options of the views, and what `handle_urls` returns for them.
--
-- Machine integers. `char` is signed and an `int` has 32 bits; the arithmetic of `hash_func` and of
-- the probes wraps at 2 ^ 32. Counts of errors and options are integers, which stay far from the
-- ends of `int`.
--
-- Bounds and fuel. A table has 32 slots, and the loop of `find_hash` makes at most as many rounds as
-- the table has slots. A loop over `next_hash_pair` is given 33 rounds, one for each slot and the one
-- that finds none. `run_cycle` is given as many calls of `handle_urls` as the theorem names;
-- `BatchesEnd` bounds how many a batch takes, and its answers while transfers are running are open. The
-- reading loop of `read_config_line` is given more rounds than there are bytes left to read, which
-- each round but the last makes fewer; the loops over the lines of a file are given more rounds than
-- the file has lines, or bytes, since each line that is read leaves less to read. Running out of rounds
-- is the fault `diverges`.
--
-- Not modelled: what open(2) does, which gives a file for a path or none; the closing of what is open
-- when main ends, and what `debug_print` prints; the calls of curses in src/ui/view.c, but for what
-- they change in memory and the pairs of colours; the parsing of documents and the sheets of
-- src/xmlproc.c, which are libxml2's and libxslt's; calls of libcurl without a result that the code
-- reads (`http_get_fds`, `http_destroy`); the drawing on the terminal.
pub mod Common
pub mod Hash
pub mod Fetch
pub mod Config
pub mod Urls
pub mod Keys
pub mod Cache
pub mod Document
pub mod Lines
pub mod Window
pub mod Process
pub mod Screen
pub mod Colors
pub mod Views
pub mod Start
