-- ===== src/Window.antt =====
-- src/sql/viewio.c with `struct mainwindow` of src/ui/ui_common.h: the lines of the context that is
-- shown, and the text of an entry. The ids of rows stay below 2 ^ 31. A NULL for `%s` is a fault, and
-- `stale` is what a string holds that no row has set.
pub mod Sizes
use newsbaoter.Common.{
  ℕ, zero, suc, ◌+◌, ◌-◌, ◌*◌, ◌≤◌, ◌≡◌, Bool, true, false, not, ◌&&◌, ◌||◌, Option, none, some,
  List, [], ◌∷◌, ◌++◌, Bytes, codes, str_eq, ltb, ◌==◌, if◌then◌else◌,
}
use newsbaoter.Common.Run.{Run, ok, fault, null_pointer, ◌>>=◌}
use newsbaoter.Common.Int.{ℤ, pos}
use newsbaoter.Cache.{Text, Db, Entry, Feed, cache_toggle_read_entry}
use newsbaoter.Cache.Table.{select, keep}
use newsbaoter.Lines.Format.{decimal, cut}
use newsbaoter.Lines.{Locale, Row, Cells, chars_to_widechars, write_feed_line, write_entry_line}

-- `enum listcontext`
pub data Context : Type 0 where
  null : Context
  feeds : Context
  entries : Context
  entry : Context

-- `struct mainwindow`, without its connections
pub record Window : Type 0 where
  pub header : List ℕ
  pub footer : List ℕ
  pub body : List ℕ
  pub lv : List Row
  pub body_len : ℕ
  pub width : ℕ
  pub page : ℕ
  pub ctx_type : Context
  pub ctx_id : ℕ
  pub beep_request : Bool
  pub db : Db

-- what the configuration says of the lists
pub record Shows : Type 0 where
  pub show_read_feeds : Bool
  pub show_read_entries : Bool

-- the title of the feed that is shown
abbrev pub feed_head : Bytes → Option Feed → Run Bytes
feed_head stale none = ok stale
feed_head stale (some f) = elim f.title [ none ↦ fault null_pointer | some t ↦ ok (cut 256 t) ]

abbrev pub head_text : Bytes → Context → ℕ → List Feed → Run Bytes
head_text stale feeds id fs = ok (codes "Your Feeds")
head_text stale entries id fs =
    if id == 0
    then ok (codes "Unread Articles")
    else feed_head stale (select (λ f. f.feed_id == id) fs)
head_text stale null id fs = ok []
head_text stale entry id fs = ok []

module _ (locale : Locale) (day : ℤ → Bytes) (stale : Bytes) (shows : Shows) where
  unfoldable pub set_title_string : Bytes → Window → Run Window
  unfolding chars_to_widechars
  set_title_string tail w = head_text stale w.ctx_type w.ctx_id w.db.feeds >>= λ head.
      chars_to_widechars locale w.header 0 (some (cut 256 (head ++ codes " " ++ tail))) w.width
      >>= λ r. ok (record w { header = r.1 })

  -- the end of `cache_gen_lines`
  abbrev pub put_lines : Window → ℕ × Cells → Run (ℕ × Window)
  put_lines w (r, c) =
      let w' = record w { lv = c.lv; body = c.body } in
      if r == 0
      then (set_title_string (cut 256 (codes "(Page " ++ decimal (w.page + 1) ++ codes ")")) w'
          >>= λ t. ok (0, t))
      else ok (r, w')

  abbrev pub gen_lines : Context → Window → Run (ℕ × Window)
  gen_lines feeds w =
      write_feed_line locale shows.show_read_feeds w.body_len w.width (w.page * w.body_len) w.db
        w.lv w.body
      >>= put_lines w
  gen_lines entries w =
      write_entry_line locale day shows.show_read_entries w.body_len w.width w.ctx_id
        (w.page * w.body_len) w.db w.lv w.body
      >>= put_lines w
  gen_lines null w = ok (1, w)
  gen_lines entry w = ok (1, w)

  unfoldable pub cache_gen_lines : Window → Run (ℕ × Window)
  unfolding set_title_string write_feed_line write_entry_line
  cache_gen_lines w = gen_lines w.ctx_type w

-- the columns of PubEntry, with `datetime(PubDate,'unixepoch')`
abbrev pub pub_entry : (ℤ → Bytes) → Entry → List (Bytes × Text)
pub_entry datetime e =
    (codes "EntryID", some (decimal e.entry_id))
    ∷ (codes "FeedID", some (decimal e.feed_id))
    ∷ (codes "Title", e.title)
    ∷ (codes "Date", some (datetime e.pub_date))
    ∷ (codes "URL", e.url)
    ∷ (codes "AuthorName", e.author_name)
    ∷ (codes "AuthorEmail", e.author_email)
    ∷ (codes "Description", e.description)
    ∷ (codes "Content", e.content)
    ∷ []

-- what is written for a column that is neither NULL nor empty; `html` is `html_pager`
abbrev pub write_column : Bool → ℕ → Bytes → Text → Bytes
write_column html i name none = []
write_column html i name (some []) = []
write_column html i name (some (c ∷ s)) =
    let value = c ∷ s in
    name
    ++ codes ": "
    ++ (if html && i == 4
        then codes "<a href=\"" ++ value ++ codes "\">" ++ value ++ codes "</a>"
        else value)
    ++ (if html then codes "<br/>" else [])
    ++ codes "\n"

-- `write_entry_cb`, from column `i` on
unfoldable pub write_entry_cb : Bool → ℕ → List (Bytes × Text) → Bytes
write_entry_cb html i [] = []
write_entry_cb html i ((name, value) ∷ row) =
    (if ltb i 2 then [] else write_column html i name value) ++ write_entry_cb html (i + 1) row

abbrev pub raw_text : Text → Bytes
raw_text none = []
raw_text (some s) = s

unfoldable pub write_entry_raw_cb : List (Bytes × Text) → Bytes
write_entry_raw_cb [] = []
write_entry_raw_cb ((name, value) ∷ row) = raw_text value ++ write_entry_raw_cb row

-- The text for the pipe, and the tables. The field is `*` or the name of a column.
unfoldable pub cache_write_entry_field : (ℤ → Bytes) → Bool → ℕ → Bytes → Db → Bytes × Db
unfolding write_entry_cb write_entry_raw_cb
cache_write_entry_field datetime html id field db =
    let db' = cache_toggle_read_entry id (pos 1) db in
    let text : Bytes = elim (select (λ e. e.entry_id == id) db'.entries) [
      | none ↦ []
      | some e ↦
          if str_eq field (codes "*")
          then write_entry_cb html 0 (pub_entry datetime e)
          else write_entry_raw_cb (keep (λ c. str_eq c.0 field) (pub_entry datetime e))
    ] in
    (text, db')
