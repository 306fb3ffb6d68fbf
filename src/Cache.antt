-- ===== src/Cache.antt =====
-- src/sql/create.c: the tables Feed and Entry of the cache, and the statements that change them. A
-- table is the list of its rows in the order of their keys. SQLite itself is outside: a statement does
-- here what its text says, and does not fail. `FeedID`, `UniqueId` and the other columns keep their
-- names; a text column that is NULL is `none`.
pub mod Table
pub mod Upsert
pub mod Rows
pub mod Valid
pub mod Lookup
pub mod Calls
mod Tests
use newsbaoter.Common.{
  ℕ, zero, suc, ◌+◌, ◌-◌, ◌%◌, ◌^◌, ◌≡◌, Bool, true, false, not, ◌&&◌, ◌||◌, Option, none, some,
  List, [], ◌∷◌, Bytes, str_eq, ltb, ◌==◌, if◌then◌else◌,
}
use newsbaoter.Common.Int.{ℤ, pos, negsuc, ◌+ℤ◌, ◌-ℤ◌, ltbℤ, lebℤ}
use newsbaoter.Cache.Table.{select, keep, change, count, put, new_key}
use newsbaoter.Cache.Upsert.{key_of}

abbrev pub Text : Type 0
Text = Option Bytes

-- a row of Feed
pub record Feed : Type 0 where
  pub feed_id : ℕ
  pub title : Text
  pub url : Text
  pub description : Text
  pub author_name : Text
  pub author_email : Text
  pub image_url : Text
  pub image_text : Text

-- a row of Entry; `current` is the column `Current`
pub record Entry : Type 0 where
  pub entry_id : ℕ
  pub feed_id : ℕ
  pub viewed : ℕ
  pub pub_date : ℤ
  pub mod_date : ℤ
  pub unique_id : Text
  pub title : Text
  pub url : Text
  pub author_name : Text
  pub author_email : Text
  pub description : Text
  pub content : Text
  pub current : ℤ

pub record Db : Type 0 where
  pub feeds : List Feed
  pub entries : List Entry

-- the array that is indexed by `enum feed_field_ind`
pub record FeedData : Type 0 where
  pub title : Text
  pub url : Text
  pub desc : Text
  pub auth_name : Text
  pub auth_email : Text
  pub iurl : Text
  pub itext : Text

-- the array that is indexed by `enum entry_field_ind`
pub record EntryData : Type 0 where
  pub title : Text
  pub pdate : Text
  pub udate : Text
  pub url : Text
  pub auth_name : Text
  pub auth_email : Text
  pub desc : Text
  pub content : Text
  pub uid : Text

-- `a=b` in a statement: a comparison with NULL does not hold
abbrev pub text_eq : Text → Text → Bool
text_eq (some a) (some b) = str_eq a b
text_eq (some a) none = false
text_eq none b = false

abbrev pub feed_key : Feed → ℕ
feed_key f = f.feed_id

abbrev pub entry_key : Entry → ℕ
entry_key e = e.entry_id

abbrev pub cycles_until_delete : ℕ
cycles_until_delete = 2

abbrev pub of_feed : ℕ → Entry → Bool
of_feed feedid e = e.feed_id == feedid

abbrev pub age : ℕ → Entry → Entry
age feedid e = if of_feed feedid e then record e { current = e.current -ℤ pos 1 } else e

-- `cache_init_cleanup`
unfoldable pub cache_init_cleanup : ℕ → Db → Db
cache_init_cleanup feedid db = record db { entries = change (age feedid) db.entries }

-- the WHERE of the DELETE
abbrev pub is_old : ℤ → ℤ → ℕ → Entry → Bool
is_old now retention feedid e =
    of_feed feedid e
    && (lebℤ e.current (pos 0 -ℤ pos cycles_until_delete)
        && (ltb 0 e.viewed && ltbℤ e.pub_date (now -ℤ retention)))

-- `cache_cleanup_old`, with the time that SQLite has for 'now'
unfoldable pub cache_cleanup_old : ℤ → ℤ → ℕ → Db → Db
cache_cleanup_old now retention feedid db = record db {
  entries = keep (λ e. not (is_old now retention feedid e)) db.entries;
}

abbrev pub has_url : Text → Feed → Bool
has_url url f = text_eq f.url url

abbrev pub feed_row : ℕ → FeedData → Feed
feed_row id d = record {
  feed_id = id;
  title = d.title;
  url = d.url;
  description = d.desc;
  author_name = d.auth_name;
  author_email = d.auth_email;
  image_url = d.iurl;
  image_text = d.itext;
}

-- `cache_update_feed`: the row's key, and the tables
unfoldable pub cache_update_feed : FeedData → Db → ℕ × Db
cache_update_feed d db =
    let id = key_of feed_key (select (has_url d.url) db.feeds) (new_key feed_key db.feeds) in
    (id, record db { feeds = put feed_key (feed_row id d) db.feeds })

-- the 32 low bits of a `long`, as an `int`
abbrev pub int_of_bits : ℕ → ℤ
int_of_bits u = if ltb u (2 ^ 31) then pos u else negsuc (2 ^ 32 - 1 - u)

abbrev pub to_int : ℤ → ℤ
to_int (pos n) = int_of_bits (n % 2 ^ 32)
to_int (negsuc n) = int_of_bits (2 ^ 32 - 1 - n % 2 ^ 32)

abbrev pub has_uid : ℕ → Text → Entry → Bool
has_uid feedid uid e = of_feed feedid e && text_eq e.unique_id uid

abbrev pub viewed_of : Option Entry → ℕ
viewed_of none = 0
viewed_of (some e) = e.viewed

module _ (strtol : Bytes → ℤ) where
  -- what is bound for a date
  abbrev pub date_of : Text → ℤ
  date_of none = pos 0
  date_of (some t) = to_int (strtol t)

  abbrev pub entry_row : ℕ → ℕ → ℕ → EntryData → Entry
  entry_row id feedid viewed d = record {
    entry_id = id;
    feed_id = feedid;
    viewed = viewed;
    pub_date = date_of d.pdate;
    mod_date = date_of d.udate;
    unique_id = d.uid;
    title = d.title;
    url = d.url;
    author_name = d.auth_name;
    author_email = d.auth_email;
    description = d.desc;
    content = d.content;
    current = pos 1;
  }

  -- the row that `cache_update_entry` puts
  abbrev pub new_row : ℕ → EntryData → List Entry → Entry
  new_row feedid d es =
      let old = select (has_uid feedid d.uid) es in
      entry_row (key_of entry_key old (new_key entry_key es)) feedid (viewed_of old) d

  unfoldable pub cache_update_entry : ℕ → EntryData → Db → Db
  cache_update_entry feedid d db = record db {
    entries = put entry_key (new_row feedid d db.entries) db.entries;
  }

abbrev pub set_viewed : ℕ → Entry → Entry
set_viewed v e = record e { viewed = v }

abbrev pub toggle_viewed : Entry → Entry
toggle_viewed e = record e { viewed = if e.viewed == 0 then 1 else 0 }

-- `cache_toggle_read_entry`, on an id that may be any `int`
unfoldable pub cache_toggle_read_entry : ℕ → ℤ → Db → Db
cache_toggle_read_entry id (negsuc v) db = record db {
  entries = change (λ e. if e.entry_id == id then toggle_viewed e else e) db.entries;
}
cache_toggle_read_entry id (pos v) db = record db {
  entries = change (λ e. if e.entry_id == id then set_viewed v e else e) db.entries;
}

unfoldable pub cache_read_feed : ℕ → Db → Db
cache_read_feed feedid db = record db {
  entries =
      if feedid == 0
      then change (set_viewed 1) db.entries
      else change (λ e. if of_feed feedid e then set_viewed 1 e else e) db.entries;
}

abbrev pub is_unread : Entry → Bool
is_unread e = e.viewed == 0

-- `get_num_unread` of src/sql/viewio.c
unfoldable pub get_num_unread : Db → ℕ
get_num_unread db = count is_unread db.entries

-- `create_db`
abbrev pub create_db : Db
create_db = record { feeds = []; entries = [] }
