-- ===== src/Cache/Valid.antt =====
-- src/sql/create.c: the invariant of the tables, and each statement.
use newsbaoter.Common.{
  ℕ, ◌≡◌, refl, sym, ◌∙◌, Bool, true, Bool-cases, inl, inr, none, some, str_eq_iff, ◌==◌,
  if◌then◌else◌, arith, Bytes,
}
use newsbaoter.Common.Int.{ℤ, pos, negsuc}
use newsbaoter.Cache.Table.{change, Ascending, Ascending-put}
use newsbaoter.Cache.Rows.{
  Distinct, Ascending-change, Distinct-change, Ascending-keep, Distinct-keep, IsClass,
  Distinct-upsert,
}
use newsbaoter.Cache.{
  Text, Feed, Entry, Db, FeedData, EntryData, text_eq, feed_key, entry_key, of_feed, age, has_uid,
  feed_row, new_row, cache_init_cleanup, cache_cleanup_old, cache_update_feed, cache_update_entry,
  cache_toggle_read_entry, cache_read_feed, create_db, toggle_viewed, set_viewed,
}

-- the same document
abbrev pub same_feed : Feed → Feed → Bool
same_feed a b = text_eq b.url a.url

-- the same entry of the same feed
abbrev pub same_entry : Entry → Entry → Bool
same_entry a b = has_uid a.feed_id a.unique_id b

-- Keys ascend; no two feeds have one URL, and no two entries of a feed one UniqueId.
pub record IsValid (db : Db) : Type 0 where
  pub feeds : Ascending feed_key db.feeds
  pub urls : Distinct same_feed db.feeds
  pub entries : Ascending entry_key db.entries
  pub uids : Distinct same_entry db.entries

pub create_db-IsValid : IsValid create_db
create_db-IsValid = record { feeds = tt; urls = tt; entries = tt; uids = tt }

text_eq_symm : (a b : Text) → text_eq a b ≡ true → text_eq b a ≡ true
text_eq_symm none b h = cc
text_eq_symm (some a) none h = cc
text_eq_symm (some a) (some b) h = (str_eq_iff b a).1 (sym ((str_eq_iff a b).0 h))

text_eq_trans : (a b c : Text) → text_eq a b ≡ true → text_eq b c ≡ true → text_eq a c ≡ true
text_eq_trans none b c h k = cc
text_eq_trans (some a) none c h k = cc
text_eq_trans (some a) (some b) none h k = cc
text_eq_trans (some a) (some b) (some c) h k =
    (str_eq_iff a c).1 ((str_eq_iff a b).0 h ∙ (str_eq_iff b c).0 k)

feeds-IsClass : IsClass feed_key same_feed
feeds-IsClass = record {
  symm = λ x y h. text_eq_symm y.url x.url h;
  trans = λ x y z h k. text_eq_trans z.url y.url x.url k h;
}

entries-IsClass : IsClass entry_key same_entry
entries-IsClass = record {
  symm = λ x y h. ground (arith, text_eq_symm y.unique_id x.unique_id);
  trans = λ x y z h k. ground (arith, text_eq_trans z.unique_id y.unique_id x.unique_id);
}

-- what changes neither the keys nor the names of the entries
pub record KeepsNames (f : Entry → Entry) : Type 0 where
  pub id : (e : Entry) → (f e).entry_id ≡ e.entry_id
  pub feed : (e : Entry) → (f e).feed_id ≡ e.feed_id
  pub uid : (e : Entry) → (f e).unique_id ≡ e.unique_id

pub has_uid-changed :
    (f : Entry → Entry) (keeps : KeepsNames f) (feedid : ℕ) (uid : Text) (e : Entry)
    → has_uid feedid uid (f e) ≡ has_uid feedid uid e
has_uid-changed f keeps feedid uid e = rw (keeps.feed e, keeps.uid e)

pub change-IsValid :
    (f : Entry → Entry) (db : Db)
    → KeepsNames f
    → IsValid db
    → IsValid (record db { entries = change f db.entries })
change-IsValid f db keeps valid = record {
  feeds = valid.feeds;
  urls = valid.urls;
  entries = Ascending-change entry_key f db.entries keeps.id valid.entries;
  uids =
      Distinct-change same_entry f db.entries
        (λ x y.
          has_uid-changed f keeps (f x).feed_id (f x).unique_id y ∙ rw (keeps.feed x, keeps.uid x))
        (λ x y. rw (keeps.feed x, keeps.uid x)) valid.uids;
}

pub KeepsNames-if :
    (p : Entry → Bool) (f : Entry → Entry) → KeepsNames f → KeepsNames (λ e. if p e then f e else e)
KeepsNames-if p f keeps = record {
  id = λ e. elim (Bool-cases (p e)) [ inl t ↦ rw t (keeps.id e) | inr n ↦ rw n ];
  feed = λ e. elim (Bool-cases (p e)) [ inl t ↦ rw t (keeps.feed e) | inr n ↦ rw n ];
  uid = λ e. elim (Bool-cases (p e)) [ inl t ↦ rw t (keeps.uid e) | inr n ↦ rw n ];
}

names_kept :
    (f : Entry → Entry)
    → ((e : Entry) → (f e).entry_id ≡ e.entry_id)
    → ((e : Entry) → (f e).feed_id ≡ e.feed_id)
    → ((e : Entry) → (f e).unique_id ≡ e.unique_id)
    → KeepsNames f
names_kept f a b c = record { id = a; feed = b; uid = c }

pub age-KeepsNames : (feedid : ℕ) → KeepsNames (age feedid)
age-KeepsNames feedid =
    KeepsNames-if (of_feed feedid) _ (names_kept _ (λ e. refl) (λ e. refl) (λ e. refl))

pub set_viewed-KeepsNames : (v : ℕ) → KeepsNames (set_viewed v)
set_viewed-KeepsNames v = names_kept _ (λ e. refl) (λ e. refl) (λ e. refl)

toggle_viewed-KeepsNames : KeepsNames toggle_viewed
toggle_viewed-KeepsNames = names_kept _ (λ e. refl) (λ e. refl) (λ e. refl)

module _ (db : Db) (valid : IsValid db) where
  pub cache_init_cleanup-IsValid : (feedid : ℕ) → IsValid (cache_init_cleanup feedid db)
  unfolding cache_init_cleanup
  cache_init_cleanup-IsValid feedid = change-IsValid (age feedid) db (age-KeepsNames feedid) valid

  pub cache_cleanup_old-IsValid :
      (now retention : ℤ) (feedid : ℕ) → IsValid (cache_cleanup_old now retention feedid db)
  unfolding cache_cleanup_old
  cache_cleanup_old-IsValid now retention feedid = record {
    feeds = valid.feeds;
    urls = valid.urls;
    entries = Ascending-keep entry_key _ db.entries valid.entries;
    uids = Distinct-keep same_entry _ db.entries valid.uids;
  }

  pub cache_update_feed-IsValid : (d : FeedData) → IsValid (cache_update_feed d db).1
  unfolding cache_update_feed
  cache_update_feed-IsValid d = record {
    feeds = Ascending-put feed_key (feed_row _ d) db.feeds valid.feeds;
    urls =
        Distinct-upsert feed_key same_feed feeds-IsClass (feed_row _ d) db.feeds refl valid.feeds
          valid.urls;
    entries = valid.entries;
    uids = valid.uids;
  }

  pub cache_update_entry-IsValid :
      (strtol : Bytes → ℤ) (feedid : ℕ) (d : EntryData)
      → IsValid (cache_update_entry strtol feedid d db)
  unfolding cache_update_entry
  cache_update_entry-IsValid strtol feedid d = record {
    feeds = valid.feeds;
    urls = valid.urls;
    entries = Ascending-put entry_key (new_row strtol feedid d db.entries) db.entries valid.entries;
    uids =
        Distinct-upsert entry_key same_entry entries-IsClass (new_row strtol feedid d db.entries)
          db.entries refl valid.entries valid.uids;
  }

  pub cache_toggle_read_entry-IsValid : (id : ℕ) (v : ℤ) → IsValid (cache_toggle_read_entry id v db)
  unfolding cache_toggle_read_entry
  cache_toggle_read_entry-IsValid id (pos v) =
      change-IsValid _ db (KeepsNames-if _ _ (set_viewed-KeepsNames v)) valid
  cache_toggle_read_entry-IsValid id (negsuc v) =
      change-IsValid _ db (KeepsNames-if _ _ toggle_viewed-KeepsNames) valid

  pub cache_read_feed-IsValid : (feedid : ℕ) → IsValid (cache_read_feed feedid db)
  unfolding cache_read_feed
  cache_read_feed-IsValid feedid = elim (Bool-cases (feedid == 0)) [
    | inl e ↦ rw e (change-IsValid (set_viewed 1) db (set_viewed-KeepsNames 1) valid)
    | inr n ↦
        rw n
          (change-IsValid _ db (KeepsNames-if (of_feed feedid) _ (set_viewed-KeepsNames 1)) valid)
  ]
