-- ===== src/Cache/Calls.antt =====
-- src/sql/create.c: any sequence of the calls that change the cache, and the dates that it stores.
use newsbaoter.Common.{
  ℕ, ◌+◌, ◌≡◌, refl, Bool, Bool-cases, inl, inr, List, [], ◌∷◌, ◌==◌, if◌then◌else◌, arith, Bytes,
  ◌&&◌, ◌||◌,
}
use newsbaoter.Common.Int.{ℤ}
use newsbaoter.Cache.Table.{change, count}
use newsbaoter.Cache.{
  Entry, Db, FeedData, EntryData, is_unread, of_feed, set_viewed, cache_init_cleanup,
  cache_cleanup_old, cache_update_feed, cache_update_entry, cache_toggle_read_entry,
  cache_read_feed, get_num_unread, create_db,
}
use newsbaoter.Cache.Valid.{
  IsValid, create_db-IsValid, cache_init_cleanup-IsValid, cache_cleanup_old-IsValid,
  cache_update_feed-IsValid, cache_update_entry-IsValid, cache_toggle_read_entry-IsValid,
  cache_read_feed-IsValid,
}

-- The calls, with the time where a statement reads it.
pub data Call : Type 0 where
  init_cleanup : ℕ → Call
  cleanup_old : ℤ → ℤ → ℕ → Call
  update_feed : FeedData → Call
  update_entry : ℕ → EntryData → Call
  toggle_read : ℕ → ℤ → Call
  read_feed : ℕ → Call

module _ (strtol : Bytes → ℤ) where
  pub execute : Call → Db → Db
  execute (init_cleanup f) db = cache_init_cleanup f db
  execute (cleanup_old now retention f) db = cache_cleanup_old now retention f db
  execute (update_feed d) db = (cache_update_feed d db).1
  execute (update_entry f d) db = cache_update_entry strtol f d db
  execute (toggle_read id v) db = cache_toggle_read_entry id v db
  execute (read_feed f) db = cache_read_feed f db

  pub run : List Call → Db → Db
  run [] db = db
  run (c ∷ cs) db = run cs (execute c db)

  execute-IsValid : (c : Call) (db : Db) → IsValid db → IsValid (execute c db)
  unfolding execute
  execute-IsValid (init_cleanup f) db h = cache_init_cleanup-IsValid db h f
  execute-IsValid (cleanup_old now retention f) db h =
      cache_cleanup_old-IsValid db h now retention f
  execute-IsValid (update_feed d) db h = cache_update_feed-IsValid db h d
  execute-IsValid (update_entry f d) db h = cache_update_entry-IsValid db h strtol f d
  execute-IsValid (toggle_read id v) db h = cache_toggle_read_entry-IsValid db h id v
  execute-IsValid (read_feed f) db h = cache_read_feed-IsValid db h f

  run_from : (cs : List Call) (db : Db) → IsValid db → IsValid (run cs db)
  unfolding run
  run_from [] db h = h
  run_from (c ∷ cs) db h = run_from cs (execute c db) (execute-IsValid c db h)

  -- Whatever calls are made on a new database: the keys of both tables ascend, no two feeds have one
  -- URL, and no two entries of a feed have one UniqueId.
  pub run-IsValid : (cs : List Call) → IsValid (run cs create_db)
  run-IsValid cs = run_from cs create_db create_db-IsValid

count_all_read : (es : List Entry) → count is_unread (change (set_viewed 1) es) ≡ 0
unfolding count change
count_all_read [] = refl
count_all_read (e ∷ es) = omega (arith, count_all_read es)

count_feed_read :
    (feedid : ℕ) (es : List Entry)
    → count is_unread (change (λ e. if of_feed feedid e then set_viewed 1 e else e) es)
        + count (λ e. of_feed feedid e && is_unread e) es
      ≡ count is_unread es
unfolding count change
count_feed_read feedid [] = refl
count_feed_read feedid (e ∷ es) = elim (Bool-cases (of_feed feedid e)) [
  | inl t ↦ rw t (omega (arith, count_feed_read feedid es))
  | inr n ↦ rw n (omega (arith, count_feed_read feedid es))
]

-- the entries of a feed, or of all
abbrev pub is_meant : ℕ → Entry → Bool
is_meant feedid e = feedid == 0 || of_feed feedid e

-- cache_read_feed lowers the number of unread entries by those of the feed, or of all feeds for the
-- id 0.
pub cache_read_feed-count :
    (feedid : ℕ) (db : Db)
    → get_num_unread (cache_read_feed feedid db)
        + count (λ e. is_meant feedid e && is_unread e) db.entries
      ≡ get_num_unread db
unfolding get_num_unread cache_read_feed
cache_read_feed-count feedid db = elim (Bool-cases (feedid == 0)) [
  | inl z ↦ rw z (omega (arith, count_all_read db.entries))
  | inr n ↦ rw n (count_feed_read feedid db.entries)
]

pub get_num_unread-cache_read_feed : (db : Db) → get_num_unread (cache_read_feed 0 db) ≡ 0
unfolding get_num_unread cache_read_feed
get_num_unread-cache_read_feed db = count_all_read db.entries
