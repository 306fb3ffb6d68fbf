-- ===== src/Cache/Tests.antt =====
-- src/sql/create.c: runs of the statements.
use newsbaoter.Common.{◌+◌, ◌&&◌, ◌≡◌, refl, none, some, List, [], ◌∷◌, Bytes, codes, if◌then◌else◌}
use newsbaoter.Common.Int.{ℤ, pos, negsuc}
use newsbaoter.Cache.Table.{count, select, new_key, put}
use newsbaoter.Cache.{
  Db, EntryData, create_db, entry_row, cache_update_entry, cache_read_feed, get_num_unread,
  is_unread, to_int,
}
use newsbaoter.Cache.Valid.{IsValid, create_db-IsValid}
use newsbaoter.Cache.Lookup.{entry_at, same_name, entry_at-cache_update_entry}
use newsbaoter.Cache.Calls.{
  Call, run, run-IsValid, init_cleanup, update_entry, toggle_read, read_feed, cache_read_feed-count,
  is_meant,
}

abbrev date : Bytes → ℤ
date s = pos 5

abbrev item : EntryData
item = record {
  title = none;
  pdate = some (codes "5");
  udate = none;
  url = none;
  auth_name = none;
  auth_email = none;
  desc = none;
  content = none;
  uid = some (codes "a");
}

abbrev some_calls : List Call
some_calls =
    update_entry 7 item
    ∷ toggle_read 1 (negsuc 0)
    ∷ init_cleanup 7
    ∷ update_entry 7 item
    ∷ read_feed 0
    ∷ []

run-IsValid_example : IsValid (run date some_calls create_db)
run-IsValid_example = run-IsValid date some_calls

entry_at-cache_update_entry_example :
    entry_at (cache_update_entry date 7 item create_db) 7 (codes "a") ≡ (
      if same_name 7 (codes "a") 7 (codes "a")
      then some (entry_row date 1 7 0 item)
      else entry_at create_db 7 (codes "a"))
unfolding select new_key
entry_at-cache_update_entry_example =
    entry_at-cache_update_entry date 7 item (codes "a") create_db create_db-IsValid refl 7
      (codes "a")

-- A date of the year 2096 becomes one of 1960.
far_date : to_int (pos 4000000000) ≡ negsuc 294967295
far_date = refl

abbrev one_unread : Db
one_unread = cache_update_entry date 7 item create_db

cache_read_feed-count_example :
    get_num_unread (cache_read_feed 7 one_unread)
      + count (λ e. is_meant 7 e && is_unread e) one_unread.entries
    ≡ get_num_unread one_unread
cache_read_feed-count_example = cache_read_feed-count 7 one_unread

counts_one : get_num_unread one_unread ≡ 1
unfolding get_num_unread cache_update_entry count put select new_key
counts_one = refl
