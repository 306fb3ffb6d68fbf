-- ===== src/Document/Tests.antt =====
-- src/xmlproc.c: a refresh on a small document.
use newsbaoter.Common.{
  ℕ, ◌+◌, ◌*◌, ◌-◌, ◌≡◌, refl, true, false, none, some, [], ◌∷◌, Bytes, codes, str_eq, arith,
}
use newsbaoter.Common.Int.{ℤ, pos, negsuc}
use newsbaoter.Cache.Table.{select}
use newsbaoter.Cache.{Db, Entry, EntryData, create_db, viewed_of}
use newsbaoter.Cache.Valid.{IsValid, create_db-IsValid}
use newsbaoter.Cache.Lookup.{entry_at}
use newsbaoter.Document.{
  Node, Nodes, node, nil, cons, TimeLib, Parsed, update_entries, entry_data, raw_entry,
}
use newsbaoter.Document.Refresh.{listed, Stored, node_data}
use newsbaoter.Document.Cycle.{
  update_entries-listed, update_entries-unlisted, update_entries-other, unlisted, Visit, visit,
  Misses, missing_thrice,
}

digits : ℕ → Bytes → ℕ
digits n [] = n
digits n (c ∷ s) = digits (n * 10 + (c - b'0')) s

abbrev decimal : Bytes → ℤ
decimal s = pos (digits 0 s)

-- dates are seconds already
abbrev plain_time : TimeLib
plain_time = record { Tm = Bytes; strptime = λ s tm. s; strftime = λ tm. tm; unset = λ k. [] }

abbrev names : ℕ → Bytes
names k = codes "x"

abbrev text_node : Bytes → Node
text_node s = node false (codes "text") (some s) nil

abbrev field : Bytes → Bytes → Node
field name s = node true name none (cons (text_node s) nil)

-- one entry, with a UniqueId and a date
abbrev one_entry : Node
one_entry = node true (codes "entry") none (
    cons (field (codes "entryUniqueId") (codes "a"))
      (cons (field (codes "publishDateTime") (codes "5")) nil))

abbrev document : Nodes
document = cons one_entry nil

abbrev stored_data : EntryData
stored_data = node_data plain_time decimal names one_entry 0

is_listed : listed plain_time decimal names (codes "a") document 0 ≡ some stored_data
unfolding listed entry_data raw_entry str_eq
is_listed = refl

is_not_listed : listed plain_time decimal names (codes "b") document 0 ≡ none
unfolding listed entry_data raw_entry str_eq
is_not_listed = refl

update_entries-listed_example :
    Stored plain_time decimal names 7 (viewed_of (entry_at create_db 7 (codes "a"))) stored_data (
      entry_at
        (update_entries plain_time decimal names (pos 100) (pos 10) 7 document create_db)
        7
        (codes "a"))
update_entries-listed_example =
    update_entries-listed plain_time decimal names (pos 100) (pos 10) 7 document create_db
      create_db-IsValid (codes "a") stored_data is_listed

update_entries-unlisted_example :
    entry_at
      (update_entries plain_time decimal names (pos 100) (pos 10) 7 document create_db)
      7
      (codes "b")
    ≡ unlisted (pos 100) (pos 10) 7 (entry_at create_db 7 (codes "b"))
update_entries-unlisted_example =
    update_entries-unlisted plain_time decimal names (pos 100) (pos 10) 7 document create_db
      create_db-IsValid (codes "b") is_not_listed

seven_ne_eight : ◌≡◌ {A = ℕ} 7 8 → ⊥
seven_ne_eight h = omega arith

update_entries-other_example :
    entry_at
      (update_entries plain_time decimal names (pos 100) (pos 10) 7 document create_db)
      8
      (codes "a")
    ≡ entry_at create_db 8 (codes "a")
update_entries-other_example =
    update_entries-other plain_time decimal names (pos 100) (pos 10) 7 document create_db
      create_db-IsValid 8 (codes "a") seven_ne_eight

-- a read entry, in the last document
abbrev read_entry : Entry
read_entry = record {
  entry_id = 1;
  feed_id = 7;
  viewed = 1;
  pub_date = pos 5;
  mod_date = pos 0;
  unique_id = some (codes "b");
  title = none;
  url = none;
  author_name = none;
  author_email = none;
  description = none;
  content = none;
  current = pos 1;
}

abbrev one_read : Db
one_read = record { feeds = []; entries = read_entry ∷ [] }

one_read-IsValid : IsValid one_read
one_read-IsValid = record { feeds = tt; urls = tt; entries = (tt, tt); uids = (tt, tt) }

abbrev later : Visit
later = record { now = pos 100; nodes = document; new_uid = names }

later-Misses : Misses plain_time decimal (pos 10) 7 (codes "b") read_entry later
later-Misses = record { absent = is_not_listed; expired = refl }

is_there : entry_at one_read 7 (codes "b") ≡ some read_entry
unfolding select str_eq
is_there = refl

abbrev after_two : Db
after_two =
    visit plain_time decimal (pos 10) 7 later (visit plain_time decimal (pos 10) 7 later one_read)

missing_thrice_example :
    (entry_at after_two 7 (codes "b") ≡ some (record read_entry { current = negsuc 0 }))
    × (entry_at (visit plain_time decimal (pos 10) 7 later after_two) 7 (codes "b") ≡ none)
missing_thrice_example =
    missing_thrice plain_time decimal (pos 10) 7 (codes "b") read_entry one_read one_read-IsValid
      later later later later-Misses later-Misses later-Misses (omega arith) refl refl is_there

abbrev parsed : Parsed
parsed = record {
  has_ctx = true;
  refused = false;
  well_formed = true;
  root = some (node true (codes "feed") none document);
}
