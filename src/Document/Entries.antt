-- ===== src/Document/Entries.antt =====
-- src/xmlproc.c: the end of a transfer.
use newsbaoter.Common.{
  ℕ, ◌≡◌, Bool, true, false, not, ◌&&◌, Option, none, some, Bytes, ltb, if◌then◌else◌,
}
use newsbaoter.Common.Int.{ℤ}
use newsbaoter.Cache.{Db, Entry, EntryData, viewed_of, get_num_unread, cache_update_feed}
use newsbaoter.Cache.Valid.{IsValid}
use newsbaoter.Cache.Lookup.{entry_at}
use newsbaoter.Document.{Node, TimeLib, Parsed, children, feed_data}
use newsbaoter.Document.Refresh.{listed, Stored}
use newsbaoter.Document.Cycle.{unlisted}

-- the parser exists, took the last chunk, and found the document well-formed
abbrev pub accepted : Parsed → Bool
accepted h = h.has_ctx && not h.refused && h.well_formed

module _ (time : TimeLib) (strtol : Bytes → ℤ) (new_uid : ℕ → Bytes) (now retention : ℤ)
    (url : Bytes) (db : Db) where
  -- the entry of a feed under a name after a refresh: it is stored, or missing from the document
  abbrev pub IsRefreshed : ℕ → Option EntryData → Option Entry → Option Entry → Type 0
  IsRefreshed feedid none before now_there = now_there ≡ unlisted now retention feedid before
  IsRefreshed feedid (some d) before now_there =
      Stored time strtol new_uid feedid (viewed_of before) d now_there

  -- what is done with a document
  abbrev pub HasUpdated : Option Node → Bytes → ℕ × ℕ × Db → Type 0
  HasUpdated none u r = r ≡ (0, 0, db)
  HasUpdated (some root) u (ret, newentry, db') =
      let (feedid, db1) = cache_update_feed (feed_data url (children root)) db in
      (ret ≡ 0)
      × (newentry ≡ (if ltb (get_num_unread db) (get_num_unread db') then 1 else 0))
      × IsRefreshed feedid (listed time strtol new_uid u (children root) 0) (entry_at db1 feedid u)
          (entry_at db' feedid u)

  -- whether a document is accepted decides what is done
  abbrev pub HasFinished : Option Node → Bytes → Bool → ℕ × ℕ × Db → Type 0
  HasFinished root u false r = r ≡ (1, 0, db)
  HasFinished root u true r = HasUpdated root u r × IsValid r.2
