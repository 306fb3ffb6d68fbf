-- ===== src/Document/Cycle.antt =====
-- src/xmlproc.c: a refresh of one feed, and what becomes of entries that a document no longer lists.
use newsbaoter.Common.{
  ℕ, ◌<◌, ◌≡◌, ◌≢◌, refl, ◌∙◌, ap, Bool, true, false, Bool-cases, inl, inr, not, ◌&&◌, Option, none,
  some, Bytes, ltb, ◌==◌, ==_iff, if◌then◌else◌, arith,
}
use newsbaoter.Common.Int.{ℤ, pos, negsuc, ◌-ℤ◌, ltbℤ, lebℤ}
use newsbaoter.Cache.Rows.{changed, kept}
use newsbaoter.Cache.Table.{select-holds}
use newsbaoter.Cache.{
  Db, Entry, EntryData, entry_key, has_uid, of_feed, age, is_old, entry_row, viewed_of,
  cache_init_cleanup,
}
use newsbaoter.Cache.Valid.{IsValid, cache_init_cleanup-IsValid, cache_cleanup_old-IsValid}
use newsbaoter.Cache.Lookup.{entry_at, entry_at-cache_init_cleanup, entry_at-cache_cleanup_old}
use newsbaoter.Document.{Nodes, TimeLib, update_nodes, update_entries}
use newsbaoter.Document.Refresh.{
  listed, Stored, update_nodes-IsValid, update_nodes-listed, update_nodes-unlisted,
  update_nodes-other,
}

-- what a refresh makes of an entry that the document does not list
abbrev pub unlisted : ℤ → ℤ → ℕ → Option Entry → Option Entry
unlisted now retention feedid o =
    kept (λ e. not (is_old now retention feedid e)) (changed (age feedid) o)

viewed_of-age : (feedid : ℕ) (o : Option Entry) → viewed_of (changed (age feedid) o) ≡ viewed_of o
viewed_of-age feedid none = refl
viewed_of-age feedid (some e) = elim (Bool-cases (of_feed feedid e)) [ inl t ↦ rw t | inr n ↦ rw n ]

and_false : (p : Bool) → (p && false) ≡ false
and_false p = ground arith

untouched : (feedid : ℕ) (e : Entry) → of_feed feedid e ≡ false → age feedid e ≡ e
untouched feedid e h = rw h

fresh_stays :
    (strtol : Bytes → ℤ) (now retention : ℤ) (feedid id f v : ℕ) (d : EntryData)
    → is_old now retention feedid (entry_row strtol id f v d) ≡ false
fresh_stays strtol now retention feedid id f v d = and_false (f == feedid)

-- nothing that a refresh of one feed does touches the entries of another
elsewhere :
    (now retention : ℤ) (feedid f' : ℕ) (o : Option Entry)
    → feedid ≢ f'
    → ((e : Entry) → o ≡ some e → e.feed_id ≡ f')
    → unlisted now retention feedid o ≡ o
elsewhere now retention feedid f' none ne h = refl
elsewhere now retention feedid f' (some e) ne h =
    let none_of : of_feed feedid e ≡ false = ground (arith, h e refl) in
    ap (λ x. kept (λ y. not (is_old now retention feedid y)) (some x)) (untouched feedid e none_of)
    ∙ rw none_of

feed_of : (f' : ℕ) (u : Bytes) (e : Entry) → has_uid f' (some u) e ≡ true → e.feed_id ≡ f'
feed_of f' u e h = ground arith

module _ (time : TimeLib) (strtol : Bytes → ℤ) (new_uid : ℕ → Bytes) (now retention : ℤ)
    (feedid : ℕ) (ns : Nodes) (db : Db) (valid : IsValid db) where
  abbrev aged : Db
  aged = cache_init_cleanup feedid db

  abbrev refreshed : Db
  refreshed = update_entries time strtol new_uid now retention feedid ns db

  aged-IsValid : IsValid aged
  aged-IsValid = cache_init_cleanup-IsValid db valid feedid

  updated-IsValid : IsValid (update_nodes time strtol new_uid feedid ns 0 aged)
  updated-IsValid = update_nodes-IsValid time strtol new_uid feedid ns 0 aged aged-IsValid

  -- On valid tables a refresh leaves valid tables.
  pub update_entries-IsValid : IsValid refreshed
  unfolding update_entries
  update_entries-IsValid = cache_cleanup_old-IsValid _ updated-IsValid now retention feedid

  cleaned :
      (f' : ℕ) (u : Bytes)
      → entry_at refreshed f' u
        ≡ kept
            (λ e. not (is_old now retention feedid e))
            (entry_at (update_nodes time strtol new_uid feedid ns 0 aged) f' u)
  unfolding update_entries
  cleaned f' u = entry_at-cache_cleanup_old _ now retention feedid f' u updated-IsValid

  -- On valid tables, an entry that the document lists is there after the refresh, with the data of the
  -- last such element and the read state that it had, unread if it is new.
  pub update_entries-listed :
      (u : Bytes) (d : EntryData)
      → listed time strtol new_uid u ns 0 ≡ some d
      → Stored time strtol new_uid feedid
          (viewed_of (entry_at db feedid u))
          d
          (entry_at refreshed feedid u)
  update_entries-listed u d e =
      let (id, at) = update_nodes-listed time strtol new_uid feedid u ns 0 aged d aged-IsValid e in
      let viewed : viewed_of (entry_at aged feedid u) ≡ viewed_of (entry_at db feedid u) =
        ap viewed_of (entry_at-cache_init_cleanup db feedid feedid u) ∙ viewed_of-age feedid _ in
      (
        id,
        cleaned feedid u
            ∙ ap (kept _) (at ∙ ap (λ v. some (entry_row strtol id feedid v d)) viewed)
            ∙ rw (
                fresh_stays strtol now retention feedid id feedid (viewed_of (entry_at db feedid u))
                  d),
      )

  -- On valid tables, an entry that the document does not list has its count lowered by one; it goes if
  -- that makes it old, and is otherwise as it was.
  pub update_entries-unlisted :
      (u : Bytes)
      → listed time strtol new_uid u ns 0 ≡ none
      → entry_at refreshed feedid u ≡ unlisted now retention feedid (entry_at db feedid u)
  update_entries-unlisted u e =
      cleaned feedid u
      ∙ ap (kept _) (
          update_nodes-unlisted time strtol new_uid feedid u ns 0 aged aged-IsValid e
          ∙ entry_at-cache_init_cleanup db feedid feedid u)

  -- On valid tables, a refresh of one feed changes no entry of another.
  pub update_entries-other :
      (f' : ℕ) (u : Bytes) → feedid ≢ f' → entry_at refreshed f' u ≡ entry_at db f' u
  update_entries-other f' u ne =
      cleaned f' u
      ∙ ap (kept _) (
          update_nodes-other time strtol new_uid feedid f' u ns 0 aged aged-IsValid ne
          ∙ entry_at-cache_init_cleanup db feedid f' u)
      ∙ elsewhere now retention feedid f' (entry_at db f' u) ne
          (λ e at. feed_of f' u e (select-holds entry_key (has_uid f' (some u)) db.entries e at))

all_true : (a b c d : Bool) → a ≡ true → c ≡ true → d ≡ true → (a && (b && (c && d))) ≡ b
all_true a true c d p q r = rw (p, q, r)
all_true a false c d p q r = rw p

pos_ltb : (n : ℕ) → 0 < n → ltb 0 n ≡ true
pos_ltb n h = ground arith

if_not : (b : Bool) (e : Entry) → (if not b then some e else none) ≡ (if b then none else some e)
if_not true e = refl
if_not false e = refl

-- A refresh, by its time, its document and the new names in it.
pub record Visit : Type 0 where
  pub now : ℤ
  pub nodes : Nodes
  pub new_uid : ℕ → Bytes

module _ (time : TimeLib) (strtol : Bytes → ℤ) (retention : ℤ) (feedid : ℕ) where
  abbrev pub visit : Visit → Db → Db
  visit v db = update_entries time strtol v.new_uid v.now retention feedid v.nodes db

  -- The document does not list the entry, which is older than entries are kept.
  pub record Misses (u : Bytes) (e : Entry) (v : Visit) : Type 0 where
    pub absent : listed time strtol v.new_uid u v.nodes 0 ≡ none
    pub expired : ltbℤ e.pub_date (v.now -ℤ retention) ≡ true

  visit-IsValid : (v : Visit) (db : Db) → IsValid db → IsValid (visit v db)
  visit-IsValid v db valid =
      update_entries-IsValid time strtol v.new_uid v.now retention feedid v.nodes db valid

  with_current : ℤ → Entry → Entry
  with_current c e = record e { current = c }

  aged_as :
      (e : Entry) (c : ℤ)
      → e.feed_id ≡ feedid
      → age feedid (with_current c e) ≡ with_current (c -ℤ pos 1) e
  unfolding with_current
  aged_as e c mine = rw ((==_iff e.feed_id feedid).1 mine)

  left_over :
      (now : ℤ) (e : Entry)
      → e.feed_id ≡ feedid
      → 0 < e.viewed
      → ltbℤ e.pub_date (now -ℤ retention) ≡ true
      → kept (λ y. not (is_old now retention feedid y)) (some e)
        ≡ (if lebℤ e.current (negsuc 1) then none else some e)
  left_over now e mine read expired =
      ap (λ b. if not b then some e else none)
        (all_true (of_feed feedid e) (lebℤ e.current (negsuc 1)) (ltb 0 e.viewed)
          (ltbℤ e.pub_date (now -ℤ retention)) ((==_iff e.feed_id feedid).1 mine)
          (pos_ltb e.viewed read) expired)
      ∙ if_not (lebℤ e.current (negsuc 1)) e

  -- what is left of a read entry that one document misses
  after_miss :
      (v : Visit) (db : Db) (u : Bytes) (e : Entry) (c : ℤ)
      → IsValid db
      → Misses u e v
      → 0 < e.viewed
      → e.feed_id ≡ feedid
      → entry_at db feedid u ≡ some (with_current c e)
      → entry_at (visit v db) feedid u
        ≡ (if lebℤ (c -ℤ pos 1) (negsuc 1) then none else some (with_current (c -ℤ pos 1) e))
  unfolding with_current
  after_miss v db u e c valid m read mine at =
      update_entries-unlisted time strtol v.new_uid v.now retention feedid v.nodes db valid u
        m.absent
      ∙ ap (unlisted v.now retention feedid) at
      ∙ ap (λ x. kept (λ y. not (is_old v.now retention feedid y)) (some x)) (aged_as e c mine)
      ∙ left_over v.now (with_current (c -ℤ pos 1) e) mine read m.expired

  module _ (u : Bytes) (e : Entry) (db : Db) (valid : IsValid db) (v1 v2 v3 : Visit)
      (miss1 : Misses u e v1) (miss2 : Misses u e v2) (miss3 : Misses u e v3) (read : 0 < e.viewed)
      (mine : e.feed_id ≡ feedid) (current : e.current ≡ pos 1)
      (there : entry_at db feedid u ≡ some e) where
    -- On valid tables, an entry that is read, older than entries are kept, and was in the last document
    -- stays while two documents miss it, with its count at -1, and is gone after the third.
    pub missing_thrice :
        (entry_at (visit v2 (visit v1 db)) feedid u ≡ some (record e { current = negsuc 0 }))
        × (entry_at (visit v3 (visit v2 (visit v1 db))) feedid u ≡ none)
    missing_thrice =
        let at0 : entry_at db feedid u ≡ some (with_current (pos 1) e) =
          there ∙ ap some (unfold with_current in λ i. record e { current = current i }) in
        let valid1 = visit-IsValid v1 db valid in
        let valid2 = visit-IsValid v2 (visit v1 db) valid1 in
        let at1 : entry_at (visit v1 db) feedid u ≡ some (with_current (pos 0) e) =
          after_miss v1 db u e (pos 1) valid miss1 read mine at0 in
        let at2 : entry_at (visit v2 (visit v1 db)) feedid u ≡ some (with_current (negsuc 0) e) =
          after_miss v2 (visit v1 db) u e (pos 0) valid1 miss2 read mine at1 in
        (
          (unfold with_current in at2),
          after_miss v3 (visit v2 (visit v1 db)) u e (negsuc 0) valid2 miss3 read mine at2,
        )
