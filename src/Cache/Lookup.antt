-- ===== src/Cache/Lookup.antt =====
-- src/sql/create.c: the entry that a feed has under a UniqueId, after each statement.
use newsbaoter.Common.{
  ℕ, ◌≡◌, ◌∙◌, refl, ap, subst, Bool, true, false, Bool-cases, inl, inr, Option, none, some, str_eq,
  str_eq_iff, ◌==◌, ==_iff, ◌&&◌, not, if◌then◌else◌, arith, Bytes,
}
use newsbaoter.Common.Int.{ℤ}
use newsbaoter.Cache.Table.{select, change, new_key}
use newsbaoter.Cache.Upsert.{key_of, select-upsert, select-upsert_ne}
use newsbaoter.Cache.Rows.{changed, kept, select-change, select-keep}
use newsbaoter.Cache.{
  entry_row, viewed_of, Text, Entry, Db, EntryData, text_eq, entry_key, age, is_old, has_uid,
  new_row, cache_init_cleanup, cache_cleanup_old, cache_update_entry,
}
use newsbaoter.Cache.Valid.{IsValid, same_entry, KeepsNames, has_uid-changed, age-KeepsNames}

-- the entry of a feed with a UniqueId
abbrev pub entry_at : Db → ℕ → Bytes → Option Entry
entry_at db feedid uid = select (has_uid feedid (some uid)) db.entries

-- the same name of an entry
abbrev pub same_name : ℕ → Bytes → ℕ → Bytes → Bool
same_name f u f' u' = f == f' && str_eq u u'

apart_of :
    (t : Text) (k f f' : ℕ) (u u' : Bytes)
    → (k == f && text_eq t (some u)) ≡ true
    → same_name f u f' u' ≡ false
    → (k == f' && text_eq t (some u')) ≡ false
apart_of none k f f' u u' h n = ground arith
apart_of (some w) k f f' u u' h n = ground (arith, str_eq_iff w u, str_eq_iff w u', str_eq_iff u u')

same_of : (f f' : ℕ) (u u' : Bytes) → same_name f u f' u' ≡ true → (f ≡ f') × (u ≡ u')
same_of f f' u u' h = ground (arith, str_eq_iff u u')

class_false :
    (s t : Text) (k l f : ℕ) (u : Bytes)
    → (k == f && text_eq s (some u)) ≡ true
    → (l == k && text_eq t s) ≡ false
    → (l == f && text_eq t (some u)) ≡ false
class_false none t k l f u h n = ground arith
class_false (some v) none k l f u h n = ground arith
class_false (some v) (some w) k l f u h n =
    ground (arith, str_eq_iff v u, str_eq_iff w v, str_eq_iff w u)

str_eq_refl : (u : Bytes) → str_eq u u ≡ true
str_eq_refl u = (str_eq_iff u u).1 refl

self_eq : (n : ℕ) → (n == n) ≡ true
self_eq n = (==_iff n n).1 refl

module _ (strtol : Bytes → ℤ) (feedid : ℕ) (d : EntryData) (u : Bytes) (db : Db)
    (valid : IsValid db) (named : d.uid ≡ some u) where
  row : Entry
  row = new_row strtol feedid d db.entries

  keyed : row.entry_id ≡ key_of entry_key (entry_at db feedid u) (new_key entry_key db.entries)
  unfolding row
  keyed =
      ap
        (λ t.
          key_of entry_key (select (has_uid feedid t) db.entries) (new_key entry_key db.entries))
        named

  row_named : has_uid feedid (some u) row ≡ true
  unfolding row
  row_named = rw (named, self_eq feedid) (str_eq_refl u)

  update_same : entry_at (cache_update_entry strtol feedid d db) feedid u ≡ some row
  unfolding cache_update_entry row
  update_same =
      select-upsert entry_key (has_uid feedid (some u)) row db.entries valid.entries keyed row_named

  update_other :
      (f' : ℕ) (u' : Bytes)
      → same_name feedid u f' u' ≡ false
      → entry_at (cache_update_entry strtol feedid d db) f' u' ≡ entry_at db f' u'
  unfolding cache_update_entry row
  update_other f' u' n =
      select-upsert_ne entry_key (has_uid feedid (some u)) row db.entries valid.entries keyed
        (has_uid f' (some u')) (λ y h. apart_of y.unique_id y.feed_id feedid f' u u' h n)
        (apart_of row.unique_id row.feed_id feedid f' u u' row_named n)

  pub entry_at-row :
      (f' : ℕ) (u' : Bytes)
      → entry_at (cache_update_entry strtol feedid d db) f' u' ≡ (
          if same_name feedid u f' u'
          then some (new_row strtol feedid d db.entries)
          else entry_at db f' u')
  unfolding row
  entry_at-row f' u' = elim (Bool-cases (same_name feedid u f' u')) [
    | inl t ↦
        let names = same_of feedid f' u u' t in
        rw t (
          subst (λ f. entry_at (cache_update_entry strtol feedid d db) f u' ≡ some row) names.0
            (subst (λ v. entry_at (cache_update_entry strtol feedid d db) feedid v ≡ some row)
              names.1 update_same))
    | inr n ↦ rw n (update_other f' u' n)
  ]

  stored_row : Option Entry → Entry
  stored_row old =
      entry_row strtol (key_of entry_key old (new_key entry_key db.entries)) feedid (viewed_of old)
        d

  row_named_so : new_row strtol feedid d db.entries ≡ stored_row (entry_at db feedid u)
  unfolding stored_row
  row_named_so = ap (λ t. stored_row (select (has_uid feedid t) db.entries)) named

  -- On valid tables cache_update_entry stores the data under the feed and the UniqueId: with the key
  -- and the read state of the entry that was there, or a new key and unread; every other entry is as
  -- before.
  pub entry_at-cache_update_entry :
      (f' : ℕ) (u' : Bytes)
      → entry_at (cache_update_entry strtol feedid d db) f' u' ≡ (
          if same_name feedid u f' u'
          then some (
              entry_row strtol
                (key_of entry_key (entry_at db feedid u) (new_key entry_key db.entries))
                feedid
                (viewed_of (entry_at db feedid u))
                d)
          else entry_at db f' u')
  unfolding stored_row
  entry_at-cache_update_entry f' u' =
      entry_at-row f' u'
      ∙ ap (λ r. if same_name feedid u f' u' then some r else entry_at db f' u') row_named_so

module _ (db : Db) where
  entry_at-change :
      (f : Entry → Entry) (keeps : KeepsNames f) (feedid : ℕ) (u : Bytes)
      → select (has_uid feedid (some u)) (change f db.entries) ≡ changed f (entry_at db feedid u)
  entry_at-change f keeps feedid u =
      select-change (has_uid feedid (some u)) f db.entries (has_uid-changed f keeps feedid (some u))

  pub entry_at-cache_init_cleanup :
      (feedid f' : ℕ) (u : Bytes)
      → entry_at (cache_init_cleanup feedid db) f' u ≡ changed (age feedid) (entry_at db f' u)
  unfolding cache_init_cleanup
  entry_at-cache_init_cleanup feedid f' u =
      entry_at-change (age feedid) (age-KeepsNames feedid) f' u

  pub entry_at-cache_cleanup_old :
      (now retention : ℤ) (feedid f' : ℕ) (u : Bytes)
      → IsValid db
      → entry_at (cache_cleanup_old now retention feedid db) f' u
        ≡ kept (λ e. not (is_old now retention feedid e)) (entry_at db f' u)
  unfolding cache_cleanup_old
  entry_at-cache_cleanup_old now retention feedid f' u valid =
      select-keep same_entry (has_uid f' (some u)) _ db.entries
        (λ x y here n. class_false x.unique_id y.unique_id x.feed_id y.feed_id f' u here n)
        valid.uids
