-- ===== src/Document/Refresh.antt =====
-- src/xmlproc.c: what a refresh does to the entries of a feed.
use mathlib.Core.Option.{some-injective, none-ne-some}
use newsbaoter.Common.{
  ℕ, ◌+◌, ◌≡◌, ◌≢◌, refl, sym, ◌∙◌, ap, Bool, true, false, Bool-cases, Option-cases, inl, inr, ◌&&◌,
  Option, none, some, Bytes, codes, str_eq, str_eq_iff, ==_iff, if◌then◌else◌, arith,
}
use newsbaoter.Common.Int.{ℤ}
use newsbaoter.Cache.Table.{select, new_key}
use newsbaoter.Cache.Upsert.{key_of}
use newsbaoter.Cache.{
  Text, Db, Entry, EntryData, text_eq, entry_key, has_uid, entry_row, new_row, viewed_of,
}
use newsbaoter.Cache.Valid.{IsValid, cache_update_entry-IsValid}
use newsbaoter.Cache.Lookup.{entry_at, same_name, entry_at-row}
use newsbaoter.Document.{
  or_text, Node, Nodes, nil, cons, children, is_element, TimeLib, raw_entry, entry_data,
  update_entry, update_nodes,
}

of_test :
    (p q : Bool) (x d : EntryData)
    → (if p && q then some x else none) ≡ some d
    → (p ≡ true) × (q ≡ true) × (x ≡ d)
of_test true true x d h = (refl, refl, some-injective x d h)
of_test true false x d h = absurd (none-ne-some d h)
of_test false q x d h = absurd (none-ne-some d h)

of_no_test :
    (p q : Bool) (x : EntryData) → (if p && q then some x else none) ≡ none → p ≡ true → q ≡ false
of_no_test true true x h e = absurd (none-ne-some x (sym h))
of_no_test true false x h e = refl
of_no_test false q x h e = cc

module _ (time : TimeLib) (strtol : Bytes → ℤ) (new_uid : ℕ → Bytes) where
  -- what is stored for the `k`-th node, if it is an entry with this UniqueId
  abbrev pub node_data : Node → ℕ → EntryData
  node_data n k = entry_data time k (new_uid k) (raw_entry (children n))

  abbrev pub node_entry : Bytes → Node → ℕ → Option EntryData
  node_entry u n k =
      if is_element (codes "entry") n && text_eq (node_data n k).uid (some u)
      then some (node_data n k)
      else none

  -- the last entry of a document with a UniqueId
  unfoldable pub listed : Bytes → Nodes → ℕ → Option EntryData
  listed u nil k = none
  listed u (cons n ns) k = elim (listed u ns (k + 1)) [ none ↦ node_entry u n k | some d ↦ some d ]

  entry_data-uid :
      (k : ℕ) (new : Bytes) (raw : EntryData)
      → (w : Bytes) × ((entry_data time k new raw).uid ≡ some w)
  unfolding entry_data
  entry_data-uid k new raw = named raw.uid
    where
      named : (t : Text) → (w : Bytes) × (or_text t (some new) ≡ some w)
      named none = (new, refl)
      named (some w) = (w, refl)

  -- The entry that is stored: some key, the feed, the read state, and the data of the document.
  abbrev pub Stored : ℕ → ℕ → EntryData → Option Entry → Type 0
  Stored feedid viewed d o = (id : ℕ) × (o ≡ some (entry_row strtol id feedid viewed d))

  module _ (feedid : ℕ) where
    abbrev step : Node → ℕ → Db → Db
    step n k db =
        if is_element (codes "entry") n
        then update_entry time strtol new_uid feedid (children n) k db
        else db

    step-IsValid : (n : Node) (k : ℕ) (db : Db) → IsValid db → IsValid (step n k db)
    unfolding update_entry
    step-IsValid n k db valid = elim (Bool-cases (is_element (codes "entry") n)) [
      | inl e ↦ rw e (cache_update_entry-IsValid db valid strtol feedid (node_data n k))
      | inr ne ↦ rw ne valid
    ]

    -- an entry before and after a node
    step-entry_at :
        (n : Node) (k : ℕ) (db : Db) (w : Bytes)
        → IsValid db
        → is_element (codes "entry") n ≡ true
        → (node_data n k).uid ≡ some w
        → (f' : ℕ) (u : Bytes)
        → entry_at (step n k db) f' u ≡ (
            if same_name feedid w f' u
            then some (new_row strtol feedid (node_data n k) db.entries)
            else entry_at db f' u)
    unfolding update_entry
    step-entry_at n k db w valid e named f' u =
        rw e (entry_at-row strtol feedid (node_data n k) w db valid named f' u)

    -- the entry of a feed under a name, where a node has that name
    row_at : EntryData → Text → Db → Entry
    row_at d t db =
        entry_row strtol
          (key_of entry_key (select (has_uid feedid t) db.entries) (new_key entry_key db.entries))
          feedid (viewed_of (select (has_uid feedid t) db.entries)) d

    new_row-row_at :
        (d : EntryData) (db : Db) → new_row strtol feedid d db.entries ≡ row_at d d.uid db
    unfolding row_at
    new_row-row_at d db = refl

    step-some :
        (u : Bytes) (n : Node) (k : ℕ) (db : Db) (d : EntryData)
        → IsValid db
        → node_entry u n k ≡ some d
        → Stored feedid (viewed_of (entry_at db feedid u)) d (entry_at (step n k db) feedid u)
    unfolding row_at
    step-some u n k db d valid e =
        let (w, named) = entry_data-uid k (new_uid k) (raw_entry (children n)) in
        let (elem, same, data_is) = of_test _ _ (node_data n k) d e in
        let wu : w ≡ u = (str_eq_iff w u).0 (rw named at same) in
        let at = step-entry_at n k db w valid elem named feedid u in
        let here : same_name feedid w feedid u ≡ true =
          rw ((==_iff feedid feedid).1 refl) ((str_eq_iff w u).1 wu) in
        (
          key_of entry_key (entry_at db feedid u) (new_key entry_key db.entries),
          at
              ∙ rw here (
                  ap some (
                    new_row-row_at (node_data n k) db
                    ∙ ap (λ t. row_at (node_data n k) t db) (named ∙ ap some wu)
                    ∙ ap (λ x. row_at x (some u) db) data_is)),
        )

    step-none :
        (u : Bytes) (n : Node) (k : ℕ) (db : Db)
        → IsValid db
        → node_entry u n k ≡ none
        → entry_at (step n k db) feedid u ≡ entry_at db feedid u
    step-none u n k db valid e = elim (Bool-cases (is_element (codes "entry") n)) [
      | inr ne ↦ rw ne
      | inl el ↦
          let (w, named) = entry_data-uid k (new_uid k) (raw_entry (children n)) in
          let differs : str_eq w u ≡ false = rw named at (of_no_test _ _ (node_data n k) e el) in
          step-entry_at n k db w valid el named feedid u
          ∙ rw ((==_iff feedid feedid).1 refl, differs)
    ]

    step-other :
        (f' : ℕ) (u : Bytes) (n : Node) (k : ℕ) (db : Db)
        → IsValid db
        → feedid ≢ f'
        → entry_at (step n k db) f' u ≡ entry_at db f' u
    step-other f' u n k db valid ne = elim (Bool-cases (is_element (codes "entry") n)) [
      | inr no_entry ↦ rw no_entry
      | inl el ↦
          let (w, named) = entry_data-uid k (new_uid k) (raw_entry (children n)) in
          let differs : same_name feedid w f' u ≡ false = ground arith in
          step-entry_at n k db w valid el named f' u ∙ rw differs
    ]

    step-viewed :
        (u : Bytes) (n : Node) (k : ℕ) (db : Db)
        → IsValid db
        → viewed_of (entry_at (step n k db) feedid u) ≡ viewed_of (entry_at db feedid u)
    step-viewed u n k db valid = elim (Option-cases (node_entry u n k)) [
      | inl e ↦ ap viewed_of (step-none u n k db valid e)
      | inr (d, e) ↦ ap viewed_of (step-some u n k db d valid e).1
    ]

    pub update_nodes-IsValid :
        (ns : Nodes) (k : ℕ) (db : Db)
        → IsValid db
        → IsValid (update_nodes time strtol new_uid feedid ns k db)
    unfolding update_nodes
    update_nodes-IsValid nil k db valid = valid
    update_nodes-IsValid (cons n ns) k db valid =
        update_nodes-IsValid ns (k + 1) (step n k db) (step-IsValid n k db valid)

    not_listed :
        (u : Bytes) (n : Node) (ns : Nodes) (k : ℕ)
        → listed u ns (k + 1) ≡ none
        → listed u (cons n ns) k ≡ node_entry u n k
    unfolding listed
    not_listed u n ns k e = rw e

    listed_later :
        (u : Bytes) (n : Node) (ns : Nodes) (k : ℕ) (d : EntryData)
        → listed u ns (k + 1) ≡ some d
        → listed u (cons n ns) k ≡ some d
    unfolding listed
    listed_later u n ns k d e = rw e

    pub update_nodes-unlisted :
        (u : Bytes) (ns : Nodes) (k : ℕ) (db : Db)
        → IsValid db
        → listed u ns k ≡ none
        → entry_at (update_nodes time strtol new_uid feedid ns k db) feedid u ≡ entry_at db feedid u
    unfolding update_nodes
    update_nodes-unlisted u nil k db valid e = refl
    update_nodes-unlisted u (cons n ns) k db valid e = elim (Option-cases (listed u ns (k + 1))) [
      | inl later ↦
          update_nodes-unlisted u ns (k + 1) (step n k db) (step-IsValid n k db valid) later
          ∙ step-none u n k db valid (sym (not_listed u n ns k later) ∙ e)
      | inr (d, later) ↦ absurd (none-ne-some d (sym e ∙ listed_later u n ns k d later))
    ]

    pub update_nodes-listed :
        (u : Bytes) (ns : Nodes) (k : ℕ) (db : Db) (d : EntryData)
        → IsValid db
        → listed u ns k ≡ some d
        → Stored feedid
            (viewed_of (entry_at db feedid u))
            d
            (entry_at (update_nodes time strtol new_uid feedid ns k db) feedid u)
    unfolding update_nodes
    update_nodes-listed u nil k db d valid e = absurd (none-ne-some d (unfold listed in e))
    update_nodes-listed u (cons n ns) k db d valid e = elim (Option-cases (listed u ns (k + 1))) [
      | inl later ↦
          let (id, at) = step-some u n k db d valid (sym (not_listed u n ns k later) ∙ e) in
          (
            id,
            update_nodes-unlisted u ns (k + 1) (step n k db) (step-IsValid n k db valid) later ∙ at,
          )
      | inr (d', later) ↦
          let same : d' ≡ d = some-injective d' d (sym (listed_later u n ns k d' later) ∙ e) in
          let (id, at) =
            update_nodes-listed u ns (k + 1) (step n k db) d (step-IsValid n k db valid)
              (later ∙ ap some same) in
          (id, at ∙ ap (λ v. some (entry_row strtol id feedid v d)) (step-viewed u n k db valid))
    ]

    pub update_nodes-other :
        (f' : ℕ) (u : Bytes) (ns : Nodes) (k : ℕ) (db : Db)
        → IsValid db
        → feedid ≢ f'
        → entry_at (update_nodes time strtol new_uid feedid ns k db) f' u ≡ entry_at db f' u
    unfolding update_nodes
    update_nodes-other f' u nil k db valid ne = refl
    update_nodes-other f' u (cons n ns) k db valid ne =
        update_nodes-other f' u ns (k + 1) (step n k db) (step-IsValid n k db valid) ne
        ∙ step-other f' u n k db valid ne
