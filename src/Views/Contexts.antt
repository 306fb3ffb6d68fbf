-- ===== src/Views/Contexts.antt =====
-- src/ui/view.c: from the list of feeds to the entries of a feed and back, and what a key does to the
-- tables.
use newsbaoter.Common.{
  ℕ, ◌+◌, ◌*◌, ◌≡◌, refl, sym, ◌∙◌, ap, subst, Bool, true, not, ◌||◌, get_elem?, ◌⊎◌, Option, none,
  some, List, Bytes, leb, ◌==◌, if◌then◌else◌,
}
use newsbaoter.Common.Run.{
  Run, ok, fault, no_row, Holds, Holds-ok, Holds-fault, Holds-map, Holds-if, Holds->>=, Safe-Holds,
  ◌>>=◌,
}
use newsbaoter.Common.Int.{ℤ, negsuc}
use newsbaoter.Cache.{Db, cache_read_feed, cache_toggle_read_entry, get_num_unread}
use newsbaoter.Cache.Calls.{get_num_unread-cache_read_feed}
use newsbaoter.Lines.{Locale, Row}
use newsbaoter.Window.{Window, Shows, Context, feeds, entries, cache_gen_lines}
use newsbaoter.Window.Sizes.{cache_gen_lines-SameView}
use newsbaoter.Screen.{View, Answer, stay, update, print_crop, restyle_focus_item, at_cursor}
use newsbaoter.Views.{
  catchup_all, catchup_entries, or_feeds, request_list_update, view_to_feeds, is_entries,
  toggle_read, toggle_read_ipc, change_db,
}

-- where the user is: the cursor, what is saved of the list of feeds, the page, the context, its id, and
-- the tables
pub record Place (cursor saved page saved_page id : ℕ) (ctx : Context) (db : Db) (v : View)
    : Type 0 where
  pub at_cursor : v.cursor_i ≡ cursor
  pub at_saved : v.backup_cursor_i ≡ saved
  pub at_page : v.win.page ≡ page
  pub at_saved_page : v.backup_page_num ≡ saved_page
  pub at_id : v.win.ctx_id ≡ id
  pub at_ctx : v.win.ctx_type ≡ ctx
  pub at_db : v.win.db ≡ db

here :
    (v : View)
    → Place v.cursor_i v.backup_cursor_i v.win.page v.backup_page_num v.win.ctx_id v.win.ctx_type
        v.win.db v
here v = record {
  at_cursor = refl;
  at_saved = refl;
  at_page = refl;
  at_saved_page = refl;
  at_id = refl;
  at_ctx = refl;
  at_db = refl;
}

module _ (cursor saved page saved_page id : ℕ) (ctx : Context) (db : Db) where
  abbrev P : View → Type 0
  P = Place cursor saved page saved_page id ctx db

  crop_any : (m : Run (Bool × List ℕ)) → Holds m (λ r. Unit {0})
  crop_any m = record { of_value = λ r e. tt }

  restyle-Place : (v : View) → P v → Holds (restyle_focus_item v) P
  unfolding restyle_focus_item
  restyle-Place v h = Holds-if (leb v.win.body_len v.cursor_i) _ _ (Holds-fault _ _) (
      Holds->>= _ _ (crop_any (print_crop v.win.body (v.cursor_i * (v.win.width + 1)) v.win.width))
        λ r u. Holds-ok _ _ (record {
          at_cursor = h.at_cursor;
          at_saved = h.at_saved;
          at_page = h.at_page;
          at_saved_page = h.at_saved_page;
          at_id = h.at_id;
          at_ctx = h.at_ctx;
          at_db = h.at_db;
        }))

  module _ (locale : Locale) (day : ℤ → Bytes) (stale : Bytes) (shows : Shows) where
    request-Place :
        (v : View) → P v → Holds (request_list_update locale day stale shows v) (λ r. P r.1)
    unfolding request_list_update
    request-Place v h =
        Holds->>= _ _ (Safe-Holds (cache_gen_lines-SameView locale day stale shows v.win)) λ r s.
          Holds-ok _ _ (record {
            at_cursor = h.at_cursor;
            at_saved = h.at_saved;
            at_page = s.same_page ∙ h.at_page;
            at_saved_page = h.at_saved_page;
            at_id = s.same_id ∙ h.at_id;
            at_ctx = s.same_ctx ∙ h.at_ctx;
            at_db = s.same_db ∙ h.at_db;
          })

-- in a feed, with a place of the list of feeds saved
abbrev pub InEntries : ℕ → ℕ → Db → View → Type 0
InEntries cursor page db v =
    (v.backup_cursor_i ≡ cursor)
    × (v.backup_page_num ≡ page)
    × (v.win.ctx_type ≡ entries)
    × (v.win.db ≡ db)

module _ (locale : Locale) (day : ℤ → Bytes) (stale : Bytes) (shows : Shows) where
  -- at a place of the list of feeds, with the lines that cache_gen_lines writes for that page of it
  pub record InFeeds (cursor page : ℕ) (db : Db) (v : View) : Type 0 where
    pub at_cursor : v.cursor_i ≡ cursor
    pub at_page : v.win.page ≡ page
    pub at_ctx : v.win.ctx_type ≡ feeds
    pub at_db : v.win.db ≡ db
    pub from_window : Window
    pub from_page : from_window.page ≡ page
    pub from_ctx : from_window.ctx_type ≡ feeds
    pub from_db : from_window.db ≡ db
    pub returned : ℕ
    pub lines : cache_gen_lines locale day stale shows from_window ≡ ok (returned, v.win)

  as_feeds : ℕ → ℕ → View → View
  as_feeds cursor page v = record v {
    cursor_i = cursor;
    win = record v.win { page = page; ctx_type = feeds; ctx_id = 0 };
  }

  -- what select_item leaves in the list of feeds: the entries of the feed, or the list of feeds where
  -- there are none
  abbrev Opened : ℕ → ℕ → Db → Answer × View → Type 0
  Opened cursor page db r =
      ((r.0 ≡ update) × InEntries cursor page db r.1) ⊎ ((r.0 ≡ stay) × InFeeds cursor page db r.1)

  DbIs : Db → View → Type 0
  DbIs db v = v.win.db ≡ db

  view_to_feeds-DbIs : (v : View) → Holds (view_to_feeds locale day stale shows v) (DbIs v.win.db)
  unfolding view_to_feeds DbIs
  view_to_feeds-DbIs v =
      Holds->>= _ _
        (request-Place _ _ _ _ _ _ _ locale day stale shows
          (record v {
            win = record v.win { page = v.backup_page_num; ctx_type = feeds; ctx_id = 0 };
          })
          (here _))
        λ r h. Holds-ok _ _ h.at_db

  or_feeds-DbIs :
      (answer : Answer) (db : Db) (r : ℕ × View)
      → DbIs db r.1
      → Holds (or_feeds locale day stale shows answer r) (λ x. DbIs db x.1)
  unfolding DbIs
  or_feeds-DbIs answer db r e =
      Holds-if (r.0 == 0) _ _ (Holds-ok _ _ e)
        (Holds->>= _ _ (view_to_feeds-DbIs r.1) λ v k. Holds-ok _ _ (k ∙ e))

  toggled :
      (id : ℕ) (v : View)
      → Holds {R = Answer × View}
          (toggle_read_ipc locale day stale shows id v >>= λ r.
            if r.0 == 0
            then (restyle_focus_item r.1 >>= λ v1.
                ok (
                  (if v1.win.ctx_id == 0 || not shows.show_read_entries then update else stay),
                  v1,
                ))
            else (view_to_feeds locale day stale shows r.1 >>= λ v1. ok (update, v1)))
          (λ x. DbIs (cache_toggle_read_entry id (negsuc 0) v.win.db) x.1)
  unfolding toggle_read_ipc DbIs
  toggled id v =
      Holds->>= _ _
        (request-Place _ _ _ _ _ _ _ locale day stale shows
          (change_db (cache_toggle_read_entry id (negsuc 0)) v) (here _))
        λ r h.
          Holds-if (r.0 == 0) _ _
            (Holds->>= _ _ (restyle-Place _ _ _ _ _ _ _ r.1 h) λ v1 h1. Holds-ok _ _ h1.at_db)
            (Holds->>= _ _ (view_to_feeds-DbIs r.1) λ v1 k. Holds-ok _ _ (k ∙ h.at_db))

  row_there :
      (v : View) (row : Row)
      → get_elem? v.win.lv v.cursor_i ≡ some row
      → Holds (at_cursor v) (λ r. r ≡ row)
  row_there v row e =
      let found : at_cursor v ≡ ok row =
        ap (λ (o : Option Row). elim o as (λ x. Run Row) [ none ↦ fault no_row | some r ↦ ok r ])
          e in
      subst (λ m. Holds m (λ r. r ≡ row)) (sym found) (Holds-ok _ row refl)

  -- In a list of entries, where the code comes back: toggle_read has changed the read state of the entry
  -- whose id the row at the cursor has, and nothing else of the tables.
  pub toggle_read_lem :
      (v : View) (row : Row)
      → v.win.ctx_type ≡ entries
      → get_elem? v.win.lv v.cursor_i ≡ some row
      → Holds
          (toggle_read locale day stale shows v)
          (λ r. r.1.win.db ≡ cache_toggle_read_entry row.id (negsuc 0) v.win.db)
  unfolding toggle_read DbIs
  toggle_read_lem v row e at =
      let there : is_entries v.win.ctx_type ≡ true = ap is_entries e in
      rw there (
        Holds->>= (at_cursor v) _ (row_there v row at) λ r same.
          Holds-map (toggled r.id v)
            λ x k. k ∙ ap (λ (q : Row). cache_toggle_read_entry q.id (negsuc 0) v.win.db) same)

  -- Where the code comes back, no entry is unread after catchup_all.
  pub get_num_unread-catchup_all :
      (v : View) → Holds (catchup_all locale day stale shows v) (λ r. get_num_unread r.1.win.db ≡ 0)
  unfolding catchup_all catchup_entries DbIs
  get_num_unread-catchup_all v =
      Holds->>= _ _
        (request-Place _ _ _ _ _ _ _ locale day stale shows (change_db (cache_read_feed 0) v)
          (here _))
        λ r h.
          Holds-map (or_feeds-DbIs update (cache_read_feed 0 v.win.db) r h.at_db)
            λ x k. ap get_num_unread k ∙ get_num_unread-cache_read_feed v.win.db
