-- ===== src/Views.antt =====
-- src/ui/view.c with the calls of src/ui/util.c that it makes: the handlers, which move the cursor, the
-- pages and the contexts.
pub mod Press
pub mod Wait
pub mod Cursor
pub mod Handlers
pub mod Contexts
pub mod Moves
mod Tests
use newsbaoter.Common.{
  ℕ, zero, suc, ◌+◌, ◌-◌, ◌*◌, ◌/◌, ◌≤◌, ◌≡◌, Bool, true, false, not, ◌&&◌, ◌||◌, Option, none,
  some, List, [], ◌∷◌, ◌++◌, Bytes, codes, length, get_elem?, get_or, set, take, drop, replicate,
  overwrite, ltb, leb, ◌==◌, if◌then◌else◌,
}
use newsbaoter.Common.Run.{Run, ok, fault, out_of_bounds, ◌>>=◌}
use newsbaoter.Common.Int.{ℤ, pos, negsuc}
use newsbaoter.Cache.{Db, cache_read_feed, cache_toggle_read_entry}
use newsbaoter.Lines.{Locale, Row, clear_lines}
use newsbaoter.Window.{
  Context, null, feeds, entries, entry, Window, Shows, cache_gen_lines, cache_write_entry_field,
}
use newsbaoter.Screen.{
  View, Answer, no_handler, stay, leave, update, skip_spaces, find_end, print_crop,
  restyle_focus_item, at_cursor, draw_rows, titl_width, draw_view, realloc, regen_windows, resized,
  resize_mainwindow, World,
}

abbrev pub move_to : ℕ → View → View
move_to i v = record v { cursor_i = i }

-- the move of the cursor between two drawings of its line
abbrev pub refocus : (View → View) → Answer → View → Run (Answer × View)
refocus move answer v =
    restyle_focus_item v >>= λ v1. restyle_focus_item (move v1) >>= λ v2. ok (answer, v2)

unfoldable pub low_item : View → Run (Answer × View)
unfolding restyle_focus_item
low_item v = refocus (λ v1. move_to v1.content_bw_max v1) stay v

unfoldable pub mid_item : View → Run (Answer × View)
unfolding restyle_focus_item
mid_item v = refocus (λ v1. move_to (v1.content_bw_max / 2) v1) stay v

unfoldable pub high_item : View → Run (Answer × View)
unfolding restyle_focus_item
high_item v = refocus (move_to 0) stay v

abbrev pub is_zero : ℤ → Bool
is_zero (pos n) = n == 0
is_zero (negsuc n) = false

-- the loop of `next_unread_item`, by the rows left
unfoldable pub last_unread : List Row → ℕ → ℕ → Option ℕ → Run (Option ℕ)
last_unread lv zero i found = ok found
last_unread lv (suc rounds) i found = elim (get_elem? lv i) [
  | none ↦ fault out_of_bounds
  | some r ↦ last_unread lv rounds (i + 1) (if is_zero r.unread then found else some i)
]

abbrev pub is_feeds : Context → Bool
is_feeds feeds = true
is_feeds null = false
is_feeds entries = false
is_feeds entry = false

abbrev pub is_entries : Context → Bool
is_entries entries = true
is_entries null = false
is_entries feeds = false
is_entries entry = false

-- the end of the list: back to the page before
abbrev pub undo_page : View → View
undo_page v = record v { cursor_i = v.content_bw_max; win = record v.win { page = v.win.page - 1 } }

abbrev pub turned : Bool → View → Answer × View
turned b v = if b then (update, v) else (stay, undo_page v)

abbrev pub change_db : (Db → Db) → View → View
change_db f v = record v { win = record v.win { db = f v.win.db } }

module _ (locale : Locale) (day : ℤ → Bytes) (stale : Bytes) (shows : Shows) where
  -- `request_list_update`, with its result
  unfoldable pub request_list_update : View → Run (ℕ × View)
  unfolding cache_gen_lines
  request_list_update v =
      cache_gen_lines locale day stale shows v.win >>= λ r. ok (r.0, record v { win = r.1 })

  -- a step to the next page
  abbrev pub next_page : View → Run (Answer × View)
  next_page v =
      request_list_update (record v { cursor_i = 0; win = record v.win { page = v.win.page + 1 } })
      >>= λ r. ok (turned (r.0 == 0) r.1)

  -- `next_item` between the two drawings
  abbrev pub step_next : View → Run (Answer × View)
  step_next v =
      if ltb v.cursor_i v.content_bw_max
      then ok (stay, move_to (v.cursor_i + 1) v)
      else if v.content_bw_max + 1 == v.win.body_len
      then next_page v
      else ok (stay, v)

  unfoldable pub next_item : View → Run (Answer × View)
  unfolding restyle_focus_item request_list_update
  next_item v = restyle_focus_item v >>= λ v1.
      step_next v1 >>= λ r. restyle_focus_item r.1 >>= λ v2. ok (r.0, v2)

  abbrev pub step_unread : Option ℕ → View → Run View
  step_unread (some i) v = ok (move_to i v)
  step_unread none v = request_list_update v >>= λ r. ok r.1

  unfoldable pub next_unread_item : View → Run (Answer × View)
  unfolding restyle_focus_item request_list_update last_unread
  next_unread_item v = restyle_focus_item v >>= λ v1.
      last_unread v1.win.lv (v1.content_bw_max + 1 - v1.cursor_i) v1.cursor_i none >>= λ found.
      step_unread found v1 >>= λ v2. restyle_focus_item v2 >>= λ v3. ok (update, v3)

  abbrev pub step_prev : View → Run (Answer × View)
  step_prev v =
      if ltb 0 v.cursor_i
      then ok (stay, move_to (v.cursor_i - 1) v)
      else if ltb 0 v.win.page
      then (request_list_update (record v {
        cursor_i = v.win.body_len - 1;
        win = record v.win { page = v.win.page - 1 };
      })
          >>= λ r. ok (update, r.1))
      else ok (stay, v)

  unfoldable pub prev_item : View → Run (Answer × View)
  unfolding restyle_focus_item request_list_update
  prev_item v = restyle_focus_item v >>= λ v1.
      step_prev v1 >>= λ r. restyle_focus_item r.1 >>= λ v2. ok (r.0, v2)

  unfoldable pub view_to_feeds : View → Run View
  unfolding request_list_update
  view_to_feeds v =
      request_list_update
        (record v { win = record v.win { page = v.backup_page_num; ctx_type = feeds; ctx_id = 0 } })
      >>= λ r. ok r.1

  -- `if(result) view_to_feeds(mw)`
  abbrev pub or_feeds : Answer → ℕ × View → Run (Answer × View)
  or_feeds answer r =
      if r.0 == 0 then ok (answer, r.1) else (view_to_feeds r.1 >>= λ v. ok (answer, v))

  -- `pipe_fields`; what is written goes to the process
  unfoldable pub pipe_fields : (ℤ → Bytes) → Bool → ℕ → Bytes → View → Run (ℕ × View)
  unfolding request_list_update cache_write_entry_field
  pipe_fields datetime html id field v =
      request_list_update
        (change_db (λ db. (cache_write_entry_field datetime html id field db).1) v)

  -- the entries of the feed at the cursor
  abbrev pub open_feed : View → Run (Answer × View)
  open_feed v = at_cursor v >>= λ row.
      request_list_update (record v {
        win = record v.win { ctx_type = entries; ctx_id = row.id; page = 0 };
        backup_page_num = v.win.page;
      })
      >>= λ r.
          if r.0 == 0
          then (restyle_focus_item r.1 >>= λ v1.
              restyle_focus_item (record v1 { backup_cursor_i = v1.cursor_i; cursor_i = 0 })
              >>= λ v2. ok (update, v2))
          else (view_to_feeds r.1 >>= λ v1. ok (stay, v1))

  unfoldable pub select_item : (ℤ → Bytes) → Bool → View → Run (Answer × View)
  unfolding restyle_focus_item request_list_update view_to_feeds pipe_fields
  select_item datetime html v =
      if is_feeds v.win.ctx_type
      then open_feed v
      else if is_entries v.win.ctx_type
      then (at_cursor v >>= λ row.
          pipe_fields datetime html row.id (codes "*") v >>= or_feeds update)
      else ok (update, v)

  unfoldable pub download_item : (ℤ → Bytes) → Bool → View → Run (Answer × View)
  unfolding view_to_feeds pipe_fields
  download_item datetime html v =
      if is_entries v.win.ctx_type
      then (at_cursor v >>= λ row.
          pipe_fields datetime html row.id (codes "URL") v >>= or_feeds update)
      else ok (update, v)

  unfoldable pub catchup_entries : ℕ → View → Run (ℕ × View)
  unfolding request_list_update
  catchup_entries id v = request_list_update (change_db (cache_read_feed id) v)

  unfoldable pub catchup_feed : View → Run (Answer × View)
  unfolding restyle_focus_item view_to_feeds catchup_entries
  catchup_feed v =
      if is_feeds v.win.ctx_type
      then (at_cursor v >>= λ row.
          catchup_entries row.id v >>= λ r. restyle_focus_item r.1 >>= λ v1. ok (update, v1))
      else (catchup_entries v.win.ctx_id v >>= or_feeds update)

  unfoldable pub catchup_all : View → Run (Answer × View)
  unfolding view_to_feeds catchup_entries
  catchup_all v = catchup_entries 0 v >>= or_feeds update

  unfoldable pub toggle_read_ipc : ℕ → View → Run (ℕ × View)
  unfolding request_list_update
  toggle_read_ipc id v = request_list_update (change_db (cache_toggle_read_entry id (negsuc 0)) v)

  -- `toggle_read`; its last test is whether the row may have gone from the list
  unfoldable pub toggle_read : View → Run (Answer × View)
  unfolding restyle_focus_item view_to_feeds toggle_read_ipc
  toggle_read v =
      if is_entries v.win.ctx_type
      then (at_cursor v >>= λ row. toggle_read_ipc row.id v >>= λ r.
          if r.0 == 0
          then (restyle_focus_item r.1 >>= λ v1.
              ok ((if v1.win.ctx_id == 0 || not shows.show_read_entries then update else stay), v1))
          else (view_to_feeds r.1 >>= λ v1. ok (update, v1)))
      else ok (stay, v)

  unfoldable pub context_exit : View → Run (Answer × View)
  unfolding request_list_update
  context_exit v =
      if is_feeds v.win.ctx_type
      then ok (leave, v)
      else (request_list_update (record v {
        cursor_i = v.backup_cursor_i;
        win = record v.win { ctx_type = feeds; ctx_id = 0; page = v.backup_page_num };
      })
          >>= λ r. ok (update, r.1))

  unfoldable pub update_view : World → View → Run View
  unfolding resize_mainwindow request_list_update draw_view
  update_view world v =
      (if v.newsize
        then (resize_mainwindow world.junk world.junk_row world.lines world.cols v >>= λ v1.
            request_list_update (record v1 { newsize = false }) >>= λ r. ok r.1)
        else ok v)
      >>= draw_view

  -- the end of `refresh_all`, with the result of `handle_urls` and the tables after it
  abbrev pub refreshed : World → View → ℤ × Db → Run (Answer × View)
  refreshed world v (negsuc n, db') = ok (stay, change_db (λ db. db') v)
  refreshed world v (pos n, db') =
      request_list_update (record v {
        win = record v.win { beep_request = not (n == 0) && world.notify_beep; db = db' };
      })
      >>= λ r. update_view world r.1 >>= λ v1. ok (stay, v1)

  unfoldable pub refresh_all : World → View → Run (Answer × View)
  unfolding request_list_update update_view
  refresh_all world v = refreshed world v (world.fetch v.win.db)
