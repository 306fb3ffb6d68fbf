-- ===== src/Views/Tests.antt =====
-- src/ui/view.c: a window of two rows.
use newsbaoter.Common.{
  ◌+◌, ◌≡◌, ◌≤◌, refl, none, some, Bool, true, false, [], ◌∷◌, replicate, arith,
}
use newsbaoter.Common.Run.{Run, ok, fault, Returns, ◌>>=◌}
use newsbaoter.Common.Int.{ℤ, pos, negsuc, ◌≤ℤ◌}
use newsbaoter.Cache.{get_num_unread, cache_toggle_read_entry}
use newsbaoter.Cache.Table.{select, keep, change, count}
use newsbaoter.Lines.Format.{decimal, decimalℤ}
use newsbaoter.Lines.Query.{entry_rows}
use newsbaoter.Lines.{Row}
use newsbaoter.Lines.Tests.{c_locale, some_day, row0, two_entries}
use newsbaoter.Window.{Shows, Context, feeds, entries}
use newsbaoter.Screen.{Answer, View, World}
use newsbaoter.Views.{next_item, prev_item, select_item, context_exit, toggle_read}
use newsbaoter.Screen.InRange.{InRange}
use newsbaoter.Views.Wait.{choose_timeout, earlier, choose_timeout_bounds}
use newsbaoter.Views.Moves.{StaysAt, next_item-prev_item}

abbrev all_shown : Shows
all_shown = record { show_read_feeds = true; show_read_entries = true }

abbrev row2 : Row
row2 = record { unread = pos 1; id = 2 }

-- two rows of thirty characters, with the cursor at the first
abbrev in_context : Context → View
in_context c = record {
  win = record {
    header = replicate 31 0;
    footer = replicate 31 0;
    body = replicate 62 0;
    lv = row2 ∷ row0 ∷ [];
    body_len = 2;
    width = 30;
    page = 0;
    ctx_type = c;
    ctx_id = 7;
    beep_request = false;
    db = two_entries;
  };
  cursor_i = 0;
  content_bw_max = 1;
  backup_cursor_i = 1;
  backup_page_num = 0;
  newsize = false;
}

in_context-InRange : (c : Context) → InRange 2 30 (in_context c)
in_context-InRange c = record {
  tall = refl;
  wide = refl;
  rows = refl;
  places = refl;
  head = refl;
  foot = refl;
  cursor = omega arith;
  last = omega arith;
  backup = omega arith;
}

abbrev terminal : World
terminal = record {
  lines = 4;
  cols = 30;
  junk = λ i. 0;
  junk_row = λ i. row0;
  html_pager = false;
  notify_beep = false;
  confirm_exit = false;
  datetime = λ d. [];
  fetch = λ db. (negsuc 0, db);
}

next_item-prev_item_example :
    Returns (next_item c_locale some_day [] all_shown (in_context feeds)) (StaysAt (0 + 1))
    × Returns
        (next_item c_locale some_day [] all_shown (in_context feeds) >>= λ r.
          prev_item c_locale some_day [] all_shown r.1)
        (StaysAt 0)
next_item-prev_item_example =
    next_item-prev_item 2 30 c_locale some_day [] all_shown (in_context feeds)
      (in_context-InRange feeds) (omega arith)

came_back : (m : Run (Answer × View)) → Bool
came_back (fault why) = false
came_back (ok r) = true

abbrev at_feed : View
at_feed =
    let v : View = in_context feeds in
    record v { win = record v.win { lv = record { unread = pos 1; id = 7 } ∷ row0 ∷ [] } }

-- a feed with two entries is opened and left
opens_and_closes :
    came_back (
      select_item c_locale some_day [] all_shown (λ d. []) false at_feed >>= λ r.
      context_exit c_locale some_day [] all_shown r.1)
    ≡ true
unfolding came_back select_item context_exit entry_rows keep decimal select get_num_unread count
    decimalℤ
opens_and_closes = refl

-- and the read state of an entry is toggled
toggles : came_back (toggle_read c_locale some_day [] all_shown (in_context entries)) ≡ true
unfolding came_back toggle_read entry_rows keep cache_toggle_read_entry change decimal select
toggles = refl

choose_timeout_bounds_example :
    (s : ℤ) × (choose_timeout (negsuc 1) true (pos 600) 1000 900 none
      ≡ (some (s, 0), earlier 1000 900))
    × (pos 0 ≤ℤ s)
    × (s ≤ℤ pos 600)
    × (earlier 1000 900 ≤ 1000)
choose_timeout_bounds_example = choose_timeout_bounds 0 600 1000 900 none

-- 500 of the 600 seconds are left
left_of_600 : choose_timeout (negsuc 1) true (pos 600) 1000 900 none ≡ (some (pos 500, 0), 900)
unfolding choose_timeout
left_of_600 = refl
