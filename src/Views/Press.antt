-- ===== src/Views/Press.antt =====
-- src/ui/keys.c and the loop of `run_ui` in src/ui/view.c: a key, the handler that it is bound to, and
-- what is drawn after it.
use newsbaoter.Common.{Bool, true, not, ◌&&◌, Option, none, some, Bytes, if◌then◌else◌}
use newsbaoter.Common.Run.{Run, ok, ◌>>=◌}
use newsbaoter.Common.Int.{ℤ}
use newsbaoter.Hash.{Table}
use newsbaoter.Keys.{Handler, process_key}
use newsbaoter.Lines.{Locale}
use newsbaoter.Window.{Shows}
use newsbaoter.Screen.{View, Answer, no_handler, stay, leave, update, World}
use newsbaoter.Views.{
  low_item, mid_item, high_item, next_item, prev_item, select_item, download_item, refresh_all,
  catchup_feed, catchup_all, toggle_read, context_exit, update_view,
}

module _ (locale : Locale) (day : ℤ → Bytes) (stale : Bytes) (shows : Shows) (world : World) where
  -- the handlers; the text of `handle_print_key_pairs` goes to the pager
  unfoldable pub call_handler : Handler → View → Run (Answer × View)
  unfolding low_item mid_item high_item next_item prev_item select_item download_item refresh_all
      catchup_feed catchup_all toggle_read context_exit
  call_handler Handler.exit v = context_exit locale day stale shows v
  call_handler Handler.next v = next_item locale day stale shows v
  call_handler Handler.prev v = prev_item locale day stale shows v
  call_handler Handler.select v =
      select_item locale day stale shows world.datetime world.html_pager v
  call_handler Handler.download v =
      download_item locale day stale shows world.datetime world.html_pager v
  call_handler Handler.high_item v = high_item v
  call_handler Handler.mid_item v = mid_item v
  call_handler Handler.low_item v = low_item v
  call_handler Handler.refresh_all v = refresh_all locale day stale shows world v
  call_handler Handler.catchup_feed v = catchup_feed locale day stale shows v
  call_handler Handler.catchup_all v = catchup_all locale day stale shows v
  call_handler Handler.toggle_read v = toggle_read locale day stale shows v
  call_handler Handler.redraw_screen v = ok (update, record v { newsize = true })
  call_handler Handler.print_key_pairs v = ok (update, v)

  -- what `run_ui` does with the answer; `confirmed` is whether the user confirms the exit. `leave` is the break.
  abbrev pub after_handler : Bool → Answer × View → Run (Answer × View)
  after_handler confirmed (no_handler, v) = ok (no_handler, v)
  after_handler confirmed (stay, v) = ok (stay, v)
  after_handler confirmed (leave, v) =
      if world.confirm_exit && not confirmed
      then (update_view locale day stale shows world v >>= λ v1. ok (stay, v1))
      else ok (leave, v)
  after_handler confirmed (update, v) =
      update_view locale day stale shows world v >>= λ v1. ok (update, v1)

  abbrev pub called : Option Handler → View → Run (Answer × View)
  called none v = ok (no_handler, v)
  called (some h) v = call_handler h v

  -- a key of the keyboard
  unfoldable pub press : Table Handler → ℤ → Bool → View → Run (Answer × View)
  unfolding call_handler update_view
  press keys c confirmed v =
      process_key c keys >>= λ h. called h v >>= λ r. after_handler confirmed r
