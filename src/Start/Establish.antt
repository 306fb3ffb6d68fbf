-- ===== src/Start/Establish.antt =====
-- src/newsbaoter.c: the view from the start of the program on.
use newsbaoter.Common.{◌≡◌}
use newsbaoter.Common.Run.{Run}
use newsbaoter.Screen.{View}
use newsbaoter.Screen.InRange.{InRange}

-- the static variables before anything is drawn
abbrev AtZero : View → Type 0
AtZero v = (v.cursor_i ≡ 0) × (v.content_bw_max ≡ 0) × (v.backup_cursor_i ≡ 0)
