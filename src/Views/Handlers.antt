-- ===== src/Views/Handlers.antt =====
-- src/ui/view.c: the invariant of the view, for each handler and for a key.
use newsbaoter.Common.{ℕ, ◌-◌, ◌≡◌, Bool, false, Bytes}
use newsbaoter.Common.Run.{Run, Safe, Safe-ok, Safe-if, Safe->>=}
use newsbaoter.Common.Int.{ℤ, pos, negsuc}
use newsbaoter.Cache.{Db}
use newsbaoter.Lines.{Locale}
use newsbaoter.Window.{Shows}
use newsbaoter.Views.Cursor.{at_page, request-InRange}
use newsbaoter.Screen.InRange.{InRange, draw_view-InRange, resize_mainwindow-InRange}
use newsbaoter.Screen.{View, World}
use newsbaoter.Views.{refreshed, update_view, request_list_update, change_db}

module _ (height width : ℕ) where
  change_db-InRange :
      (f : Db → Db) (v : View) → InRange height width v → InRange height width (change_db f v)
  change_db-InRange f v h =
      at_page height width v v.cursor_i v.backup_cursor_i v.win.page v.backup_page_num v.win.ctx_id
        v.win.ctx_type _ h h.cursor h.backup

  module _ (locale : Locale) (day : ℤ → Bytes) (stale : Bytes) (shows : Shows) where
    request :
        (v : View)
        → InRange height width v
        → Safe (request_list_update locale day stale shows v) (λ r. InRange height width r.1)
    request = request-InRange height width locale day stale shows

    module _ (world : World) (same_lines : world.lines - 2 ≡ height)
        (same_cols : world.cols ≡ width) where
      marked_size :
          (v : View) (b : Bool)
          → InRange height width v
          → InRange height width (record v { newsize = b })
      marked_size v b h = record {
        tall = h.tall;
        wide = h.wide;
        rows = h.rows;
        places = h.places;
        head = h.head;
        foot = h.foot;
        cursor = h.cursor;
        last = h.last;
        backup = h.backup;
      }

      pub update_view-InRange :
          (v : View)
          → InRange height width v
          → Safe (update_view locale day stale shows world v) (InRange height width)
      unfolding update_view
      update_view-InRange v h =
          Safe->>= _ _
            (Safe-if v.newsize _ _
              (Safe->>= _ _ (resize_mainwindow-InRange height width world same_lines same_cols v h)
                λ v1 h1. Safe->>= _ _ (request _ (marked_size v1 false h1)) λ r k. Safe-ok _ _ k)
              (Safe-ok _ _ h))
            (draw_view-InRange height width)

      pub refreshed-InRange :
          (v : View) (r : ℤ × Db)
          → InRange height width v
          → Safe (refreshed locale day stale shows world v r) (λ x. InRange height width x.1)
      refreshed-InRange v (negsuc n, db') h = Safe-ok _ _ (change_db-InRange (λ db. db') v h)
      refreshed-InRange v (pos n, db') h =
          Safe->>= _ _ (request _ (beeping v _ db' h))
            λ r k. Safe->>= _ _ (update_view-InRange r.1 k) λ v1 h1. Safe-ok _ _ h1
        where
          beeping :
              (v : View) (b : Bool) (db : Db)
              → InRange height width v
              → InRange height width (record v { win = record v.win { beep_request = b; db = db } })
          beeping v b db h = record {
            tall = h.tall;
            wide = h.wide;
            rows = h.rows;
            places = h.places;
            head = h.head;
            foot = h.foot;
            cursor = h.cursor;
            last = h.last;
            backup = h.backup;
          }
