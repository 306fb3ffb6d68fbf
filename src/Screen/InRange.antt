-- ===== src/Screen/InRange.antt =====
-- src/ui/view.c: the invariant of the view: the cursor, the last row with text and the saved cursor name
-- rows of the list, and the memory has the size of the list.
use newsbaoter.Common.{
  ℕ, ◌+◌, ◌-◌, ◌*◌, ◌<◌, ◌≡◌, refl, ◌∙◌, ap, Bool, true, false, ◌&&◌, List, length, leb, ltb, ◌==◌,
  if◌then◌else◌, arith,
}
use newsbaoter.Common.Run.{Safe, Safe-ok, Safe-fault, Safe-unless, Safe-if, Safe->>=}
use newsbaoter.Lines.Sizes.{length-clear_lines}
use newsbaoter.Screen.Crop.{length-print_crop, length-realloc, draw_rows-kept}
use newsbaoter.Window.{Window}
use newsbaoter.Screen.{
  View, World, restyle_focus_item, titl_width, draw_view, regen_windows, resized, resize_mainwindow,
}

module _ (height width : ℕ) where
  pub record InRange (v : View) : Type 0 where
    pub tall : v.win.body_len ≡ height
    pub wide : v.win.width ≡ width
    pub rows : length v.win.lv ≡ height
    pub places : length v.win.body ≡ height * (width + 1)
    pub head : length v.win.header ≡ width + 1
    pub foot : length v.win.footer ≡ width + 1
    pub cursor : v.cursor_i < height
    pub last : v.content_bw_max < height
    pub backup : v.backup_cursor_i < height

  -- the part of it that is about the memory
  pub record IsSized (w : Window) : Type 0 where
    pub tall : w.body_len ≡ height
    pub wide : w.width ≡ width
    pub rows : length w.lv ≡ height
    pub places : length w.body ≡ height * (width + 1)
    pub head : length w.header ≡ width + 1
    pub foot : length w.footer ≡ width + 1

  pub with_window :
      (v : View) (w : Window)
      → IsSized w
      → v.cursor_i < height
      → v.content_bw_max < height
      → v.backup_cursor_i < height
      → InRange (record v { win = w })
  with_window v w s c l b = record {
    tall = s.tall;
    wide = s.wide;
    rows = s.rows;
    places = s.places;
    head = s.head;
    foot = s.foot;
    cursor = c;
    last = l;
    backup = b;
  }

  -- another body of the same size
  with_body : View → List ℕ → View
  with_body v b = record v { win = record v.win { body = b } }

  with_body-InRange :
      (v : View) (b : List ℕ) → length b ≡ length v.win.body → InRange v → InRange (with_body v b)
  unfolding with_body
  with_body-InRange v b e h = record {
    tall = h.tall;
    wide = h.wide;
    foot = h.foot;
    rows = h.rows;
    places = e ∙ h.places;
    head = h.head;
    cursor = h.cursor;
    last = h.last;
    backup = h.backup;
  }

  there : (v : View) → InRange v → leb v.win.body_len v.cursor_i ≡ false
  there v h = ground (arith, h.tall, h.cursor)

  pub restyle-InRange : (v : View) → InRange v → Safe (restyle_focus_item v) InRange
  unfolding restyle_focus_item with_body
  restyle-InRange v h = Safe-unless (leb v.win.body_len v.cursor_i) _ _ (there v h) (
      Safe->>= _ _ (length-print_crop v.win.body (v.cursor_i * (v.win.width + 1)) v.win.width)
        λ r e. Safe-ok _ _ (with_body-InRange v r.1 e h))

  pub draw_view-InRange : (v : View) → InRange v → Safe (draw_view v) (InRange)
  unfolding draw_view
  draw_view-InRange v h = Safe-if (ltb v.win.width titl_width) _ _ (Safe-fault _ _ refl) (
      Safe->>= _ _ (length-print_crop v.win.header 0 (v.win.width - titl_width)) λ hd e.
        Safe->>= _ _ (length-print_crop v.win.footer 0 v.win.width) λ ft f.
          Safe->>= _ _
            (draw_rows-kept v.win.width v.win.body_len 0 height v.win.body v.content_bw_max h.last
              (omega (arith, h.tall)))
            λ d l. Safe-ok _ _ (record {
              tall = h.tall;
              wide = h.wide;
              rows = h.rows;
              places = l.0 ∙ h.places;
              head = e ∙ h.head;
              foot = f ∙ h.foot;
              cursor = h.cursor;
              last = l.1;
              backup = h.backup;
            }))

  first_or : (b : Bool) (i : ℕ) → i < height → (if b then 0 else i) < height
  first_or true i h = omega (arith, h)
  first_or false i h = h

  module _ (world : World) (same_lines : world.lines - 2 ≡ height)
      (same_cols : world.cols ≡ width) where
    kept :
        (v : View)
        → InRange v
        → leb (world.lines - 2) (if ltb (world.lines - 2) v.win.body_len then 0 else v.cursor_i)
          ≡ false
    kept v h =
        ground
          (arith, same_lines, first_or (ltb (world.lines - 2) v.win.body_len) v.cursor_i h.cursor)

    regen_windows-InRange :
        (v : View) → InRange v → Safe (regen_windows (world.lines - 2) v) (InRange)
    unfolding regen_windows
    regen_windows-InRange v h = Safe-unless (leb (world.lines - 2) _) _ _ (kept v h) (
        Safe-ok _ _ (record {
          tall = h.tall;
          wide = h.wide;
          rows = h.rows;
          places = h.places;
          head = h.head;
          foot = h.foot;
          cursor = first_or (ltb (world.lines - 2) v.win.body_len) v.cursor_i h.cursor;
          last = h.last;
          backup = h.backup;
        }))

    pub resized-IsSized :
        (w : Window)
        → Safe (resized world.junk world.junk_row (world.lines - 2) world.cols w) IsSized
    resized-IsSized w = Safe->>= _ _ (length-clear_lines world.cols (world.lines - 2) 0 _) λ b e.
        Safe-ok _ _ (record {
          tall = same_lines;
          wide = same_cols;
          rows = length-realloc world.junk_row (world.lines - 2) w.lv ∙ same_lines;
          places =
              e
              ∙ length-realloc world.junk ((world.lines - 2) * (world.cols + 1)) w.body
              ∙ ap (λ n. n * (world.cols + 1)) same_lines
              ∙ ap (λ n. height * (n + 1)) same_cols;
          head = length-realloc world.junk (world.cols + 1) w.header ∙ ap (λ n. n + 1) same_cols;
          foot = length-realloc world.junk (world.cols + 1) w.footer ∙ ap (λ n. n + 1) same_cols;
        })

    pub resize_mainwindow-InRange :
        (v : View)
        → InRange v
        → Safe (resize_mainwindow world.junk world.junk_row world.lines world.cols v) (InRange)
    unfolding resize_mainwindow
    resize_mainwindow-InRange v h =
        Safe->>= _ _
          (Safe-if (v.win.width == world.cols && v.win.body_len == world.lines - 2) _ _
            (Safe-ok _ _ h) (regen_windows-InRange v h))
          λ v1 h1.
            Safe->>= _ _ (resized-IsSized v1.win)
              λ w s. Safe-ok _ _ (with_window v1 w s h1.cursor h1.last h1.backup)
