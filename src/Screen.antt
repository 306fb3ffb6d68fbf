-- ===== src/Screen.antt =====
-- src/ui/view.c: what is drawn, and the new size of the terminal. What curses draws is not kept, but the
-- changes that drawing makes to the memory of the lines are. A window of a row that is not there is a
-- fault.
pub mod Crop
pub mod InRange
use newsbaoter.Common.{
  ℕ, zero, suc, ◌+◌, ◌-◌, ◌*◌, Bool, false, not, ◌&&◌, none, some, List, [], ◌∷◌, ◌++◌, Bytes,
  length, get_elem?, get_or, replicate, overwrite, ltb, leb, ◌==◌, if◌then◌else◌,
}
use newsbaoter.Common.Run.{Run, ok, fault, out_of_bounds, no_row, ◌>>=◌}
use newsbaoter.Common.Int.{ℤ}
use newsbaoter.Cache.{Db}
use newsbaoter.Lines.{Row, clear_lines}
use newsbaoter.Window.{Window}

-- a window and the static variables of src/ui/view.c
pub record View : Type 0 where
  pub win : Window
  pub cursor_i : ℕ
  pub content_bw_max : ℕ
  pub backup_cursor_i : ℕ
  pub backup_page_num : ℕ
  pub newsize : Bool

-- `enum hk_ret`, what a handler returns
pub data Answer : Type 0 where
  no_handler : Answer
  stay : Answer
  leave : Answer
  update : Answer

-- The loops of `print_crop`, by the rounds left: behind the blanks at the front, and to the end.
unfoldable pub skip_spaces : List ℕ → ℕ → ℕ → ℕ
skip_spaces str zero i = i
skip_spaces str (suc rounds) i =
    if get_or str i 0 == b' ' then skip_spaces str rounds (i + 1) else i

unfoldable pub find_end : List ℕ → ℕ → ℕ → ℕ
find_end str zero i = i
find_end str (suc rounds) i = if get_or str i 0 == 0 then i else find_end str rounds (i + 1)

-- `print_crop`, on the line at an address: whether it has text, and the memory
unfoldable pub print_crop : List ℕ → ℕ → ℕ → Run (Bool × List ℕ)
unfolding skip_spaces find_end
print_crop mem at max =
    let i = skip_spaces mem max at in
    let end = find_end mem (at + max - i) i in
    if leb (length mem) (at + max)
    then fault out_of_bounds
    else ok (
      not (get_or mem at 0 == 0) && not (i == at + max),
      overwrite mem end (replicate (at + max - end) b' ' ++ 0 ∷ []),
    )

-- `restyle_focus_item`; the arrays `list_w` and `lv` have `body_len` elements
unfoldable pub restyle_focus_item : View → Run View
unfolding print_crop
restyle_focus_item v =
    if leb v.win.body_len v.cursor_i
    then fault no_row
    else (print_crop v.win.body (v.cursor_i * (v.win.width + 1)) v.win.width >>= λ r.
        ok (record v { win = record v.win { body = r.1 } }))

-- `mw->data.lv[cursor_i]`
abbrev pub at_cursor : View → Run Row
at_cursor v = elim (get_elem? v.win.lv v.cursor_i) [ none ↦ fault no_row | some r ↦ ok r ]

-- The loop of `update_view` over the rows, by the rows left: the memory, and the last row with text.
unfoldable pub draw_rows : ℕ → ℕ → ℕ → List ℕ → ℕ → Run (List ℕ × ℕ)
unfolding print_crop
draw_rows width zero i body last = ok (body, last)
draw_rows width (suc rounds) i body last = print_crop body (i * (width + 1)) width >>= λ r.
    draw_rows width rounds (i + 1) r.1 (if r.0 then i else last)

abbrev pub titl_width : ℕ
titl_width = 18

-- what `update_view` draws; a width below 0 for the title is a fault
unfoldable pub draw_view : View → Run View
unfolding print_crop draw_rows
draw_view v =
    if ltb v.win.width titl_width
    then fault out_of_bounds
    else (print_crop v.win.header 0 (v.win.width - titl_width) >>= λ h.
        print_crop v.win.footer 0 v.win.width >>= λ f.
        draw_rows v.win.width v.win.body_len 0 v.win.body v.content_bw_max >>= λ d. ok (record v {
          win = record v.win { header = h.1; footer = f.1; body = d.0; beep_request = false };
          content_bw_max = d.1;
        }))

-- `realloc`: new places hold anything
unfoldable pub realloc {ℓ} : {A : Type ℓ} → (ℕ → A) → ℕ → List A → List A
realloc junk zero xs = []
realloc junk (suc n) [] = junk n ∷ realloc junk n []
realloc junk (suc n) (x ∷ xs) = x ∷ realloc junk n xs

-- `regen_windows`, for a number of rows of the body
unfoldable pub regen_windows : ℕ → View → Run View
regen_windows height v =
    let cursor = if ltb height v.win.body_len then 0 else v.cursor_i in
    if leb height cursor then fault no_row else ok (record v { cursor_i = cursor })

module _ (junk : ℕ → ℕ) (junk_row : ℕ → Row) where
  -- the new memory of `resize_mainwindow`
  abbrev pub resized : ℕ → ℕ → Window → Run Window
  resized height width w =
      clear_lines width height 0 (realloc junk (height * (width + 1)) w.body) >>= λ body.
      ok (record w {
        body_len = height;
        width = width;
        header = realloc junk (width + 1) w.header;
        footer = realloc junk (width + 1) w.footer;
        lv = realloc junk_row height w.lv;
        body = body;
      })

  -- `resize_mainwindow` on a terminal of `lines` rows and `cols` columns
  unfoldable pub resize_mainwindow : ℕ → ℕ → View → Run View
  unfolding regen_windows realloc
  resize_mainwindow lines cols v =
      let height = lines - 2 in
      (if v.win.width == cols && v.win.body_len == height then ok v else regen_windows height v)
      >>= λ v1. resized height cols v1.win >>= λ w. ok (record v1 { win = w })

-- What is outside: the terminal, fresh memory, the options, `datetime` of SQLite, and `handle_urls`, with
-- its result and the tables after it.
pub record World : Type 0 where
  pub lines : ℕ
  pub cols : ℕ
  pub junk : ℕ → ℕ
  pub junk_row : ℕ → Row
  pub html_pager : Bool
  pub notify_beep : Bool
  pub confirm_exit : Bool
  pub datetime : ℤ → Bytes
  pub fetch : Db → ℤ × Db
