-- ===== src/Views/Moves.antt =====
-- src/ui/view.c: the moves of the cursor within a page.
use newsbaoter.Common.{
  ℕ, ◌+◌, ◌-◌, ◌*◌, ◌/◌, ◌<◌, ◌≡◌, refl, sym, ◌∙◌, ap, subst, true, false, List, length, leb, ltb,
  arith,
}
use newsbaoter.Common.Run.{Returns, Returns->>=, ◌>>=◌}
use newsbaoter.Common.Int.{ℤ}
use newsbaoter.Lines.{Locale}
use newsbaoter.Window.{Shows}
use newsbaoter.Screen.InRange.{InRange, restyle-InRange}
use newsbaoter.Views.Cursor.{move_to-InRange, next_item-InRange}
use newsbaoter.Screen.{View, Answer, stay, print_crop, restyle_focus_item}
use newsbaoter.Views.{refocus, move_to, low_item, mid_item, high_item, next_item, prev_item}

-- the same but for the memory of the lines
pub record Redrawn (v v' : View) : Type 0 where
  pub cursor : v'.cursor_i ≡ v.cursor_i
  pub last : v'.content_bw_max ≡ v.content_bw_max
  pub backup : v'.backup_cursor_i ≡ v.backup_cursor_i
  pub page : v'.win.page ≡ v.win.page

line_room : (i n len : ℕ) → i < n → i * (len + 1) + len < n * (len + 1)
line_room i n len h = grind arith

-- the answer `stay`, with the cursor at a row of the list
abbrev pub StaysAt : ℕ → Answer × View → Type 0
StaysAt i r = (r.0 ≡ stay) × (r.1.cursor_i ≡ i)

module _ (height width : ℕ) where
  print_crop-Returns :
      (mem : List ℕ) (at max : ℕ)
      → at + max < length mem
      → Returns (print_crop mem at max) (λ r. Unit {0})
  unfolding print_crop
  print_crop-Returns mem at max h =
      let inside : leb (length mem) (at + max) ≡ false = ground (arith, h) in
      rw inside (_, refl, tt)

  restyled : (v : View) → InRange height width v → Returns (restyle_focus_item v) (Redrawn v)
  unfolding restyle_focus_item
  restyled v h =
      let there : leb v.win.body_len v.cursor_i ≡ false = ground (arith, h.cursor, h.tall) in
      let size : length v.win.body ≡ height * (v.win.width + 1) =
        h.places ∙ ap (λ n. height * (n + 1)) (sym h.wide) in
      let room : v.cursor_i * (v.win.width + 1) + v.win.width < length v.win.body =
        omega (arith, size, line_room v.cursor_i height v.win.width h.cursor) in
      rw there (
        Returns->>= _ _
          (print_crop-Returns v.win.body (v.cursor_i * (v.win.width + 1)) v.win.width room)
          λ r u. (_, refl, record { cursor = refl; last = refl; backup = refl; page = refl }))

  restyle-Returns :
      (v : View)
      → InRange height width v
      → Returns (restyle_focus_item v) (λ u. Redrawn v u × InRange height width u)
  restyle-Returns v h =
      let (u, e, r) = restyled v h in (u, e, (r, (restyle-InRange height width v h).of_value u e))

  refocus-Returns :
      (move : View → ℕ) (v : View) (i : ℕ)
      → InRange height width v
      → i < height
      → ((u : View) → Redrawn v u → move u ≡ i)
      → Returns (refocus (λ u. move_to (move u) u) stay v) (StaysAt i)
  refocus-Returns move v i h k at = Returns->>= _ _ (restyle-Returns v h) λ v1 d.
      Returns->>= _ _
        (restyle-Returns (move_to (move v1) v1)
          (move_to-InRange height width v1 (move v1) d.1 (omega (arith, k, at v1 d.0))))
        λ v2 d2. (_, refl, (refl, d2.0.cursor ∙ at v1 d.0))

  module _ (locale : Locale) (day : ℤ → List ℕ) (stale : List ℕ) (shows : Shows) (v : View)
      (h : InRange height width v) where
    stepped :
        v.cursor_i < v.content_bw_max
        → Returns (next_item locale day stale shows v) (StaysAt (v.cursor_i + 1))
    unfolding next_item
    stepped k = Returns->>= _ _ (restyle-Returns v h) λ v1 d.
        let before : ltb v1.cursor_i v1.content_bw_max ≡ true =
          ground (arith, k, d.0.cursor, d.0.last) in
        rw before (
          Returns->>= _ _
            (restyle-Returns (move_to (v1.cursor_i + 1) v1) (
              move_to-InRange height width v1 (v1.cursor_i + 1) d.1
                (omega (arith, k, d.0.cursor, h.last))))
            λ v2 d2. (_, refl, (refl, d2.0.cursor ∙ ap (λ n. n + 1) d.0.cursor)))

    stepped_back :
        0 < v.cursor_i → Returns (prev_item locale day stale shows v) (StaysAt (v.cursor_i - 1))
    unfolding prev_item
    stepped_back k = Returns->>= _ _ (restyle-Returns v h) λ v1 d.
        let behind : ltb 0 v1.cursor_i ≡ true = ground (arith, k, d.0.cursor) in
        rw behind (
          Returns->>= _ _
            (restyle-Returns (move_to (v1.cursor_i - 1) v1) (
              move_to-InRange height width v1 (v1.cursor_i - 1) d.1
                (omega (arith, d.0.cursor, h.cursor))))
            λ v2 d2. (_, refl, (refl, d2.0.cursor ∙ ap (λ n. n - 1) d.0.cursor)))

  -- With the cursor in the list and before the last row with text: next_item comes back with the cursor
  -- one further, and prev_item after it comes back with the cursor where it was.
  pub next_item-prev_item :
      (locale : Locale) (day : ℤ → List ℕ) (stale : List ℕ) (shows : Shows) (v : View)
      → InRange height width v
      → v.cursor_i < v.content_bw_max
      → Returns (next_item locale day stale shows v) (StaysAt (v.cursor_i + 1))
        × Returns
            (next_item locale day stale shows v >>= λ r. prev_item locale day stale shows r.1)
            (StaysAt v.cursor_i)
  next_item-prev_item locale day stale shows v h k = (
    stepped locale day stale shows v h k,
    Returns->>= _ _ forward λ r s.
        subst (λ i. Returns (prev_item locale day stale shows r.1) (StaysAt i))
          (omega (arith, s.0.1))
          (stepped_back locale day stale shows r.1 s.1 (omega (arith, s.0.1))),
  )
    where
      forward :
          Returns
            (next_item locale day stale shows v)
            (λ r. StaysAt (v.cursor_i + 1) r × InRange height width r.1)
      forward =
          let (r, e, s) = stepped locale day stale shows v h k in
          (r, e, (s, (next_item-InRange height width locale day stale shows v h).of_value r e))

  -- With the cursor and the last row with text in the list: low_item, mid_item and high_item come back
  -- with the cursor at the last row with text, at half of its number, and at the first row.
  pub low_item-mid_item-high_item :
      (v : View)
      → InRange height width v
      → Returns (low_item v) (StaysAt v.content_bw_max)
        × Returns (mid_item v) (StaysAt (v.content_bw_max / 2))
        × Returns (high_item v) (StaysAt 0)
  unfolding low_item mid_item high_item
  low_item-mid_item-high_item v h = (
    refocus-Returns (λ u. u.content_bw_max) v v.content_bw_max h h.last (λ u d. d.last),
    refocus-Returns (λ u. u.content_bw_max / 2) v (v.content_bw_max / 2) h (omega (arith, h.last))
        (λ u d. ap (λ n. n / 2) d.last),
    refocus-Returns (λ u. 0) v 0 h (omega (arith, h.cursor)) (λ u d. refl),
  )
