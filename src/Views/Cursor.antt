-- ===== src/Views/Cursor.antt =====
-- src/ui/view.c: the invariant of the view, for the handlers that move the cursor.
use newsbaoter.Common.{
  ℕ, zero, suc, ◌+◌, ◌-◌, ◌/◌, ◌≤◌, ◌<◌, ◌≡◌, refl, ◌∙◌, ap, Bool, true, false, Bool-cases, inl,
  inr, Option, none, some, List, Bytes, length, get_elem?, ltb, ◌==◌, if◌then◌else◌, arith,
}
use mathlib.Core.Option.{some-injective}
use newsbaoter.Common.Run.{Run, fault, out_of_bounds, Safe, Safe-ok, Safe-fault, Safe-if, Safe->>=}
use newsbaoter.Common.Int.{ℤ}
use newsbaoter.Cache.{Db}
use newsbaoter.Lines.{Locale, Row}
use newsbaoter.Window.{Shows, Context}
use newsbaoter.Window.Sizes.{cache_gen_lines-SameView}
use newsbaoter.Screen.InRange.{InRange, restyle-InRange}
use newsbaoter.Screen.{View, Answer, stay}
use newsbaoter.Views.{
  turned, refocus, next_page, move_to, last_unread, is_zero, low_item, mid_item, high_item,
  request_list_update, step_next, step_prev, step_unread, next_item, prev_item, next_unread_item,
}

AllBelow : ℕ → Option ℕ → Type 0
AllBelow n o = (j : ℕ) → o ≡ some j → j < n

marked :
    (n i : ℕ) (found : Option ℕ) (b : Bool)
    → i < n
    → AllBelow n found
    → AllBelow n (if b then found else some i)
unfolding AllBelow
marked n i found true h k = k
marked n i found false h k = λ j e. omega (arith, some-injective i j e, h)

last_unread-AllBelow :
    (lv : List Row) (rounds i : ℕ) (found : Option ℕ) (n : ℕ)
    → i + rounds ≤ n
    → AllBelow n found
    → Safe (last_unread lv rounds i found) (AllBelow n)
unfolding last_unread
last_unread-AllBelow lv zero i found n h k = Safe-ok _ _ k
last_unread-AllBelow lv (suc rounds) i found n h k =
    elim (get_elem? lv i)
      as (λ o.
        Safe
          (elim o as (λ x. Run (Option ℕ)) [
            | none ↦ fault out_of_bounds
            | some r ↦ last_unread lv rounds (i + 1) (if is_zero r.unread then found else some i)
          ])
          (AllBelow n)) [
            | none ↦ Safe-fault _ _ refl
            | some r ↦
                last_unread-AllBelow lv rounds (i + 1) _ n (omega (arith, h))
                  (marked n i found (is_zero r.unread) (omega (arith, h)) k)
          ]

lt_of_ltb : {a b : ℕ} → ltb a b ≡ true → a < b
lt_of_ltb h = ground arith

module _ (height width : ℕ) where
  pub move_to-InRange :
      (v : View) (i : ℕ) → InRange height width v → i < height → InRange height width (move_to i v)
  move_to-InRange v i h k = record {
    tall = h.tall;
    wide = h.wide;
    foot = h.foot;
    rows = h.rows;
    places = h.places;
    head = h.head;
    cursor = k;
    last = h.last;
    backup = h.backup;
  }

  refocus-InRange :
      (move : View → View) (answer : Answer) (v : View)
      → InRange height width v
      → ((u : View) → InRange height width u → InRange height width (move u))
      → Safe (refocus move answer v) (λ r. InRange height width r.1)
  refocus-InRange move answer v h k = Safe->>= _ _ (restyle-InRange height width v h) λ v1 h1.
      Safe->>= _ _ (restyle-InRange height width (move v1) (k v1 h1)) λ v2 h2. Safe-ok _ _ h2

  pub low_item-InRange :
      (v : View) → InRange height width v → Safe (low_item v) (λ r. InRange height width r.1)
  unfolding low_item
  low_item-InRange v h =
      refocus-InRange _ stay v h (λ u k. move_to-InRange u u.content_bw_max k k.last)

  pub mid_item-InRange :
      (v : View) → InRange height width v → Safe (mid_item v) (λ r. InRange height width r.1)
  unfolding mid_item
  mid_item-InRange v h =
      refocus-InRange _ stay v h
        (λ u k. move_to-InRange u (u.content_bw_max / 2) k (omega (arith, k.last)))

  pub high_item-InRange :
      (v : View) → InRange height width v → Safe (high_item v) (λ r. InRange height width r.1)
  unfolding high_item
  high_item-InRange v h =
      refocus-InRange _ stay v h (λ u k. move_to-InRange u 0 k (omega (arith, k.last)))

  -- Another page, context or database, and other rows of the cursor, leave the sizes.
  pub at_page :
      (v : View) (cursor backup page page' id : ℕ) (ctx : Context) (db : Db)
      → InRange height width v
      → cursor < height
      → backup < height
      → InRange height width (record v {
        cursor_i = cursor;
        backup_cursor_i = backup;
        backup_page_num = page';
        win = record v.win { page = page; ctx_type = ctx; ctx_id = id; db = db };
      })
  at_page v cursor backup page page' id ctx db h k l = record {
    tall = h.tall;
    wide = h.wide;
    foot = h.foot;
    rows = h.rows;
    places = h.places;
    head = h.head;
    cursor = k;
    last = h.last;
    backup = l;
  }

  turned-InRange :
      (b : Bool) (u : View) → InRange height width u → InRange height width (turned b u).1
  turned-InRange true u k = k
  turned-InRange false u k =
      at_page u u.content_bw_max u.backup_cursor_i (u.win.page - 1) u.backup_page_num u.win.ctx_id
        u.win.ctx_type u.win.db k k.last k.backup

  module _ (locale : Locale) (day : ℤ → Bytes) (stale : Bytes) (shows : Shows) where
    pub request-InRange :
        (v : View)
        → InRange height width v
        → Safe (request_list_update locale day stale shows v) (λ r. InRange height width r.1)
    unfolding request_list_update
    request-InRange v h =
        Safe->>= _ _ (cache_gen_lines-SameView locale day stale shows v.win) λ r s.
          Safe-ok _ _ (record {
            tall = s.same_height ∙ h.tall;
            wide = s.same_width ∙ h.wide;
            rows = s.rows ∙ h.rows;
            places = s.places ∙ h.places;
            head = s.head ∙ h.head;
            foot = ap length s.same_footer ∙ h.foot;
            cursor = h.cursor;
            last = h.last;
            backup = h.backup;
          })

    next_page-InRange :
        (v : View)
        → InRange height width v
        → Safe (next_page locale day stale shows v) (λ r. InRange height width r.1)
    next_page-InRange v h =
        Safe->>= _ _
          (request-InRange _ (
            at_page v 0 v.backup_cursor_i (v.win.page + 1) v.backup_page_num v.win.ctx_id
              v.win.ctx_type v.win.db h (omega (arith, h.cursor)) h.backup))
          λ r k. Safe-ok _ _ (turned-InRange (r.0 == 0) r.1 k)

    step_next-InRange :
        (v : View)
        → InRange height width v
        → Safe (step_next locale day stale shows v) (λ r. InRange height width r.1)
    step_next-InRange v h = elim (Bool-cases (ltb v.cursor_i v.content_bw_max)) [
      | inl before ↦ rw before (
          Safe-ok _ _
            (move_to-InRange v (v.cursor_i + 1) h (omega (arith, h.last, lt_of_ltb before))))
      | inr there ↦ rw there (
          Safe-if (v.content_bw_max + 1 == v.win.body_len) _ _ (next_page-InRange v h)
            (Safe-ok _ _ h))
    ]

    pub next_item-InRange :
        (v : View)
        → InRange height width v
        → Safe (next_item locale day stale shows v) (λ r. InRange height width r.1)
    unfolding next_item
    next_item-InRange v h = Safe->>= _ _ (restyle-InRange height width v h) λ v1 h1.
        Safe->>= _ _ (step_next-InRange v1 h1)
          λ r h2. Safe->>= _ _ (restyle-InRange height width r.1 h2) λ v2 h3. Safe-ok _ _ h3

    step_unread-InRange :
        (o : Option ℕ) (v : View)
        → InRange height width v
        → AllBelow height o
        → Safe (step_unread locale day stale shows o v) (InRange height width)
    unfolding AllBelow
    step_unread-InRange none v h k = Safe->>= _ _ (request-InRange v h) λ r l. Safe-ok _ _ l
    step_unread-InRange (some i) v h k = Safe-ok _ _ (move_to-InRange v i h (k i refl))

    pub next_unread_item-InRange :
        (v : View)
        → InRange height width v
        → Safe (next_unread_item locale day stale shows v) (λ r. InRange height width r.1)
    unfolding next_unread_item AllBelow
    next_unread_item-InRange v h = Safe->>= _ _ (restyle-InRange height width v h) λ v1 h1.
        Safe->>= _ _
          (last_unread-AllBelow v1.win.lv (v1.content_bw_max + 1 - v1.cursor_i) v1.cursor_i none
            height (omega (arith, h1.last, h1.cursor)) (λ j e. cc))
          λ o b.
            Safe->>= _ _ (step_unread-InRange o v1 h1 b)
              λ v2 h2. Safe->>= _ _ (restyle-InRange height width v2 h2) λ v3 h3. Safe-ok _ _ h3

    step_prev-InRange :
        (v : View)
        → InRange height width v
        → Safe (step_prev locale day stale shows v) (λ r. InRange height width r.1)
    step_prev-InRange v h =
        Safe-if (ltb 0 v.cursor_i) _ _
          (Safe-ok _ _ (move_to-InRange v (v.cursor_i - 1) h (omega (arith, h.cursor))))
          (Safe-if (ltb 0 v.win.page) _ _
            (Safe->>= _ _
              (request-InRange _ (
                at_page v (v.win.body_len - 1) v.backup_cursor_i (v.win.page - 1) v.backup_page_num
                  v.win.ctx_id v.win.ctx_type v.win.db h (omega (arith, h.cursor, h.tall))
                  h.backup))
              λ r k. Safe-ok _ _ k)
            (Safe-ok _ _ h))

    pub prev_item-InRange :
        (v : View)
        → InRange height width v
        → Safe (prev_item locale day stale shows v) (λ r. InRange height width r.1)
    unfolding prev_item
    prev_item-InRange v h = Safe->>= _ _ (restyle-InRange height width v h) λ v1 h1.
        Safe->>= _ _ (step_prev-InRange v1 h1)
          λ r h2. Safe->>= _ _ (restyle-InRange height width r.1 h2) λ v2 h3. Safe-ok _ _ h3
