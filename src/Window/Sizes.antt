-- ===== src/Window/Sizes.antt =====
-- src/sql/viewio.c: what an update of the lines leaves as it is.
use newsbaoter.Common.{
  ℕ, ◌*◌, ◌≡◌, refl, ◌∙◌, Option, none, some, List, ◌++◌, Bytes, codes, length, ◌==◌,
}
use newsbaoter.Common.Run.{
  Run, ok, fault, null_pointer, Safe, Safe-ok, Safe-fault, Safe-map, Safe-if, Safe->>=,
}
use newsbaoter.Common.Int.{ℤ}
use newsbaoter.Cache.{Text, Feed}
use newsbaoter.Cache.Table.{select}
use newsbaoter.Lines.Query.{unread_row, FeedRow}
use newsbaoter.Lines.Format.{cut}
use newsbaoter.Lines.{
  Locale, Cells, feed_line_cb, entry_line_cb, finish_lines, write_feed_line, write_entry_line,
}
use newsbaoter.Lines.Sizes.{
  SameSize, SameSize-trans, length-chars_to_widechars, feed_line_cb-SameSize,
  entry_line_cb-SameSize, each_row-SameSize, finish_lines-SameSize,
}
use newsbaoter.Window.{
  put_lines, gen_lines, head_text, feed_head, Window, Shows, Context, null, feeds, entries, entry,
  set_title_string, cache_gen_lines,
}

-- what an update of the lines leaves as it is
pub record SameView (w w' : Window) : Type 0 where
  pub rows : length w'.lv ≡ length w.lv
  pub places : length w'.body ≡ length w.body
  pub head : length w'.header ≡ length w.header
  pub same_footer : w'.footer ≡ w.footer
  pub same_height : w'.body_len ≡ w.body_len
  pub same_width : w'.width ≡ w.width
  pub same_page : w'.page ≡ w.page
  pub same_ctx : w'.ctx_type ≡ w.ctx_type
  pub same_id : w'.ctx_id ≡ w.ctx_id
  pub same_db : w'.db ≡ w.db

module _ (locale : Locale) (day : ℤ → Bytes) (stale : Bytes) (shows : Shows) where
  finished :
      (w : Window) (c c1 : Cells)
      → SameSize c c1
      → Safe {R = ℕ × Cells} (finish_lines w.width w.body_len c1) (λ r. SameSize c r.1)
  finished w c c1 s =
      Safe-map (finish_lines-SameSize w.width w.body_len c1) λ r k. SameSize-trans c c1 r.1 s k

  abbrev cells : Window → Cells
  cells w = record { lv = w.lv; body = w.body; ind = 0 }

  write_feed_line-SameSize :
      (w : Window) (start : ℕ)
      → Safe
          (write_feed_line locale shows.show_read_feeds w.body_len w.width start w.db w.lv w.body)
          (λ r. SameSize (cells w) r.1)
  unfolding write_feed_line
  write_feed_line-SameSize w start =
      let one = feed_line_cb-SameSize locale w.width in
      let all = λ (rs : List FeedRow) (c : Cells).
        each_row-SameSize (feed_line_cb locale w.width) rs c one in
      Safe-if (start == 0) _ _
        (Safe->>= _ _ (one (unread_row w.db) (cells w))
          λ c1 s1. Safe->>= _ _ (all _ c1) λ c2 s2. finished w _ c2 (SameSize-trans _ c1 c2 s1 s2))
        (Safe->>= _ _ (all _ (cells w)) λ c1 s1. finished w _ c1 s1)

  write_entry_line-SameSize :
      (w : Window) (start : ℕ)
      → Safe
          (write_entry_line locale day shows.show_read_entries w.body_len w.width w.ctx_id start
            w.db w.lv w.body)
          (λ r. SameSize (cells w) r.1)
  unfolding write_entry_line
  write_entry_line-SameSize w start =
      Safe->>= _ _
        (each_row-SameSize (entry_line_cb locale day w.width) _ (cells w)
          (entry_line_cb-SameSize locale w.width day))
        (λ c s. finished w _ c s)

  title-Safe :
      (t : Text)
      → Safe
          (elim t as (λ x. Run Bytes) [ none ↦ fault null_pointer | some s ↦ ok (cut 256 s) ])
          (λ r. Unit {0})
  title-Safe none = Safe-fault _ _ refl
  title-Safe (some t) = Safe-ok _ _ tt

  feed_head-Safe : (o : Option Feed) → Safe (feed_head stale o) (λ r. Unit {0})
  feed_head-Safe none = Safe-ok _ _ tt
  feed_head-Safe (some f) = title-Safe f.title

  head_text-Safe :
      (c : Context) (id : ℕ) (fs : List Feed) → Safe (head_text stale c id fs) (λ r. Unit {0})
  head_text-Safe feeds id fs = Safe-ok _ _ tt
  head_text-Safe entries id fs =
      Safe-if (id == 0) _ _ (Safe-ok _ _ tt) (feed_head-Safe (select (λ f. f.feed_id == id) fs))
  head_text-Safe null id fs = Safe-ok _ _ tt
  head_text-Safe entry id fs = Safe-ok _ _ tt

  set_title_string-SameView :
      (tail : Bytes) (w : Window)
      → Safe (set_title_string locale day stale shows tail w) (SameView w)
  unfolding set_title_string
  set_title_string-SameView tail w =
      Safe->>= (head_text stale w.ctx_type w.ctx_id w.db.feeds) _
        (head_text-Safe w.ctx_type w.ctx_id w.db.feeds)
        λ head u.
          Safe->>= _ _
            (length-chars_to_widechars locale w.header 0
              (some (cut 256 (head ++ codes " " ++ tail))) w.width)
            λ r h. Safe-ok _ _ (record {
              rows = refl;
              places = refl;
              head = h;
              same_footer = refl;
              same_height = refl;
              same_width = refl;
              same_page = refl;
              same_ctx = refl;
              same_id = refl;
              same_db = refl;
            })

  with_lines : Window → Cells → Window
  with_lines w c = record w { lv = c.lv; body = c.body }

  lines_kept : (w : Window) (c : Cells) → SameSize (cells w) c → SameView w (with_lines w c)
  unfolding with_lines
  lines_kept w c s = record {
    rows = s.rows;
    places = s.places;
    head = refl;
    same_footer = refl;
    same_height = refl;
    same_width = refl;
    same_page = refl;
    same_ctx = refl;
    same_id = refl;
    same_db = refl;
  }

  SameView-trans : (a b c : Window) → SameView a b → SameView b c → SameView a c
  SameView-trans a b c x y = record {
    rows = y.rows ∙ x.rows;
    places = y.places ∙ x.places;
    head = y.head ∙ x.head;
    same_footer = y.same_footer ∙ x.same_footer;
    same_height = y.same_height ∙ x.same_height;
    same_width = y.same_width ∙ x.same_width;
    same_page = y.same_page ∙ x.same_page;
    same_ctx = y.same_ctx ∙ x.same_ctx;
    same_id = y.same_id ∙ x.same_id;
    same_db = y.same_db ∙ x.same_db;
  }

  put_lines-SameView :
      (w : Window) (r : ℕ × Cells)
      → SameSize (cells w) r.1
      → Safe (put_lines locale day stale shows w r) (λ x. SameView w x.1)
  unfolding with_lines
  put_lines-SameView w (r, c) s =
      Safe-if (r == 0) _ _
        (Safe->>= _ _ (set_title_string-SameView _ (with_lines w c))
          λ t k. Safe-ok _ _ (SameView-trans w (with_lines w c) t (lines_kept w c s) k))
        (Safe-ok _ _ (lines_kept w c s))

  same : (w : Window) → SameView w w
  same w = record {
    rows = refl;
    places = refl;
    head = refl;
    same_footer = refl;
    same_height = refl;
    same_width = refl;
    same_page = refl;
    same_ctx = refl;
    same_id = refl;
    same_db = refl;
  }

  gen_lines-SameView :
      (c : Context) (w : Window) → Safe (gen_lines locale day stale shows c w) (λ x. SameView w x.1)
  gen_lines-SameView feeds w =
      Safe->>= _ _ (write_feed_line-SameSize w (w.page * w.body_len)) (put_lines-SameView w)
  gen_lines-SameView entries w =
      Safe->>= _ _ (write_entry_line-SameSize w (w.page * w.body_len)) (put_lines-SameView w)
  gen_lines-SameView null w = Safe-ok _ _ (same w)
  gen_lines-SameView entry w = Safe-ok _ _ (same w)

  pub cache_gen_lines-SameView :
      (w : Window) → Safe (cache_gen_lines locale day stale shows w) (λ x. SameView w x.1)
  unfolding cache_gen_lines
  cache_gen_lines-SameView w = gen_lines-SameView w.ctx_type w
