-- ===== src/Lines/Tests.antt =====
-- src/sql/viewio.c: lines at concrete inputs.
use newsbaoter.Common.{
  ℕ, ◌≡◌, refl, true, none, some, [], ◌∷◌, Bytes, codes, take, length-take, replicate, arith,
}
use newsbaoter.Common.Run.{fault, out_of_bounds, Returns}
use newsbaoter.Common.Int.{ℤ, pos}
use newsbaoter.Cache.{Db, Entry}
use newsbaoter.Cache.Table.{keep}
use newsbaoter.Lines.Query.{FeedRow, entry_rows, rows_of_feed, by_date}
use newsbaoter.Lines.Entries.{IsPage, write_entry_line-IsPage}
use newsbaoter.Lines.Overflow.{feed_line_cb-overflow}
use newsbaoter.Lines.{Locale, Row, page_rows, write_entry_line, feed_line_cb}

-- one byte for each character
abbrev pub c_locale : Locale
c_locale = record {
  mbstowcs = λ s n. record { chars = take n s; valid = true };
  length-mbstowcs_le = λ s n. omega (arith, length-take n s);
  mbstowcs-ascii = λ s n h. refl;
}

abbrev pub some_day : ℤ → Bytes
some_day d = codes "  01 Jan  "

abbrev pub row0 : Row
row0 = record { unread = pos 0; id = 0 }

abbrev pub titled : ℕ → ℤ → Bytes → Entry
titled id date title = record {
  entry_id = id;
  feed_id = 7;
  viewed = 0;
  pub_date = date;
  mod_date = date;
  unique_id = some title;
  title = some title;
  url = none;
  author_name = none;
  author_email = none;
  description = none;
  content = none;
  current = pos 1;
}

abbrev pub two_entries : Db
two_entries = record {
  feeds = [];
  entries = titled 1 (pos 5) (codes "old") ∷ titled 2 (pos 9) (codes "new") ∷ [];
}

-- the later entry stands first
page_of_two : page_rows true 2 7 0 two_entries ≡ (
    record { title = some (codes "new"); viewed = 0; date = pos 9; id = 2; feed_title = none }
    ∷ record { title = some (codes "old"); viewed = 0; date = pos 5; id = 1; feed_title = none }
    ∷ [])
unfolding entry_rows rows_of_feed by_date keep
page_of_two = refl

write_entry_line-IsPage_example :
    Returns
      (write_entry_line c_locale some_day true 2 30 7 0 two_entries
        (row0 ∷ row0 ∷ [])
        (replicate 62 0))
      (IsPage (page_rows true 2 7 0 two_entries) (row0 ∷ row0 ∷ []) (replicate 62 0))
unfolding entry_rows rows_of_feed by_date keep
write_entry_line-IsPage_example =
    write_entry_line-IsPage c_locale some_day true 30 7 0 two_entries (row0 ∷ row0 ∷ [])
      (replicate 62 0) refl ((((codes "new"), refl), tt), ((((codes "old"), refl), tt), tt))

abbrev long_name : Bytes
long_name = replicate 40 b'x'

abbrev long_row : FeedRow
long_row = record { title = some long_name; url = none; read = 0; total = 1; id = 1 }

feed_line_cb-overflow_example :
    feed_line_cb c_locale 30 long_row
      (record { lv = row0 ∷ row0 ∷ []; body = replicate 62 0; ind = 1 })
    ≡ fault out_of_bounds
feed_line_cb-overflow_example =
    feed_line_cb-overflow c_locale 30 long_row
      (record { lv = row0 ∷ row0 ∷ []; body = replicate 62 0; ind = 1 }) long_name refl refl
      (omega arith) refl refl
