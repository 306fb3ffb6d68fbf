-- ===== src/Lines.antt =====
-- src/sql/viewio.c with `chars_to_widechars` of src/ui/view.c: the lines of the list of feeds and of
-- the list of entries. `body` is one array with a line of `width` characters and a terminator for each
-- row of the terminal, one behind the other; a write behind its end is a fault, one into the next line
-- is not. mbstowcs(3), strptime(3) and strftime(3) are outside. The query is SQLite's: its rows
-- come grouped in the order of the keys, and rows with one date in that order, too.
pub mod Format
pub mod Query
pub mod Ascii
pub mod Bounds
pub mod Entries
pub mod Overflow
pub mod Sizes
pub mod Tests
use newsbaoter.Common.{
  ℕ, zero, suc, ◌+◌, ◌-◌, ◌*◌, ◌≤◌, ◌≡◌, Bool, true, false, not, ◌&&◌, Option, none, some, List, [],
  ◌∷◌, ◌++◌, Bytes, codes, length, take, set, overwrite, ltb, leb, ◌==◌, if◌then◌else◌,
}
use newsbaoter.Common.Run.{Run, ok, fault, out_of_bounds, null_pointer, ◌>>=◌}
use newsbaoter.Common.Int.{ℤ, pos, negsuc, ◌-ℤ◌}
use newsbaoter.Cache.{Text, Db, Feed, feed_key, get_num_unread}
use newsbaoter.Cache.Table.{select}
use newsbaoter.Lines.Format.{decimal, decimalℤ, pad_left, cut}
use newsbaoter.Lines.Query.{
  FeedRow, EntryRow, unread_row, feed_rows, entry_rows, unread_rows, limited,
}

-- what mbstowcs(3) stores before the terminator, and whether it returns their number or -1
pub record Converted : Type 0 where
  pub chars : List ℕ
  pub valid : Bool

abbrev pub IsAscii : Bytes → Type 0
IsAscii [] = Unit
IsAscii (c ∷ s) = (c + 1 ≤ 128) × IsAscii s

-- `mbstowcs(dst,src,max)`: no more than `max` characters, and ASCII as it is
pub record Locale : Type 0 where
  pub mbstowcs : Bytes → ℕ → Converted
  pub length-mbstowcs_le : (s : Bytes) (n : ℕ) → length (mbstowcs s n).chars ≤ n
  pub mbstowcs-ascii :
      (s : Bytes) (n : ℕ) → IsAscii s → mbstowcs s n ≡ record { chars = take n s; valid = true }

-- `struct listview` without the address of the line
pub record Row : Type 0 where
  pub unread : ℤ
  pub id : ℕ

-- `feed_list_arg`, with the memory of the lines
pub record Cells : Type 0 where
  pub lv : List Row
  pub body : List ℕ
  pub ind : ℕ

-- a terminator where there is room for it
abbrev pub terminated : Converted → ℕ → List ℕ
terminated c max = if c.valid && ltb (length c.chars) max then c.chars ++ 0 ∷ [] else c.chars

abbrev pub store_chars : List ℕ → ℕ → List ℕ → Run (List ℕ)
store_chars dst at cs =
    if leb (at + length cs) (length dst) then ok (overwrite dst at cs) else fault out_of_bounds

-- `off+=n`; no offset below 0 is used
abbrev pub advance_by : ℕ → ℤ → Run ℕ
advance_by off (pos n) = ok (off + n)
advance_by off (negsuc n) = if leb (n + 1) off then ok (off - (n + 1)) else fault out_of_bounds

-- the rows of a query, in turn
unfoldable pub each_row {ℓ} : {R : Type ℓ} → (R → Cells → Run Cells) → List R → Cells → Run Cells
each_row callback [] c = ok c
each_row callback (r ∷ rs) c = callback r c >>= λ c'. each_row callback rs c'

-- `for(;ind<len;ind++)lv[ind].line[0]=0`, by the rounds left
abbrev pub clear_lines : ℕ → ℕ → ℕ → List ℕ → Run (List ℕ)
clear_lines width zero ind body = ok body
clear_lines width (suc rounds) ind body =
    let rest = clear_lines width rounds (ind + 1) (set body (ind * (width + 1)) 0) in
    if leb (length body) (ind * (width + 1)) then fault out_of_bounds else rest

-- what is returned, with the lines
abbrev pub finish_lines : ℕ → ℕ → Cells → Run (ℕ × Cells)
finish_lines width olen c =
    if c.ind == 0
    then ok (1, c)
    else (clear_lines width (olen - c.ind) c.ind c.body >>= λ body.
        ok (0, record c { body = body }))

-- the rows for a page of entries
abbrev pub page_rows : Bool → ℕ → ℕ → ℕ → Db → List EntryRow
page_rows show len feedid start db =
    limited start (pos len) (if ltb 0 feedid then entry_rows show feedid db else unread_rows db)

abbrev pub index_text : ℕ → Bytes
index_text ind = pad_left 3 (decimal (ind + 1)) ++ codes "  "

abbrev pub mark : Bool → Bytes
mark unread = if unread then codes "N" else codes " "

abbrev pub count_text : FeedRow → Bytes
count_text r =
    let urt = cut 50 (
      codes "["
      ++ decimalℤ (pos r.total -ℤ pos r.read)
      ++ codes "/"
      ++ decimal r.total
      ++ codes "]") in
    cut 256 (pad_left (10 - length urt) (codes " ") ++ urt ++ codes " ")

abbrev pub feed_name : FeedRow → Text
feed_name r = elim r.title [
  | some t ↦ some t
  | none ↦ elim r.url [ some u ↦ some u | none ↦ some (codes "Unknown") ]
]

abbrev pub put_row : Cells → Row → List ℕ → Cells
put_row c r body = record { lv = set c.lv c.ind r; body = body; ind = c.ind + 1 }

module _ (locale : Locale) where
  open locale use {mbstowcs}

  unfoldable pub chars_to_widechars : List ℕ → ℕ → Text → ℕ → Run (ℤ × List ℕ)
  chars_to_widechars dst at src max = if ltb max 1 then ok (pos 0, dst) else elim src [
    | none ↦ fault null_pointer
    | some s ↦
        let c = mbstowcs s max in
        store_chars dst at (terminated c max) >>= λ dst'.
        ok ((if c.valid then pos (length c.chars) else negsuc 0), dst')
  ]

  -- `off+=chars_to_widechars(line+off,src,max)`
  unfoldable pub append_text : ℕ → Text → ℕ → ℕ × List ℕ → Run (ℕ × List ℕ)
  unfolding chars_to_widechars
  append_text line src max (off, body) = chars_to_widechars body (line + off) src max >>= λ r.
      advance_by off r.0 >>= λ off'. ok (off', r.1)

  unfoldable pub feed_line_cb : ℕ → FeedRow → Cells → Run Cells
  unfolding append_text
  feed_line_cb len r c =
      let line = c.ind * (len + 1) in
      if leb (length c.lv) c.ind
      then fault out_of_bounds
      else (append_text line (some (index_text c.ind)) len (0, c.body) >>= λ s.
          append_text line (some (mark (ltb r.read r.total))) (len - s.0) s >>= λ s.
          append_text line (some (count_text r)) (len - s.0) s >>= λ s.
          append_text line (feed_name r) len s >>= λ s.
          ok (put_row c (record { unread = pos r.total -ℤ pos r.read; id = r.id }) s.1))

  -- the title of the feed in front of an entry; a NULL for `%s` is a fault
  abbrev pub prefix_text : ℕ → ℕ → Option Text → ℕ × List ℕ → Run (ℕ × List ℕ)
  prefix_text line len none s = ok s
  prefix_text line len (some none) s = fault null_pointer
  prefix_text line len (some (some t)) s =
      append_text line (some (cut 256 (t ++ codes " | "))) (len - s.0) s

  unfoldable pub write_feed_line : Bool → ℕ → ℕ → ℕ → Db → List Row → List ℕ → Run (ℕ × Cells)
  unfolding feed_line_cb each_row feed_rows
  write_feed_line show len width start db lv body =
      let rows = feed_rows show db.entries db.feeds in
      let c : Cells = record { lv = lv; body = body; ind = 0 } in
      if start == 0
      then (feed_line_cb width (unread_row db) c >>= λ c1.
          each_row (feed_line_cb width) (limited 0 (pos len -ℤ pos 1) rows) c1 >>= λ c2.
          finish_lines width len c2)
      else (each_row (feed_line_cb width) (limited (start - 1) (pos len) rows) c >>= λ c2.
          finish_lines width len c2)

  module _ (day : ℤ → Bytes) where
    -- `day` is the date as `  %d %b  `.
    unfoldable pub entry_line_cb : ℕ → EntryRow → Cells → Run Cells
    unfolding append_text
    entry_line_cb len r c =
        let line = c.ind * (len + 1) in
        if leb (length c.lv) c.ind
        then fault out_of_bounds
        else (append_text line (some (index_text c.ind)) len (0, c.body) >>= λ s.
            append_text line (some (mark (r.viewed == 0))) (len - s.0) s >>= λ s.
            append_text line (some (cut 256 (day r.date))) (len - s.0) s >>= λ s.
            prefix_text line len r.feed_title s >>= λ s.
            append_text line r.title (len - s.0) s >>= λ s.
            ok (
              put_row c (record { unread = if r.viewed == 0 then pos 1 else pos 0; id = r.id })
                s.1))

    unfoldable pub write_entry_line :
        Bool → ℕ → ℕ → ℕ → ℕ → Db → List Row → List ℕ → Run (ℕ × Cells)
    unfolding entry_line_cb each_row
    write_entry_line show len width feedid start db lv body =
        each_row (entry_line_cb width) (page_rows show len feedid start db)
          (record { lv = lv; body = body; ind = 0 })
        >>= λ c. finish_lines width len c
