-- ===== src/Lines/Entries.antt =====
-- src/sql/viewio.c: a page of the list of entries.
use newsbaoter.Common.{
  ℕ, zero, suc, ◌+◌, ◌-◌, ◌*◌, ◌≤◌, ◌<◌, ◌≡◌, refl, sym, ◌∙◌, ap, subst, Bool, true, false,
  Bool-cases, ◌⊎◌, inl, inr, Option, none, some, List, [], ◌∷◌, Bytes, length, length-set,
  length-take, map, set, overwrite, overwrite-set, overwrite-nil, leb, ◌==◌, if◌then◌else◌, arith,
}
use newsbaoter.Common.Run.{Returns, Returns->>=}
use newsbaoter.Common.Int.{ℤ, pos}
use newsbaoter.Cache.{Text, Db}
use newsbaoter.Cache.Table.{All}
use newsbaoter.Lines.Query.{EntryRow}
use newsbaoter.Lines.Bounds.{Fits, SameOutside, index-Fits, append_text-Fits}
use newsbaoter.Lines.{
  Locale, Row, Cells, append_text, prefix_text, entry_line_cb, each_row, finish_lines, clear_lines,
  page_rows, write_entry_line,
}

-- the row of the list that stands for an entry
abbrev pub shown : EntryRow → Row
shown r = record { unread = if r.viewed == 0 then pos 1 else pos 0; id = r.id }

-- not NULL
abbrev pub IsText : Text → Type 0
IsText t = (s : Bytes) × (t ≡ some s)

abbrev pub IsPrefix : Option Text → Type 0
IsPrefix none = Unit
IsPrefix (some t) = IsText t

-- no column is NULL that is written as a string
abbrev pub HasTitles : EntryRow → Type 0
HasTitles r = IsText r.title × IsPrefix r.feed_title

-- what writing the line of an entry does
pub record Written (len : ℕ) (r : EntryRow) (c c' : Cells) : Type 0 where
  pub rows : c'.lv ≡ set c.lv c.ind (shown r)
  pub next : c'.ind ≡ c.ind + 1
  pub memory : SameOutside (c.ind * (len + 1)) len c.body c'.body

room_for : (i n len : ℕ) → i < n → i * (len + 1) + len ≤ n * (len + 1)
room_for i n len h = grind arith

module _ (locale : Locale) where
  module _ (line len : ℕ) (before : List ℕ) (room : line + len ≤ length before) where
    append_text-IsText :
        (k : ℕ) (t : Text) (st : ℕ × List ℕ)
        → IsText t
        → Fits line len before (suc k) st
        → Returns (append_text locale line t (len - st.0) st) (Fits line len before k)
    append_text-IsText k t st (s, e) fits =
        subst (λ u. Returns (append_text locale line u (len - st.0) st) (Fits line len before k))
          (sym e) (append_text-Fits locale line len before room k s st fits)

    closer : (k off : ℕ) → (off ≡ len) ⊎ (suc k ≤ off) → (off ≡ len) ⊎ (k ≤ off)
    closer k off (inl e) = inl e
    closer k off (inr h) = inr (omega (arith, h))

    prefix_text-Fits :
        (k : ℕ) (o : Option Text) (st : ℕ × List ℕ)
        → IsPrefix o
        → Fits line len before (suc k) st
        → Returns (prefix_text locale line len o st) (Fits line len before k)
    prefix_text-Fits k none st p fits = (
      st,
      refl,
      record { offset = closer k st.0 fits.offset; inside = fits.inside; memory = fits.memory },
    )
    prefix_text-Fits k (some none) st (s, e) fits = cc
    prefix_text-Fits k (some (some t)) st p fits =
        append_text-Fits locale line len before room k _ st fits

  module _ (day : ℤ → Bytes) (len : ℕ) where
    entry_line_cb-Written :
        (r : EntryRow) (c : Cells)
        → HasTitles r
        → c.ind < length c.lv
        → c.ind * (len + 1) + len ≤ length c.body
        → Returns (entry_line_cb locale day len r c) (Written len r c)
    unfolding entry_line_cb
    entry_line_cb-Written r c titles inside room =
        let line = c.ind * (len + 1) in
        let next = append_text-Fits locale line len c.body room in
        let there : leb (length c.lv) c.ind ≡ false = ground (arith, inside) in
        rw there (
          Returns->>= _ _ (index-Fits locale line len c.body room c.ind) λ s1 f1.
            Returns->>= _ _ (next 4 _ s1 f1) λ s2 f2. Returns->>= _ _ (next 3 _ s2 f2) λ s3 f3.
              Returns->>= _ _ (prefix_text-Fits line len c.body room 2 r.feed_title s3 titles.1 f3)
                λ s4 f4.
                  Returns->>= _ _ (append_text-IsText line len c.body room 1 r.title s4 titles.0 f4)
                    λ s5 f5. (_, refl, record { rows = refl; next = refl; memory = f5.memory }))

    -- what writing the lines of entries does
    abbrev Listed : List EntryRow → Cells → Cells → Type 0
    Listed rs c c' =
        (c'.lv ≡ overwrite c.lv c.ind (map shown rs))
        × (c'.ind ≡ c.ind + length rs)
        × (length c'.body ≡ length c.body)

    each_row-Listed :
        (rs : List EntryRow) (c : Cells)
        → All HasTitles rs
        → c.ind + length rs ≤ length c.lv
        → length c.body ≡ length c.lv * (len + 1)
        → Returns (each_row (entry_line_cb locale day len) rs c) (Listed rs c)
    unfolding each_row
    each_row-Listed [] c titles room size =
        (c, refl, (sym (overwrite-nil c.lv c.ind), omega arith, refl))
    each_row-Listed (r ∷ rs) c titles room size =
        Returns->>= _ _
          (entry_line_cb-Written r c titles.0 (omega (arith, room))
            (omega (arith, room_for c.ind (length c.lv) len (omega (arith, room)), size)))
          λ c1 w.
            let rows : length c1.lv ≡ length c.lv =
              ap length w.rows ∙ length-set c.lv c.ind (shown r) in
            let memory = w.memory.length_same in
            let (c2, e, l) =
              each_row-Listed rs c1 titles.1 (omega (arith, w.next, rows, room))
                (memory ∙ size ∙ ap (λ n. n * (len + 1)) (sym rows)) in
            let next : c1.ind ≡ suc c.ind = omega (arith, w.next) in
            (
              c2,
              e,
              (
                l.0
                    ∙ ap (λ lv. overwrite lv c1.ind (map shown rs)) w.rows
                    ∙ ap (λ i. overwrite (set c.lv c.ind (shown r)) i (map shown rs)) next
                    ∙ overwrite-set c.lv c.ind (shown r) (map shown rs) (omega (arith, room)),
                omega (arith, l.1, w.next),
                l.2 ∙ memory,
              ),
            )

length-page_rows :
    (show : Bool) (n feedid start : ℕ) (db : Db) → length (page_rows show n feedid start db) ≤ n
length-page_rows show n feedid start db = omega (arith, length-take {A = EntryRow} n _)

first_le :
    (ind rounds width places : ℕ)
    → (ind + suc rounds) * (width + 1) ≤ places
    → ind * (width + 1) < places
first_le ind rounds width places h = grind arith

next_le :
    (ind rounds width : ℕ) → (ind + 1 + rounds) * (width + 1) ≡ (ind + suc rounds) * (width + 1)
next_le ind rounds width = grind arith

all_le : (ind n width : ℕ) → ind ≤ n → (ind + (n - ind)) * (width + 1) ≡ n * (width + 1)
all_le ind n width h = ap (λ k. k * (width + 1)) (omega (arith, h))

-- lines that are in the memory are cleared, and nothing else
clear_lines-Returns :
    (width rounds ind : ℕ) (body : List ℕ)
    → (ind + rounds) * (width + 1) ≤ length body
    → Returns (clear_lines width rounds ind body) (λ b. length b ≡ length body)
clear_lines-Returns width zero ind body room = (body, refl, refl)
clear_lines-Returns width (suc rounds) ind body room =
    let there : leb (length body) (ind * (width + 1)) ≡ false =
      ground (arith, first_le ind rounds width (length body) room) in
    let same = length-set body (ind * (width + 1)) 0 in
    let (b, e, l) =
      clear_lines-Returns width rounds (ind + 1) (set body (ind * (width + 1)) 0)
        (omega (arith, same, room, next_le ind rounds width)) in
    rw there (b, e, l ∙ same)

-- what a page of entries is: nothing returned but 1 where there is none
abbrev pub IsPage : List EntryRow → List Row → List ℕ → ℕ × Cells → Type 0
IsPage rs lv body r =
    (r.0 ≡ (if length rs == 0 then 1 else 0))
    × (r.1.lv ≡ overwrite lv 0 (map shown rs))
    × (length r.1.body ≡ length body)

finish_lines-IsPage :
    (rs : List EntryRow) (width : ℕ) (lv : List Row) (body : List ℕ) (c : Cells)
    → length rs ≤ length lv
    → length body ≡ length lv * (width + 1)
    → c.lv ≡ overwrite lv 0 (map shown rs)
    → c.ind ≡ 0 + length rs
    → length c.body ≡ length body
    → Returns (finish_lines width (length lv) c) (IsPage rs lv body)
finish_lines-IsPage rs width lv body c few size e i m =
    let i' : c.ind ≡ length rs = omega (arith, i) in
    elim (Bool-cases (c.ind == 0)) [
      | inl none_there ↦
          let empty : (length rs == 0) ≡ true = sym (ap (λ k. k == 0) i') ∙ none_there in
          rw none_there (_, refl, (rw empty refl, e, m))
      | inr some_there ↦
          let more : (length rs == 0) ≡ false = sym (ap (λ k. k == 0) i') ∙ some_there in
          rw some_there (
            Returns->>= _ _
              (clear_lines-Returns width (length lv - c.ind) c.ind c.body
                (omega (arith, m, size, all_le c.ind (length lv) width (omega (arith, i', few)))))
              λ b l. (_, refl, (rw more refl, e, l ∙ m)))
    ]

-- With memory for a number of lines, and titles in the rows of the page: write_entry_line comes back
-- and nothing is written outside the memory; it returns 1 where the page is empty and 0 otherwise, and
-- the k-th row of the list stands for the k-th entry of the page, with its id and whether it is unread.
pub write_entry_line-IsPage :
    (locale : Locale) (day : ℤ → Bytes) (show : Bool) (width feedid start : ℕ) (db : Db)
    (lv : List Row) (body : List ℕ)
    → length body ≡ length lv * (width + 1)
    → All HasTitles (page_rows show (length lv) feedid start db)
    → Returns
        (write_entry_line locale day show (length lv) width feedid start db lv body)
        (IsPage (page_rows show (length lv) feedid start db) lv body)
unfolding write_entry_line
write_entry_line-IsPage locale day show width feedid start db lv body size titles =
    let rs = page_rows show (length lv) feedid start db in
    let few = length-page_rows show (length lv) feedid start db in
    Returns->>= _ _
      (each_row-Listed locale day width rs (record { lv = lv; body = body; ind = 0 }) titles
        (omega (arith, few)) size)
      (λ c l. finish_lines-IsPage rs width lv body c few size l.0 l.1 l.2)
