-- ===== src/Lines/Overflow.antt =====
-- src/sql/viewio.c: a long title in the list of feeds.
use newsbaoter.Common.{
  ℕ, ◌+◌, ◌*◌, ◌≤◌, ◌<◌, ◌≡◌, sym, ◌∙◌, ap, false, Bool-cases, ◌&&◌, ◌⊎◌, inl, inr, some, List, [],
  ◌∷◌, Bytes, length, length-append, leb, ltb, arith,
}
use newsbaoter.Common.Run.{fault, out_of_bounds, fault->>=}
use newsbaoter.Lines.Query.{FeedRow}
use newsbaoter.Lines.Bounds.{index-Fits, append_text-Fits}
use newsbaoter.Lines.{
  Locale, Converted, Cells, terminated, append_text, chars_to_widechars, feed_line_cb, feed_name,
}

long_enough : (c : Converted) (max : ℕ) → length c.chars ≤ length (terminated c max)
long_enough c max = elim (Bool-cases (c.valid && ltb (length c.chars) max)) [
  | inl room ↦ rw room (omega (arith, length-append c.chars (0 ∷ [])))
  | inr full ↦ rw full (omega arith)
]

last_line : (i n width : ℕ) → i + 1 ≡ n → n * (width + 1) ≡ i * (width + 1) + width + 1
last_line i n width e =
    let expand : (i + 1) * (width + 1) ≡ i * (width + 1) + width + 1 = grind arith in
    ap (λ k. k * (width + 1)) (sym e) ∙ expand

at_least : (off width : ℕ) → (off ≡ width) ⊎ (3 ≤ off) → 1 < width → 2 ≤ off
at_least off width (inl e) h = omega (arith, e, h)
at_least off width (inr h) k = omega (arith, h)

module _ (locale : Locale) where
  open locale use {mbstowcs}

  append_text-overflow :
      (line max : ℕ) (s : Bytes) (off : ℕ) (body : List ℕ)
      → 0 < max
      → length body < line + off + length (mbstowcs s max).chars
      → append_text locale line (some s) max (off, body) ≡ fault out_of_bounds
  unfolding append_text chars_to_widechars
  append_text-overflow line max s off body h k =
      let some_room : ltb max 1 ≡ false = ground (arith, h) in
      let beyond : leb (line + off + length (terminated (mbstowcs s max) max)) (length body)
          ≡ false =
        ground (arith, k, long_enough (mbstowcs s max) max) in
      rw (some_room, beyond)

  -- On the last of some lines of two or more characters: where the name of the feed fills a line,
  -- feed_line_cb writes behind the end of the memory.
  pub feed_line_cb-overflow :
      (width : ℕ) (r : FeedRow) (c : Cells) (name : Bytes)
      → c.ind + 1 ≡ length c.lv
      → length c.body ≡ length c.lv * (width + 1)
      → 1 < width
      → feed_name r ≡ some name
      → length (mbstowcs name width).chars ≡ width
      → feed_line_cb locale width r c ≡ fault out_of_bounds
  unfolding feed_line_cb
  feed_line_cb-overflow width r c name last size wide named fills =
      let line = c.ind * (width + 1) in
      let whole : length c.body ≡ line + width + 1 =
        size ∙ last_line c.ind (length c.lv) width last in
      let room : line + width ≤ length c.body = omega (arith, whole) in
      let next = append_text-Fits locale line width c.body room in
      let there : leb (length c.lv) c.ind ≡ false = ground (arith, last) in
      rw there (
        fault->>= _ _ (index-Fits locale line width c.body room c.ind) λ s1 f1.
          fault->>= _ _ (next 4 _ s1 f1) λ s2 f2. fault->>= _ _ (next 3 _ s2 f2) λ s3 f3.
            let off = at_least s3.0 width f3.offset wide in
            let overflow : append_text locale line (feed_name r) width s3 ≡ fault out_of_bounds =
              ap (λ t. append_text locale line t width s3) named
              ∙ append_text-overflow line width name s3.0 s3.1 (omega (arith, wide))
                  (omega (arith, off, fills, whole, f3.memory.length_same)) in
            rw overflow)
