-- ===== src/Lines/Sizes.antt =====
-- src/sql/viewio.c: the number of rows and of places of the lines.
use newsbaoter.Common.{
  ℕ, zero, suc, set, ◌+◌, ◌-◌, ◌*◌, ◌≡◌, refl, ◌∙◌, Bool-cases, inl, inr, Option, none, some, List,
  [], ◌∷◌, Bytes, length, length-set, length-overwrite, leb, ltb, ◌==◌, arith,
}
use newsbaoter.Common.Run.{Run, ok, Safe, Safe-ok, Safe-fault, Safe-map, Safe-if, Safe->>=, ◌>>=◌}
use newsbaoter.Common.Int.{ℤ, pos, negsuc}
use newsbaoter.Cache.{Text}
use newsbaoter.Lines.Query.{FeedRow, EntryRow}
use newsbaoter.Lines.Format.{cut}
use newsbaoter.Lines.{
  Locale, Cells, store_chars, advance_by, chars_to_widechars, append_text, prefix_text, index_text,
  mark, count_text, feed_name, feed_line_cb, entry_line_cb, each_row, clear_lines, finish_lines,
}

-- the same number of rows and of places
pub record SameSize (c c' : Cells) : Type 0 where
  pub rows : length c'.lv ≡ length c.lv
  pub places : length c'.body ≡ length c.body

pub SameSize-trans : (a b c : Cells) → SameSize a b → SameSize b c → SameSize a c
SameSize-trans a b c x y = record { rows = y.rows ∙ x.rows; places = y.places ∙ x.places }

length-store_chars :
    (dst : List ℕ) (at : ℕ) (cs : List ℕ)
    → Safe (store_chars dst at cs) (λ d. length d ≡ length dst)
length-store_chars dst at cs = elim (Bool-cases (leb (at + length cs) (length dst))) [
  | inl room ↦ rw room (Safe-ok _ _ (length-overwrite dst at cs (ground (arith, room))))
  | inr full ↦ rw full (Safe-fault _ _ refl)
]

module _ (locale : Locale) where
  pub length-chars_to_widechars :
      (dst : List ℕ) (at : ℕ) (t : Text) (max : ℕ)
      → Safe (chars_to_widechars locale dst at t max) (λ r. length r.1 ≡ length dst)
  unfolding chars_to_widechars
  length-chars_to_widechars dst at none max = elim (Bool-cases (ltb max 1)) [
    | inl none_left ↦ rw none_left (Safe-ok _ _ refl)
    | inr more ↦ rw more (Safe-fault _ _ refl)
  ]
  length-chars_to_widechars dst at (some s) max = elim (Bool-cases (ltb max 1)) [
    | inl none_left ↦ rw none_left (Safe-ok _ _ refl)
    | inr more ↦ rw more (Safe->>= _ _ (length-store_chars dst at _) (λ d h. Safe-ok _ _ h))
  ]

  advanced :
      (off : ℕ) (n : ℤ) (body mem : List ℕ)
      → length body ≡ length mem
      → Safe {R = ℕ × List ℕ}
          (advance_by off n >>= λ o. ok (o, body))
          (λ r. length r.1 ≡ length mem)
  advanced off (pos n) body mem h = Safe-ok _ _ h
  advanced off (negsuc n) body mem h = elim (Bool-cases (leb (n + 1) off)) [
    | inl t ↦ rw t (Safe-ok _ _ h)
    | inr f ↦ rw f (Safe-fault _ _ refl)
  ]

  length-append_text :
      (line : ℕ) (t : Text) (max : ℕ) (st : ℕ × List ℕ)
      → Safe (append_text locale line t max st) (λ r. length r.1 ≡ length st.1)
  unfolding append_text
  length-append_text line t max (off, body) =
      Safe->>= _ _ (length-chars_to_widechars body (line + off) t max)
        (λ r h. advanced off r.0 r.1 body h)

  module _ (len : ℕ) where
    prefix_text-size :
        (line : ℕ) (o : Option Text) (st : ℕ × List ℕ)
        → Safe (prefix_text locale line len o st) (λ r. length r.1 ≡ length st.1)
    prefix_text-size line none st = Safe-ok _ _ refl
    prefix_text-size line (some none) st = Safe-fault _ _ refl
    prefix_text-size line (some (some t)) st = length-append_text line _ (len - st.0) st

    abbrev line : Cells → ℕ
    line c = c.ind * (len + 1)

    pub feed_line_cb-SameSize :
        (r : FeedRow) (c : Cells) → Safe (feed_line_cb locale len r c) (SameSize c)
    unfolding feed_line_cb
    feed_line_cb-SameSize r c = Safe-if (leb (length c.lv) c.ind) _ _ (Safe-fault _ _ refl) (
        Safe->>= _ _ (length-append_text (line c) (some (index_text c.ind)) len (0, c.body))
          λ s1 h1.
            Safe->>= _ _
              (length-append_text (line c) (some (mark (ltb r.read r.total))) (len - s1.0) s1)
              λ s2 h2.
                Safe->>= _ _ (length-append_text (line c) (some (count_text r)) (len - s2.0) s2)
                  λ s3 h3. Safe->>= _ _ (length-append_text (line c) (feed_name r) len s3) λ s4 h4.
                    Safe-ok _ _
                      (record { rows = length-set c.lv c.ind _; places = h4 ∙ h3 ∙ h2 ∙ h1 }))

    pub entry_line_cb-SameSize :
        (day : ℤ → Bytes) (r : EntryRow) (c : Cells)
        → Safe (entry_line_cb locale day len r c) (SameSize c)
    unfolding entry_line_cb
    entry_line_cb-SameSize day r c = Safe-if (leb (length c.lv) c.ind) _ _ (Safe-fault _ _ refl) (
        Safe->>= _ _ (length-append_text (line c) (some (index_text c.ind)) len (0, c.body))
          λ s1 h1.
            Safe->>= _ _ (length-append_text (line c) (some (mark (r.viewed == 0))) (len - s1.0) s1)
              λ s2 h2.
                Safe->>= _ _
                  (length-append_text (line c) (some (cut 256 (day r.date))) (len - s2.0) s2)
                  λ s3 h3. Safe->>= _ _ (prefix_text-size (line c) r.feed_title s3) λ s4 h4.
                    Safe->>= _ _ (length-append_text (line c) r.title (len - s4.0) s4) λ s5 h5.
                      Safe-ok _ _ (record {
                        rows = length-set c.lv c.ind _;
                        places = h5 ∙ h4 ∙ h3 ∙ h2 ∙ h1;
                      }))

pub each_row-SameSize {ℓ} :
    {R : Type ℓ} (callback : R → Cells → Run Cells) (rs : List R) (c : Cells)
    → ((r : R) (c : Cells) → Safe (callback r c) (SameSize c))
    → Safe (each_row callback rs c) (SameSize c)
unfolding each_row
each_row-SameSize callback [] c h = Safe-ok _ _ (record { rows = refl; places = refl })
each_row-SameSize callback (r ∷ rs) c h =
    Safe->>= _ _ (h r c)
      λ c1 s1. Safe-map (each_row-SameSize callback rs c1 h) λ c2 s2. SameSize-trans c c1 c2 s1 s2

pub length-clear_lines :
    (width rounds ind : ℕ) (body : List ℕ)
    → Safe (clear_lines width rounds ind body) (λ b. length b ≡ length body)
length-clear_lines width zero ind body = Safe-ok _ _ refl
length-clear_lines width (suc rounds) ind body =
    Safe-if (leb (length body) (ind * (width + 1))) _ _ (Safe-fault _ _ refl) (
      Safe-map (length-clear_lines width rounds (ind + 1) (set body (ind * (width + 1)) 0))
        λ b e. e ∙ length-set body (ind * (width + 1)) 0)

pub finish_lines-SameSize :
    (width n : ℕ) (c : Cells) → Safe (finish_lines width n c) (λ r. SameSize c r.1)
finish_lines-SameSize width n c =
    Safe-if (c.ind == 0) _ _ (Safe-ok _ _ (record { rows = refl; places = refl })) (
      Safe->>= _ _ (length-clear_lines width (n - c.ind) c.ind c.body)
        λ b e. Safe-ok _ _ (record { rows = refl; places = e }))
