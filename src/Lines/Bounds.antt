-- ===== src/Lines/Bounds.antt =====
-- src/sql/viewio.c: where a text of a line is written.
use newsbaoter.Common.{
  ℕ, suc, ◌+◌, ◌-◌, ◌≤◌, ◌<◌, ◌≡◌, refl, sym, ◌∙◌, ap, subst, Bool, true, false, Bool-cases, ◌&&◌,
  ◌⊎◌, inl, inr, some, List, [], ◌∷◌, Bytes, length, min, get_or, get_or-overwrite_outside,
  length-append, length-take, length-overwrite, take, ltb, leb, if◌then◌else◌, arith,
}
use newsbaoter.Common.Run.{ok, Returns, Returns->>=, ◌>>=◌}
use newsbaoter.Common.Int.{ℤ, pos, negsuc, pos_part, neg_part}
use newsbaoter.Lines.Ascii.{index_text-IsAscii, length-index_text}
use newsbaoter.Lines.{
  Locale, Converted, terminated, store_chars, chars_to_widechars, append_text, advance_by,
  index_text,
}

length-terminated :
    (c : Converted) (max : ℕ) → length c.chars ≤ max → length (terminated c max) ≤ max
length-terminated c max h = elim (Bool-cases (c.valid && ltb (length c.chars) max)) [
  | inl room ↦ rw room (omega (arith, length-append c.chars (0 ∷ []), has_room c.valid room))
  | inr none_left ↦ rw none_left h
]
  where
    has_room : (b : Bool) → (b && ltb (length c.chars) max) ≡ true → length c.chars < max
    has_room true e = ground arith
    has_room false e = cc

-- the same memory but from `at` on, for `n` places
pub record SameOutside (at n : ℕ) (dst dst' : List ℕ) : Type 0 where
  pub length_same : length dst' ≡ length dst
  pub outside : (j : ℕ) → (j < at) ⊎ (at + n ≤ j) → get_or dst' j 0 ≡ get_or dst j 0

widen :
    (at n j line len : ℕ)
    → line ≤ at
    → at + n ≤ line + len
    → (j < line) ⊎ (line + len ≤ j)
    → (j < at) ⊎ (at + n ≤ j)
widen at n j line len h k (inl before) = inl (omega (arith, h, before))
widen at n j line len h k (inr behind) = inr (omega (arith, k, behind))

SameOutside-trans :
    (line len at n : ℕ) (a b c : List ℕ)
    → line ≤ at
    → at + n ≤ line + len
    → SameOutside line len a b
    → SameOutside at n b c
    → SameOutside line len a c
SameOutside-trans line len at n a b c h k x y = record {
  length_same = y.length_same ∙ x.length_same;
  outside = λ j side. y.outside j (widen at n j line len h k side) ∙ x.outside j side;
}

-- where an offset stands: at the end of its line, or `k` or more behind its start; and nothing else has
-- changed since `before`
pub record Fits (line len : ℕ) (before : List ℕ) (k : ℕ) (s : ℕ × List ℕ) : Type 0 where
  pub offset : (s.0 ≡ len) ⊎ (k ≤ s.0)
  pub inside : s.0 ≤ len
  pub memory : SameOutside line len before s.1

store_chars-Returns :
    (dst : List ℕ) (at max : ℕ) (cs : List ℕ)
    → length cs ≤ max
    → at + max ≤ length dst
    → Returns (store_chars dst at cs) (SameOutside at max dst)
store_chars-Returns dst at max cs h k =
    let fits : leb (at + length cs) (length dst) ≡ true = ground (arith, h, k) in
    let room : at + length cs ≤ length dst = omega (arith, h, k) in
    rw fits (
      _,
      refl,
      record {
        length_same = length-overwrite dst at cs room;
        outside = λ j side.
            get_or-overwrite_outside dst at cs j 0 room
              (widen at (length cs) j at max (omega arith) (omega (arith, h)) side);
      },
    )

-- what a conversion returns: the number of characters, at most `max`, or -1
abbrev pub Gives : ℕ → ℕ → List ℕ → ℤ × List ℕ → Type 0
Gives at max dst r =
    SameOutside at max dst r.1 × (((n : ℕ) × (n ≤ max) × (r.0 ≡ pos n)) ⊎ (r.0 ≡ negsuc 0))

returned :
    (b : Bool) (n max : ℕ)
    → n ≤ max
    → ((m : ℕ) × (m ≤ max) × ((if b then pos n else negsuc 0) ≡ pos m))
      ⊎ ((if b then pos n else negsuc 0) ≡ negsuc 0)
returned true n max h = inl (n, h, refl)
returned false n max h = inr refl

near : (n len m : ℕ) → n ≡ min len m → 5 ≤ m → (0 + n ≡ len) ⊎ (5 ≤ 0 + n)
near n len m e h = elim (Bool-cases (leb len m)) [
  | inl small ↦ inl (ground (arith, e, small))
  | inr large ↦ inr (ground (arith, e, h, large))
]

module _ (locale : Locale) where
  open locale use {mbstowcs, length-mbstowcs_le, mbstowcs-ascii}

  convert :
      (dst : List ℕ) (at max : ℕ) (s : Bytes)
      → 0 < max
      → at + max ≤ length dst
      → Returns (chars_to_widechars locale dst at (some s) max) λ r.
        SameOutside at max dst r.1
        × (r.0 ≡ (if (mbstowcs s max).valid then pos (length (mbstowcs s max).chars) else negsuc 0))
  unfolding chars_to_widechars
  convert dst at max s h k =
      let some_room : ltb max 1 ≡ false = ground (arith, h) in
      rw some_room (
        Returns->>= (store_chars dst at (terminated (mbstowcs s max) max)) _
          (store_chars-Returns dst at max _ (length-terminated _ max (length-mbstowcs_le s max)) k)
          (λ d e. (_, refl, (e, refl))))

  gives :
      (dst : List ℕ) (at max : ℕ) (s : Bytes) (r : ℤ × List ℕ)
      → SameOutside at max dst r.1
      → r.0 ≡ (if (mbstowcs s max).valid then pos (length (mbstowcs s max).chars) else negsuc 0)
      → Gives at max dst r
  gives dst at max s r same e = (
    same,
    subst (λ n. ((m : ℕ) × (m ≤ max) × (n ≡ pos m)) ⊎ (n ≡ negsuc 0)) (sym e)
        (returned (mbstowcs s max).valid _ max (length-mbstowcs_le s max)),
  )

  module _ (line len : ℕ) (before : List ℕ) (room : line + len ≤ length before) where
    behind : (k off : ℕ) → (off ≡ len) ⊎ (suc k ≤ off) → off < len → suc k ≤ off
    behind k off (inl e) lt = absurd (omega (arith, e, lt))
    behind k off (inr h) lt = h

    at_end : (n : ℕ) → ltb n 1 ≡ true → n ≡ 0
    at_end n h = ground arith

    moved :
        (k off : ℕ) (body : List ℕ) (r : ℤ × List ℕ)
        → Fits line len before (suc k) (off, body)
        → off < len
        → Gives (line + off) (len - off) body r
        → Returns (advance_by off r.0 >>= λ off'. ok (off', r.1)) (Fits line len before k)
    moved k off body (pos n, dst) fits lt (l, inl (m, le, e)) =
        let far = behind k off fits.offset lt in
        let few = ap pos_part e in
        (
          _,
          refl,
          record {
            offset = inr (omega (arith, far));
            inside = omega (arith, lt, le, few);
            memory =
                SameOutside-trans line len (line + off) (len - off) before body dst (omega arith)
                  (omega (arith, lt)) fits.memory l;
          },
        )
    moved k off body (pos n, dst) fits lt (l, inr e) = cc
    moved k off body (negsuc n, dst) fits lt (l, inl (m, le, e)) = cc
    moved k off body (negsuc n, dst) fits lt (l, inr e) =
        let far = behind k off fits.offset lt in
        let one = ap neg_part e in
        let back : leb (n + 1) off ≡ true = ground (arith, far, one) in
        rw back (
          _,
          refl,
          record {
            offset = inr (omega (arith, far, one));
            inside = omega (arith, lt);
            memory =
                SameOutside-trans line len (line + off) (len - off) before body dst (omega arith)
                  (omega (arith, lt)) fits.memory l;
          },
        )

    -- Each text costs one place at most, when it cannot be converted.
    pub append_text-Fits :
        (k : ℕ) (s : Bytes) (st : ℕ × List ℕ)
        → Fits line len before (suc k) st
        → Returns (append_text locale line (some s) (len - st.0) st) (Fits line len before k)
    unfolding append_text chars_to_widechars
    append_text-Fits k s (off, body) fits = elim (Bool-cases (ltb (len - off) 1)) [
      | inl full ↦ rw full (
        _,
        refl,
        record {
          offset = inl (omega (arith, at_end (len - off) full, fits.inside));
          inside = omega (arith, at_end (len - off) full, fits.inside);
          memory = fits.memory;
        },
      )
      | inr more ↦
          Returns->>= (chars_to_widechars locale body (line + off) (some s) (len - off)) _
            (convert body (line + off) (len - off) s (ground (arith, more))
              (omega (arith, room, fits.inside, fits.memory.length_same)))
            (λ r h.
              moved k off body r fits (ground (arith, more))
                (gives body (line + off) (len - off) s r h.0 h.1))
    ]

    count_of : Converted → ℤ
    count_of c = if c.valid then pos (length c.chars) else negsuc 0

    opened :
        (ind : ℕ) (r : ℤ × List ℕ)
        → SameOutside (line + 0) len before r.1
        → r.0 ≡ pos (length (take len (index_text ind)))
        → Returns (advance_by 0 r.0 >>= λ off. ok (off, r.1)) (Fits line len before 5)
    opened ind (pos n, d) same e =
        let long = length-take len (index_text ind) in
        (
          _,
          refl,
          record {
            offset = near n len _ (omega (arith, ap pos_part e, long)) (length-index_text ind);
            inside = omega (arith, ap pos_part e, long);
            memory = record {
              length_same = same.length_same;
              outside = λ j side.
                  same.outside j (widen (line + 0) len j line len (omega arith) (omega arith) side);
            };
          },
        )
    opened ind (negsuc n, d) same e = cc

    -- the number of the row, which opens a line
    pub index-Fits :
        (ind : ℕ)
        → Returns
            (append_text locale line (some (index_text ind)) len (0, before))
            (Fits line len before 5)
    unfolding append_text chars_to_widechars count_of
    index-Fits ind = elim (Bool-cases (ltb len 1)) [
      | inl none_left ↦ rw none_left (
        _,
        refl,
        record {
          offset = inl (omega (arith, at_end len none_left));
          inside = omega arith;
          memory = record { length_same = refl; outside = λ j side. refl };
        },
      )
      | inr more ↦
          let s = index_text ind in
          Returns->>= (chars_to_widechars locale before (line + 0) (some s) len) _
            (convert before (line + 0) len s (ground (arith, more)) (omega (arith, room)))
            (λ r h.
              opened ind r h.0 (h.1 ∙ ap count_of (mbstowcs-ascii s len (index_text-IsAscii ind))))
    ]
