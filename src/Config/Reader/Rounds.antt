-- ===== src/Config/Reader/Rounds.antt =====
-- The reading loop of `read_config_line` on a file of any bytes, with newlines or without.
use newsbaoter.Common.{
  ℕ, zero, suc, ◌+◌, ◌-◌, ◌≤◌, ◌<◌, ◌≡◌, ◌∙◌, ap, subst, Bool, true, false, ◌&&◌, none, some, [],
  ◌∷◌, ◌++◌, append_assoc, append-nil, Bytes, length, length-append, length-set, length-overwrite,
  set, overwrite, inl, inr, Option-cases, ◌==◌, if◌then◌else◌, arith,
}
use newsbaoter.Common.Run.{ok, fault, exits, Ends, stops, returns, Ends-map}
use newsbaoter.Config.Reader.{
  ConfRead, Source, newline, check_for_line, store_read, lacks_newline, fill_from,
}
use newsbaoter.Config.Reader.Slices.{set-append}
use newsbaoter.Config.Reader.Scan.{newlines, Holds}
use newsbaoter.Config.Reader.Check.{check_for_line-GivesLine, check_for_line-none}
use newsbaoter.Config.Reader.Stream.{Shape, has_line, has_none, shape}
use newsbaoter.Config.Reader.Store.{
  overwritten, store_read-Holds, grow-Holds, grow_eof, fill_found, fill_again,
}

-- A line is cut off, or there is none.
pub data Checked (c : ConfRead) (text : Bytes) : Type 0 where
  cut :
      (c' : ConfRead) (rest : Bytes)
      → check_for_line c ≡ (c', true)
      → Holds c' rest
      → c'.eof ≡ c.eof
      → length rest < length text
      → Checked c text
  uncut :
      (c' : ConfRead) (rest : Bytes)
      → check_for_line c ≡ (c', false)
      → Holds c' rest
      → c'.eof ≡ c.eof
      → length rest ≤ length text
      → Checked c text

pub checked : (c : ConfRead) (text : Bytes) → Holds c text → Checked c text
checked c text h = of_shape (shape text)
  where
    of_shape : Shape text → Checked c text
    of_shape (has_line n l rest t is_line some_text) =
        let (c', run, gives, eof) =
          check_for_line-GivesLine c n l rest (subst (Holds c) t h) is_line some_text in
        cut c' rest run gives.unread eof (
          omega (
            arith,
            ap length t,
            length-append (newlines n) (l ++ newline ∷ rest),
            length-append l (newline ∷ rest),
          ))
    of_shape (has_none n l t is_line) =
        let (c', run, holds, eof) = check_for_line-none c n l (subst (Holds c) t h) is_line in
        uncut c' l run holds eof (omega (arith, ap length t, length-append (newlines n) l))

pub Holds-eof :
    (c : ConfRead) (text : Bytes) (b : Bool) → Holds c text → Holds (record c { eof = b }) text
Holds-eof c text b h = record {
  used = h.used;
  spare = h.spare;
  whole = h.whole;
  returned = h.returned;
  stored = h.stored;
  sized = h.sized;
  has_room = h.has_room;
}

module _ (source : Source) (junk : ℕ → ℕ) where
  open source use {State, read, remaining}

  module _ (c : ConfRead) (text : Bytes) (h : Holds c text) where
    -- what a read of nothing leaves free
    after_nothing :
        (lacks : Bool)
        → (spare : Bytes) × ((if lacks
              then set c.buf c.b_stored newline
              else overwrite c.buf c.b_stored [])
            ≡ h.used ++ (text ++ spare))
    after_nothing false =
        (h.spare, overwritten source junk c text [] h (omega arith) ∙ rw (append-nil text))
    after_nothing true = of_spare h.spare h.whole h.has_room
      where
        of_spare :
            (spare : Bytes)
            → c.buf ≡ h.used ++ (text ++ spare)
            → 0 < length spare
            → (spare' : Bytes) × (set c.buf c.b_stored newline ≡ h.used ++ (text ++ spare'))
        of_spare [] whole room = absurd (omega arith)
        of_spare (x ∷ spare) whole room = (
          newline ∷ spare,
          rw (h.stored, ← length-append h.used text, whole, ← append_assoc h.used text (x ∷ spare))
              (set-append (h.used ++ text) spare x newline
                ∙ append_assoc h.used text (newline ∷ spare)),
        )

    length_after :
        (lacks : Bool)
        → length (if lacks then set c.buf c.b_stored newline else overwrite c.buf c.b_stored [])
          ≡ length c.buf
    length_after true = length-set c.buf c.b_stored newline
    length_after false = length-overwrite c.buf c.b_stored [] (
        omega (
          arith,
          h.stored,
          ap length h.whole,
          length-append h.used (text ++ h.spare),
          length-append text h.spare,
        ))

    store_nothing-Holds : Holds (store_read source junk c []) text
    store_nothing-Holds =
        let lacks : Bool = lacks_newline source junk c in
        let (spare, whole) = after_nothing lacks in
        grow-Holds source junk
          (record c {
            buf = if lacks then set c.buf c.b_stored newline else overwrite c.buf c.b_stored [];
            b_stored = c.b_stored + 0;
          })
          h.used text spare whole h.returned (omega (arith, h.stored))
          (length_after lacks ∙ h.sized)

  pub store_eof : (c : ConfRead) (bs : Bytes) → (store_read source junk c bs).eof ≡ c.eof
  store_eof c bs = grow_eof source junk (record c {
    buf =
        if length bs == 0 && lacks_newline source junk c
        then set c.buf c.b_stored newline
        else overwrite c.buf c.b_stored bs;
    b_stored = c.b_stored + length bs;
  })

  -- what is still to be read, with one more before the end of the file is seen
  abbrev pub left : Bytes → State → Bool → ℕ
  left text s ended = length text + length (remaining s) + (if ended then 0 else 1)

  -- The loop leaves less to read than there was.
  pub record IsFilled (text : Bytes) (s : State) (eof : Bool) (r : State × ConfRead × Bool)
      : Type 0 where
    pub unread : Bytes
    pub holds : Holds r.1 unread
    pub same_eof : r.1.eof ≡ eof
    pub fewer : left unread r.0 r.2 ≤ length text + length (remaining s)

  fill_failed :
      (rounds : ℕ) (s : State) (c : ConfRead)
      → read s (c.b_alloc - c.b_stored) ≡ none
      → fill_from source junk (suc rounds) s c ≡ fault (exits 1)
  unfolding fill_from
  fill_failed rounds s c e = rw (fill_from, e)

  pub fill_ended :
      (rounds : ℕ) (s s' : State) (c c' : ConfRead) (found : Bool)
      → read s (c.b_alloc - c.b_stored) ≡ some ([], s')
      → check_for_line (store_read source junk c []) ≡ (c', found)
      → fill_from source junk (suc rounds) s c ≡ ok (s', c', true)
  unfolding fill_from
  fill_ended rounds s s' c c' true e check =
      rw (fill_from, e, ap (λ x. x.1) check, ap (λ x. x.0) check)
  fill_ended rounds s s' c c' false e check =
      rw (fill_from, e, ap (λ x. x.1) check, ap (λ x. x.0) check)

  module _ (rounds : ℕ) (s s' : State) (c : ConfRead) (text : Bytes) (h : Holds c text) where
    ended-Ends :
        read s (c.b_alloc - c.b_stored) ≡ some ([], s')
        → Checked (store_read source junk c []) text
        → Ends (fill_from source junk (suc rounds) s c) (IsFilled text s c.eof)
    ended-Ends e (cut c' rest check holds eof fewer) =
        returns (s', c', true) (fill_ended rounds s s' c c' true e check)
          (record {
            unread = rest;
            holds = holds;
            same_eof = eof ∙ store_eof c [];
            fewer = omega (arith, ap length (source.read-remaining s s' _ [] e), fewer);
          })
    ended-Ends e (uncut c' rest check holds eof fewer) =
        returns (s', c', true) (fill_ended rounds s s' c c' false e check)
          (record {
            unread = rest;
            holds = holds;
            same_eof = eof ∙ store_eof c [];
            fewer = omega (arith, ap length (source.read-remaining s s' _ [] e), fewer);
          })

    module _ (bs : Bytes) (e : read s (c.b_alloc - c.b_stored) ≡ some (bs, s'))
        (some_bytes : 0 < length bs) where
      shorter : length (remaining s) ≡ length bs + length (remaining s')
      shorter = ap length (source.read-remaining s s' _ bs e) ∙ length-append bs (remaining s')

      -- with what the next rounds do
      read-Ends :
          ((c' : ConfRead) (rest : Bytes)
            → Holds c' rest
            → Ends (fill_from source junk rounds s' c') (IsFilled rest s' c'.eof))
          → Checked (store_read source junk c bs) (text ++ bs)
          → Ends (fill_from source junk (suc rounds) s c) (IsFilled text s c.eof)
      read-Ends next (cut c' rest check holds eof fewer) =
          returns (s', c', false) (fill_found source junk rounds s s' c c' bs e some_bytes check)
            (record {
              unread = rest;
              holds = holds;
              same_eof = eof ∙ store_eof c bs;
              fewer = omega (arith, shorter, fewer, length-append text bs);
            })
      read-Ends next (uncut c' rest check holds eof fewer) =
          rw (fill_again source junk rounds s s' c c' bs e some_bytes check) (
            Ends-map (next c' rest holds) (λ r f. record {
              unread = f.unread;
              holds = f.holds;
              same_eof = f.same_eof ∙ eof ∙ store_eof c bs;
              fewer = omega (arith, f.fewer, shorter, fewer, length-append text bs);
            }))

  pub fill_from-Ends :
      (rounds : ℕ) (s : State) (c : ConfRead) (text : Bytes)
      → Holds c text
      → length (remaining s) < rounds
      → Ends (fill_from source junk rounds s c) (IsFilled text s c.eof)
  fill_from-Ends zero s c text h enough = absurd (omega arith)
  fill_from-Ends (suc rounds) s c text h enough =
      elim (Option-cases (read s (c.b_alloc - c.b_stored))) [
        | inl e ↦ stops (exits 1) (fill_failed rounds s c e) (λ x. cc)
        | inr (([], s'), e) ↦
            ended-Ends rounds s s' c text h e (checked _ text (store_nothing-Holds c text h))
        | inr ((b ∷ bs, s'), e) ↦
            read-Ends rounds s s' c text h (b ∷ bs) e (omega arith)
              (λ c' rest holds.
                fill_from-Ends rounds s' c' rest holds
                  (omega (arith, shorter rounds s s' c text h (b ∷ bs) e (omega arith))))
              (checked _ (text ++ b ∷ bs) (
                store_read-Holds source junk c text (b ∷ bs) h
                  (source.length-read-le s s' _ (b ∷ bs) e) (omega arith)))
      ]
