-- ===== src/Config/Reader/Store.antt =====
-- The steps of `read_config_line` on the buffer: allocating, moving, storing what was read.
use newsbaoter.Common.{
  overwrite, ℕ, zero, suc, ◌+◌, ◌-◌, ◌≤◌, ◌<◌, ◌≡◌, refl, sym, ◌∙◌, ap, subst, true, false, some,
  [], ◌∷◌, ◌++◌, append_assoc, Bytes, length, length-append, length-drop, drop, inl, inr,
  Bool-cases, ltb, ◌==◌, arith,
}
use mathlib.Core.Option.{some-injective}
use newsbaoter.Common.Run.{ok}
use newsbaoter.Config.Reader.{
  ConfRead, Source, newline, check_for_line, move_front, conf_buf_inc, new_conf_read, store_read,
  grow_buf, fresh, fill_from, allocate, rewind, finish_read, read_config_line,
}
use newsbaoter.Config.Reader.Slices.{take-append, drop_more}
use newsbaoter.Config.Reader.Scan.{newlines, Holds, IsLine, GivesLine, move_front-append}
use newsbaoter.Config.Reader.Stream.{first_line, first_line-newlines, first_line-append}

length-fresh : (junk : ℕ → ℕ) (n at : ℕ) → length (fresh junk n at) ≡ n
unfolding fresh
length-fresh junk zero at = refl
length-fresh junk (suc n) at = ap suc (length-fresh junk n (at + 1))

pub rewind-Holds :
    (source : Source) (junk : ℕ → ℕ) (c : ConfRead) (text : Bytes)
    → Holds c text
    → Holds (rewind source junk c) text
rewind-Holds source junk c text h =
    let left : c.b_stored - c.l_ret ≡ length text = omega (arith, h.stored, h.returned) in
    let moved : move_front c.buf c.l_ret (c.b_stored - c.l_ret)
        ≡ text ++ drop (length text) (h.used ++ (text ++ h.spare)) =
      rw (left, h.returned, h.whole) (move_front-append h.used text h.spare) in
    record {
      used = [];
      spare = drop (length text) (h.used ++ (text ++ h.spare));
      whole = moved;
      returned = refl;
      stored = left ∙ omega arith;
      sized =
          ap length moved
          ∙ omega (
            arith,
            h.sized,
            ap length h.whole,
            length-append text (drop (length text) (h.used ++ (text ++ h.spare))),
            length-drop (length text) (h.used ++ (text ++ h.spare)),
            length-append h.used (text ++ h.spare),
            length-append text h.spare,
          );
      has_room = omega (
        arith,
        h.has_room,
        length-drop (length text) (h.used ++ (text ++ h.spare)),
        length-append h.used (text ++ h.spare),
        length-append text h.spare,
      );
    }

room_of : (a b s : ℕ) → (a == b) ≡ false → b ≡ a + s → 0 < s
room_of a b s ne e = ground arith

not_empty : (bs : Bytes) → 0 < length bs → (length bs == 0) ≡ false
not_empty bs h = ground arith

ltb_of_le : (a : ℕ) → 0 < a → ltb a 1 ≡ false
ltb_of_le a h = ground arith

module _ (source : Source) (junk : ℕ → ℕ) where
  open source use {State, read, remaining}

  pub allocate-new : Holds (allocate source junk new_conf_read) []
  allocate-new = record {
    used = [];
    spare = fresh junk conf_buf_inc 0;
    whole = refl;
    returned = refl;
    stored = refl;
    sized = length-fresh junk conf_buf_inc 0;
    has_room = omega (arith, length-fresh junk conf_buf_inc 0);
  }

  pub allocate-Holds : (c : ConfRead) (text : Bytes) → Holds c text → allocate source junk c ≡ c
  allocate-Holds c text h = rw (
      ltb_of_le c.b_alloc (
        omega (
          arith,
          h.has_room,
          h.sized,
          ap length h.whole,
          length-append h.used (text ++ h.spare),
          length-append text h.spare,
        )))

  pub grow-Holds :
      (c : ConfRead) (used text spare : Bytes)
      → c.buf ≡ used ++ (text ++ spare)
      → c.l_ret ≡ length used
      → c.b_stored ≡ length used + length text
      → length c.buf ≡ c.b_alloc
      → Holds (grow_buf source junk c) text
  grow-Holds c used text spare whole returned stored sized =
      elim (Bool-cases (c.b_stored == c.b_alloc)) [
        | inl e ↦ rw e (record {
          used = used;
          spare = spare ++ fresh junk conf_buf_inc c.b_alloc;
          whole = rw whole (simp append_assoc);
          returned = returned;
          stored = stored;
          sized = omega (
            arith,
            sized,
            length-append c.buf (fresh junk conf_buf_inc c.b_alloc),
            length-fresh junk conf_buf_inc c.b_alloc,
          );
          has_room = omega (
            arith,
            length-append spare (fresh junk conf_buf_inc c.b_alloc),
            length-fresh junk conf_buf_inc c.b_alloc,
          );
        })
        | inr ne ↦ rw ne (record {
          used = used;
          spare = spare;
          whole = whole;
          returned = returned;
          stored = stored;
          sized = sized;
          has_room = room_of c.b_stored c.b_alloc (length spare) ne (
              omega (
                arith,
                sized,
                stored,
                ap length whole,
                length-append used (text ++ spare),
                length-append text spare,
              ));
        })
      ]

  module _ (c : ConfRead) (text bs : Bytes) (h : Holds c text)
      (fits : length bs ≤ c.b_alloc - c.b_stored) where
    pub overwritten :
        overwrite c.buf c.b_stored bs ≡ h.used ++ ((text ++ bs) ++ drop (length bs) h.spare)
    overwritten =
        rw
          (
            h.stored,
            ← length-append h.used text,
            h.whole,
            ← append_assoc h.used text h.spare,
            take-append (h.used ++ text) h.spare,
            drop_more (h.used ++ text) h.spare (length bs),
          )
          (simp append_assoc)

    pub store_read-Holds : 0 < length bs → Holds (store_read source junk c bs) (text ++ bs)
    store_read-Holds some_bytes =
        let stored_buf : Bytes = overwrite c.buf c.b_stored bs in
        let whole : stored_buf ≡ h.used ++ ((text ++ bs) ++ drop (length bs) h.spare) =
          overwritten in
        rw (not_empty bs some_bytes) (
          grow-Holds (record c { buf = stored_buf; b_stored = c.b_stored + length bs }) h.used
            (text ++ bs) (drop (length bs) h.spare) whole h.returned
            (omega (arith, h.stored, length-append text bs))
            (ap length whole
              ∙ omega (
                arith,
                h.sized,
                fits,
                h.stored,
                ap length h.whole,
                length-append h.used (text ++ h.spare),
                length-append text h.spare,
                length-append h.used ((text ++ bs) ++ drop (length bs) h.spare),
                length-append (text ++ bs) (drop (length bs) h.spare),
                length-append text bs,
                length-drop (length bs) h.spare,
              )))

  module _ (rounds : ℕ) (s s' : State) (c c' : ConfRead) (bs : Bytes)
      (reads : read s (c.b_alloc - c.b_stored) ≡ some (bs, s')) (some_bytes : 0 < length bs) where
    pub fill_found :
        check_for_line (store_read source junk c bs) ≡ (c', true)
        → fill_from source junk (suc rounds) s c ≡ ok (s', c', false)
    unfolding fill_from
    fill_found check =
        rw (fill_from, reads, ap (λ x. x.1) check, ap (λ x. x.0) check, not_empty bs some_bytes)

    pub fill_again :
        check_for_line (store_read source junk c bs) ≡ (c', false)
        → fill_from source junk (suc rounds) s c ≡ fill_from source junk rounds s' c'
    unfolding fill_from
    fill_again check =
        rw (fill_from, reads, ap (λ x. x.1) check, not_empty bs some_bytes)
          (ap (λ x. fill_from source junk rounds s' x.0) check)

  -- `c'` gives `line`, and what it leaves unread with what the descriptor still has is `rest`.
  abbrev pub IsRead : ConfRead → Bytes → Bytes → State → ConfRead → Type 0
  IsRead c line rest s' c' =
      (unread : Bytes) × GivesLine c' line unread
      × (c'.eof ≡ c.eof)
      × (rest ≡ unread ++ remaining s')

  pub found_line :
      (c c' : ConfRead) (s' : State) (n : ℕ) (line unread line' rest : Bytes)
      → IsLine line
      → 0 < length line
      → first_line ((newlines n ++ (line ++ newline ∷ unread)) ++ remaining s') ≡ some (line', rest)
      → GivesLine c' line unread
      → c'.eof ≡ c.eof
      → IsRead c line' rest s' c'
  found_line c c' s' n line unread line' rest is_line some_text first gives eof =
      let split : (newlines n ++ (line ++ newline ∷ unread)) ++ remaining s'
          ≡ newlines n ++ (line ++ newline ∷ (unread ++ remaining s')) =
        simp append_assoc in
      let same : some (line, unread ++ remaining s') ≡ some (line', rest) =
        sym (first_line-append line (unread ++ remaining s') is_line some_text)
        ∙ sym (first_line-newlines n (line ++ newline ∷ (unread ++ remaining s')))
        ∙ ap first_line (sym split)
        ∙ first in
      let pair = some-injective (line, unread ++ remaining s') (line', rest) same in
      (
        unread,
        subst (λ l. GivesLine c' l unread) (λ i. (pair i).0) gives,
        eof,
        sym (λ i. (pair i).1),
      )

  pub grow_eof : (c : ConfRead) → (grow_buf source junk c).eof ≡ c.eof
  grow_eof c = elim (Bool-cases (c.b_stored == c.b_alloc)) [ inl e ↦ rw e | inr ne ↦ rw ne ]

  pub eof_allocate : (c : ConfRead) → (allocate source junk c).eof ≡ c.eof
  eof_allocate c = elim (Bool-cases (ltb c.b_alloc 1)) [ inl e ↦ rw e | inr ne ↦ rw ne ]

  pub read_found :
      (rounds : ℕ) (s : State) (c c' : ConfRead)
      → check_for_line (allocate source junk c) ≡ (c', true)
      → read_config_line source junk rounds s c ≡ ok (s, c', true)
  unfolding read_config_line
  read_found rounds s c c' check = rw (read_config_line, ap (λ x. x.1) check, ap (λ x. x.0) check)

  pub read_filled :
      (rounds : ℕ) (s s' : State) (c c' c'' : ConfRead)
      → check_for_line (allocate source junk c) ≡ (c', false)
      → c'.eof ≡ false
      → fill_from source junk rounds s (rewind source junk c') ≡ ok (s', c'', false)
      → c''.eof ≡ false
      → read_config_line source junk rounds s c ≡ ok (s', c'', true)
  unfolding read_config_line finish_read
  read_filled rounds s s' c c' c'' check eof fill eof' =
      rw (read_config_line, ap (λ x. x.1) check, ap (λ x. x.0) check, fill, eof, finish_read, eof')
