-- ===== src/Config/Reader/Fill.antt =====
-- `read_config_line` over read(2), whatever the pieces it reads.
use newsbaoter.Common.{
  overwrite, ℕ, zero, suc, ◌+◌, ◌-◌, ◌<◌, ◌≡◌, ◌≢◌, sym, ◌∙◌, ap, subst, true, false, none, some,
  [], ◌∷◌, ◌++◌, append_assoc, append-nil, Bytes, length, length-append, set, inl, inr, ◌⊎◌,
  Option-cases, ◌&&◌, ◌==◌, if◌then◌else◌, arith,
}
use mathlib.Core.Option.{none-ne-some}
use newsbaoter.Common.Run.{ok}
use newsbaoter.Config.Reader.{
  ConfRead, Source, newline, store_read, lacks_newline, fill_from, allocate, rewind,
  read_config_line,
}
use newsbaoter.Config.Reader.Scan.{newlines, Holds, IsLine}
use newsbaoter.Config.Reader.Check.{check_for_line-GivesLine, check_for_line-none}
use newsbaoter.Config.Reader.Stream.{
  first_line, first_line-newlines, first_line-none, Shape, has_line, has_none, shape,
}
use newsbaoter.Config.Reader.Store.{
  IsRead, rewind-Holds, store_read-Holds, fill_found, fill_again, found_line, grow_eof,
  eof_allocate, read_found, read_filled,
}

module _ (source : Source) (junk : ℕ → ℕ) where
  open source use {State, read, remaining}

  -- The end of the file has been seen only when nothing is left to read.
  abbrev pub AtEnd : ConfRead → State → Type 0
  AtEnd c s = (c.eof ≡ false) ⊎ (remaining s ≡ [])

  -- The call returns `line`, and `rest` stays for the next calls.
  abbrev pub ReadsLine : ℕ → State → ConfRead → Bytes → Bytes → Type 0
  ReadsLine rounds s c line rest =
      (s' : State) × (c' : ConfRead) × (read_config_line source junk rounds s c ≡ ok (s', c', true))
      × IsRead source junk c line rest s' c'
      × AtEnd c' s'

  module _ (no_error : (s : State) (n : ℕ) → read s n ≢ none) where
    -- Either a round finds the line, or it reads at least one byte more.
    data Round (s : State) (c : ConfRead) (text line rest : Bytes) : Type 0 where
      finds :
          (s' : State) (c' : ConfRead)
          → ((rounds : ℕ) → fill_from source junk (suc rounds) s c ≡ ok (s', c', false))
          → IsRead source junk c line rest s' c'
          → Round s c text line rest
      goes_on :
          (s' : State) (c' : ConfRead) (text' : Bytes)
          → ((rounds : ℕ)
              → fill_from source junk (suc rounds) s c ≡ fill_from source junk rounds s' c')
          → Holds c' text'
          → IsLine text'
          → c'.eof ≡ c.eof
          → first_line (text' ++ remaining s') ≡ some (line, rest)
          → length (remaining s') < length (remaining s)
          → Round s c text line rest

    module _ (s s' : State) (c : ConfRead) (text line rest bs : Bytes) (h : Holds c text)
        (first : first_line (text ++ remaining s) ≡ some (line, rest))
        (reads : read s (c.b_alloc - c.b_stored) ≡ some (bs, s')) (some_bytes : 0 < length bs) where
      left : remaining s ≡ bs ++ remaining s'
      left = source.read-remaining s s' (c.b_alloc - c.b_stored) bs reads

      first_after : first_line ((text ++ bs) ++ remaining s') ≡ some (line, rest)
      first_after = rw append_assoc (rw left at first)

      stored-Holds : Holds (store_read source junk c bs) (text ++ bs)
      stored-Holds =
          store_read-Holds source junk c text bs h
            (source.length-read-le s s' (c.b_alloc - c.b_stored) bs reads) some_bytes

      same_eof : (store_read source junk c bs).eof ≡ c.eof
      same_eof = grow_eof source junk (record c {
        buf =
            if length bs == 0 && lacks_newline source junk c
            then set c.buf c.b_stored newline
            else overwrite c.buf c.b_stored bs;
        b_stored = c.b_stored + length bs;
      })

      after_store : Shape (text ++ bs) → Round s c text line rest
      after_store (has_line n l unread t is_line some_text) =
          let (c', found, gives, eof) =
            check_for_line-GivesLine (store_read source junk c bs) n l unread
              (subst (Holds (store_read source junk c bs)) t stored-Holds) is_line some_text in
          finds s' c' (λ r. fill_found source junk r s s' c c' bs reads some_bytes found)
            (found_line source junk c c' s' n l unread line rest is_line some_text
              (subst (λ x. first_line (x ++ remaining s') ≡ some (line, rest)) t first_after) gives
              (eof ∙ same_eof))
      after_store (has_none n l t is_line) =
          let (c', none_found, holds, eof) =
            check_for_line-none (store_read source junk c bs) n l
              (subst (Holds (store_read source junk c bs)) t stored-Holds) is_line in
          goes_on s' c' l (λ r. fill_again source junk r s s' c c' bs reads some_bytes none_found)
            holds is_line (eof ∙ same_eof)
            (sym (first_line-newlines n (l ++ remaining s'))
              ∙ ap first_line (sym (append_assoc (newlines n) l (remaining s')))
              ∙ ap (λ x. first_line (x ++ remaining s')) (sym t)
              ∙ first_after)
            (omega (arith, some_bytes, ap length left, length-append bs (remaining s')))

    round :
        (s : State) (c : ConfRead) (text line rest : Bytes)
        → Holds c text
        → IsLine text
        → first_line (text ++ remaining s) ≡ some (line, rest)
        → Round s c text line rest
    round s c text line rest h is_line first =
        elim (Option-cases (read s (c.b_alloc - c.b_stored))) [
          | inl e ↦ absurd (no_error s _ e)
          | inr (([], s'), e) ↦ absurd (
              none-ne-some _ (
                sym (first_line-none text is_line)
                ∙ ap first_line (
                    sym (
                      ap (λ r. text ++ r)
                        (source.read_end s s' _
                          (omega (
                            arith,
                            h.has_room,
                            h.sized,
                            h.stored,
                            ap length h.whole,
                            length-append h.used (text ++ h.spare),
                            length-append text h.spare,
                          ))
                          e)
                      ∙ append-nil text))
                ∙ first))
          | inr ((b ∷ bs, s'), e) ↦
              after_store s s' c text line rest (b ∷ bs) h first e (omega arith)
                (shape (text ++ b ∷ bs))
        ]

    fill_from-line :
        (rounds : ℕ) (s : State) (c : ConfRead) (text line rest : Bytes)
        → Holds c text
        → IsLine text
        → first_line (text ++ remaining s) ≡ some (line, rest)
        → length (remaining s) < rounds
        → (s' : State) × (c' : ConfRead) × (fill_from source junk rounds s c ≡ ok (s', c', false))
          × IsRead source junk c line rest s' c'
    fill_from-line zero s c text line rest h is_line first enough = absurd (omega arith)
    fill_from-line (suc rounds) s c text line rest h is_line first enough =
        elim (round s c text line rest h is_line first) [
          | finds s' c' run gives ↦ (s', c', run rounds, gives)
          | goes_on s' c' text' run h' is_line' eof first' fewer ↦
              let (s'', c'', run', (unread, gives, eof', e)) =
                fill_from-line rounds s' c' text' line rest h' is_line' first' (omega arith) in
              (s'', c'', run rounds ∙ run', (unread, gives, eof' ∙ eof, e))
        ]

    eof_cases : (c c' : ConfRead) (s : State) → c'.eof ≡ c.eof → AtEnd c s → AtEnd c' s
    eof_cases c c' s e at_end = rw e at_end

    module _ (rounds : ℕ) (s : State) (c : ConfRead) (text line rest : Bytes)
        (h : Holds (allocate source junk c) text) (at_end : AtEnd c s)
        (first : first_line (text ++ remaining s) ≡ some (line, rest))
        (enough : length (remaining s) < rounds) where
      reads_of : Shape text → ReadsLine rounds s c line rest
      reads_of (has_line n l unread t is_line some_text) =
          let (c', found, gives, eof) =
            check_for_line-GivesLine (allocate source junk c) n l unread
              (subst (Holds (allocate source junk c)) t h) is_line some_text in
          let eof' : c'.eof ≡ c.eof = eof ∙ eof_allocate source junk c in
          (
            s,
            c',
            read_found source junk rounds s c c' found,
            found_line source junk c c' s n l unread line rest is_line some_text
                (subst (λ x. first_line (x ++ remaining s) ≡ some (line, rest)) t first) gives eof',
            eof_cases c c' s eof' at_end,
          )
      reads_of (has_none n l t is_line) =
          let (c', none_found, holds, eof) =
            check_for_line-none (allocate source junk c) n l
              (subst (Holds (allocate source junk c)) t h) is_line in
          let eof' : c'.eof ≡ c.eof = eof ∙ eof_allocate source junk c in
          let first' : first_line (l ++ remaining s) ≡ some (line, rest) =
            sym (first_line-newlines n (l ++ remaining s))
            ∙ ap first_line (sym (append_assoc (newlines n) l (remaining s)))
            ∙ ap (λ x. first_line (x ++ remaining s)) (sym t)
            ∙ first in
          elim (eof_cases c c' s eof' at_end) [
            | inr e ↦ absurd (
                none-ne-some _ (
                  sym (first_line-none l is_line)
                  ∙ ap first_line (sym (ap (λ r. l ++ r) e ∙ append-nil l))
                  ∙ first'))
            | inl e ↦
                let (s'', c'', run, (unread, gives, same, left)) =
                  fill_from-line rounds s (rewind source junk c') l line rest
                    (rewind-Holds source junk c' l holds) is_line first' enough in
                (
                  s'',
                  c'',
                  read_filled source junk rounds s s'' c c' c'' none_found e run (same ∙ e),
                  (unread, gives, same ∙ eof', left),
                  inl (same ∙ e),
                )
          ]

      -- Whatever pieces read(2) returns: if the unread data and what the descriptor still has begin,
      -- behind any empty lines, with a line that a newline ends, then read_config_line returns that
      -- line, ended by NUL at the start of the buffer, and what it leaves unread with what the
      -- descriptor then has is what follows the line. The read never fails, and there are more rounds
      -- than bytes left.
      pub read_config_line-first_line : ReadsLine rounds s c line rest
      read_config_line-first_line = reads_of (shape text)
