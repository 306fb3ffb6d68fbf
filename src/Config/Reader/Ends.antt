-- ===== src/Config/Reader/Ends.antt =====
-- `read_config_line` on a file of any bytes, with newlines or without.
use newsbaoter.Common.{
  ℕ, ◌≤◌, ◌<◌, ◌≡◌, refl, sym, ◌∙◌, ap, subst, Bool, true, false, Bytes, length, if◌then◌else◌,
  arith,
}
use newsbaoter.Common.Run.{ok, ◌>>=◌, Ends-ok, Ends->>=, Ends, returns}
use newsbaoter.Config.Reader.{
  ConfRead, Source, check_for_line, fill_from, allocate, rewind, finish_read, read_config_line,
}
use newsbaoter.Config.Reader.Scan.{Holds}
use newsbaoter.Config.Reader.Store.{rewind-Holds, allocate-Holds, eof_allocate}
use newsbaoter.Config.Reader.Rounds.{
  Checked, cut, uncut, checked, Holds-eof, IsFilled, left, fill_from-Ends,
}

module _ (source : Source) (junk : ℕ → ℕ) where
  open source use {State, read, remaining}

  -- Where a line more is read, there is less to read than before.
  pub record IsRead (text : Bytes) (s : State) (eof : Bool) (r : State × ConfRead × Bool)
      : Type 0 where
    pub unread : Bytes
    pub holds : Holds (allocate source junk r.1) unread
    pub fewer : r.2 ≡ true → left source junk unread r.0 r.1.eof < left source junk text s eof

  allocated : (c : ConfRead) (text : Bytes) → Holds c text → Holds (allocate source junk c) text
  allocated c text h = subst (λ x. Holds x text) (sym (allocate-Holds source junk c text h)) h

  finish_read-IsRead :
      (text l : Bytes) (s : State) (eof : Bool) (r : State × ConfRead × Bool)
      → IsFilled source junk l s false r
      → length l ≤ length text
      → eof ≡ false
      → IsRead text s eof (finish_read source junk r)
  unfolding finish_read
  finish_read-IsRead text l s eof (s', c, true) f le e = record {
    unread = f.unread;
    holds = allocated (record c { eof = true }) f.unread (Holds-eof c f.unread true f.holds);
    fewer = λ _. rw e (omega (arith, f.fewer, le));
  }
  finish_read-IsRead text l s eof (s', c, false) f le e = record {
    unread = f.unread;
    holds = allocated c f.unread f.holds;
    fewer = λ _. rw (e, f.same_eof) (omega (arith, f.fewer, le));
  }

  module _ (rounds : ℕ) (s : State) (c : ConfRead) (text : Bytes)
      (enough : length (remaining s) < rounds) where
    read_cut :
        (c' : ConfRead)
        → check_for_line (allocate source junk c) ≡ (c', true)
        → read_config_line source junk rounds s c ≡ ok (s, c', true)
    unfolding read_config_line
    read_cut c' check = rw (read_config_line, ap (λ x. x.1) check, ap (λ x. x.0) check)

    pub read_uncut :
        (c' : ConfRead)
        → check_for_line (allocate source junk c) ≡ (c', false)
        → read_config_line source junk rounds s c ≡ (
            if c'.eof
            then ok (s, c', false)
            else (fill_from source junk rounds s (rewind source junk c') >>= λ r.
                ok (finish_read source junk r)))
    unfolding read_config_line
    read_uncut c' check = rw (read_config_line, ap (λ x. x.1) check, ap (λ x. x.0) check)

    after_uncut :
        (c' : ConfRead) (l : Bytes) (seen : Bool)
        → Holds c' l
        → c'.eof ≡ c.eof
        → c'.eof ≡ seen
        → length l ≤ length text
        → Ends
            (if seen
              then ok (s, c', false)
              else (fill_from source junk rounds s (rewind source junk c') >>= λ r.
                  ok (finish_read source junk r)))
            (IsRead text s c.eof)
    after_uncut c' l true h eof seen le =
        Ends-ok (s, c', false) (record { unread = l; holds = allocated c' l h; fewer = λ e. cc })
    after_uncut c' l false h eof seen le =
        Ends->>= (fill_from source junk rounds s (rewind source junk c')) _
          (fill_from-Ends source junk rounds s (rewind source junk c') l
            (rewind-Holds source junk c' l h) enough)
          (λ r f. Ends-ok (finish_read source junk r) (
            finish_read-IsRead text l s c.eof r (subst (λ b. IsFilled source junk l s b r) seen f)
              le (sym eof ∙ seen)))

    checked-Ends :
        Checked (allocate source junk c) text
        → Ends (read_config_line source junk rounds s c) (IsRead text s c.eof)
    checked-Ends (cut c' rest check holds eof fewer) =
        returns (s, c', true) (read_cut c' check)
          (record {
            unread = rest;
            holds = allocated c' rest holds;
            fewer = λ _. rw (eof, eof_allocate source junk c) (omega (arith, fewer));
          })
    checked-Ends (uncut c' l check holds eof le) =
        rw (read_uncut c' check)
          (after_uncut c' l c'.eof holds (eof ∙ eof_allocate source junk c) refl le)

    pub read_config_line-Ends :
        Holds (allocate source junk c) text
        → Ends (read_config_line source junk rounds s c) (IsRead text s c.eof)
    read_config_line-Ends h = checked-Ends (checked (allocate source junk c) text h)
