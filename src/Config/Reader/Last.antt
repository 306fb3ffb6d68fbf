-- ===== src/Config/Reader/Last.antt =====
-- `read_config_line` behind the last line.
use newsbaoter.Common.{
  ℕ, zero, suc, ◌+◌, ◌-◌, ◌<◌, ◌≡◌, ◌≢◌, refl, ap, ◌∙◌, Bool, true, false, none, [], ◌∷◌, length,
  length-append, inl, inr, Bool-cases, Option-cases, set, overwrite, ◌==◌, if◌then◌else◌, arith,
}
use newsbaoter.Common.Run.{Run, ok, ◌>>=◌}
use newsbaoter.Config.Reader.{
  ConfRead, Source, newline, store_read, lacks_newline, grow_buf, fill_from, allocate, rewind,
  finish_read, read_config_line,
}
use newsbaoter.Config.Reader.Scan.{Holds}
use newsbaoter.Config.Reader.Check.{check_empty}
use newsbaoter.Config.Reader.Rounds.{fill_ended}
use newsbaoter.Config.Reader.Ends.{read_uncut}

module _ (source : Source) (junk : ℕ → ℕ) where
  open source use {State, read, remaining}

  grow_kept :
      (c : ConfRead)
      → ((grow_buf source junk c).b_stored ≡ c.b_stored)
        × ((grow_buf source junk c).l_ret ≡ c.l_ret)
  grow_kept c = elim (Bool-cases (c.b_stored == c.b_alloc)) [
    | inl e ↦ rw e (refl, refl)
    | inr ne ↦ rw ne (refl, refl)
  ]

  store_kept :
      (c : ConfRead)
      → ((store_read source junk c []).b_stored ≡ c.b_stored + 0)
        × ((store_read source junk c []).l_ret ≡ c.l_ret)
  store_kept c = grow_kept (record c {
    buf =
        if lacks_newline source junk c
        then set c.buf c.b_stored newline
        else overwrite c.buf c.b_stored [];
    b_stored = c.b_stored + 0;
  })

  finish_nothing :
      (s : State) (c : ConfRead)
      → c.b_stored ≡ 0
      → finish_read source junk (s, c, true) ≡ (s, record c { eof = true }, false)
  unfolding finish_read
  finish_nothing s c e = simp e

  module _ (no_error : (s : State) (n : ℕ) → read s n ≢ none) where
    -- A read of nothing ends the loop on an empty buffer.
    filled :
        (rounds : ℕ) (s : State) (c : ConfRead)
        → 0 < rounds
        → remaining s ≡ []
        → c.b_stored ≡ 0
        → c.l_ret ≡ 0
        → (s' : State) × (c' : ConfRead) × (fill_from source junk rounds s c ≡ ok (s', c', true))
          × (c'.b_stored ≡ 0)
    filled zero s c enough nothing stored returned = absurd (omega arith)
    filled (suc rounds) s c enough nothing stored returned =
        elim (Option-cases (read s (c.b_alloc - c.b_stored))) [
          | inl e ↦ absurd (no_error s _ e)
          | inr ((b ∷ bs, s'), e) ↦ absurd (
              omega (
                arith,
                ap length (source.read-remaining s s' _ (b ∷ bs) e),
                ap length nothing,
                length-append (b ∷ bs) (remaining s'),
              ))
          | inr (([], s'), e) ↦
              let c' : ConfRead = store_read source junk c [] in
              let kept = store_kept c in
              (
                s',
                c',
                fill_ended source junk rounds s s' c c' false e
                    (check_empty c' (omega (arith, kept.0, kept.1, stored, returned))),
                omega (arith, kept.0, stored),
              )
        ]

    -- Where nothing is left to read, the call returns 0.
    pub read_config_line-nothing :
        (rounds : ℕ) (s : State) (c : ConfRead)
        → Holds (allocate source junk c) []
        → remaining s ≡ []
        → 0 < rounds
        → (s' : State) × (c' : ConfRead) × (read_config_line source junk rounds s c
            ≡ ok (s', c', false))
    read_config_line-nothing rounds s c h nothing enough =
        let c0 : ConfRead = allocate source junk c in
        let run =
          read_uncut source junk rounds s c [] (omega (arith, ap length nothing, enough)) c0
            (check_empty c0 (omega (arith, h.stored, h.returned))) in
        let (s', c', fill, stored) =
          filled rounds s (rewind source junk c0) enough nothing
            (omega (arith, h.stored, h.returned)) refl in
        let branches : Bool → Run (State × ConfRead × Bool) = λ b.
          if b
          then ok (s, c0, false)
          else (fill_from source junk rounds s (rewind source junk c0) >>= λ r.
              ok (finish_read source junk r)) in
        elim (Bool-cases c0.eof) [
          | inl seen ↦ (s, c0, run ∙ ap branches seen)
          | inr unseen ↦ (
            s',
            record c' { eof = true },
            run
                ∙ ap branches unseen
                ∙ ap (λ m. m >>= λ r. ok (finish_read source junk r)) fill
                ∙ ap ok (finish_nothing s' c' stored),
          )
        ]
