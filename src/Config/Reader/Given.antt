-- ===== src/Config/Reader/Given.antt =====
-- The buffer behind a line that `read_config_line` gave.
use newsbaoter.Common.{
  ◌+◌, ◌≡◌, sym, ap, ◌∙◌, [], ◌∷◌, ◌++◌, append_assoc, Bytes, length, length-append, drop,
  take-append-drop, arith,
}
use newsbaoter.Config.Reader.{ConfRead}
use newsbaoter.Config.Reader.Slices.{drop-append}
use newsbaoter.Config.Reader.Scan.{Holds, GivesLine}

module _ (c : ConfRead) (line unread : Bytes) (gives : GivesLine c line unread) where
  abbrev pub behind : Bytes
  behind = drop (length line + 1) c.buf

  pub GivesLine-buf : c.buf ≡ line ++ 0 ∷ behind
  GivesLine-buf =
      sym (take-append-drop (length line + 1) c.buf)
      ∙ ap (λ x. x ++ behind) gives.text
      ∙ append_assoc line (0 ∷ []) behind

  -- What the line is made into does not touch what is unread.
  pub cut-Holds :
      (buf pre : Bytes)
      → buf ≡ pre ++ behind
      → length pre ≡ length line + 1
      → Holds (record c { buf = buf }) unread
  cut-Holds buf pre e len =
      let h : Holds c unread = gives.unread in
      let used : length h.used ≡ length line + 1 = sym h.returned ∙ gives.returned in
      let rest : behind ≡ unread ++ h.spare =
        ap (λ n. drop n c.buf) (sym used)
        ∙ ap (drop (length h.used)) h.whole
        ∙ drop-append h.used (unread ++ h.spare) in
      record {
        used = pre;
        spare = h.spare;
        whole = e ∙ ap (λ x. pre ++ x) rest;
        returned = gives.returned ∙ sym len;
        stored = omega (arith, h.stored, used, len);
        sized =
            ap length (e ∙ ap (λ x. pre ++ x) rest)
            ∙ length-append pre (unread ++ h.spare)
            ∙ omega (
              arith,
              h.sized,
              ap length h.whole,
              length-append h.used (unread ++ h.spare),
              used,
              len,
            );
        has_room = h.has_room;
      }
