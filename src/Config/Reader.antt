-- ===== src/Config/Reader.antt =====
-- src/config.c, `read_config_line` with its buffer. Bytes of the buffer that no code has written are
-- those of `junk`, at their address. A read past the buffer is the byte 0 here; `Holds` in the
-- module Scan says that the indices are inside. read(2) is outside: it is the argument `Source`.
pub mod Slices
pub mod Scan
pub mod Check
pub mod Stream
pub mod Store
pub mod Fill
pub mod Rounds
pub mod Last
pub mod Given
pub mod Ends
use newsbaoter.Common.{
  ℕ, zero, suc, ◌+◌, ◌-◌, ◌≤◌, ◌<◌, ◌≡◌, Bool, true, false, not, ◌&&◌, ◌||◌, Option, none, some,
  List, [], ◌∷◌, ◌++◌, Bytes, length, get_or, set, overwrite, take, drop, ltb, leb, ◌==◌,
  if◌then◌else◌,
}
use newsbaoter.Common.Run.{Run, ok, fault, exits, diverges, ◌>>=◌}

-- `read(fd, p, n)`: the bytes and the new state of the descriptor, or `none` for -1. What is read
-- comes off the front of what remains, in pieces of any size; an empty piece is the end of the file.
pub record Source : Type 1 where
  pub State : Type 0
  pub read : State → ℕ → Option (Bytes × State)
  pub remaining : State → Bytes
  pub read-remaining :
      (s s' : State) (n : ℕ) (bs : Bytes)
      → read s n ≡ some (bs, s')
      → remaining s ≡ bs ++ remaining s'
  pub length-read-le :
      (s s' : State) (n : ℕ) (bs : Bytes) → read s n ≡ some (bs, s') → length bs ≤ n
  pub read_end : (s s' : State) (n : ℕ) → 0 < n → read s n ≡ some ([], s') → remaining s ≡ []

-- `struct conf_read`
pub record ConfRead : Type 0 where
  pub buf : Bytes
  pub b_alloc : ℕ
  pub b_stored : ℕ
  pub l_ret : ℕ
  pub eof : Bool

abbrev pub conf_buf_inc : ℕ
conf_buf_inc = 256

-- `memset(&c,0,sizeof(c))`
abbrev pub new_conf_read : ConfRead
new_conf_read = record { buf = []; b_alloc = 0; b_stored = 0; l_ret = 0; eof = false }

-- `n` bytes of fresh memory from address `at` on
unfoldable pub fresh : (ℕ → ℕ) → ℕ → ℕ → Bytes
fresh junk zero at = []
fresh junk (suc n) at = junk at ∷ fresh junk n (at + 1)

-- `memmove(buf, buf+off, n)`
abbrev pub move_front : Bytes → ℕ → ℕ → Bytes
move_front buf off n = take n (drop off buf) ++ drop n buf

abbrev pub newline : ℕ
newline = b'\n'

abbrev pub is_blank : ℕ → Bool
is_blank c = c == b' ' || c == b'\t'

-- `move_buf`
abbrev pub move_buf : ℕ → ConfRead → ConfRead
move_buf off c =
    let stored = c.b_stored - c.l_ret in
    record c { b_stored = stored; buf = move_front c.buf c.l_ret stored; l_ret = off - c.l_ret + 1 }

-- The loops of `check_for_line`, each with the rounds left up to `b_stored`.
unfoldable pub skip_newlines : Bytes → ℕ → ℕ → ℕ
skip_newlines buf zero i = i
skip_newlines buf (suc rounds) i =
    if get_or buf i 0 == newline then skip_newlines buf rounds (i + 1) else i

unfoldable pub find_newline : Bytes → ℕ → ℕ → Option ℕ
find_newline buf zero i = none
find_newline buf (suc rounds) i =
    if get_or buf i 0 == newline then some i else find_newline buf rounds (i + 1)

unfoldable pub skip_blanks : Bytes → ℕ → ℕ → ℕ
skip_blanks buf zero i = i
skip_blanks buf (suc rounds) i =
    if is_blank (get_or buf i 0) then skip_blanks buf rounds (i + 1) else i

unfoldable pub check_for_line : ConfRead → ConfRead × Bool
unfolding skip_newlines find_newline skip_blanks
check_for_line c =
    if leb c.b_stored c.l_ret
    then (c, false)
    else (let from = skip_newlines c.buf (c.b_stored - c.l_ret) c.l_ret in
        elim (find_newline c.buf (c.b_stored - from) from) [
          | none ↦ (record c { l_ret = from }, false)
          | some i ↦
              let cut = set c.buf i 0 in
              (
                move_buf (skip_blanks cut (c.b_stored - i) i)
                    (record c { buf = cut; l_ret = from }),
                true,
              )
        ])

module _ (source : Source) (junk : ℕ → ℕ) where
  open source use {State, read}

  -- the last byte stored, if there is one, is no newline
  abbrev pub lacks_newline : ConfRead → Bool
  lacks_newline c = ltb 0 c.b_stored && not (get_or c.buf (c.b_stored - 1) 0 == newline)

  -- `if(b_stored==b_alloc)`: more room
  abbrev pub grow_buf : ConfRead → ConfRead
  grow_buf c =
      if c.b_stored == c.b_alloc
      then record c {
        b_alloc = c.b_alloc + conf_buf_inc;
        buf = c.buf ++ fresh junk conf_buf_inc c.b_alloc;
      }
      else c

  -- one round of the reading loop, up to its condition
  abbrev pub store_read : ConfRead → Bytes → ConfRead
  store_read c bs =
      let at_end = length bs == 0 && lacks_newline c in
      let stored = if at_end then set c.buf c.b_stored newline else overwrite c.buf c.b_stored bs in
      grow_buf (record c { buf = stored; b_stored = c.b_stored + length bs })

  -- The reading loop; the result says whether the last read was at the end of the file.
  unfoldable pub fill_from : ℕ → State → ConfRead → Run (State × ConfRead × Bool)
  fill_from zero s c = fault diverges
  fill_from (suc rounds) s c = elim (read s (c.b_alloc - c.b_stored)) [
    | none ↦ fault (exits 1)
    | some (bs, s') ↦
        let (c', found) = check_for_line (store_read c bs) in
        let ended = length bs == 0 in
        elim (found || ended) [ true ↦ ok (s', c', ended) | false ↦ fill_from rounds s' c' ]
  ]

  abbrev pub allocate : ConfRead → ConfRead
  allocate c =
      if ltb c.b_alloc 1
      then record c { buf = fresh junk conf_buf_inc 0; b_alloc = conf_buf_inc }
      else c

  -- the unread data moved to the front
  abbrev pub rewind : ConfRead → ConfRead
  rewind c = record c {
    b_stored = c.b_stored - c.l_ret;
    buf = move_front c.buf c.l_ret (c.b_stored - c.l_ret);
    l_ret = 0;
  }

  unfoldable pub finish_read : State × ConfRead × Bool → State × ConfRead × Bool
  finish_read (s, c, ended) =
      let c' = if ended then record c { eof = true } else c in
      (s, c', not (c'.eof && c'.b_stored == 0))

  -- The rounds are those of the loop; the Boolean is the function's result.
  unfoldable pub read_config_line : ℕ → State → ConfRead → Run (State × ConfRead × Bool)
  read_config_line rounds s c =
      let (c', found) = check_for_line (allocate c) in
      if found
      then ok (s, c', true)
      else if c'.eof
      then ok (s, c', false)
      else (fill_from rounds s (rewind c') >>= λ r. ok (finish_read r))
