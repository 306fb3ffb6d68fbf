-- ===== src/Lines/Format.antt =====
-- src/sql/viewio.c: the texts that snprintf(3) makes.
use newsbaoter.Common.{
  ℕ, zero, suc, ◌+◌, ◌-◌, ◌/◌, ◌%◌, [], ◌∷◌, ◌++◌, Bytes, codes, length, take, replicate, ltb,
  if◌then◌else◌,
}
use newsbaoter.Common.Int.{ℤ, pos, negsuc}

-- the decimal digits of a number, at most as many as `places`
unfoldable pub digits_of : ℕ → ℕ → Bytes
digits_of zero n = []
digits_of (suc places) n =
    let front = digits_of places (n / 10) in
    if ltb n 10 then (b'0' + n) ∷ [] else front ++ (b'0' + n % 10) ∷ []

-- `%d` and `%ld`
unfoldable pub decimal : ℕ → Bytes
unfolding digits_of
decimal n = digits_of 20 n

unfoldable pub decimalℤ : ℤ → Bytes
unfolding decimal
decimalℤ (pos n) = decimal n
decimalℤ (negsuc n) = codes "-" ++ decimal (n + 1)

-- blanks in front, up to a width
abbrev pub pad_left : ℕ → Bytes → Bytes
pad_left w s = replicate (w - length s) b' ' ++ s

-- what a buffer of this size holds before the terminator
abbrev pub cut : ℕ → Bytes → Bytes
cut size s = take (size - 1) s
