-- ===== src/Lines/Ascii.antt =====
-- src/sql/viewio.c: the number at the front of a line.
use newsbaoter.Common.{
  ℕ, zero, suc, ◌+◌, ◌-◌, ◌/◌, ◌≤◌, Bool-cases, inl, inr, [], ◌∷◌, ◌++◌, Bytes, codes, length,
  length-append, length-replicate, replicate, ltb, arith,
}
use newsbaoter.Lines.Format.{digits_of, decimal, pad_left}
use newsbaoter.Lines.{IsAscii, index_text}

IsAscii-append : (s t : Bytes) → IsAscii s → IsAscii t → IsAscii (s ++ t)
IsAscii-append [] t a b = b
IsAscii-append (c ∷ s) t a b = (a.0, IsAscii-append s t a.1 b)

IsAscii-replicate : (n : ℕ) → IsAscii (replicate n b' ')
IsAscii-replicate zero = tt
IsAscii-replicate (suc n) = (omega arith, IsAscii-replicate n)

digits_of-IsAscii : (places n : ℕ) → IsAscii (digits_of places n)
unfolding digits_of
digits_of-IsAscii zero n = tt
digits_of-IsAscii (suc places) n = elim (Bool-cases (ltb n 10)) [
  | inl lt ↦ rw lt (ground (arith, lt), tt)
  | inr ge ↦ rw ge (
      IsAscii-append (digits_of places (n / 10)) _ (digits_of-IsAscii places (n / 10))
        (omega arith, tt))
]

pub index_text-IsAscii : (ind : ℕ) → IsAscii (index_text ind)
unfolding decimal
index_text-IsAscii ind =
    IsAscii-append (pad_left 3 (decimal (ind + 1))) (codes "  ")
      (IsAscii-append (replicate (3 - length (decimal (ind + 1))) b' ') _ (IsAscii-replicate _)
        (digits_of-IsAscii 20 (ind + 1)))
      (omega arith, (omega arith, tt))

length-pad_left : (w : ℕ) (s : Bytes) → w ≤ length (pad_left w s)
length-pad_left w s = omega (
  arith,
  length-append (replicate (w - length s) b' ') s,
  length-replicate {A = ℕ} (w - length s) b' ',
)

pub length-index_text : (ind : ℕ) → 5 ≤ length (index_text ind)
length-index_text ind = omega (
  arith,
  length-append (pad_left 3 (decimal (ind + 1))) (codes "  "),
  length-pad_left 3 (decimal (ind + 1)),
)
