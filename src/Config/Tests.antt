-- ===== src/Config/Tests.antt =====
-- src/config.c on concrete files, with a read(2) that returns five bytes at most.
use newsbaoter.Common.{
  ℕ, zero, suc, ◌≤◌, ◌<◌, ◌≡◌, ◌≢◌, refl, sym, ◌∙◌, ap, Option, none, some, [], ◌∷◌, ◌++◌, Bytes,
  length, length-take, take, drop, inl, ltb, if◌then◌else◌, arith,
}
use mathlib.Core.Option.{some-injective, none-ne-some}
use newsbaoter.Config.Reader.{Source, newline, new_conf_read}
use newsbaoter.Config.Reader.Stream.{first_line}
use newsbaoter.Config.Reader.Store.{allocate-new}
use newsbaoter.Config.Reader.Fill.{ReadsLine, read_config_line-first_line}

abbrev pub piece : ℕ → ℕ
piece n = if ltb n 5 then n else 5

pub piece_le : (n : ℕ) → piece n ≤ n
piece_le n = ground arith

pub piece_pos : (n : ℕ) → 0 < n → 0 < piece n
piece_pos n h = ground arith

pub take-drop : (n : ℕ) (xs : Bytes) → xs ≡ take n xs ++ drop n xs
take-drop zero xs = refl
take-drop (suc n) [] = refl
take-drop (suc n) (x ∷ xs) = ap (◌∷◌ x) (take-drop n xs)

pub take_nothing : (n : ℕ) (xs : Bytes) → 0 < n → take n xs ≡ [] → xs ≡ []
take_nothing n [] h e = refl
take_nothing zero (x ∷ xs) h e = absurd (omega arith)
take_nothing (suc n) (x ∷ xs) h e = absurd (omega (arith, ap length e))

abbrev pub slow_read : Bytes → ℕ → Option (Bytes × Bytes)
slow_read s n = some (take (piece n) s, drop (piece n) s)

abbrev pub slow : Source
slow = record {
  State = Bytes;
  read = slow_read;
  remaining = λ s. s;
  read-remaining = λ s s' n bs e.
      let p = some-injective (take (piece n) s, drop (piece n) s) (bs, s') e in
      take-drop (piece n) s ∙ (λ i. (p i).0 ++ (p i).1);
  length-read-le = λ s s' n bs e.
      let p = some-injective (take (piece n) s, drop (piece n) s) (bs, s') e in
      omega (arith, ap length (λ i. (p i).0), length-take (piece n) s, piece_le n);
  read_end = λ s s' n h e.
      let p = some-injective (take (piece n) s, drop (piece n) s) ([], s') e in
      take_nothing (piece n) s (piece_pos n h) (λ i. (p i).0);
}

abbrev pub zeros : ℕ → ℕ
zeros n = 0

-- an empty line, then "set x", then "bind"
abbrev file : Bytes
file =
    newline ∷ b's' ∷ b'e' ∷ b't' ∷ b' ' ∷ b'x' ∷ newline ∷ b'b' ∷ b'i' ∷ b'n' ∷ b'd' ∷ newline ∷ []

abbrev line_read : Bytes
line_read = b's' ∷ b'e' ∷ b't' ∷ b' ' ∷ b'x' ∷ []

abbrev after_line : Bytes
after_line = b'b' ∷ b'i' ∷ b'n' ∷ b'd' ∷ newline ∷ []

first_of_file : first_line file ≡ some (line_read, after_line)
unfolding first_line
first_of_file = refl

pub no_error : (s : Bytes) (n : ℕ) → slow_read s n ≢ none
no_error s n e = none-ne-some _ (sym e)

read_config_line-first_line_example :
    ReadsLine slow zeros 20 file new_conf_read line_read after_line
read_config_line-first_line_example =
    read_config_line-first_line slow zeros no_error 20 file new_conf_read [] line_read after_line
      (allocate-new slow zeros) (inl refl) first_of_file (omega arith)
