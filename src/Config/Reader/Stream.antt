-- ===== src/Config/Reader/Stream.antt =====
-- The lines of a text, as `read_config_line` is meant to find them.
use newsbaoter.Common.{
  ℕ, zero, suc, ◌<◌, ◌≡◌, ◌≢◌, refl, ap, false, Option, none, some, [], ◌∷◌, ◌++◌, Bytes, length,
  ◌==◌, if◌then◌else◌, inl, inr, ◌⊎◌, arith,
}
use newsbaoter.Config.Reader.{newline}
use newsbaoter.Config.Reader.Scan.{newlines, IsLine}

-- The text up to the first newline, and what follows it.
unfoldable pub cut_line : Bytes → Option (Bytes × Bytes)
cut_line [] = none
cut_line (x ∷ xs) =
    let after = cut_line xs in
    if x == newline
    then some ([], xs)
    else elim after [ none ↦ none | some (line, rest) ↦ some (x ∷ line, rest) ]

-- The same for the first line that is not empty.
unfoldable pub first_line : Bytes → Option (Bytes × Bytes)
unfolding cut_line
first_line [] = none
first_line (x ∷ xs) = let after = first_line xs in if x == newline then after else cut_line (x ∷ xs)

ne-newline : (x : ℕ) → x ≢ newline → (x == newline) ≡ false
ne-newline x h = ground arith

cut_line-append :
    (line rest : Bytes) → IsLine line → cut_line (line ++ newline ∷ rest) ≡ some (line, rest)
unfolding cut_line
cut_line-append [] rest h = refl
cut_line-append (x ∷ line) rest h = rw (ne-newline x h.0, cut_line-append line rest h.1)

cut_line-none : (line : Bytes) → IsLine line → cut_line line ≡ none
unfolding cut_line
cut_line-none [] h = refl
cut_line-none (x ∷ line) h = rw (ne-newline x h.0, cut_line-none line h.1)

pub first_line-newlines : (n : ℕ) (text : Bytes) → first_line (newlines n ++ text) ≡ first_line text
unfolding first_line
first_line-newlines zero text = refl
first_line-newlines (suc n) text = first_line-newlines n text

pub first_line-append :
    (line rest : Bytes)
    → IsLine line
    → 0 < length line
    → first_line (line ++ newline ∷ rest) ≡ some (line, rest)
unfolding first_line cut_line
first_line-append [] rest h lt = absurd (omega arith)
first_line-append (x ∷ line) rest h lt = rw (ne-newline x h.0, cut_line-append line rest h.1)

pub first_line-none : (line : Bytes) → IsLine line → first_line line ≡ none
unfolding first_line cut_line
first_line-none [] h = refl
first_line-none (x ∷ line) h = rw (ne-newline x h.0, cut_line-none line h.1)

-- A text is newlines with a line behind them that a newline ends, or that none ends.
pub data Shape (text : Bytes) : Type 0 where
  has_line :
      (n : ℕ) (line rest : Bytes)
      → text ≡ newlines n ++ (line ++ newline ∷ rest)
      → IsLine line
      → 0 < length line
      → Shape text
  has_none : (n : ℕ) (line : Bytes) → text ≡ newlines n ++ line → IsLine line → Shape text

Shape-newline : (x : ℕ) (text : Bytes) → x ≡ newline → Shape text → Shape (x ∷ text)
Shape-newline x text e (has_line n line rest t h lt) =
    has_line (suc n) line rest (λ i. e i ∷ t i) h lt
Shape-newline x text e (has_none n line t h) = has_none (suc n) line (λ i. e i ∷ t i) h

Shape-byte : (x : ℕ) (text : Bytes) → x ≢ newline → Shape text → Shape (x ∷ text)
Shape-byte x text ne (has_line zero line rest t h lt) =
    has_line 0 (x ∷ line) rest (ap (◌∷◌ x) t) (ne, h) (omega arith)
Shape-byte x text ne (has_line (suc n) line rest t h lt) =
    has_line 0 (x ∷ []) (newlines n ++ (line ++ newline ∷ rest)) (ap (◌∷◌ x) t) (ne, tt)
      (omega arith)
Shape-byte x text ne (has_none zero line t h) = has_none 0 (x ∷ line) (ap (◌∷◌ x) t) (ne, h)
Shape-byte x text ne (has_none (suc n) line t h) =
    has_line 0 (x ∷ []) (newlines n ++ line) (ap (◌∷◌ x) t) (ne, tt) (omega arith)

newline-cases : (x : ℕ) → (x ≡ newline) ⊎ (x ≢ newline)
newline-cases x = ground arith

pub shape : (text : Bytes) → Shape text
shape [] = has_none 0 [] refl tt
shape (x ∷ text) = elim (newline-cases x) [
  | inl e ↦ Shape-newline x text e (shape text)
  | inr ne ↦ Shape-byte x text ne (shape text)
]
