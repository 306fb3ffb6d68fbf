-- ===== src/Screen/Crop.antt =====
-- src/ui/view.c: the size of the memory in drawing and in `realloc`.
use newsbaoter.Common.{
  ℕ, zero, suc, ◌+◌, ◌-◌, ◌*◌, ◌≤◌, ◌<◌, ◌≡◌, refl, ◌∙◌, ap, Bool, true, false, Bool-cases, inl,
  inr, List, [], ◌∷◌, ◌++◌, length, length-append, length-replicate, length-overwrite, get_or,
  replicate, leb, ◌==◌, if◌then◌else◌, arith,
}
use newsbaoter.Common.Run.{Safe, Safe-ok, Safe-fault, Safe-map, Safe->>=}
use newsbaoter.Screen.{skip_spaces, find_end, print_crop, draw_rows, realloc}

skip_spaces_le : (str : List ℕ) (rounds i : ℕ) → skip_spaces str rounds i ≤ i + rounds
unfolding skip_spaces
skip_spaces_le str zero i = omega arith
skip_spaces_le str (suc rounds) i = elim (Bool-cases (get_or str i 0 == b' ')) [
  | inl t ↦ rw t (omega (arith, skip_spaces_le str rounds (i + 1)))
  | inr f ↦ rw f (omega arith)
]

find_end_le : (str : List ℕ) (rounds i : ℕ) → find_end str rounds i ≤ i + rounds
unfolding find_end
find_end_le str zero i = omega arith
find_end_le str (suc rounds) i = elim (Bool-cases (get_or str i 0 == 0)) [
  | inl t ↦ rw t (omega arith)
  | inr f ↦ rw f (omega (arith, find_end_le str rounds (i + 1)))
]

length-filled : (n : ℕ) → length {A = ℕ} (replicate n b' ' ++ 0 ∷ []) ≡ n + 1
length-filled n =
    omega
      (arith, length-append {A = ℕ} (replicate n b' ') (0 ∷ []), length-replicate {A = ℕ} n b' ')

-- print_crop leaves the size of the memory.
pub length-print_crop :
    (mem : List ℕ) (at max : ℕ) → Safe (print_crop mem at max) (λ r. length r.1 ≡ length mem)
unfolding print_crop
length-print_crop mem at max = elim (Bool-cases (leb (length mem) (at + max))) [
  | inl out ↦ rw out (Safe-fault _ _ refl)
  | inr inside ↦
      let i = skip_spaces mem max at in
      let end = find_end mem (at + max - i) i in
      let front : i ≤ at + max = skip_spaces_le mem max at in
      let near : end ≤ at + max = omega (arith, find_end_le mem (at + max - i) i, front) in
      let room : at + max < length mem = ground (arith, inside) in
      rw inside (
        Safe-ok _ _
          (length-overwrite mem end _ (omega (arith, length-filled (at + max - end), near, room))))
]

pub length-realloc {ℓ} :
    {A : Type ℓ} (junk : ℕ → A) (n : ℕ) (xs : List A) → length (realloc junk n xs) ≡ n
unfolding realloc
length-realloc junk zero xs = refl
length-realloc junk (suc n) [] = ap suc (length-realloc junk n [])
length-realloc junk (suc n) (x ∷ xs) = ap suc (length-realloc junk n xs)

pub draw_rows-kept :
    (width rounds i n : ℕ) (body : List ℕ) (last : ℕ)
    → last < n
    → i + rounds ≤ n
    → Safe (draw_rows width rounds i body last) (λ r. (length r.0 ≡ length body) × (r.1 < n))
unfolding draw_rows
draw_rows-kept width zero i n body last h k = Safe-ok _ _ (refl, h)
draw_rows-kept width (suc rounds) i n body last h k =
    Safe->>= _ _ (length-print_crop body (i * (width + 1)) width) λ r e.
      Safe-map (draw_rows-kept width rounds (i + 1) n r.1 _ (shorter r.0) (omega (arith, k)))
        λ d l. (l.0 ∙ e, l.1)
  where
    shorter : (b : Bool) → (if b then i else last) < n
    shorter true = omega (arith, k)
    shorter false = h
