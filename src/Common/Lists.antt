-- ===== src/Common/Lists.antt =====
-- Arrays as lists with native indices, under the library's names.
use Prim.Native.Nat.{ℕ, zero, suc, ◌+◌, ◌-◌, ◌<◌, ◌≤◌, min}
use mathlib.Core.Path.{◌≡◌, refl, ap, ◌∙◌}
use mathlib.Core.Logic.{◌≢◌, ◌⊎◌, inl, inr}
use mathlib.Core.List.{List, [], ◌∷◌, ◌++◌, append_assoc, append-nil}
use mathlib.Core.Option.{Option, none, some}
use native.Mathlib.Omega.{arith}
use newsbaoter.Common.Tests.{◌==◌, if◌then◌else◌}

module _ {ℓ} {A : Type ℓ} where
  abbrev pub length : List A → ℕ
  length [] = 0
  length (x ∷ xs) = suc (length xs)

  abbrev pub get_elem? : List A → ℕ → Option A
  get_elem? [] i = none
  get_elem? (x ∷ xs) zero = some x
  get_elem? (x ∷ xs) (suc i) = get_elem? xs i

  abbrev pub get_or : List A → ℕ → A → A
  get_or [] i d = d
  get_or (x ∷ xs) zero d = x
  get_or (x ∷ xs) (suc i) d = get_or xs i d

  -- A write out of bounds changes nothing.
  abbrev pub set : List A → ℕ → A → List A
  set [] i v = []
  set (x ∷ xs) zero v = v ∷ xs
  set (x ∷ xs) (suc i) v = x ∷ set xs i v

  abbrev pub take : ℕ → List A → List A
  take zero xs = []
  take (suc n) [] = []
  take (suc n) (x ∷ xs) = x ∷ take n xs

  abbrev pub drop : ℕ → List A → List A
  drop zero xs = xs
  drop (suc n) [] = []
  drop (suc n) (x ∷ xs) = drop n xs

  abbrev pub replicate : ℕ → A → List A
  replicate zero a = []
  replicate (suc n) a = a ∷ replicate n a

  pub length-append : (xs ys : List A) → length (xs ++ ys) ≡ length xs + length ys
  length-append [] ys = omega arith
  length-append (x ∷ xs) ys = omega (arith, length-append xs ys)

module _ {ℓ} {A : Type ℓ} where
  pub length-set : (xs : List A) (i : ℕ) (v : A) → length (set xs i v) ≡ length xs
  length-set [] i v = refl
  length-set (x ∷ xs) zero v = refl
  length-set (x ∷ xs) (suc i) v = ap suc (length-set xs i v)

  pub get_or-set_self :
      (xs : List A) (i : ℕ) (v d : A) → i < length xs → get_or (set xs i v) i d ≡ v
  get_or-set_self [] i v d h = absurd (omega arith)
  get_or-set_self (x ∷ xs) zero v d h = refl
  get_or-set_self (x ∷ xs) (suc i) v d h = get_or-set_self xs i v d (omega arith)

  pub get_or-set_ne :
      (xs : List A) (i j : ℕ) (v d : A) → i ≢ j → get_or (set xs i v) j d ≡ get_or xs j d
  get_or-set_ne [] i j v d h = refl
  get_or-set_ne (x ∷ xs) zero zero v d h = absurd (h refl)
  get_or-set_ne (x ∷ xs) zero (suc j) v d h = refl
  get_or-set_ne (x ∷ xs) (suc i) zero v d h = refl
  get_or-set_ne (x ∷ xs) (suc i) (suc j) v d h = get_or-set_ne xs i j v d (λ e. h (ap suc e))

  pub append-empty : (xs ys : List A) → xs ++ ys ≡ [] → (xs ≡ []) × (ys ≡ [])
  append-empty [] ys e = (refl, e)
  append-empty (x ∷ xs) ys e = absurd (omega (arith, ap length e))

  pub get_elem?-get_or :
      (xs : List A) (i : ℕ) (d : A) → i < length xs → get_elem? xs i ≡ some (get_or xs i d)
  get_elem?-get_or [] i d h = absurd (omega arith)
  get_elem?-get_or (x ∷ xs) zero d h = refl
  get_elem?-get_or (x ∷ xs) (suc i) d h = get_elem?-get_or xs i d (omega arith)

  pub get_or-ge : (xs : List A) (i : ℕ) (d : A) → length xs ≤ i → get_or xs i d ≡ d
  get_or-ge [] i d h = refl
  get_or-ge (x ∷ xs) zero d h = absurd (omega arith)
  get_or-ge (x ∷ xs) (suc i) d h = get_or-ge xs i d (omega arith)

  pub length-replicate : (n : ℕ) (a : A) → length (replicate n a) ≡ n
  length-replicate zero a = refl
  length-replicate (suc n) a = ap suc (length-replicate n a)

  pub get_or-replicate : (n : ℕ) (i : ℕ) (a : A) → get_or (replicate n a) i a ≡ a
  get_or-replicate zero i a = refl
  get_or-replicate (suc n) zero a = refl
  get_or-replicate (suc n) (suc i) a = get_or-replicate n i a

  pub take-append-drop : (n : ℕ) (xs : List A) → take n xs ++ drop n xs ≡ xs
  take-append-drop zero xs = refl
  take-append-drop (suc n) [] = refl
  take-append-drop (suc n) (x ∷ xs) = rw (take-append-drop n xs)

  pub length-take : (n : ℕ) (xs : List A) → length (take n xs) ≡ min n (length xs)
  length-take zero xs = omega arith
  length-take (suc n) [] = omega arith
  length-take (suc n) (x ∷ xs) = omega (arith, length-take n xs)

  pub length-drop : (n : ℕ) (xs : List A) → length (drop n xs) ≡ length xs - n
  length-drop zero xs = omega arith
  length-drop (suc n) [] = omega arith
  length-drop (suc n) (x ∷ xs) = omega (arith, length-drop n xs)

module _ {ℓ} {A : Type ℓ} where
  pub get_or-set :
      (xs : List A) (i j : ℕ) (v d : A)
      → i < length xs
      → get_or (set xs i v) j d ≡ (if j == i then v else get_or xs j d)
  get_or-set [] i j v d h = absurd (omega arith)
  get_or-set (x ∷ xs) zero zero v d h = refl
  get_or-set (x ∷ xs) zero (suc j) v d h = ground arith
  get_or-set (x ∷ xs) (suc i) zero v d h = ground arith
  get_or-set (x ∷ xs) (suc i) (suc j) v d h =
      rw (get_or-set xs i j v d (omega arith)) (ground arith)

module _ {ℓ} {A : Type ℓ} where
  -- the items `ys` stored from `at` on
  abbrev pub overwrite : List A → ℕ → List A → List A
  overwrite xs at ys = take at xs ++ ys ++ drop (at + length ys) xs

  pub length-overwrite :
      (xs : List A) (at : ℕ) (ys : List A)
      → at + length ys ≤ length xs
      → length (overwrite xs at ys) ≡ length xs
  length-overwrite xs at ys h =
      length-append (take at xs ++ ys) (drop (at + length ys) xs)
      ∙ omega (
        arith,
        h,
        length-append (take at xs) ys,
        length-take at xs,
        length-drop (at + length ys) xs,
      )

module _ {ℓ} {A : Type ℓ} where
  pub get_or-append_left :
      (xs ys : List A) (i : ℕ) (d : A) → i < length xs → get_or (xs ++ ys) i d ≡ get_or xs i d
  get_or-append_left [] ys i d h = absurd (omega (arith, h))
  get_or-append_left (x ∷ xs) ys zero d h = refl
  get_or-append_left (x ∷ xs) ys (suc i) d h = get_or-append_left xs ys i d (omega (arith, h))

  pub get_or-append_right :
      (xs ys : List A) (i k : ℕ) (d : A) → i ≡ length xs + k → get_or (xs ++ ys) i d ≡ get_or ys k d
  get_or-append_right [] ys i k d h = let e : i ≡ k = omega (arith, h) in ap (λ n. get_or ys n d) e
  get_or-append_right (x ∷ xs) ys zero k d h = absurd (omega (arith, h))
  get_or-append_right (x ∷ xs) ys (suc i) k d h = get_or-append_right xs ys i k d (omega (arith, h))

  get_or-take : (xs : List A) (n i : ℕ) (d : A) → i < n → get_or (take n xs) i d ≡ get_or xs i d
  get_or-take xs zero i d h = absurd (omega (arith, h))
  get_or-take [] (suc n) i d h = refl
  get_or-take (x ∷ xs) (suc n) zero d h = refl
  get_or-take (x ∷ xs) (suc n) (suc i) d h = get_or-take xs n i d (omega (arith, h))

  get_or-drop :
      (xs : List A) (n i k : ℕ) (d : A) → i ≡ n + k → get_or (drop n xs) k d ≡ get_or xs i d
  get_or-drop xs zero i k d h = let e : k ≡ i = omega (arith, h) in ap (λ n. get_or xs n d) e
  get_or-drop [] (suc n) i k d h = refl
  get_or-drop (x ∷ xs) (suc n) zero k d h = absurd (omega (arith, h))
  get_or-drop (x ∷ xs) (suc n) (suc i) k d h = get_or-drop xs n i k d (omega (arith, h))

  pub get_or-overwrite_outside :
      (xs : List A) (at : ℕ) (ys : List A) (j : ℕ) (d : A)
      → at + length ys ≤ length xs
      → (j < at) ⊎ (at + length ys ≤ j)
      → get_or (overwrite xs at ys) j d ≡ get_or xs j d
  get_or-overwrite_outside xs at ys j d h (inl before) =
      let front : length (take at xs) ≡ at = omega (arith, length-take at xs, h) in
      get_or-append_left (take at xs ++ ys) _ j d
        (omega (arith, length-append (take at xs) ys, front, before))
      ∙ get_or-append_left (take at xs) ys j d (omega (arith, front, before))
      ∙ get_or-take xs at j d before
  get_or-overwrite_outside xs at ys j d h (inr behind) =
      let front : length (take at xs ++ ys) ≡ at + length ys =
        omega (arith, length-append (take at xs) ys, length-take at xs, h) in
      get_or-append_right (take at xs ++ ys) _ j (j - (at + length ys)) d
        (omega (arith, front, behind))
      ∙ get_or-drop xs (at + length ys) j (j - (at + length ys)) d (omega (arith, behind))

  drop-set : (xs : List A) (i n : ℕ) (x : A) → i < n → drop n (set xs i x) ≡ drop n xs
  drop-set [] i n x h = refl
  drop-set (y ∷ ys) i zero x h = absurd (omega (arith, h))
  drop-set (y ∷ ys) zero (suc n) x h = refl
  drop-set (y ∷ ys) (suc i) (suc n) x h = drop-set ys i n x (omega (arith, h))

  take-set :
      (xs : List A) (i : ℕ) (x : A)
      → i < length xs
      → take (suc i) (set xs i x) ≡ take i xs ++ x ∷ []
  take-set [] i x h = absurd (omega (arith, h))
  take-set (y ∷ ys) zero x h = refl
  take-set (y ∷ ys) (suc i) x h = ap (λ zs. y ∷ zs) (take-set ys i x (omega (arith, h)))

  pub overwrite-set :
      (xs : List A) (i : ℕ) (x : A) (ys : List A)
      → i < length xs
      → overwrite (set xs i x) (suc i) ys ≡ overwrite xs i (x ∷ ys)
  overwrite-set xs i x ys h =
      let further : suc i + length ys ≡ i + suc (length ys) = omega arith in
      ap (λ zs. (zs ++ ys) ++ drop (suc i + length ys) (set xs i x)) (take-set xs i x h)
      ∙ ap (λ zs. ((take i xs ++ x ∷ []) ++ ys) ++ zs)
          (drop-set xs i (suc i + length ys) x (omega arith))
      ∙ ap (λ zs. zs ++ drop (suc i + length ys) xs) (append_assoc (take i xs) (x ∷ []) ys)
      ∙ ap (λ n. (take i xs ++ x ∷ ys) ++ drop n xs) further

  pub overwrite-nil : (xs : List A) (i : ℕ) → overwrite xs i [] ≡ xs
  overwrite-nil xs i =
      let none_more : i + 0 ≡ i = omega arith in
      ap (λ zs. zs ++ drop (i + 0) xs) (append-nil (take i xs))
      ∙ ap (λ n. take i xs ++ drop n xs) none_more
      ∙ take-append-drop i xs
