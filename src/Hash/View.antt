-- ===== src/Hash/View.antt =====
-- The map that a table stands for, read off the array with no hashing, and its change by a write.
use newsbaoter.Common.{
  ℕ, zero, suc, ◌+◌, ◌<◌, ◌≤◌, ◌≡◌, ◌≢◌, refl, Bool, true, false, ◌||◌, Option, none, List, [], ◌∷◌,
  Bytes, length, get_or, set, str_eq, str_eq_iff, if◌then◌else◌, arith,
}
use newsbaoter.Hash.{Slot, empty, deleted, entry}

module _ {ℓ} {V : Type ℓ} where
  unfoldable pub scan : List (Slot V) → Bytes → Option V
  scan [] n = none
  scan (entry m v ∷ tab) n = if str_eq m n then v else scan tab n
  scan (_ ∷ tab) n = scan tab n

  -- the name is in the array
  unfoldable pub has_name : List (Slot V) → Bytes → Bool
  has_name [] n = false
  has_name (entry m v ∷ tab) n = str_eq m n || has_name tab n
  has_name (_ ∷ tab) n = has_name tab n

  -- a slot is NULL or deleted
  unfoldable pub has_free : List (Slot V) → Bool
  has_free [] = false
  has_free (entry m v ∷ tab) = has_free tab
  has_free (_ ∷ tab) = true

  abbrev pub is_free : Slot V → Bool
  is_free (entry _ _) = false
  is_free _ = true

  -- the slot does not hold the name
  abbrev pub Lacks : Slot V → Bytes → Type ℓ
  Lacks s n = (v : Option V) → s ≢ entry n v

  abbrev pub Unique : List (Slot V) → Type ℓ
  Unique tab =
      (n : Bytes) (i j : ℕ) (v w : Option V)
      → get_or tab i empty ≡ entry n v
      → get_or tab j empty ≡ entry n w
      → i ≡ j

  Unique-tail : (s : Slot V) (tab : List (Slot V)) → Unique (s ∷ tab) → Unique tab
  Unique-tail s tab u n i j v w p q = omega (arith, u n (suc i) (suc j) v w p q)

  pub scan-miss :
      (tab : List (Slot V)) (n : Bytes)
      → ((i : ℕ) → Lacks (get_or tab i empty) n)
      → (scan tab n ≡ none) × (has_name tab n ≡ false)
  unfolding scan has_name
  scan-miss [] n h = (refl, refl)
  scan-miss (entry m v ∷ tab) n h =
      ground (arith, str_eq_iff m n, h 0 v, scan-miss tab n (λ i. h (suc i)))
  scan-miss (_ ∷ tab) n h = scan-miss tab n (λ i. h (suc i))

  pub scan-hit :
      (tab : List (Slot V)) (n : Bytes) (j : ℕ) (v : Option V)
      → Unique tab
      → get_or tab j empty ≡ entry n v
      → (scan tab n ≡ v) × (has_name tab n ≡ true)
  unfolding scan has_name
  scan-hit [] n j v u h = cc
  scan-hit (empty ∷ tab) n zero v u h = cc
  scan-hit (deleted ∷ tab) n zero v u h = cc
  scan-hit (entry m w ∷ tab) n zero v u h = ground (arith, str_eq_iff m n)
  scan-hit (empty ∷ tab) n (suc j) v u h = scan-hit tab n j v (Unique-tail empty tab u) h
  scan-hit (deleted ∷ tab) n (suc j) v u h = scan-hit tab n j v (Unique-tail deleted tab u) h
  scan-hit (entry m w ∷ tab) n (suc j) v u h = ground (
    arith,
    str_eq_iff m n,
    u n 0 (suc j) w v,
    scan-hit tab n j v (Unique-tail (entry m w) tab u) h,
  )

  -- A write that takes no entry of `n` away and brings none leaves the view at `n`.
  pub scan-set_ne :
      (tab : List (Slot V)) (n : Bytes) (j : ℕ) (s : Slot V)
      → Lacks (get_or tab j empty) n
      → Lacks s n
      → (scan (set tab j s) n ≡ scan tab n) × (has_name (set tab j s) n ≡ has_name tab n)
  unfolding scan has_name
  scan-set_ne [] n j s h k = (refl, refl)
  scan-set_ne (entry m v ∷ tab) n zero (entry o w) h k =
      ground (arith, str_eq_iff m n, str_eq_iff o n, h v, k w)
  scan-set_ne (entry m v ∷ tab) n zero empty h k = ground (arith, str_eq_iff m n, h v)
  scan-set_ne (entry m v ∷ tab) n zero deleted h k = ground (arith, str_eq_iff m n, h v)
  scan-set_ne (empty ∷ tab) n zero (entry o w) h k = ground (arith, str_eq_iff o n, k w)
  scan-set_ne (deleted ∷ tab) n zero (entry o w) h k = ground (arith, str_eq_iff o n, k w)
  scan-set_ne (empty ∷ tab) n zero empty h k = (refl, refl)
  scan-set_ne (empty ∷ tab) n zero deleted h k = (refl, refl)
  scan-set_ne (deleted ∷ tab) n zero empty h k = (refl, refl)
  scan-set_ne (deleted ∷ tab) n zero deleted h k = (refl, refl)
  scan-set_ne (entry m v ∷ tab) n (suc j) s h k = ground (arith, scan-set_ne tab n j s h k)
  scan-set_ne (empty ∷ tab) n (suc j) s h k = scan-set_ne tab n j s h k
  scan-set_ne (deleted ∷ tab) n (suc j) s h k = scan-set_ne tab n j s h k

  pub has_free-eq-true :
      (tab : List (Slot V)) (j : ℕ)
      → j < length tab
      → is_free (get_or tab j empty) ≡ true
      → has_free tab ≡ true
  unfolding has_free
  has_free-eq-true [] j h e = absurd (omega arith)
  has_free-eq-true (empty ∷ tab) j h e = refl
  has_free-eq-true (deleted ∷ tab) j h e = refl
  has_free-eq-true (entry m v ∷ tab) zero h e = cc
  has_free-eq-true (entry m v ∷ tab) (suc j) h e = has_free-eq-true tab j (omega arith) e

  pub has_free-eq-false :
      (tab : List (Slot V))
      → ((j : ℕ) → j < length tab → is_free (get_or tab j empty) ≡ false)
      → has_free tab ≡ false
  unfolding has_free
  has_free-eq-false [] h = refl
  has_free-eq-false (empty ∷ tab) h = cc (h 0 (omega arith))
  has_free-eq-false (deleted ∷ tab) h = cc (h 0 (omega arith))
  has_free-eq-false (entry m v ∷ tab) h = has_free-eq-false tab (λ j p. h (suc j) (omega arith))

  -- the slots that hold a name
  unfoldable pub count_live : List (Slot V) → ℕ
  count_live [] = 0
  count_live (entry m v ∷ tab) = 1 + count_live tab
  count_live (_ ∷ tab) = count_live tab

  abbrev pub live : Slot V → ℕ
  live (entry m v) = 1
  live _ = 0

  pub count_live-set :
      (tab : List (Slot V)) (j : ℕ) (s : Slot V)
      → j < length tab
      → count_live (set tab j s) + live (get_or tab j empty) ≡ count_live tab + live s
  unfolding count_live
  count_live-set [] j s h = absurd (omega arith)
  count_live-set (empty ∷ tab) zero (entry m v) h = omega arith
  count_live-set (empty ∷ tab) zero empty h = omega arith
  count_live-set (empty ∷ tab) zero deleted h = omega arith
  count_live-set (deleted ∷ tab) zero (entry m v) h = omega arith
  count_live-set (deleted ∷ tab) zero empty h = omega arith
  count_live-set (deleted ∷ tab) zero deleted h = omega arith
  count_live-set (entry n w ∷ tab) zero (entry m v) h = omega arith
  count_live-set (entry n w ∷ tab) zero empty h = omega arith
  count_live-set (entry n w ∷ tab) zero deleted h = omega arith
  count_live-set (empty ∷ tab) (suc j) s h = count_live-set tab j s (omega arith)
  count_live-set (deleted ∷ tab) (suc j) s h = count_live-set tab j s (omega arith)
  count_live-set (entry n w ∷ tab) (suc j) s h = omega (arith, count_live-set tab j s)

  pub count_live-le : (tab : List (Slot V)) → count_live tab ≤ length tab
  unfolding count_live
  count_live-le [] = omega arith
  count_live-le (empty ∷ tab) = omega (arith, count_live-le tab)
  count_live-le (deleted ∷ tab) = omega (arith, count_live-le tab)
  count_live-le (entry m v ∷ tab) = omega (arith, count_live-le tab)

  pub count_live-full : (tab : List (Slot V)) → count_live tab ≡ length tab → has_free tab ≡ false
  unfolding has_free count_live
  count_live-full [] h = refl
  count_live-full (empty ∷ tab) h = absurd (omega (arith, count_live-le tab))
  count_live-full (deleted ∷ tab) h = absurd (omega (arith, count_live-le tab))
  count_live-full (entry m v ∷ tab) h = count_live-full tab (omega arith)

  pub has_free-count_live :
      (tab : List (Slot V)) → count_live tab < length tab → has_free tab ≡ true
  unfolding has_free count_live
  has_free-count_live [] h = absurd (omega arith)
  has_free-count_live (empty ∷ tab) h = refl
  has_free-count_live (deleted ∷ tab) h = refl
  has_free-count_live (entry m v ∷ tab) h = has_free-count_live tab (omega arith)
