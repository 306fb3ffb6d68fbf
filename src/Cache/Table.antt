-- ===== src/Cache/Table.antt =====
-- What the statements of src/sql ask of an SQLite table: its rows in the order of their keys.
use mathlib.Core.Option.{some-injective, none-ne-some}
use newsbaoter.Common.{
  ℕ, ◌+◌, ◌<◌, ◌≡◌, sym, ◌∙◌, ap, subst, Bool, true, false, Bool-cases, inl, inr, Option, none,
  some, List, [], ◌∷◌, max, ltb, ◌==◌, ==_iff, if◌then◌else◌, arith,
}

module _ {R : Type 0} where
  -- The first row for which the test holds.
  unfoldable pub select : (R → Bool) → List R → Option R
  select p [] = none
  select p (x ∷ xs) = if p x then some x else select p xs

  -- DELETE, by what stays
  unfoldable pub keep : (R → Bool) → List R → List R
  keep p [] = []
  keep p (x ∷ xs) = if p x then x ∷ keep p xs else keep p xs

  -- UPDATE
  unfoldable pub change : (R → R) → List R → List R
  change f [] = []
  change f (x ∷ xs) = f x ∷ change f xs

  -- COUNT
  unfoldable pub count : (R → Bool) → List R → ℕ
  count p [] = 0
  count p (x ∷ xs) = (if p x then 1 else 0) + count p xs

  abbrev pub All : (R → Type 0) → List R → Type 0
  All P [] = Unit
  All P (x ∷ xs) = P x × All P xs

  pub All-map : {P Q : R → Type 0} (xs : List R) → ((x : R) → P x → Q x) → All P xs → All Q xs
  All-map [] f h = tt
  All-map (x ∷ xs) f h = (f x h.0, All-map xs f h.1)

module _ {R : Type 0} (key : R → ℕ) where
  -- INSERT OR REPLACE of a row whose key is given
  unfoldable pub put : R → List R → List R
  put r [] = r ∷ []
  put r (x ∷ xs) =
      if key x == key r then r ∷ xs else if ltb (key r) (key x) then r ∷ x ∷ xs else x ∷ put r xs

  -- the key that a new row gets
  unfoldable pub new_key : List R → ℕ
  new_key [] = 1
  new_key (x ∷ xs) = max (key x + 1) (new_key xs)

  -- The rows stand in the order of their keys, and no key is there twice.
  abbrev pub Ascending : List R → Type 0
  Ascending [] = Unit
  Ascending (x ∷ xs) = All (λ y. key x < key y) xs × Ascending xs

  pub All-put : (P : R → Type 0) (r : R) (xs : List R) → P r → All P xs → All P (put r xs)
  unfolding put
  All-put P r [] p h = (p, tt)
  All-put P r (x ∷ xs) p h = elim (Bool-cases (key x == key r)) [
    | inl e ↦ rw e (p, h.1)
    | inr ne ↦ elim (Bool-cases (ltb (key r) (key x))) [
      | inl lt ↦ rw (ne, lt) (p, h)
      | inr ge ↦ rw (ne, ge) (h.0, All-put P r xs p h.1)
    ]
  ]

  lt_of_ge : (a b : ℕ) → (a == b) ≡ false → ltb b a ≡ false → a < b
  lt_of_ge a b h k = ground arith

  lt_of_ltb : (a b : ℕ) → ltb a b ≡ true → a < b
  lt_of_ltb a b h = ground arith

  ne_of_lt : (a b : ℕ) → a < b → (a == b) ≡ false
  ne_of_lt a b h = ground arith

  not_ltb : (a b : ℕ) → b < a → ltb a b ≡ false
  not_ltb a b h = ground arith

  pub Ascending-put : (r : R) (xs : List R) → Ascending xs → Ascending (put r xs)
  unfolding put
  Ascending-put r [] h = (tt, tt)
  Ascending-put r (x ∷ xs) h = elim (Bool-cases (key x == key r)) [
    | inl e ↦
        rw e (All-map xs (λ y. subst (λ k. k < key y) ((==_iff (key x) (key r)).0 e)) h.0, h.1)
    | inr ne ↦ elim (Bool-cases (ltb (key r) (key x))) [
      | inl lt ↦
          rw (ne, lt)
            ((lt_of_ltb _ _ lt, All-map xs (λ y k. omega (arith, lt_of_ltb _ _ lt)) h.0), h)
      | inr ge ↦ rw (ne, ge) (All-put _ r xs (lt_of_ge _ _ ne ge) h.0, Ascending-put r xs h.1)
    ]
  ]

  pub select-All :
      (P : R → Type 0) (p : R → Bool) (xs : List R) (x : R) → All P xs → select p xs ≡ some x → P x
  unfolding select
  select-All P p [] x h e = cc
  select-All P p (y ∷ ys) x h e = elim (Bool-cases (p y)) [
    | inl t ↦ subst P (some-injective y x (rw t at e)) h.0
    | inr f ↦ select-All P p ys x h.1 (rw f at e)
  ]

  pub select-holds : (p : R → Bool) (xs : List R) (x : R) → select p xs ≡ some x → p x ≡ true
  unfolding select
  select-holds p [] x e = cc
  select-holds p (y ∷ ys) x e = elim (Bool-cases (p y)) [
    | inl t ↦ subst (λ z. p z ≡ true) (some-injective y x (rw t at e)) t
    | inr f ↦ select-holds p ys x (rw f at e)
  ]

  pub select-put_hit :
      (p : R → Bool) (r : R) (xs : List R) (x : R)
      → Ascending xs
      → select p xs ≡ some x
      → key r ≡ key x
      → p r ≡ true
      → select p (put r xs) ≡ some r
  unfolding select put
  select-put_hit p r [] x a e k t = cc
  select-put_hit p r (y ∷ ys) x a e k t = elim (Bool-cases (p y)) [
    | inl here ↦
        let same : y ≡ x = some-injective y x (rw here at e) in
        let keys : (key y == key r) ≡ true = (==_iff (key y) (key r)).1 (ap key same ∙ sym k) in
        rw (keys, t)
    | inr there ↦
        let e' : select p ys ≡ some x = rw there at e in
        let lt : key y < key x = select-All (λ z. key y < key z) p ys x a.0 e' in
        rw
          (
            ne_of_lt (key y) (key r) (omega (arith, lt, k)),
            not_ltb (key r) (key y) (omega (arith, lt, k)),
            there,
          )
          (select-put_hit p r ys x a.1 e' k t)
  ]

  pub select-put_new :
      (p : R → Bool) (r : R) (xs : List R)
      → All (λ y. key y < key r) xs
      → select p xs ≡ none
      → p r ≡ true
      → select p (put r xs) ≡ some r
  unfolding select put
  select-put_new p r [] a e t = rw t
  select-put_new p r (y ∷ ys) a e t = elim (Bool-cases (p y)) [
    | inl here ↦ absurd (none-ne-some y (sym (rw here at e)))
    | inr there ↦
        rw (ne_of_lt (key y) (key r) a.0, not_ltb (key r) (key y) a.0, there)
          (select-put_new p r ys a.1 (rw there at e) t)
  ]

  pub select-put_miss :
      (q : R → Bool) (r : R) (xs : List R)
      → q r ≡ false
      → All (λ y. key y ≡ key r → q y ≡ false) xs
      → select q (put r xs) ≡ select q xs
  unfolding select put
  select-put_miss q r [] f a = rw f
  select-put_miss q r (y ∷ ys) f a = elim (Bool-cases (key y == key r)) [
    | inl e ↦ rw (e, f, a.0 ((==_iff (key y) (key r)).0 e))
    | inr ne ↦ elim (Bool-cases (ltb (key r) (key y))) [
      | inl lt ↦ rw (ne, lt, f)
      | inr ge ↦ rw (ne, ge, select-put_miss q r ys f a.1)
    ]
  ]

  pub key-lt-new_key : (xs : List R) → All (λ y. key y < new_key xs) xs
  unfolding new_key
  key-lt-new_key [] = tt
  key-lt-new_key (x ∷ xs) = (omega arith, All-map xs (λ y h. omega (arith, h)) (key-lt-new_key xs))
