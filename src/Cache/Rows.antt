-- ===== src/Cache/Rows.antt =====
-- UPDATE and DELETE on rows, and rows that no two of are the same to a test.
use mathlib.Core.Option.{some-injective, none-ne-some}
use newsbaoter.Common.{
  ℕ, ◌<◌, ◌≡◌, ◌≢◌, refl, sym, ◌∙◌, ap, subst, Bool, true, false, Bool-cases, Option-cases, inl,
  inr, Option, none, some, List, [], ◌∷◌, ltb, ◌==◌, ==_iff, if◌then◌else◌, arith,
}
use newsbaoter.Cache.Table.{
  select, keep, change, All, All-map, put, new_key, Ascending, All-put, select-All, select-holds,
}
use newsbaoter.Cache.Upsert.{key_of}

module _ {R : Type 0} where
  -- No two rows are the same.
  abbrev pub Distinct : (R → R → Bool) → List R → Type 0
  Distinct same [] = Unit
  Distinct same (x ∷ xs) = All (λ y. same x y ≡ false) xs × Distinct same xs

  abbrev pub changed : (R → R) → Option R → Option R
  changed f none = none
  changed f (some x) = some (f x)

  -- what a DELETE leaves of a row
  abbrev pub kept : (R → Bool) → Option R → Option R
  kept k none = none
  kept k (some x) = if k x then some x else none

  All-apply : (P Q : R → Type 0) (xs : List R) → All (λ y. P y → Q y) xs → All P xs → All Q xs
  All-apply P Q [] f a = tt
  All-apply P Q (x ∷ xs) f a = (f.0 a.0, All-apply P Q xs f.1 a.1)

  pub select-change :
      (p : R → Bool) (f : R → R) (xs : List R)
      → ((x : R) → p (f x) ≡ p x)
      → select p (change f xs) ≡ changed f (select p xs)
  unfolding select change
  select-change p f [] h = refl
  select-change p f (x ∷ xs) h = elim (Bool-cases (p x)) [
    | inl t ↦ rw (h x, t)
    | inr n ↦ rw (h x, n, select-change p f xs h)
  ]

  All-change :
      (P : R → Type 0) (f : R → R) (xs : List R)
      → ((x : R) → P x → P (f x))
      → All P xs
      → All P (change f xs)
  unfolding change
  All-change P f [] h a = tt
  All-change P f (x ∷ xs) h a = (h x a.0, All-change P f xs h a.1)

  pub Ascending-change :
      (key : R → ℕ) (f : R → R) (xs : List R)
      → ((x : R) → key (f x) ≡ key x)
      → Ascending key xs
      → Ascending key (change f xs)
  unfolding change
  Ascending-change key f [] h a = tt
  Ascending-change key f (x ∷ xs) h a = (
    All-change _ f xs (λ y lt. omega (arith, lt, h x, h y))
        (All-map xs (λ y lt. omega (arith, lt, h x)) a.0),
    Ascending-change key f xs h a.1,
  )

  pub Distinct-change :
      (same : R → R → Bool) (f : R → R) (xs : List R)
      → ((x y : R) → same (f x) (f y) ≡ same x y)
      → ((x y : R) → same (f x) y ≡ same x y)
      → Distinct same xs
      → Distinct same (change f xs)
  unfolding change
  Distinct-change same f [] h k a = tt
  Distinct-change same f (x ∷ xs) h k a = (
    All-change (λ y. same (f x) y ≡ false) f xs (λ y e. h x y ∙ sym (k x y) ∙ e)
        (All-map xs (λ y e. k x y ∙ e) a.0),
    Distinct-change same f xs h k a.1,
  )

  All-keep : (P : R → Type 0) (k : R → Bool) (xs : List R) → All P xs → All P (keep k xs)
  unfolding keep
  All-keep P k [] a = tt
  All-keep P k (x ∷ xs) a = elim (Bool-cases (k x)) [
    | inl t ↦ rw t (a.0, All-keep P k xs a.1)
    | inr n ↦ rw n (All-keep P k xs a.1)
  ]

  pub Ascending-keep :
      (key : R → ℕ) (k : R → Bool) (xs : List R) → Ascending key xs → Ascending key (keep k xs)
  unfolding keep
  Ascending-keep key k [] a = tt
  Ascending-keep key k (x ∷ xs) a = elim (Bool-cases (k x)) [
    | inl t ↦ rw t (All-keep _ k xs a.0, Ascending-keep key k xs a.1)
    | inr n ↦ rw n (Ascending-keep key k xs a.1)
  ]

  pub Distinct-keep :
      (same : R → R → Bool) (k : R → Bool) (xs : List R)
      → Distinct same xs
      → Distinct same (keep k xs)
  unfolding keep
  Distinct-keep same k [] a = tt
  Distinct-keep same k (x ∷ xs) a = elim (Bool-cases (k x)) [
    | inl t ↦ rw t (All-keep _ k xs a.0, Distinct-keep same k xs a.1)
    | inr n ↦ rw n (Distinct-keep same k xs a.1)
  ]

  select-keep-none :
      (p k : R → Bool) (xs : List R) → All (λ y. p y ≡ false) xs → select p (keep k xs) ≡ none
  unfolding select keep
  select-keep-none p k [] a = refl
  select-keep-none p k (x ∷ xs) a = elim (Bool-cases (k x)) [
    | inl t ↦ rw (t, a.0, select-keep-none p k xs a.1)
    | inr n ↦ rw (n, select-keep-none p k xs a.1)
  ]

  pub select-keep :
      (same : R → R → Bool) (p k : R → Bool) (xs : List R)
      → ((x y : R) → p x ≡ true → same x y ≡ false → p y ≡ false)
      → Distinct same xs
      → select p (keep k xs) ≡ kept k (select p xs)
  unfolding select keep
  select-keep same p k [] h d = refl
  select-keep same p k (x ∷ xs) h d = elim (Bool-cases (p x)) [
    | inl here ↦ elim (Bool-cases (k x)) [
      | inl t ↦ rw (here, t, here)
      | inr n ↦ rw (here, n, select-keep-none p k xs (All-map xs (λ y e. h x y here e) d.0))
    ]
    | inr there ↦ elim (Bool-cases (k x)) [
      | inl t ↦ rw (there, t, there, select-keep same p k xs h d.1)
      | inr n ↦ rw (there, n, select-keep same p k xs h d.1)
    ]
  ]

lt_of_ltb : (a b : ℕ) → ltb a b ≡ true → a < b
lt_of_ltb a b h = ground arith

module _ {R : Type 0} (key : R → ℕ) (same : R → R → Bool) where
  Distinct-put :
      (r : R) (xs : List R)
      → All (λ y. key y ≢ key r → (same r y ≡ false) × (same y r ≡ false)) xs
      → Ascending key xs
      → Distinct same xs
      → Distinct same (put key r xs)
  unfolding put
  Distinct-put r [] n a d = (tt, tt)
  Distinct-put r (x ∷ xs) n a d = elim (Bool-cases (key x == key r)) [
    | inl e ↦ rw e (
      All-apply _ _ xs
          (All-map xs (λ y f lt. (f (λ k. omega (arith, lt, k, (==_iff (key x) (key r)).0 e))).0)
            n.1)
          a.0,
      d.1,
    )
    | inr ne ↦ elim (Bool-cases (ltb (key r) (key x))) [
      | inl lt ↦
          rw (ne, lt)
            (
              (
                (n.0 (λ k. omega (arith, k, lt_of_ltb _ _ lt))).0,
                All-apply _ _ xs
                    (All-map xs (λ y f gt. (f (λ k. omega (arith, gt, k, lt_of_ltb _ _ lt))).0) n.1)
                    a.0,
              ),
              d,
            )
      | inr ge ↦
          rw (ne, ge)
            (
              All-put key (λ y. same x y ≡ false) r xs
                  (n.0 (λ k. cc (ne, (==_iff (key x) (key r)).1 k))).1 d.0,
              Distinct-put r xs n.1 a.1 d.1,
            )
    ]
  ]

  -- a test that sorts the rows into classes
  pub record IsClass : Type 0 where
    pub symm : (x y : R) → same x y ≡ true → same y x ≡ true
    pub trans : (x y z : R) → same x y ≡ true → same y z ≡ true → same x z ≡ true

  module _ (classes : IsClass) where
    not_true : (b : Bool) → (b ≡ true → ⊥) → b ≡ false
    not_true true h = absurd (h refl)
    not_true false h = refl

    symm_false : (x y : R) → same x y ≡ false → same y x ≡ false
    symm_false x y e = not_true _ (λ t. cc (e, classes.symm y x t))

    others :
        (p : R → Bool) (xs : List R) (x : R)
        → Ascending key xs
        → Distinct same xs
        → select p xs ≡ some x
        → All (λ y. key y ≢ key x → same x y ≡ false) xs
    unfolding select
    others p [] x a d e = tt
    others p (y ∷ ys) x a d e = elim (Bool-cases (p y)) [
      | inl here ↦
          let eq : y ≡ x = some-injective y x (rw here at e) in
          (
            (λ n. absurd (n (ap key eq))),
            subst (λ w. All (λ z. key z ≢ key x → same w z ≡ false) ys) eq
                (All-map ys (λ z f n. f) d.0),
          )
      | inr there ↦
          let e' : select p ys ≡ some x = rw there at e in
          (
            (λ n. symm_false y x (select-All key (λ z. same y z ≡ false) p ys x d.0 e')),
            others p ys x a.1 d.1 e',
          )
    ]

    All-false : (p : R → Bool) (xs : List R) → select p xs ≡ none → All (λ y. p y ≡ false) xs
    unfolding select
    All-false p [] e = tt
    All-false p (x ∷ xs) e = elim (Bool-cases (p x)) [
      | inl t ↦ absurd (none-ne-some x (sym (rw t at e)))
      | inr f ↦ (f, All-false p xs (rw f at e))
    ]

    pub Distinct-upsert :
        (r : R) (xs : List R)
        → key r ≡ key_of key (select (same r) xs) (new_key key xs)
        → Ascending key xs
        → Distinct same xs
        → Distinct same (put key r xs)
    Distinct-upsert r xs k a d = elim (Option-cases (select (same r) xs)) [
      | inl e ↦
          Distinct-put r xs (All-map xs (λ y f n. (f, symm_false r y f)) (All-false (same r) xs e))
            a d
      | inr (x, e) ↦
          let keys : key r ≡ key x = k ∙ ap (λ o. key_of key o (new_key key xs)) e in
          let found = select-holds key (same r) xs x e in
          Distinct-put r xs
            (All-map xs
              (λ y f n.
                let apart = not_true (same r y) (λ t.
                  cc (f (λ i. n (i ∙ sym keys)), classes.trans x r y (classes.symm r x found) t)) in
                (apart, symm_false r y apart))
              (others (same r) xs x a d e))
            a d
    ]
