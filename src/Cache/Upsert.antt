-- ===== src/Cache/Upsert.antt =====
-- INSERT OR REPLACE with the key of the row that a test finds, or a new one.
use mathlib.Core.Option.{some-injective}
use newsbaoter.Common.{
  ℕ, ◌<◌, ◌≡◌, sym, ◌∙◌, ap, subst, Bool, true, false, Bool-cases, Option-cases, inl, inr, Option,
  none, some, List, [], ◌∷◌, arith,
}
use newsbaoter.Cache.Table.{
  select, All, All-map, put, new_key, Ascending, select-All, select-holds, select-put_hit,
  select-put_new, select-put_miss, key-lt-new_key,
}

module _ {R : Type 0} (key : R → ℕ) where
  -- the key of the row found
  abbrev pub key_of : Option R → ℕ → ℕ
  key_of none k = k
  key_of (some x) k = key x

  at_key :
      (p : R → Bool) (Q : R → Type 0) (xs : List R) (x : R)
      → Ascending key xs
      → select p xs ≡ some x
      → Q x
      → All (λ y. key y ≡ key x → Q y) xs
  unfolding select
  at_key p Q [] x a e q = tt
  at_key p Q (y ∷ ys) x a e q = elim (Bool-cases (p y)) [
    | inl here ↦
        let same : y ≡ x = some-injective y x (rw here at e) in
        (
          (λ k. subst Q (sym same) q),
          All-map ys (λ z lt k. absurd (omega (arith, lt, k, ap key same))) a.0,
        )
    | inr there ↦
        let e' : select p ys ≡ some x = rw there at e in
        let lt : key y < key x = select-All key (λ z. key y < key z) p ys x a.0 e' in
        ((λ k. absurd (omega (arith, lt, k))), at_key p Q ys x a.1 e' q)
  ]

  module _ (p : R → Bool) (r : R) (xs : List R) (asc : Ascending key xs)
      (keyed : key r ≡ key_of (select p xs) (new_key key xs)) where
    keyed_hit : (x : R) → select p xs ≡ some x → key r ≡ key x
    keyed_hit x e = keyed ∙ ap (λ o. key_of o (new_key key xs)) e

    keyed_new : select p xs ≡ none → key r ≡ new_key key xs
    keyed_new e = keyed ∙ ap (λ o. key_of o (new_key key xs)) e

    above : select p xs ≡ none → All (λ y. key y < key r) xs
    above e = All-map xs (λ y h. omega (arith, h, keyed_new e)) (key-lt-new_key key xs)

    pub select-upsert : p r ≡ true → select p (put key r xs) ≡ some r
    select-upsert t = elim (Option-cases (select p xs)) [
      | inl e ↦ select-put_new key p r xs (above e) e t
      | inr (x, e) ↦ select-put_hit key p r xs x asc e (keyed_hit x e) t
    ]

    -- what a row that is replaced satisfies
    pub replaced :
        (Q : R → Type 0)
        → ((x : R) → select p xs ≡ some x → Q x)
        → All (λ y. key y ≡ key r → Q y) xs
    replaced Q h = elim (Option-cases (select p xs)) [
      | inl e ↦ All-map xs (λ y lt k. absurd (omega (arith, lt, k))) (above e)
      | inr (x, e) ↦ All-map xs (λ y f k. f (k ∙ keyed_hit x e)) (at_key p Q xs x asc e (h x e))
    ]

    pub select-upsert_ne :
        (q : R → Bool)
        → ((y : R) → p y ≡ true → q y ≡ false)
        → q r ≡ false
        → select q (put key r xs) ≡ select q xs
    select-upsert_ne q apart f =
        select-put_miss key q r xs f
          (replaced (λ y. q y ≡ false) (λ x e. apart x (select-holds key p xs x e)))
