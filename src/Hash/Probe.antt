-- ===== src/Hash/Probe.antt =====
-- What `find_hash` finds in a well-formed table of 32 slots.
use newsbaoter.Common.{
  ℕ, zero, suc, ◌+◌, ◌-◌, ◌%◌, ◌<◌, ◌≡◌, ◌≢◌, refl, ◌∙◌, ap, subst, inl, inr, true, false, Option,
  none, some, List, [], ◌∷◌, Bytes, length, get_or, get_elem?, str_eq, str_eq_iff, Bool-cases,
  arith, dec_lt,
}
use native.Mathlib.Numerals.{add-one}
use newsbaoter.Common.Run.{Returns}
use newsbaoter.Hash.{Slot, empty, deleted, entry, hash_func, find_from, find_hash, add32}
use newsbaoter.Hash.View.{Lacks, is_free}

-- the index of round `d`
abbrev pub home : Bytes → ℕ → ℕ
home n d = add32 d (hash_func n) % 32

pub home_lt : (n : Bytes) (d : ℕ) → home n d < 32
home_lt n d = omega arith

-- Every slot is looked at, and once.
pub home_onto : (n : Bytes) (j : ℕ) → j < 32 → home n ((j + 32 - hash_func n % 32) % 32) ≡ j
home_onto n j h = omega arith

pub home_injective : (n : Bytes) (d e : ℕ) → d < 32 → e < 32 → home n d ≡ home n e → d ≡ e
home_injective n d e p q h = omega arith

pub get_elem?-get_or {ℓ} :
    {V : Type ℓ} (tab : List (Slot V)) (i : ℕ)
    → i < length tab
    → get_elem? tab i ≡ some (get_or tab i empty)
get_elem?-get_or [] i h = absurd (omega arith)
get_elem?-get_or (s ∷ tab) zero h = refl
get_elem?-get_or (s ∷ tab) (suc i) h = get_elem?-get_or tab i (omega arith)

module _ {ℓ} {V : Type ℓ} (tab : List (Slot V)) where
  abbrev pub probe : Bytes → ℕ → Slot V
  probe n d = get_or tab (home n d) empty

  -- An entry is met before the first NULL of its probe sequence.
  abbrev pub Placed : Type ℓ
  Placed =
      (n : Bytes) (d i : ℕ) (v : Option V)
      → d < 32
      → i < d
      → probe n d ≡ entry n v
      → probe n i ≢ empty

  abbrev pub AllLack : Bytes → ℕ → Type ℓ
  AllLack n k = (e : ℕ) → e < k → Lacks (probe n e) n

  abbrev pub NoneEmpty : Bytes → ℕ → Type ℓ
  NoneEmpty n k = (e : ℕ) → e < k → probe n e ≢ empty

  abbrev pub NoneFree : Bytes → ℕ → Type 0
  NoneFree n k = (e : ℕ) → e < k → is_free (probe n e) ≡ false

  -- The three ways in which the search ends.
  pub data Found (n : Bytes) : Option ℕ → Type ℓ where
    hit :
        {i : ℕ} (d : ℕ) (v : Option V)
        → d < 32
        → i ≡ home n d
        → probe n d ≡ entry n v
        → Found n (some i)
    room :
        {i : ℕ} (d : ℕ)
        → d < 32
        → i ≡ home n d
        → is_free (probe n d) ≡ true
        → NoneEmpty n d
        → AllLack n 32
        → Found n (some i)
    full : NoneFree n 32 → AllLack n 32 → Found n none

  -- what the loop knows of `ret` before round `i`
  data Kept (n : Bytes) (i : ℕ) : Option ℕ → Type ℓ where
    nothing : NoneFree n i → Kept n i none
    kept : {j : ℕ} (d : ℕ) → d < i → j ≡ home n d → is_free (probe n d) ≡ true → Kept n i (some j)

  below_suc {κ} :
      (P : ℕ → Type κ) (i : ℕ) → ((e : ℕ) → e < i → P e) → P i → (e : ℕ) → e < suc i → P e
  below_suc P i below at e h = elim (dec_lt e i) [
    | yes p ↦ below e p
    | no p ↦ subst P (omega arith) at
  ]

  Kept-suc :
      (n : Bytes) (i : ℕ) (ret : Option ℕ)
      → Kept n i ret
      → is_free (probe n i) ≡ false
      → Kept n (suc i) ret
  Kept-suc n i ret (nothing f) h = nothing (below_suc _ i f h)
  Kept-suc n i ret (kept d p q f) h = kept d (omega arith) q f

  module _ (n : Bytes) (sized : length tab ≡ 32) (placed : Placed) where
    -- a NULL in round `i`: no later round has the name
    lack_after : (i : ℕ) → i < 32 → AllLack n i → probe n i ≡ empty → AllLack n 32
    lack_after i h below z e p v q = elim (dec_lt e i) [
      | yes b ↦ below e b v q
      | no b ↦ elim (dec_lt i e) [
        | yes a ↦ placed n e i v p a q z
        | no a ↦ let same : e ≡ i = omega arith in cc (ap (probe n) same)
      ]
    ]

    -- The loop keeps the invariant up to its end; one round, on the slot that it looks at.
    find_from_round :
        (rounds i : ℕ) (ret : Option ℕ) (s : Slot V)
        → i < 32
        → NoneEmpty n i
        → AllLack n i
        → Kept n i ret
        → probe n i ≡ s
        → get_elem? tab (home n i) ≡ some s
        → ((r : Option ℕ)
            → NoneEmpty n (suc i)
            → AllLack n (suc i)
            → Kept n (suc i) r
            → Returns (find_from n (hash_func n) tab 32 rounds (i + 1) r) (Found n))
        → Returns (find_from n (hash_func n) tab 32 (suc rounds) i ret) (Found n)
    unfolding find_from
    find_from_round r i ret empty lt e l (nothing f) at read next = (
      some (home n i),
      rw (read, find_from),
      room i lt refl (rw at refl) e (lack_after i lt l at),
    )
    find_from_round r i ret empty lt e l (kept {j} d h q f) at read next = (
      some j,
      rw (read, find_from),
      room d (omega arith) q f (λ x y. e x (omega arith)) (lack_after i lt l at),
    )
    find_from_round r i ret deleted lt e l (nothing f) at read next =
        rw (read, find_from)
          (next (some (home n i)) (below_suc _ i e (λ z. cc)) (below_suc _ i l (λ v z. cc))
            (kept i (omega arith) refl (rw at refl)))
    find_from_round r i ret deleted lt e l (kept {j} d h q f) at read next =
        rw (read, find_from)
          (next (some j) (below_suc _ i e (λ z. cc)) (below_suc _ i l (λ v z. cc))
            (kept d (omega arith) q f))
    find_from_round r i ret (entry m v) lt e l k at read next = elim (Bool-cases (str_eq m n)) [
      | inl same ↦ (
        some (home n i),
        rw (read, find_from, same),
        hit i v lt refl (at ∙ ap (λ x. entry x v) ((str_eq_iff m n).0 same)),
      )
      | inr other ↦
          rw (read, find_from, other)
            (next ret (below_suc _ i e (λ z. cc))
              (below_suc _ i l (λ w z. ground (arith, str_eq_iff m n)))
              (Kept-suc n i ret k (rw at refl)))
    ]

    find_from-Found :
        (rounds i : ℕ) (ret : Option ℕ)
        → i + rounds ≡ 32
        → NoneEmpty n i
        → AllLack n i
        → Kept n i ret
        → Returns (find_from n (hash_func n) tab 32 rounds i ret) (Found n)
    find_from-Found zero i ret at e l (nothing f) =
        (none, unfold find_from in refl, full (λ d h. f d (omega arith)) (λ d h. l d (omega arith)))
    find_from-Found zero i ret at e l (kept {j} d h q f) = (
      some j,
      unfold find_from in refl,
      room d (omega arith) q f (λ x y. e x (omega arith)) (λ x y. l x (omega arith)),
    )
    find_from-Found (suc r) i ret at e l k =
        find_from_round r i ret (probe n i) (omega arith) e l k refl
          (get_elem?-get_or tab (home n i) (omega (arith, home_lt n i)))
          (λ x e' l' k'. rw (add-one i) (find_from-Found r (suc i) x (omega arith) e' l' k'))

    pub find_hash-Found : Returns (find_hash n (hash_func n) tab 32) (Found n)
    unfolding find_hash
    find_hash-Found =
        find_from-Found 32 0 none refl (λ e h. absurd (omega arith)) (λ e h. absurd (omega arith))
          (nothing (λ e h. absurd (omega arith)))
