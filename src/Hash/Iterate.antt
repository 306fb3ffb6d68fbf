-- ===== src/Hash/Iterate.antt =====
-- The loop `while((p=next_uikey_pair(&off,&name)))` of src/ui/keys.c over a table.
use newsbaoter.Common.{
  ℕ, zero, suc, ◌+◌, ◌-◌, ◌<◌, ◌≤◌, ◌≡◌, ◌≢◌, refl, sym, ◌∙◌, Option, none, some, List, [], ◌∷◌,
  Bytes, length, get_elem?, drop, arith,
}
use native.Mathlib.Numerals.{add-one}
use newsbaoter.Common.Int.{ℤ, pos}
use newsbaoter.Common.Run.{Run, ok, fault, diverges, ◌>>=◌, Returns}
use newsbaoter.Hash.{Slot, Table, empty, deleted, entry, next_from, next_hash_pair}
use newsbaoter.Hash.Valid.{IsValid}

module _ {ℓ} {V : Type ℓ} where
  -- The pairs that the loop sees; it ends at a NULL value.
  unfoldable pub visit_pairs : ℕ → ℤ → Table V → Run (List (Bytes × V))
  visit_pairs zero offset t = fault diverges
  visit_pairs (suc fuel) offset t = elim (next_hash_pair offset t) [
    | fault e ↦ fault e
    | ok (off, some n, some v) ↦ visit_pairs fuel off t >>= λ rest. ok ((n, v) ∷ rest)
    | ok (off, _, _) ↦ ok []
  ]

  unfoldable pub entries : List (Slot V) → List (Bytes × V)
  entries [] = []
  entries (entry n (some v) ∷ tab) = (n, v) ∷ entries tab
  entries (_ ∷ tab) = entries tab

  abbrev pub NoNull : List (Slot V) → Type 0
  NoNull [] = Unit
  NoNull (entry n none ∷ tab) = ⊥
  NoNull (_ ∷ tab) = NoNull tab

  -- what the entries from `i` on are, by the slot at `i`
  entries-drop :
      (tab : List (Slot V)) (i : ℕ) (s : Slot V)
      → get_elem? tab i ≡ some s
      → entries (drop i tab) ≡ entries (s ∷ drop (suc i) tab)
  unfolding entries
  entries-drop [] i s h = cc
  entries-drop (x ∷ tab) zero s h = cc
  entries-drop (x ∷ tab) (suc i) s h = entries-drop tab i s h

  not_null :
      (tab : List (Slot V)) (i : ℕ) (n : Bytes) → NoNull tab → get_elem? tab i ≢ some (entry n none)
  not_null [] i n h e = cc
  not_null (empty ∷ tab) zero n h e = cc
  not_null (deleted ∷ tab) zero n h e = cc
  not_null (entry m (some v) ∷ tab) zero n h e = cc
  not_null (entry m none ∷ tab) i n h e = absurd h
  not_null (empty ∷ tab) (suc i) n h e = not_null tab i n h e
  not_null (deleted ∷ tab) (suc i) n h e = not_null tab i n h e
  not_null (entry m (some v) ∷ tab) (suc i) n h e = not_null tab i n h e

  drop_past : (tab : List (Slot V)) (i : ℕ) → length tab ≤ i → drop i tab ≡ []
  drop_past [] zero h = refl
  drop_past [] (suc i) h = refl
  drop_past (x ∷ tab) zero h = absurd (omega arith)
  drop_past (x ∷ tab) (suc i) h = drop_past tab i (omega arith)

  at_index :
      (tab : List (Slot V)) (i : ℕ) → i < length tab → (s : Slot V) × (get_elem? tab i ≡ some s)
  at_index [] i h = absurd (omega arith)
  at_index (x ∷ tab) zero h = (x, refl)
  at_index (x ∷ tab) (suc i) h = at_index tab i (omega arith)

  -- what `next_hash_pair` gives from offset `i` on
  data Next (tab : List (Slot V)) (i : ℕ) : Option (ℕ × Bytes × Option V) → Type ℓ where
    last : entries (drop i tab) ≡ [] → Next tab i none
    pair :
        (j : ℕ) (n : Bytes) (v : V)
        → i < j
        → j ≤ length tab
        → entries (drop i tab) ≡ (n, v) ∷ entries (drop j tab)
        → Next tab i (some (j, n, some v))

  Next-skip :
      (tab : List (Slot V)) (i : ℕ) (o : Option (ℕ × Bytes × Option V))
      → entries (drop i tab) ≡ entries (drop (suc i) tab)
      → Next tab (suc i) o
      → Next tab i o
  Next-skip tab i o e (last h) = last (e ∙ h)
  Next-skip tab i o e (pair j n v p q h) = pair j n v (omega arith) q (e ∙ h)

  next_from-Next :
      (tab : List (Slot V)) (rounds i : ℕ)
      → i + rounds ≡ length tab
      → NoNull tab
      → Returns (next_from tab rounds i) (Next tab i)
  unfolding next_from
  next_from-Next tab zero i at full =
      (none, refl, last (rw (drop_past tab i (omega arith)) (unfold entries in refl)))
  next_from-Next tab (suc r) i at full =
      let (s, read) = at_index tab i (omega arith) in
      round s read (λ q. next_from-Next tab r (suc i) q full)
    where
      skip :
          (s : Slot V)
          → entries (drop i tab) ≡ entries (drop (suc i) tab)
          → ((suc i + r ≡ length tab) → Returns (next_from tab r (suc i)) (Next tab (suc i)))
          → Returns (next_from tab r (i + 1)) (Next tab i)
      skip s e next =
          let (o, run, h) = next (omega arith) in (o, rw (add-one i) run, Next-skip tab i o e h)

      round :
          (s : Slot V)
          → get_elem? tab i ≡ some s
          → ((suc i + r ≡ length tab) → Returns (next_from tab r (suc i)) (Next tab (suc i)))
          → Returns (next_from tab (suc r) i) (Next tab i)
      round empty read next =
          rw (read, next_from)
            (skip empty (entries-drop tab i empty read ∙ unfold entries in refl) next)
      round deleted read next =
          rw (read, next_from)
            (skip deleted (entries-drop tab i deleted read ∙ unfold entries in refl) next)
      round (entry n none) read next = absurd (not_null tab i n full read)
      round (entry n (some v)) read next = (
        some (i + 1, n, some v),
        rw (read, next_from),
        pair (i + 1) n v (omega arith) (omega arith)
            (entries-drop tab i (entry n (some v)) read ∙ rw (add-one i) (unfold entries in refl)),
      )

  visit_from :
      (fuel i : ℕ) (t : Table V)
      → t.size ≡ length t.tab
      → NoNull t.tab
      → i ≤ length t.tab
      → length t.tab < i + fuel
      → visit_pairs fuel (pos i) t ≡ ok (entries (drop i t.tab))
  unfolding visit_pairs next_hash_pair
  visit_from zero i t sized full p q = absurd (omega arith)
  visit_from (suc fuel) i t sized full p q =
      let (o, run, next) = next_from-Next t.tab (t.size - i) i (omega arith) full in
      step o run next (λ j b r. visit_from fuel j t sized full b r)
    where
      step :
          (o : Option (ℕ × Bytes × Option V))
          → next_from t.tab (t.size - i) i ≡ ok o
          → Next t.tab i o
          → ((j : ℕ)
              → j ≤ length t.tab
              → length t.tab < j + fuel
              → visit_pairs fuel (pos j) t ≡ ok (entries (drop j t.tab)))
          → visit_pairs (suc fuel) (pos i) t ≡ ok (entries (drop i t.tab))
      step none run (last h) again = rw (run, visit_pairs, h)
      step (some _) run (pair j n v a b h) again = rw (run, visit_pairs, h, again j b (omega arith))

  -- On a valid table without NULL values the loop ends, and has seen each entry once, in order.
  pub visit_pairs-entries :
      (t : Table V) → IsValid t → NoNull t.tab → visit_pairs 33 (pos 0) t ≡ ok (entries t.tab)
  visit_pairs-entries t valid full =
      visit_from 33 0 t (valid.size_is ∙ sym valid.sized) full (omega arith)
        (omega (arith, valid.sized))
