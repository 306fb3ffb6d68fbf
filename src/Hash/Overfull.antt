-- ===== src/Hash/Overfull.antt =====
-- src/hash.c: a table with as many names as slots.
use newsbaoter.Common.{
  ◌+◌, ◌≤◌, ◌≡◌, refl, inl, inr, Bool-cases, ◌∙◌, ap, Bool, true, false, not, ◌||◌, ◌&&◌, Option,
  some, List, [], ◌∷◌, Bytes, length, str_eq, str_eq_iff, if◌then◌else◌, arith,
}
use newsbaoter.Common.Run.{Run, ok, fault, out_of_bounds, ◌>>=◌, Returns}
use newsbaoter.Hash.{Table, init_table, set_hash_var, unset_hash_var, get_hash_var}
use newsbaoter.Hash.View.{has_name, count_live, count_live-full}
use newsbaoter.Hash.Valid.{IsValid}
use newsbaoter.Hash.Laws.{set-Writes, overfull_fault}
use newsbaoter.Hash.Refine.{init-IsValid, init-empty, usable}

unfoldable pub contains : List Bytes → Bytes → Bool
contains [] m = false
contains (n ∷ ns) m = str_eq n m || contains ns m

-- no name twice
unfoldable pub distinct : List Bytes → Bool
unfolding contains
distinct [] = true
distinct (n ∷ ns) = not (contains ns n) && distinct ns

-- what `distinct` says of its head and its tail
distinct-cons :
    (n : Bytes) (ns : List Bytes)
    → distinct (n ∷ ns) ≡ true
    → (contains ns n ≡ false) × (distinct ns ≡ true) × (contains (n ∷ ns) n ≡ true)
unfolding distinct contains
distinct-cons n ns d = ground (arith, str_eq_iff n n)

module _ {ℓ} {V : Type ℓ} where
  unfoldable pub set_all : List Bytes → Option V → Table V → Run (Table V)
  set_all [] v t = ok t
  set_all (n ∷ ns) v t = set_hash_var n v t >>= set_all ns v

  -- `t'` is valid and has the names of `ns` beside those of `t`, counted apart.
  record Filled (ns : List Bytes) (t t' : Table V) : Type ℓ where
    valid : IsValid t'
    counted : count_live t'.tab ≡ count_live t.tab + length ns
    names : (m : Bytes) → has_name t'.tab m ≡ (contains ns m || has_name t.tab m)

  absent_after :
      (n : Bytes) (ns : List Bytes) (t t' : Table V)
      → contains ns n ≡ false
      → ((m : Bytes) → has_name t'.tab m ≡ (if str_eq n m then true else has_name t.tab m))
      → ((m : Bytes) → contains (n ∷ ns) m ≡ true → has_name t.tab m ≡ false)
      → (m : Bytes) → contains ns m ≡ true
      → has_name t'.tab m ≡ false
  unfolding contains
  absent_after n ns t t' new names absent m h = elim (Bool-cases (str_eq n m)) [
    | inl same ↦ cc (ap (contains ns) ((str_eq_iff n m).0 same))
    | inr other ↦ ground (arith, names m, absent m)
  ]

  names_after :
      (n : Bytes) (ns : List Bytes) (t t' t'' : Table V) (m : Bytes)
      → has_name t'.tab m ≡ (if str_eq n m then true else has_name t.tab m)
      → has_name t''.tab m ≡ (contains ns m || has_name t'.tab m)
      → has_name t''.tab m ≡ (contains (n ∷ ns) m || has_name t.tab m)
  unfolding contains
  names_after n ns t t' t'' m one rest = ground arith

  set_all-Filled :
      (ns : List Bytes) (v : Option V) (t : Table V)
      → IsValid t
      → distinct ns ≡ true
      → ((m : Bytes) → contains ns m ≡ true → has_name t.tab m ≡ false)
      → count_live t.tab + length ns ≤ 32
      → Returns (set_all ns v t) (Filled ns t)
  unfolding set_all
  set_all-Filled [] v t valid d absent room = (
    t,
    refl,
    record { valid = valid; counted = omega arith; names = λ m. unfold contains in refl },
  )
  set_all-Filled (n ∷ ns) v t valid d absent room =
      let (fresh, later, self) = distinct-cons n ns d in
      let (t', run, w) = set-Writes t valid n v (usable t valid n (omega arith)) in
      let one : count_live t'.tab ≡ count_live t.tab + 1 =
        omega (arith, rw (absent n self) at (w.counts)) in
      let (t'', runs, f) =
        set_all-Filled ns v t' w.valid later (absent_after n ns t t' fresh w.names absent)
          (omega arith) in
      (
        t'',
        rw (run, runs),
        record {
          valid = f.valid;
          counted = omega (arith, f.counted);
          names = λ m. names_after n ns t t' t'' m (w.names m) (f.names m);
        },
      )

  -- From `init` on, 32 calls of `set` with different names all succeed, and after them `get`, `set`
  -- and `unset` with any further name access `tab[-1]`.
  pub set_all-overfull :
      (ns : List Bytes) (v : Option V) (m : Bytes)
      → distinct ns ≡ true
      → length ns ≡ 32
      → contains ns m ≡ false
      → Returns (set_all ns v init_table) λ t.
        (get_hash_var (some m) t ≡ fault out_of_bounds)
        × (set_hash_var m v t ≡ fault out_of_bounds)
        × (unset_hash_var m t ≡ fault out_of_bounds)
  set_all-overfull ns v m d len new =
      let (t, run, f) =
        set_all-Filled ns v init_table init-IsValid d (λ n h. unfold init_table has_name in refl)
          (omega (arith, (init-empty {V = V}).0)) in
      let taken =
        count_live-full t.tab (omega (arith, f.counted, f.valid.sized, (init-empty {V = V}).0)) in
      let absent : has_name t.tab m ≡ false =
        f.names m ∙ rw new (unfold init_table has_name in refl) in
      (t, run, overfull_fault t f.valid m v taken absent)
