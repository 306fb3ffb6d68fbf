-- ===== src/Hash/Safe.antt =====
-- src/hash.c: a search does not use a row of the screen.
use newsbaoter.Common.{
  ℕ, zero, suc, ◌+◌, ◌%◌, refl, Option, none, some, List, Bytes, get_elem?, str_eq, if◌then◌else◌,
}
use newsbaoter.Common.Run.{
  Run, ok, fault, out_of_bounds, Safe, Safe-ok, Safe-fault, Safe-if, Safe->>=,
}
use newsbaoter.Hash.{
  Slot, Table, empty, deleted, entry, add32, first_free, find_from, find_hash, hash_func, read_at,
  get_hash_var,
}

module _ {ℓ} {V : Type ℓ} where
  find_from-Safe :
      (n : Bytes) (k : ℕ) (tab : List (Slot V)) (size rounds i : ℕ) (ret : Option ℕ)
      → Safe (find_from n k tab size rounds i ret) (λ r. Unit {0})
  unfolding find_from
  find_from-Safe n k tab size zero i ret = Safe-ok _ _ tt
  find_from-Safe n k tab size (suc rounds) i ret =
      let index = add32 i k % size in
      elim (get_elem? tab index)
        as (λ o.
          Safe
            (elim o as (λ x. Run (Option ℕ)) [
              | none ↦ fault out_of_bounds
              | some deleted ↦ find_from n k tab size rounds (i + 1) (first_free ret index)
              | some empty ↦ ok (first_free ret index)
              | some (entry m v) ↦
                  if str_eq m n then ok (some index) else find_from n k tab size rounds (i + 1) ret
            ])
            (λ r. Unit {0})) [
              | none ↦ Safe-fault _ _ refl
              | some deleted ↦ find_from-Safe n k tab size rounds (i + 1) (first_free ret index)
              | some empty ↦ Safe-ok _ _ tt
              | some (entry m v) ↦
                  Safe-if (str_eq m n) _ _ (Safe-ok _ _ tt)
                    (find_from-Safe n k tab size rounds (i + 1) ret)
            ]

  read_at-Safe : (tab : List (Slot V)) (o : Option ℕ) → Safe (read_at tab o) (λ r. Unit {0})
  unfolding read_at
  read_at-Safe tab none = Safe-fault _ _ refl
  read_at-Safe tab (some i) =
      elim (get_elem? tab i)
        as (λ o.
          Safe
            (elim o as (λ x. Run (ℕ × Slot V)) [ none ↦ fault out_of_bounds | some s ↦ ok (i, s) ])
            (λ r. Unit {0})) [ none ↦ Safe-fault _ _ refl | some s ↦ Safe-ok _ _ tt ]

  pub get_hash_var-Safe :
      (name : Option Bytes) (t : Table V) → Safe (get_hash_var name t) (λ r. Unit {0})
  unfolding get_hash_var find_hash
  get_hash_var-Safe none t = Safe-ok _ _ tt
  get_hash_var-Safe (some n) t =
      Safe->>= _ _ (find_from-Safe n (hash_func n) t.tab t.size t.size 0 none)
        λ o u. Safe->>= _ _ (read_at-Safe t.tab o) λ r w. Safe-ok _ _ tt
