-- ===== src/Hash/Ends.antt =====
-- src/hash.c: the writes of a valid table, also where no slot is left.
use newsbaoter.Common.{◌≡◌, inl, inr, Bool-cases, Bool, false, ◌||◌, Option, none, Bytes, arith}
use newsbaoter.Common.Run.{Ends, stops, returns, out_of_bounds}
use newsbaoter.Hash.{Table, set_hash_var, unset_hash_var}
use newsbaoter.Hash.View.{has_name, has_free}
use newsbaoter.Hash.Valid.{IsValid}
use newsbaoter.Hash.Laws.{set-Writes, unset-Writes, overfull_fault}

neither : (a b : Bool) → (a || b) ≡ false → (b ≡ false) × (a ≡ false)
neither a b h = ground arith

module _ {ℓ} {V : Type ℓ} (t : Table V) (valid : IsValid t) (n : Bytes) where
  pub set-Ends : (v : Option V) → Ends (set_hash_var n v t) IsValid
  set-Ends v = elim (Bool-cases (has_name t.tab n || has_free t.tab)) [
    | inl room ↦ let (t', run, w) = set-Writes t valid n v room in returns t' run w.valid
    | inr full ↦
        let (free, name) = neither _ _ full in
        stops out_of_bounds (overfull_fault t valid n v free name).1 (λ e. cc)
  ]

  pub unset-Ends : Ends (unset_hash_var n t) IsValid
  unset-Ends = elim (Bool-cases (has_name t.tab n || has_free t.tab)) [
    | inl room ↦ let (t', run, w) = unset-Writes t valid n room in returns t' run w.valid
    | inr full ↦
        let (free, name) = neither _ _ full in
        stops out_of_bounds (overfull_fault t valid n none free name).2 (λ e. cc)
  ]
