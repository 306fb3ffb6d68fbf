-- ===== src/Hash.antt =====
-- src/hash.c and src/hash.h: the open-addressing tables behind the tag table and the key table.
-- A `var_t**` with its size and cap is a record; a `var_t` is the slot that points to it. A value
-- is a `void*`, so an option. `char` is signed and an `int` has 32 bits.
pub mod Safe
pub mod Probe
pub mod View
pub mod Valid
pub mod Laws
pub mod Overfull
pub mod Ends
mod Tests
pub mod Refine
pub mod Iterate
use newsbaoter.Common.{
  ℕ, zero, suc, ◌+◌, ◌-◌, ◌*◌, ◌/◌, ◌%◌, ◌^◌, bit_xor, Bool, true, false, Option, none, some, List,
  [], ◌∷◌, Bytes, length, get_elem?, set, replicate, str_eq, ltb, ◌==◌, if◌then◌else◌,
}
use newsbaoter.Common.Int.{ℤ, pos, negsuc, pos_part, ◌+ℤ◌, ltbℤ}
use newsbaoter.Common.Run.{Run, ok, fault, out_of_bounds, diverges, ◌>>=◌}

-- NULL, the address of `deleted`, or a `var_t`.
pub data Slot {ℓ} (V : Type ℓ) : Type ℓ where
  empty : Slot V
  deleted : Slot V
  entry : Bytes → Option V → Slot V

pub record Table {ℓ} (V : Type ℓ) : Type ℓ where
  pub tab : List (Slot V)
  pub size : ℕ
  pub cap : ℤ

abbrev pub initial_size : ℕ
initial_size = 32

-- uint32_t addition
abbrev pub add32 : ℕ → ℕ → ℕ
add32 a b = (a + b) % 2 ^ 32

-- the conversion of a `char` to uint32_t
abbrev pub char_to_u32 : ℕ → ℕ
char_to_u32 c = if ltb c 128 then c else 2 ^ 32 - 256 + c

abbrev hash_byte : ℕ → ℕ → ℕ
hash_byte k c =
    let a = add32 k (char_to_u32 c) in let b = add32 a (a * 2 ^ 10) in bit_xor b (b / 2 ^ 6)

hash_loop : ℕ → Bytes → ℕ
hash_loop k [] = k
hash_loop k (c ∷ cs) = hash_loop (hash_byte k c) cs

unfoldable pub hash_func : Bytes → ℕ
unfolding hash_loop
hash_func str =
    let k = hash_loop 0 str in
    let a = add32 k (k * 2 ^ 3) in let b = bit_xor a (a / 2 ^ 11) in add32 b (b * 2 ^ 15)

-- `if(ret<0) ret=index`
abbrev pub first_free : Option ℕ → ℕ → Option ℕ
first_free none index = some index
first_free (some i) index = some i

module _ {ℓ} {V : Type ℓ} where
  -- The loop of `find_hash` with the rounds left; -1 is `none`.
  unfoldable pub find_from : Bytes → ℕ → List (Slot V) → ℕ → ℕ → ℕ → Option ℕ → Run (Option ℕ)
  find_from n k tab size zero i ret = ok ret
  find_from n k tab size (suc rounds) i ret =
      let index = add32 i k % size in
      let next = λ (r : Option ℕ). find_from n k tab size rounds (i + 1) r in
      elim (get_elem? tab index) [
        | none ↦ fault out_of_bounds
        | some deleted ↦ next (first_free ret index)
        | some empty ↦ ok (first_free ret index)
        | some (entry m v) ↦ if str_eq m n then ok (some index) else next ret
      ]

  unfoldable pub find_hash : Bytes → ℕ → List (Slot V) → ℕ → Run (Option ℕ)
  find_hash n k tab size = find_from n k tab size size 0 none

  -- the inner loop of `grow_hash`; the walk repeats after `size` steps
  place : ℕ → ℕ → ℕ → Slot V → List (Slot V) → ℕ → Run (List (Slot V))
  place zero size k s tab j = fault diverges
  place (suc steps) size k s tab j = elim (get_elem? tab j) [
    | none ↦ fault out_of_bounds
    | some empty ↦ ok (set tab j s)
    | some _ ↦ place steps size k s tab (add32 (j + 1) k % size)
  ]

  rehash : ℕ → List (Slot V) → List (Slot V) → Run (List (Slot V))
  unfolding place
  rehash size [] tab = ok tab
  rehash size (empty ∷ old) tab = rehash size old tab
  rehash size (deleted ∷ old) tab = rehash size old tab
  rehash size (entry n v ∷ old) tab =
      let k = hash_func n in place size size k (entry n v) tab (k % size) >>= rehash size old

  -- the new array; `*size` becomes the double
  unfoldable pub grow_hash : List (Slot V) → ℕ → Run (List (Slot V))
  unfolding rehash
  grow_hash tab size = rehash (2 * size) tab (replicate (2 * size) empty)

  -- `tab[index]`, for the index that `find_hash` gave
  unfoldable pub read_at : List (Slot V) → Option ℕ → Run (ℕ × Slot V)
  read_at tab none = fault out_of_bounds
  read_at tab (some i) = elim (get_elem? tab i) [ none ↦ fault out_of_bounds | some s ↦ ok (i, s) ]

  -- The two writes of `set_hash_var`. The increment of `cap` stands behind a test for NULL that a
  -- slot just filled cannot pass.
  abbrev pub store : Bytes → Option V → List (Slot V) → ℕ → Slot V → List (Slot V)
  store name value tab i (entry n v) = set tab i (entry n value)
  store name value tab i _ = set tab i (entry name value)

  -- A `var_t` that both arrays hold is written through either.
  store_shared : Bytes → Option V → List (Slot V) → List (Slot V)
  store_shared name value [] = []
  store_shared name value (entry n v ∷ tab) =
      entry n (if str_eq n name then value else v) ∷ store_shared name value tab
  store_shared name value (s ∷ tab) = s ∷ store_shared name value tab

  -- `set_hash_var` past `grow_hash`: the caller's pointer still names the old array.
  set_grown : Bytes → Option V → Table V → Run (Table V)
  unfolding grow_hash find_hash find_from read_at store_shared
  set_grown name value t = do
    grown ← grow_hash t.tab t.size
    index ← find_hash name (hash_func name) grown (2 * t.size)
    (i, s) ← read_at grown index
    ok (record t { tab = store_shared name value t.tab; size = 2 * t.size })

  -- `*cap>(*size/4)*3`
  abbrev pub is_loaded : Table V → Bool
  is_loaded t = ltbℤ (pos (t.size / 4 * 3)) t.cap

  unfoldable pub set_hash_var : Bytes → Option V → Table V → Run (Table V)
  unfolding set_grown find_hash read_at
  set_hash_var name value t = if is_loaded t then set_grown name value t else do
    index ← find_hash name (hash_func name) t.tab t.size
    (i, s) ← read_at t.tab index
    ok (record t { tab = store name value t.tab i s })

  unset_slot : Table V → ℕ → Slot V → Table V
  unset_slot t i (entry n v) = record t { tab = set t.tab i deleted; cap = t.cap +ℤ negsuc 0 }
  unset_slot t i _ = t

  unfoldable pub unset_hash_var : Bytes → Table V → Run (Table V)
  unfolding find_hash read_at unset_slot
  unset_hash_var name t = do
    index ← find_hash name (hash_func name) t.tab t.size
    (i, s) ← read_at t.tab index
    ok (unset_slot t i s)

  abbrev pub slot_value : Slot V → Option V
  slot_value (entry n v) = v
  slot_value _ = none

  -- The name is a `char*`.
  unfoldable pub get_hash_var : Option Bytes → Table V → Run (Option V)
  unfolding find_hash read_at
  get_hash_var none t = ok none
  get_hash_var (some name) t = do
    index ← find_hash name (hash_func name) t.tab t.size
    (i, s) ← read_at t.tab index
    ok (slot_value s)

  -- `init_urltag_table` and `init_uikey_table`
  unfoldable pub init_table : Table V
  init_table = record { tab = replicate initial_size empty; size = initial_size; cap = pos 0 }

  -- The loop of `next_hash_pair` with the rounds left: the new offset, the name and the value.
  next_from : List (Slot V) → ℕ → ℕ → Run (Option (ℕ × Bytes × Option V))
  next_from tab zero i = ok none
  next_from tab (suc rounds) i = elim (get_elem? tab i) [
    | none ↦ fault out_of_bounds
    | some (entry n v) ↦ ok (some (i + 1, n, v))
    | some _ ↦ next_from tab rounds (i + 1)
  ]

  -- `none` for the name that is not written where no entry is left.
  unfoldable pub next_hash_pair : ℤ → Table V → Run (ℤ × Option Bytes × Option V)
  unfolding next_from
  next_hash_pair offset t = do
    let from = pos_part offset
    r ← next_from t.tab (t.size - from) from
    ok (elim r [ none ↦ (pos from, none, none) | some (i, n, v) ↦ (pos i, some n, v) ])
