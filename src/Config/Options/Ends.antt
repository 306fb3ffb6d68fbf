-- ===== src/Config/Options/Ends.antt =====
-- src/config.c: the readers of numbers, colours and keys on memory of any content.
use newsbaoter.Common.{
  ℕ, zero, suc, ◌≤◌, ◌<◌, bit_or, Bool, Option, none, some, List, Bytes, length, arith,
}
use newsbaoter.Common.Int.{ℤ, pos, negsuc}
use newsbaoter.Common.Run.{Run, ok, ◌>>=◌, Ends, Ends-ok, Ends->>=, Ends-if}
use newsbaoter.Hash.{Table}
use newsbaoter.Hash.Valid.{IsValid}
use newsbaoter.Hash.Ends.{set-Ends, unset-Ends}
use newsbaoter.Keys.{Handler, Names, key_name, bind_key, unbind_key, find_handler}
use newsbaoter.Config.Words.{get_line_word}
use newsbaoter.Config.Words.Ends.{Anything, word-Ends}
use newsbaoter.Config.Options.{
  NbColor, at_index, word_index, read_attrs, get_color_attr, get_color_type_index,
  get_color_name_index, copy_int, copy_color,
}
use newsbaoter.Config.Bindings.{bind_found, config_bind_key}

pub copy_int-Ends : (strtol : Bytes → ℤ) (next : Bytes) → Ends (copy_int strtol next) Anything
unfolding copy_int
copy_int-Ends strtol next = word-Ends next (ok none) _ (Ends-ok _ tt) (λ w p. Ends-ok _ tt)

read_attrs-Ends :
    (attr_value : ℕ → ℕ) (rounds cat : ℕ) (next : Bytes)
    → 0 < length next
    → length next ≤ rounds
    → Ends (read_attrs attr_value rounds cat next) Anything
unfolding read_attrs
read_attrs-Ends attr_value zero cat next some_bytes enough = absurd (omega arith)
read_attrs-Ends attr_value (suc rounds) cat next some_bytes enough =
    word-Ends next (ok cat)
      (λ w. read_attrs attr_value rounds (bit_or cat (get_color_attr attr_value w.word)) w.next)
      (Ends-ok _ tt) (λ w p. read_attrs-Ends attr_value rounds _ w.next p.0 (omega (arith, p.1)))

-- Memory is left behind the word.
abbrev HasNext : Option (ℕ × Bytes) → Type 0
HasNext none = Unit
HasNext (some (i, next)) = 0 < length next

word_index-Ends : (index : Bytes → ℤ) (next : Bytes) → Ends (word_index index next) HasNext
unfolding word_index
word_index-Ends index next =
    word-Ends next (ok none) (λ w. ok (at_index (index w.word) w.next)) (Ends-ok _ tt)
      (λ w p. Ends-ok _ (at_index-HasNext (index w.word) w.next p.0))
  where
    at_index-HasNext : (i : ℤ) (next : Bytes) → 0 < length next → HasNext (at_index i next)
    at_index-HasNext (pos i) next h = h
    at_index-HasNext (negsuc i) next h = tt

-- what follows a call of `word_index`
index-Ends {ℓ κ} :
    {R : Type ℓ} {Q : R → Type κ} (index : Bytes → ℤ) (next : Bytes) (stop : Run R)
    (go : ℕ → Bytes → Run R)
    → Ends stop Q
    → ((i : ℕ) (rest : Bytes) → 0 < length rest → Ends (go i rest) Q)
    → Ends (word_index index next >>= λ a. elim a [ none ↦ stop | some (i, rest) ↦ go i rest ]) Q
index-Ends {R} {Q} index next stop go h k =
    Ends->>= (word_index index next) _ (word_index-Ends index next) cases
  where
    cases :
        (a : Option (ℕ × Bytes))
        → HasNext a
        → Ends (elim a [ none ↦ stop | some (i, rest) ↦ go i rest ]) Q
    cases none p = h
    cases (some (i, rest)) p = k i rest p

module _ (strtol : Bytes → ℤ) (attr_value : ℕ → ℕ) where
  pub copy_color-Ends :
      (cd : List NbColor) (next : Bytes) → Ends (copy_color strtol attr_value cd next) Anything
  unfolding copy_color
  copy_color-Ends cd next =
      index-Ends get_color_type_index next (ok none) _ (Ends-ok _ tt) (λ cti next1 p1.
        index-Ends (get_color_name_index strtol) next1 (ok none) _ (Ends-ok _ tt) (λ cfi next2 p2.
          index-Ends (get_color_name_index strtol) next2 (ok none) _ (Ends-ok _ tt) (λ cbi next3 p3.
            Ends->>= (read_attrs attr_value (length next3) 0 next3) _
              (read_attrs-Ends attr_value (length next3) 0 next3 p3 (omega arith))
              (λ cat q. Ends-ok _ tt))))

-- The key table after it, if there is one, is valid.
abbrev pub IsValidTable : Option (Table Handler) → Type 0
IsValidTable none = Unit
IsValidTable (some t) = IsValid t

bind_found-Ends :
    (key : ℤ) (h : Option Handler) (t : Table Handler)
    → IsValid t
    → Ends (bind_found key h t) IsValidTable
unfolding bind_key
bind_found-Ends key none t valid = Ends-ok _ tt
bind_found-Ends key (some h) t valid =
    Ends->>= (bind_key key (some h) t) _ (set-Ends t valid (key_name key) (some h))
      (λ t' v. Ends-ok (some t') v)

option-Ends {ℓ κ ι} :
    {A : Type ℓ} {R : Type κ} {Q : R → Type ι} (o : Option A) (stop : Run R) (go : A → Run R)
    → Ends stop Q
    → ((a : A) → Ends (go a) Q)
    → Ends (elim o [ none ↦ stop | some a ↦ go a ]) Q
option-Ends none stop go h k = h
option-Ends (some a) stop go h k = k a

module _ (mbtowc : Bytes → Option ℤ) (names : Names) (t : Table Handler) (valid : IsValid t) where
  bind_next-Ends :
      (key : ℤ) (next : Bytes)
      → Ends
          (get_line_word next >>= λ v. elim v [
            | none ↦ ok none
            | some w ↦ bind_found key (find_handler names w.word) t
          ])
          IsValidTable
  bind_next-Ends key next =
      word-Ends next (ok none) _ (Ends-ok _ tt)
        (λ w p. bind_found-Ends key (find_handler names w.word) t valid)

  unbind-Ends : (key : ℤ) → Ends (unbind_key key t >>= λ t'. ok (some t')) IsValidTable
  unfolding unbind_key
  unbind-Ends key =
      Ends->>= (unbind_key key t) _ (unset-Ends t valid (key_name key))
        (λ t' v. Ends-ok (some t') v)

  pub config_bind_key-Ends :
      (unbinds : Bool) (next : Bytes)
      → Ends (config_bind_key mbtowc unbinds names next t) IsValidTable
  unfolding config_bind_key
  config_bind_key-Ends unbinds next = word-Ends next (ok none) _ (Ends-ok _ tt) (λ w p.
      option-Ends (mbtowc w.word) (ok none) _ (Ends-ok _ tt)
        (λ key. Ends-if unbinds _ _ (unbind-Ends key) (bind_next-Ends key w.next)))
