-- ===== src/Config/BindingTests.antt =====
-- src/config.c: a line that binds a key.
use newsbaoter.Common.{◌≡◌, refl, false, Option, none, some, [], ◌∷◌, Bytes, str_eq, arith}
use newsbaoter.Common.Int.{ℤ, pos}
use newsbaoter.Common.Run.{Returns}
use newsbaoter.Hash.{Table, init_table}
use newsbaoter.Keys.{Handler, next, Names, find_handler}
use newsbaoter.Keys.Bind.{Binds, bound, init-Binds}
use newsbaoter.Config.Words.Cut.{IsWord, Spaced, AllSpaced, render}
use newsbaoter.Config.Bindings.{config_bind_key, config_bind_key-render}

-- a locale of single bytes
abbrev single : Bytes → Option ℤ
single [] = none
single (c ∷ s) = some (pos c)

abbrev x_key : Bytes
x_key = b'x' ∷ []

abbrev next_name : Spaced
next_name = record { blank = b' '; more = []; word = b'n' ∷ b'e' ∷ b'x' ∷ b't' ∷ [] }

abbrev some_names : Names
some_names = ((b'n' ∷ b'e' ∷ b'x' ∷ b't' ∷ []), some next) ∷ []

x_key-IsWord : IsWord x_key
x_key-IsWord = (omega arith, (refl, tt))

next_name-AllSpaced : AllSpaced (next_name ∷ [])
next_name-AllSpaced = (refl, tt, (omega arith, (refl, (refl, (refl, (refl, tt))))), tt)

next_found : find_handler some_names next_name.word ≡ some next
unfolding find_handler str_eq
next_found = refl

config_bind_key-render_example :
    Returns
      (config_bind_key single false some_names (render x_key (next_name ∷ []) []) init_table)
      (λ r.
        (t' : Table Handler) × (r ≡ some t')
        × Binds t' (bound (λ c. none) (pos b'x') (some next)) 1)
config_bind_key-render_example =
    config_bind_key-render single some_names init_table (λ c. none) 0 init-Binds (omega arith) x_key
      (pos b'x') refl x_key-IsWord next_name [] [] next next_name-AllSpaced next_found
