-- ===== src/Keys/Tests.antt =====
-- src/ui/keys.c: runs with the default keys.
use newsbaoter.Common.{◌≡◌, refl, sym, subst, [], ◌∷◌, codes, none, some, arith}
use newsbaoter.Common.Int.{ℤ, pos, negsuc}
use newsbaoter.Common.Run.{Run, ok, fault, Returns}
use newsbaoter.Hash.{Table, init_table, set_hash_var, hash_func, next_hash_pair}
use newsbaoter.Hash.Iterate.{visit_pairs}
use newsbaoter.Hash.Valid.{IsValid}
use newsbaoter.Keys.{
  Handler, exit, print_key_pairs, select, default_keys, bind_all, bind_key, unbind_key, process_key,
  key_name, to_u32,
}
use newsbaoter.Keys.Help.{help_keys, set_foot_help_string, IsKeyOf, help_keys-IsKeyOf}
use newsbaoter.Keys.Hex.{of_hex, of_hex-key_name}
use newsbaoter.Keys.Bind.{
  Binds, bound, assigned, init-Binds, bind_key-Binds, unbind_key-Binds, bind_all-init,
}

bind_all-init_example :
    Returns
      (bind_all default_keys init_table)
      (λ t'. (c : ℤ) → process_key c t' ≡ ok (assigned (λ c'. none) default_keys c))
bind_all-init_example = bind_all-init default_keys (omega arith)

bind_key-Binds_example :
    Returns
      (bind_key (pos b'x') (some select) init_table)
      (λ t'. Binds t' (bound (λ c. none) (pos b'x') (some select)) 1)
bind_key-Binds_example =
    bind_key-Binds init_table (λ c. none) 0 init-Binds (omega arith) (pos b'x') (some select)

unbind_key-Binds_example :
    Returns
      (unbind_key (pos b'x') init_table)
      (λ t'. Binds t' (bound (λ c. none) (pos b'x') none) 1)
unbind_key-Binds_example =
    unbind_key-Binds init_table (λ c. none) 0 init-Binds (omega arith) (pos b'x')

of_hex-key_name_example : of_hex 0 (key_name (negsuc 0)) ≡ to_u32 (negsuc 0)
of_hex-key_name_example = of_hex-key_name (negsuc 0)

exit_key : assigned (λ c. none) default_keys (pos b'q') ≡ some exit
exit_key = refl

unknown_key : assigned (λ c. none) default_keys (pos b'x') ≡ none
unknown_key = refl

-- a table with the default key for the exit
abbrev came : Run (Table Handler) → Table Handler
came (fault why) = init_table
came (ok t) = t

abbrev with_exit : Table Handler
with_exit = came (bind_key (pos b'q') (some exit) init_table)

with_exit-IsValid : IsValid with_exit
with_exit-IsValid =
    let (t, run, b) =
      bind_key-Binds init_table (λ c. none) 0 init-Binds (omega arith) (pos b'q') (some exit) in
    subst (λ r. IsValid (came r)) (sym run) b.valid

help_keys-IsKeyOf_example : Returns (help_keys (of_hex 0) (λ c. c ∷ []) with_exit) (λ k.
    IsKeyOf (of_hex 0) (λ c. c ∷ []) with_exit exit k.0
    × IsKeyOf (of_hex 0) (λ c. c ∷ []) with_exit print_key_pairs k.1)
help_keys-IsKeyOf_example =
    help_keys-IsKeyOf (of_hex 0) (λ c. c ∷ []) with_exit with_exit-IsValid
      (unfold init_table bind_key set_hash_var hash_func key_name in tt)

-- the line for this table
help_line :
    set_foot_help_string (of_hex 0) (λ c. c ∷ []) 80 with_exit
    ≡ ok (codes "Press: q to exit,   for help")
unfolding set_foot_help_string bind_key set_hash_var hash_func init_table of_hex visit_pairs
    next_hash_pair key_name
help_line = refl
