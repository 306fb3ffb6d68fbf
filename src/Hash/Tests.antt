-- ===== src/Hash/Tests.antt =====
-- Runs of the tables, and the theorems at concrete inputs.
use newsbaoter.Common.{
  ℕ, ◌≡◌, ◌≢◌, zero, suc, refl, sym, subst, true, false, ◌||◌, none, some, List, [], ◌∷◌, Bytes,
  str_eq, arith, if◌then◌else◌,
}
use newsbaoter.Common.Int.{pos}
use newsbaoter.Common.Run.{Run, ok, fault, out_of_bounds, Returns}
use newsbaoter.Hash.{Table, hash_func, init_table, set_hash_var, unset_hash_var, get_hash_var}
use newsbaoter.Hash.View.{scan, has_name, has_free}
use newsbaoter.Hash.Valid.{IsValid, get-scan_lem}
use newsbaoter.Hash.Laws.{Writes, set-Writes, unset-Writes}
use newsbaoter.Hash.Refine.{
  Call, put, remove, look, run_calls, answers, init-IsValid, run_calls-init,
}
use newsbaoter.Hash.Overfull.{set_all, set_all-overfull, contains, distinct}
use newsbaoter.Hash.Iterate.{visit_pairs, entries, visit_pairs-entries}

abbrev news : Bytes
news = b'n' ∷ b'e' ∷ b'w' ∷ b's' ∷ []

abbrev blog : Bytes
blog = b'b' ∷ []

abbrev fresh : Table ℕ
fresh = init_table

abbrev session : List (Call ℕ)
session =
    put news (some 1) ∷ put blog (some 2) ∷ look news ∷ remove news ∷ look news ∷ look blog ∷ []

-- one-at-a-time hashing of a byte above 127 adds a negative `char`
hash_signed : hash_func (0xff ∷ []) ≢ hash_func (0x01 ∷ [])
unfolding hash_func
hash_signed = omega arith

session_answers : run_calls session fresh ≡ ok (some 1 ∷ none ∷ some 2 ∷ [])
unfolding run_calls set_hash_var unset_hash_var get_hash_var hash_func init_table str_eq
session_answers = refl

run_calls-init_example : run_calls session fresh ≡ ok (answers session (λ _. none))
run_calls-init_example = run_calls-init session (omega arith)

set-Writes_example : Returns (set_hash_var news (some 7) fresh) (Writes fresh news (some 7) true)
set-Writes_example =
    set-Writes fresh init-IsValid news (some 7) (unfold init_table has_name has_free in refl)

abbrev tagged : Table ℕ
tagged = set-Writes_example.0

tagged-IsValid : IsValid tagged
tagged-IsValid = set-Writes_example.2.valid

unset-Writes_example : Returns (unset_hash_var news tagged) (Writes tagged news none false)
unset-Writes_example =
    unset-Writes tagged tagged-IsValid news
      (rw (set-Writes_example.2.names news) (unfold str_eq in refl))

get-scan_lem_example : get_hash_var (some news) tagged ≡ (
    if has_name tagged.tab news || has_free tagged.tab
    then ok (scan tagged.tab news)
    else fault out_of_bounds)
get-scan_lem_example = get-scan_lem tagged tagged-IsValid news

abbrev upto : ℕ → List Bytes
upto zero = []
upto (suc n) = (suc n ∷ []) ∷ upto n

set_all-overfull_example : Returns (set_all (upto 32) (some 0) fresh) λ t.
    (get_hash_var (some news) t ≡ fault out_of_bounds)
    × (set_hash_var news (some 0) t ≡ fault out_of_bounds)
    × (unset_hash_var news t ≡ fault out_of_bounds)
set_all-overfull_example =
    set_all-overfull (upto 32) (some 0) news (unfold distinct contains str_eq in refl) refl
      (unfold contains str_eq in refl)

abbrev unwrap : Run (Table ℕ) → Table ℕ
unwrap (ok t) = t
unwrap (fault e) = fresh

abbrev one_tag : Table ℕ
one_tag = unwrap (set_hash_var news (some 7) fresh)

one_tag-IsValid : IsValid one_tag
one_tag-IsValid = subst (λ r. IsValid (unwrap r)) (sym set-Writes_example.1) tagged-IsValid

one_tag_entries : entries one_tag.tab ≡ (news, 7) ∷ []
unfolding set_hash_var hash_func init_table entries
one_tag_entries = refl

visit_pairs-entries_example : visit_pairs 33 (pos 0) one_tag ≡ ok (entries one_tag.tab)
visit_pairs-entries_example =
    visit_pairs-entries one_tag one_tag-IsValid (unfold init_table set_hash_var hash_func in tt)
