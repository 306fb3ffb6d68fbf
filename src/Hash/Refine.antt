-- ===== src/Hash/Refine.antt =====
-- A table from `init` on, under any sequence of calls, against a finite map.
use newsbaoter.Common.{
  ℕ, ◌+◌, ◌<◌, ◌≡◌, refl, ◌∙◌, ap, true, ◌||◌, Option, none, some, List, [], ◌∷◌, Bytes, str_eq,
  if◌then◌else◌, get_or-replicate, fun_ext, arith,
}
use newsbaoter.Common.Run.{Run, ok, ◌>>=◌}
use newsbaoter.Hash.{Slot, Table, empty, init_table, set_hash_var, unset_hash_var, get_hash_var}
use newsbaoter.Hash.View.{scan, has_name, has_free, count_live, has_free-count_live}
use newsbaoter.Hash.Probe.{home}
use newsbaoter.Hash.Valid.{IsValid, get-scan_lem}
use newsbaoter.Hash.Laws.{set-Writes, unset-Writes}

-- A call, by the name that it is about.
pub data Call {ℓ} (V : Type ℓ) : Type ℓ where
  put : Bytes → Option V → Call V
  remove : Bytes → Call V
  look : Bytes → Call V

module _ {ℓ} {V : Type ℓ} where
  -- the calls in order, with what the `get` calls return
  unfoldable pub run_calls : List (Call V) → Table V → Run (List (Option V))
  run_calls [] t = ok []
  run_calls (put n v ∷ cs) t = set_hash_var n v t >>= run_calls cs
  run_calls (remove n ∷ cs) t = unset_hash_var n t >>= run_calls cs
  run_calls (look n ∷ cs) t = do v ← get_hash_var (some n) t; vs ← run_calls cs t; ok (v ∷ vs)

  abbrev pub update : (Bytes → Option V) → Bytes → Option V → Bytes → Option V
  update f n v m = if str_eq n m then v else f m

  -- the same calls on a map
  unfoldable pub answers : List (Call V) → (Bytes → Option V) → List (Option V)
  answers [] f = []
  answers (put n v ∷ cs) f = answers cs (update f n v)
  answers (remove n ∷ cs) f = answers cs (update f n none)
  answers (look n ∷ cs) f = f n ∷ answers cs f

  abbrev pub count_puts : List (Call V) → ℕ
  count_puts [] = 0
  count_puts (put n v ∷ cs) = 1 + count_puts cs
  count_puts (_ ∷ cs) = count_puts cs

  pub init-IsValid : IsValid (init_table {V = V})
  unfolding init_table
  init-IsValid = record {
    sized = refl;
    size_is = refl;
    never_loaded = omega arith;
    placed = λ n d i v p q h. cc (get_or-replicate {A = Slot V} 32 (home n d) empty);
    unique = λ n i j v w p q. cc (get_or-replicate {A = Slot V} 32 i empty);
  }

  pub init-empty :
      (count_live (init_table {V = V}).tab ≡ 0)
      × ((n : Bytes) → scan (init_table {V = V}).tab n ≡ none)
  unfolding init_table scan count_live
  init-empty = (refl, λ n. refl)

  pub usable :
      (t : Table V)
      → IsValid t
      → (n : Bytes) → count_live t.tab < 32
      → (has_name t.tab n || has_free t.tab) ≡ true
  usable t valid n h = ground (arith, has_free-count_live t.tab (omega (arith, valid.sized)))

  pub run_calls-answers :
      (cs : List (Call V)) (t : Table V)
      → IsValid t
      → count_live t.tab + count_puts cs < 32
      → run_calls cs t ≡ ok (answers cs (scan t.tab))
  unfolding run_calls answers
  run_calls-answers [] t valid h = refl
  run_calls-answers (put n v ∷ cs) t valid h =
      let (t', run, w) = set-Writes t valid n v (usable t valid n (omega arith)) in
      rw (run, run_calls-answers cs t' w.valid (omega (arith, w.counts)), fun_ext w.reads)
  run_calls-answers (remove n ∷ cs) t valid h =
      let (t', run, w) = unset-Writes t valid n (usable t valid n (omega arith)) in
      rw (run, run_calls-answers cs t' w.valid (omega (arith, w.counts)), fun_ext w.reads)
  run_calls-answers (look n ∷ cs) t valid h =
      rw (get-scan_lem t valid n, usable t valid n (omega arith), run_calls-answers cs t valid h)

  -- From a new table on, fewer than 32 calls of `set`, with any calls of `unset` and `get` between
  -- them: nothing faults, and each `get` returns what a map of the names holds.
  pub run_calls-init :
      (cs : List (Call V))
      → count_puts cs < 32
      → run_calls cs init_table ≡ ok (answers cs (λ _. none))
  run_calls-init cs h =
      run_calls-answers cs init_table init-IsValid (omega (arith, init-empty.0))
      ∙ ap (λ f. ok (answers cs f)) (fun_ext init-empty.1)
