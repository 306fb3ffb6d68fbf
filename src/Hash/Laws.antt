-- ===== src/Hash/Laws.antt =====
-- `set_hash_var` and `unset_hash_var` against the map that a table stands for.
use newsbaoter.Common.{
  ℕ, ◌+◌, ◌<◌, ◌≡◌, ◌≢◌, refl, inl, inr, sym, ◌∙◌, ap, Bool, true, false, ◌||◌, Option, none, some,
  Bytes, get_or, set, str_eq, str_eq_iff, length-set, get_or-set, get_or-set_self, Bool-cases,
  if◌then◌else◌, arith,
}
use newsbaoter.Common.Int.{ℤ, pos, negsuc, ◌≤ℤ◌, ◌+ℤ◌}
use newsbaoter.Common.Run.{ok, fault, out_of_bounds, Returns}
use newsbaoter.Hash.{
  Slot, Table, empty, deleted, entry, hash_func, find_hash, unset_slot, read_at, is_loaded,
  set_hash_var, unset_hash_var, get_hash_var, store,
}
use newsbaoter.Hash.View.{
  Lacks, Unique, is_free, scan, has_name, has_free, scan-miss, scan-hit, scan-set_ne, count_live,
  live, count_live-set,
}
use newsbaoter.Hash.Probe.{home, home_lt, probe, NoneEmpty}
use newsbaoter.Hash.Valid.{
  IsValid, Placed-set, Unique-set, Outcome, present, vacant, crowded, find_hash-Outcome,
  read_at-home, get-scan_lem,
}

at_name {ℓ} :
    {A : Type ℓ} (f g : Bytes → A) (n : Bytes) (a : A)
    → f n ≡ a
    → ((m : Bytes) → m ≢ n → f m ≡ g m)
    → (m : Bytes) → f m ≡ (if str_eq n m then a else g m)
at_name f g n a here there m = elim (Bool-cases (str_eq n m)) [
  | inl same ↦ rw (same, ← (str_eq_iff n m).0 same) here
  | inr other ↦ rw other (there m (λ e. cc ((str_eq_iff n m).1 (sym e))))
]

module _ {ℓ} {V : Type ℓ} where
  -- `t'` is well formed, reads as `t` but for `n`, and has the names of `t` but for `n`.
  pub record Writes (t : Table V) (n : Bytes) (v : Option V) (kept : Bool) (t' : Table V)
      : Type ℓ where
    pub valid : IsValid t'
    pub reads : (m : Bytes) → scan t'.tab m ≡ (if str_eq n m then v else scan t.tab m)
    pub counts :
        count_live t'.tab + (if has_name t.tab n then 1 else 0)
        ≡ count_live t.tab + (if kept then 1 else 0)
    pub names : (m : Bytes) → has_name t'.tab m ≡ (if str_eq n m then kept else has_name t.tab m)

  module _ (t : Table V) (valid : IsValid t) (n : Bytes) (d : ℕ) (lt : d < 32) (s : Slot V) where
    write-Writes :
        (v : Option V) (kept : Bool) (cap : ℤ)
        → cap ≤ℤ pos 0
        → NoneEmpty t.tab n d
        → s ≢ empty
        → live s ≡ (if kept then 1 else 0)
        → live (get_or t.tab (home n d) empty) ≡ (if has_name t.tab n then 1 else 0)
        → ((m : Bytes) (w : Option V) → s ≡ entry m w → m ≡ n)
        → ((m : Bytes) (w : Option V) → get_or t.tab (home n d) empty ≡ entry m w → m ≡ n)
        → ((i : ℕ) (w : Option V) → get_or t.tab i empty ≡ entry n w → i ≡ home n d)
        → (Unique (set t.tab (home n d) s)
            → (scan (set t.tab (home n d) s) n ≡ v) × (has_name (set t.tab (home n d) s) n ≡ kept))
        → Writes t n v kept (record t { tab = set t.tab (home n d) s; cap = cap })
    write-Writes v kept cap c ne full b a own old only reads =
        let unique =
          Unique-set t.tab valid.sized (home n d) s (home_lt n d)
            (λ m i w u p q. only i u (q ∙ ap (λ x. entry x u) (own m w p))) valid.unique in
        let others = λ (m : Bytes) (other : m ≢ n).
          scan-set_ne t.tab m (home n d) s (λ w e. other (old m w e)) (λ w e. other (own m w e)) in
        record {
          valid = record {
            sized = length-set t.tab (home n d) s ∙ valid.sized;
            size_is = valid.size_is;
            never_loaded = c;
            placed = Placed-set t.tab valid.sized n d s lt ne full own valid.placed;
            unique = unique;
          };
          reads = at_name _ _ n v (reads unique).0 (λ m o. (others m o).0);
          counts =
              rw (← a, ← b)
                (count_live-set t.tab (home n d) s (omega (arith, home_lt n d, valid.sized)));
          names = at_name _ _ n kept (reads unique).1 (λ m o. (others m o).1);
        }

  module _ (t : Table V) (valid : IsValid t) (n : Bytes) where
    not_loaded : is_loaded t ≡ false
    not_loaded = ground (arith, valid.size_is, valid.never_loaded)

    written : (d : ℕ) (s : Slot V) → get_or (set t.tab (home n d) s) (home n d) empty ≡ s
    written d s = get_or-set_self t.tab (home n d) s empty (omega (arith, home_lt n d, valid.sized))

    live_free : (s : Slot V) → is_free s ≡ true → live s ≡ 0
    live_free empty f = refl
    live_free deleted f = refl
    live_free (entry m w) f = cc

    store_free :
        (s : Slot V) (d : ℕ) (v : Option V)
        → is_free s ≡ true
        → store n v t.tab (home n d) s ≡ set t.tab (home n d) (entry n v)
    store_free empty d v f = refl
    store_free deleted d v f = refl
    store_free (entry m w) d v f = cc

    unset_free : (i : ℕ) (s : Slot V) → is_free s ≡ true → unset_slot t i s ≡ t
    unfolding unset_slot
    unset_free i empty f = refl
    unset_free i deleted f = refl
    unset_free i (entry m w) f = cc

    gone :
        (d : ℕ) (w : Option V)
        → get_or t.tab (home n d) empty ≡ entry n w
        → (i : ℕ) → Lacks (get_or (set t.tab (home n d) deleted) i empty) n
    gone d w e i u x =
        let at =
          get_or-set t.tab (home n d) i deleted empty (omega (arith, home_lt n d, valid.sized)) in
        ground (arith, at, valid.unique n i (home n d) u w, e)

    set_of :
        (v : Option V) (r : Option ℕ)
        → find_hash n (hash_func n) t.tab t.size ≡ ok r
        → Outcome t.tab n r
        → (has_name t.tab n || has_free t.tab) ≡ true
        → Returns (set_hash_var n v t) (Writes t n v true)
    unfolding set_hash_var
    set_of v r run (present d w lt e s h) q = (
      record t { tab = set t.tab (home n d) (entry n v) },
      rw (not_loaded, run, read_at-home t valid n d, e),
      write-Writes t valid n d lt (entry n v) v true t.cap valid.never_loaded
          (λ i p. valid.placed n d i w lt p e) (λ x. cc) refl (rw (e, h)) (λ m u x. cc)
          (λ m u x. cc) (λ i u x. valid.unique n i (home n d) u w x e)
          (λ u. scan-hit _ n (home n d) v u (written d (entry n v))),
    )
    set_of v r run (vacant d lt f ne l s h g) q = (
      record t { tab = set t.tab (home n d) (entry n v) },
      rw (not_loaded, run, read_at-home t valid n d)
          (ap (λ x. ok (record t { tab = x })) (store_free (probe t.tab n d) d v f)),
      write-Writes t valid n d lt (entry n v) v true t.cap valid.never_loaded ne (λ x. cc) refl
          (rw h (live_free (probe t.tab n d) f)) (λ m u x. cc) (λ m u x. cc (x, f))
          (λ i u x. absurd (l i u x)) (λ u. scan-hit _ n (home n d) v u (written d (entry n v))),
    )
    set_of v r run (crowded h g) q = cc (rw (h, g) at q)

    -- On a valid table `set_hash_var` returns a valid table that reads as before but at the name,
    -- provided that the name or a free slot is there.
    pub set-Writes :
        (v : Option V)
        → (has_name t.tab n || has_free t.tab) ≡ true
        → Returns (set_hash_var n v t) (Writes t n v true)
    set-Writes v q = let (r, run, o) = find_hash-Outcome t valid n in set_of v r run o q

    set_fault_of :
        (v : Option V) (r : Option ℕ)
        → find_hash n (hash_func n) t.tab t.size ≡ ok r
        → Outcome t.tab n r
        → (has_name t.tab n || has_free t.tab) ≡ false
        → set_hash_var n v t ≡ fault out_of_bounds
    unfolding set_hash_var
    set_fault_of v r run (present d w lt e s h) q = cc (rw h at q)
    set_fault_of v r run (vacant d lt f ne l s h g) q = cc (rw (h, g) at q)
    set_fault_of v r run (crowded h g) q = rw (not_loaded, run) (unfold read_at in refl)

    unset_of :
        (r : Option ℕ)
        → find_hash n (hash_func n) t.tab t.size ≡ ok r
        → Outcome t.tab n r
        → (has_name t.tab n || has_free t.tab) ≡ true
        → Returns (unset_hash_var n t) (Writes t n none false)
    unfolding unset_hash_var
    unset_of r run (present d w lt e s h) q = (
      record t { tab = set t.tab (home n d) deleted; cap = t.cap +ℤ negsuc 0 },
      rw (run, read_at-home t valid n d, e),
      write-Writes t valid n d lt deleted none false (t.cap +ℤ negsuc 0)
          (ground (arith, valid.never_loaded)) (λ i p. valid.placed n d i w lt p e) (λ x. cc) refl
          (rw (e, h)) (λ m u x. cc) (λ m u x. cc) (λ i u x. valid.unique n i (home n d) u w x e)
          (λ u. scan-miss _ n (gone d w e)),
    )
    unset_of r run (vacant d lt f ne l s h g) q = (
      t,
      rw (run, read_at-home t valid n d) (ap ok (unset_free (home n d) (probe t.tab n d) f)),
      record {
        valid = valid;
        reads = at_name _ _ n none s (λ m o. refl);
        counts = rw h;
        names = at_name _ _ n false h (λ m o. refl);
      },
    )
    unset_of r run (crowded h g) q = cc (rw (h, g) at q)

    -- On a valid table `unset_hash_var` returns a valid table without the name that reads as before
    -- elsewhere, provided that the name or a free slot is there.
    pub unset-Writes :
        (has_name t.tab n || has_free t.tab) ≡ true
        → Returns (unset_hash_var n t) (Writes t n none false)
    unset-Writes q = let (r, run, o) = find_hash-Outcome t valid n in unset_of r run o q

    unset_fault_of :
        (r : Option ℕ)
        → find_hash n (hash_func n) t.tab t.size ≡ ok r
        → Outcome t.tab n r
        → (has_name t.tab n || has_free t.tab) ≡ false
        → unset_hash_var n t ≡ fault out_of_bounds
    unfolding unset_hash_var
    unset_fault_of r run (present d w lt e s h) q = cc (rw h at q)
    unset_fault_of r run (vacant d lt f ne l s h g) q = cc (rw (h, g) at q)
    unset_fault_of r run (crowded h g) q = rw run (unfold read_at in refl)

    -- On a valid table in which all 32 slots hold names, each of the three operations with a
    -- further name accesses `tab[-1]`.
    pub overfull_fault :
        (v : Option V)
        → has_free t.tab ≡ false
        → has_name t.tab n ≡ false
        → (get_hash_var (some n) t ≡ fault out_of_bounds)
          × (set_hash_var n v t ≡ fault out_of_bounds)
          × (unset_hash_var n t ≡ fault out_of_bounds)
    overfull_fault v taken absent =
        let q : (has_name t.tab n || has_free t.tab) ≡ false = rw (absent, taken) in
        let (r, run, o) = find_hash-Outcome t valid n in
        (
          rw (get-scan_lem t valid n, absent, taken),
          set_fault_of v r run o q,
          unset_fault_of r run o q,
        )
