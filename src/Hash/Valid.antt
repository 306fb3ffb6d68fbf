-- ===== src/Hash/Valid.antt =====
-- The invariant of the tables, what the search finds in a valid one, and `get_hash_var`.
use newsbaoter.Common.{
  ℕ, ◌+◌, ◌-◌, ◌%◌, ◌<◌, ◌≡◌, ◌≢◌, refl, inl, inr, sym, ◌∙◌, ap, subst, true, false, ◌||◌, Option,
  none, some, List, Bytes, length, get_or, set, get_or-set, ◌==◌, ==_iff, get_or-ge, Bool-cases,
  if◌then◌else◌, arith, dec_lt,
}
use newsbaoter.Common.Int.{pos, ◌≤ℤ◌}
use newsbaoter.Common.Run.{ok, fault, out_of_bounds, Returns}
use newsbaoter.Hash.{Slot, Table, empty, entry, hash_func, find_hash, read_at, get_hash_var}
use newsbaoter.Hash.View.{
  Lacks, Unique, is_free, scan, has_name, has_free, scan-miss, scan-hit, has_free-eq-true,
  has_free-eq-false,
}
use newsbaoter.Hash.Probe.{
  home, home_lt, home_onto, home_injective, probe, Placed, AllLack, NoneEmpty, NoneFree, Found, hit,
  room, full, find_hash-Found, get_elem?-get_or,
}

module _ {ℓ} {V : Type ℓ} where
  pub record IsValid (t : Table V) : Type ℓ where
    pub sized : length t.tab ≡ 32
    pub size_is : t.size ≡ 32
    pub never_loaded : t.cap ≤ℤ pos 0
    pub placed : Placed t.tab
    pub unique : Unique t.tab

  module _ (tab : List (Slot V)) (sized : length tab ≡ 32) where
    pub AllLack-Lacks : (n : Bytes) → AllLack tab n 32 → (i : ℕ) → Lacks (get_or tab i empty) n
    AllLack-Lacks n l i v e = elim (dec_lt i 32) [
      | yes p ↦
          l ((i + 32 - hash_func n % 32) % 32) (omega arith) v
            (ap (λ k. get_or tab k empty) (home_onto n i p) ∙ e)
      | no p ↦ cc (get_or-ge tab i empty (omega arith))
    ]

    not_free : (n : Bytes) → NoneFree tab n 32 → has_free tab ≡ false
    not_free n f = has_free-eq-false tab λ j h.
        (sym (ap (λ k. is_free (get_or tab k empty)) (home_onto n j (omega arith)))
          ∙ f ((j + 32 - hash_func n % 32) % 32) (omega arith))

    -- A write at the place of `n` that leaves no NULL there.
    pub Placed-set :
        (n : Bytes) (d : ℕ) (s : Slot V)
        → d < 32
        → NoneEmpty tab n d
        → s ≢ empty
        → ((m : Bytes) (w : Option V) → s ≡ entry m w → m ≡ n)
        → Placed tab
        → Placed (set tab (home n d) s)
    Placed-set n d s lt ne live own placed m e i w p q h z =
        let at_i = get_or-set tab (home n d) (home m i) s empty (omega (arith, home_lt n d)) in
        let at_e = get_or-set tab (home n d) (home m e) s empty (omega (arith, home_lt n d)) in
        elim (Bool-cases (home m i == home n d)) [
          | inl same ↦ live (sym (rw same at at_i) ∙ z)
          | inr other ↦ elim (Bool-cases (home m e == home n d)) [
            | inl here ↦
                let is_n = own m w (sym (rw here at at_e) ∙ h) in
                let round : e ≡ d =
                  home_injective n e d p lt (
                    subst (λ x. home x e ≡ home n d) is_n
                      ((==_iff (home m e) (home n d)).0 here)) in
                ne i (omega arith)
                  (subst (λ x. probe tab x i ≡ empty) is_n (sym (rw other at at_i) ∙ z))
            | inr there ↦
                placed m e i w p q (sym (rw there at at_e) ∙ h) (sym (rw other at at_i) ∙ z)
          ]
        ]

    pub Unique-set :
        (j : ℕ) (s : Slot V)
        → j < 32
        → ((m : Bytes) (i : ℕ) (w u : Option V)
            → s ≡ entry m w
            → get_or tab i empty ≡ entry m u
            → i ≡ j)
        → Unique tab
        → Unique (set tab j s)
    Unique-set j s lt own unique m a b v w p q =
        let x = get_or-set tab j a s empty (omega arith) in
        let y = get_or-set tab j b s empty (omega arith) in
        ground (arith, x, y, unique m a b v w, own m b v w, own m a w v)

  -- What the search tells of the map.
  pub data Outcome (tab : List (Slot V)) (n : Bytes) : Option ℕ → Type ℓ where
    present :
        (d : ℕ) (v : Option V)
        → d < 32
        → get_or tab (home n d) empty ≡ entry n v
        → scan tab n ≡ v
        → has_name tab n ≡ true
        → Outcome tab n (some (home n d))
    vacant :
        (d : ℕ)
        → d < 32
        → is_free (probe tab n d) ≡ true
        → NoneEmpty tab n d
        → ((i : ℕ) → Lacks (get_or tab i empty) n)
        → scan tab n ≡ none
        → has_name tab n ≡ false
        → has_free tab ≡ true
        → Outcome tab n (some (home n d))
    crowded : has_name tab n ≡ false → has_free tab ≡ false → Outcome tab n none

  module _ (t : Table V) (valid : IsValid t) (n : Bytes) where
    outcome : (r : Option ℕ) → Found t.tab n r → Outcome t.tab n r
    outcome r (hit d v lt at e) =
        let (s, h) = scan-hit t.tab n (home n d) v valid.unique e in
        subst (λ i. Outcome t.tab n (some i)) (sym at) (present d v lt e s h)
    outcome r (room d lt at f ne l) =
        let everywhere = AllLack-Lacks t.tab valid.sized n l in
        let (s, h) = scan-miss t.tab n everywhere in
        subst (λ i. Outcome t.tab n (some i)) (sym at)
          (vacant d lt f ne everywhere s h
            (has_free-eq-true t.tab (home n d) (omega (arith, home_lt n d, valid.sized)) f))
    outcome r (full f l) =
        crowded (scan-miss t.tab n (AllLack-Lacks t.tab valid.sized n l)).1
          (not_free t.tab valid.sized n f)

    pub find_hash-Outcome : Returns (find_hash n (hash_func n) t.tab t.size) (Outcome t.tab n)
    find_hash-Outcome =
        let (r, run, f) = find_hash-Found t.tab n valid.sized valid.placed in
        (r, rw valid.size_is run, outcome r f)

    pub read_at-home : (d : ℕ) → read_at t.tab (some (home n d)) ≡ ok (home n d, probe t.tab n d)
    unfolding read_at
    read_at-home d =
        rw (get_elem?-get_or t.tab (home n d) (omega (arith, home_lt n d, valid.sized)), read_at)

    get-scan_of :
        (r : Option ℕ)
        → find_hash n (hash_func n) t.tab t.size ≡ ok r
        → Outcome t.tab n r
        → get_hash_var (some n) t
          ≡ (if has_name t.tab n || has_free t.tab then ok (scan t.tab n) else fault out_of_bounds)
    unfolding get_hash_var
    get-scan_of r run (present d v lt e s h) = rw (run, s, h, read_at-home d, e)
    get-scan_of r run (vacant d lt f ne l s h q) = rw (run, s, h, q, read_at-home d) (ground arith)
    get-scan_of r run (crowded h q) = rw (run, h, q) (unfold read_at in refl)

    -- On a valid table `get_hash_var` returns what the map holds, and accesses `tab[-1]` exactly when
    -- the name is absent and no slot is free.
    pub get-scan_lem :
        get_hash_var (some n) t
        ≡ (if has_name t.tab n || has_free t.tab then ok (scan t.tab n) else fault out_of_bounds)
    get-scan_lem = let (r, run, o) = find_hash-Outcome in get-scan_of r run o
