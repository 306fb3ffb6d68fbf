-- ===== src/Keys/Help.antt =====
-- src/ui/keys.c: the texts that show which keys are bound. `strtol` is strtol(3) in base 16 and `lc` what
-- `%lc` writes.
use newsbaoter.Common.{
  ℕ, suc, ◌≡◌, ◌≢◌, arith, true, false, Option, sym, refl, ap, ◌∙◌, ◌⊎◌, inl, inr, Bool, none, some,
  List, [], ◌∷◌, ◌++◌, Bytes, codes, get_or, ◌==◌, if◌then◌else◌,
}
use mathlib.Core.Option.{some-injective}
use newsbaoter.Common.Int.{pos}
use newsbaoter.Common.Run.{Run, ok, fault, out_of_bounds, Returns, ◌>>=◌}
use newsbaoter.Cache.Table.{All}
use newsbaoter.Hash.{Slot, Table, empty, deleted, entry, get_hash_var}
use newsbaoter.Hash.View.{scan, scan-hit}
use newsbaoter.Hash.Valid.{IsValid, get-scan_lem}
use newsbaoter.Hash.Iterate.{visit_pairs, entries, NoNull, visit_pairs-entries}
use newsbaoter.Lines.Format.{cut}
use newsbaoter.Keys.{Handler, Names}

-- the address of a handler
abbrev pub address : Handler → ℕ
address Handler.exit = 0
address Handler.next = 1
address Handler.prev = 2
address Handler.select = 3
address Handler.download = 4
address Handler.high_item = 5
address Handler.mid_item = 6
address Handler.low_item = 7
address Handler.refresh_all = 8
address Handler.catchup_feed = 9
address Handler.catchup_all = 10
address Handler.toggle_read = 11
address Handler.redraw_screen = 12
address Handler.print_key_pairs = 13

module _ (strtol : Bytes → ℕ) (lc : ℕ → Bytes) where
  -- the key for the exit and the one for the help, after one pair
  abbrev pub note_key : Bytes → Handler → ℕ × ℕ → ℕ × ℕ
  note_key name h (exit_key, help_key) =
      if address h == address Handler.exit
      then (strtol name, help_key)
      else if address h == address Handler.print_key_pairs
      then (exit_key, strtol name)
      else (exit_key, help_key)

  unfoldable pub foot_keys : List (Bytes × Handler) → ℕ × ℕ → ℕ × ℕ
  foot_keys [] keys = keys
  foot_keys ((name, h) ∷ pairs) keys = foot_keys pairs (note_key name h keys)

  -- the two keys of `set_foot_help_string`
  unfoldable pub help_keys : Table Handler → Run (ℕ × ℕ)
  unfolding foot_keys
  help_keys t = visit_pairs 33 (pos 0) t >>= λ pairs. ok (foot_keys pairs (b' ', b' '))

  unfoldable pub set_foot_help_string : ℕ → Table Handler → Run Bytes
  unfolding help_keys
  set_foot_help_string len t = help_keys t >>= λ k.
      ok (cut len (codes "Press: " ++ lc k.0 ++ codes " to exit, " ++ lc k.1 ++ codes " for help"))

  -- the line of a pair: the first name of its handler before one that is unset
  unfoldable pub key_line : Bool → Names → Bytes → Handler → Bytes
  key_line html [] name h = []
  key_line html ((n, none) ∷ names) name h = []
  key_line html ((n, some h') ∷ names) name h =
      let rest = key_line html names name h in
      if address h' == address h
      then lc (strtol name) ++ codes "\t" ++ n ++ (if html then codes "<br/>" else []) ++ codes "\n"
      else rest

  unfoldable pub key_lines : Bool → Names → List (Bytes × Handler) → Bytes
  unfolding key_line
  key_lines html names [] = []
  key_lines html names ((name, h) ∷ pairs) =
      key_line html names name h ++ key_lines html names pairs

  -- what `handle_print_key_pairs` writes; no line fills its buffer
  unfoldable pub print_key_pairs : Bool → Names → Table Handler → Run Bytes
  unfolding key_lines
  print_key_pairs html names t = visit_pairs 33 (pos 0) t >>= λ pairs. ok (
      codes "newsbaoter key bindings"
      ++ (if html then codes "<br/><br/>" else [])
      ++ codes "\n\n"
      ++ key_lines html names pairs)

  -- the character of a key that the table has for a handler, or a blank where it has none
  abbrev pub IsKeyOf : Table Handler → Handler → ℕ → Type 0
  IsKeyOf t h c =
      ((c ≡ b' ') × ((name : Bytes) → get_hash_var (some name) t ≢ ok (some h)))
      ⊎ ((name : Bytes) × (get_hash_var (some name) t ≡ ok (some h)) × (c ≡ strtol name))

  HasPair : Table Handler → Bytes × Handler → Type 0
  HasPair t p = get_hash_var (some p.0) t ≡ ok (some p.1)

  -- what every entry of an array satisfies, every pair does
  entries-All :
      (P : Bytes × Handler → Type 0) (tab : List (Slot Handler))
      → ((i : ℕ) (n : Bytes) (h : Handler) → get_or tab i empty ≡ entry n (some h) → P (n, h))
      → All P (entries tab)
  unfolding entries
  entries-All P [] f = tt
  entries-All P (empty ∷ tab) f = entries-All P tab (λ i. f (suc i))
  entries-All P (deleted ∷ tab) f = entries-All P tab (λ i. f (suc i))
  entries-All P (entry n none ∷ tab) f = entries-All P tab (λ i. f (suc i))
  entries-All P (entry n (some h) ∷ tab) f = (f 0 n h refl, entries-All P tab (λ i. f (suc i)))

  entries-HasPair : (t : Table Handler) → IsValid t → All (HasPair t) (entries t.tab)
  unfolding HasPair
  entries-HasPair t valid = entries-All _ t.tab λ i n h e.
      let hit = scan-hit t.tab n i (some h) valid.unique e in
      get-scan_lem t valid n ∙ rw (hit.1) (ap ok hit.0)

  -- no pair has the handler
  abbrev Without : Handler → List (Bytes × Handler) → Type 0
  Without h pairs = All (λ p. p.1 ≢ h) pairs

  -- a key after some pairs: as it was, where none of them has the handler, or that of a pair
  abbrev IsNoted : Table Handler → Handler → List (Bytes × Handler) → ℕ → ℕ → Type 0
  IsNoted t h pairs before c =
      (Without h pairs × (c ≡ before))
      ⊎ ((name : Bytes) × (get_hash_var (some name) t ≡ ok (some h)) × (c ≡ strtol name))

  note_one :
      (t : Table Handler) (h other : Handler) (name : Bytes) (pairs : List (Bytes × Handler))
      (before between c : ℕ)
      → HasPair t (name, other)
      → ((other ≡ h) × (between ≡ strtol name)) ⊎ ((other ≢ h) × (between ≡ before))
      → IsNoted t h pairs between c
      → IsNoted t h ((name, other) ∷ pairs) before c
  unfolding HasPair
  note_one t h other name pairs before between c p x (inr later) = inr later
  note_one t h other name pairs before between c p (inl (same, e)) (inl (none_later, k)) =
      inr (name, p ∙ ap (λ o. ok (some o)) same, k ∙ e)
  note_one t h other name pairs before between c p (inr (differ, e)) (inl (none_later, k)) =
      inl ((differ, none_later), k ∙ e)

  exit_or :
      (name : Bytes) (h : Handler) (keys : ℕ × ℕ)
      → ((h ≡ Handler.exit) × ((note_key name h keys).0 ≡ strtol name))
        ⊎ ((h ≢ Handler.exit) × ((note_key name h keys).0 ≡ keys.0))
  exit_or name Handler.exit keys = inl (refl, refl)
  exit_or name Handler.print_key_pairs keys = inr (λ e. cc, refl)
  exit_or name _ keys = inr (λ e. cc, refl)

  help_or :
      (name : Bytes) (h : Handler) (keys : ℕ × ℕ)
      → ((h ≡ Handler.print_key_pairs) × ((note_key name h keys).1 ≡ strtol name))
        ⊎ ((h ≢ Handler.print_key_pairs) × ((note_key name h keys).1 ≡ keys.1))
  help_or name Handler.exit keys = inr (λ e. cc, refl)
  help_or name Handler.print_key_pairs keys = inl (refl, refl)
  help_or name _ keys = inr (λ e. cc, refl)

  foot_keys-IsNoted :
      (t : Table Handler) (pairs : List (Bytes × Handler)) (keys : ℕ × ℕ)
      → All (HasPair t) pairs
      → IsNoted t Handler.exit pairs keys.0 (foot_keys pairs keys).0
        × IsNoted t Handler.print_key_pairs pairs keys.1 (foot_keys pairs keys).1
  unfolding foot_keys
  foot_keys-IsNoted t [] keys a = (inl (tt, refl), inl (tt, refl))
  foot_keys-IsNoted t ((name, h) ∷ pairs) keys a =
      let keys' = note_key name h keys in
      let later = foot_keys-IsNoted t pairs keys' a.1 in
      (
        note_one t Handler.exit h name pairs keys.0 keys'.0 _ a.0 (exit_or name h keys) later.0,
        note_one t Handler.print_key_pairs h name pairs keys.1 keys'.1 _ a.0 (help_or name h keys)
            later.1,
      )

  -- what the map holds is an entry of the array
  scan-Without :
      (tab : List (Slot Handler)) (n : Bytes) (h : Handler)
      → Without h (entries tab)
      → scan tab n ≢ some h
  unfolding scan entries
  scan-Without [] n h w e = cc
  scan-Without (empty ∷ tab) n h w e = scan-Without tab n h w e
  scan-Without (deleted ∷ tab) n h w e = scan-Without tab n h w e
  scan-Without (entry m none ∷ tab) n h w e = ground (arith, scan-Without tab n h w)
  scan-Without (entry m (some k) ∷ tab) n h w e =
      ground (arith, scan-Without tab n h w.1, some-injective k h, w.0)

  get-Without :
      (t : Table Handler) (h : Handler)
      → IsValid t
      → Without h (entries t.tab)
      → (name : Bytes) → get_hash_var (some name) t ≢ ok (some h)
  get-Without t h valid w name e =
      scan-Without t.tab name h w (there _ _ (sym (get-scan_lem t valid name) ∙ e))
    where
      there :
          (b : Bool) (x : Option Handler)
          → (if b then ok x else fault out_of_bounds) ≡ ok (some h)
          → x ≡ some h
      there true x e = cc
      there false x e = cc

  IsNoted-IsKeyOf :
      (t : Table Handler) (h : Handler) (c : ℕ)
      → IsValid t
      → IsNoted t h (entries t.tab) (b' ') c
      → IsKeyOf t h c
  IsNoted-IsKeyOf t h c valid (inl (w, e)) = inl (e, get-Without t h valid w)
  IsNoted-IsKeyOf t h c valid (inr found) = inr found

  -- On a valid table without NULL values: the search for the keys of the help line comes back, and each
  -- of the two is the character of a name under which the table has the handler for the exit, or for
  -- the help; or it is a blank, and then the table has that handler under no name.
  pub help_keys-IsKeyOf :
      (t : Table Handler)
      → IsValid t
      → NoNull t.tab
      → Returns
          (help_keys t)
          λ k. IsKeyOf t Handler.exit k.0 × IsKeyOf t Handler.print_key_pairs k.1
  unfolding help_keys
  help_keys-IsKeyOf t valid full =
      let noted = foot_keys-IsNoted t (entries t.tab) (b' ', b' ') (entries-HasPair t valid) in
      rw (visit_pairs-entries t valid full)
        (_, refl, (IsNoted-IsKeyOf t _ _ valid noted.0, IsNoted-IsKeyOf t _ _ valid noted.1))
