-- ===== src/Keys/Bind.antt =====
-- src/ui/keys.c: bindings and the keys that call them.
use newsbaoter.Common.{
  ℕ, suc, ◌+◌, ◌<◌, ◌≡◌, refl, sym, ◌∙◌, ap, subst, Bool, true, false, ◌||◌, Option, none, some,
  List, [], ◌∷◌, length, str_eq, str_eq_iff, ==_iff, ◌==◌, if◌then◌else◌, arith,
}
use newsbaoter.Common.Int.{ℤ}
use newsbaoter.Common.Run.{Run, fault, ok, Returns}
use newsbaoter.Hash.{Table, init_table}
use newsbaoter.Hash.View.{scan, has_name, has_free, count_live}
use newsbaoter.Hash.Valid.{IsValid, get-scan_lem}
use newsbaoter.Hash.Laws.{set-Writes, unset-Writes, Writes}
use newsbaoter.Hash.Refine.{usable, init-IsValid, init-empty}
use newsbaoter.Keys.{Handler, to_u32, hex, key_name, bind_key, unbind_key, process_key, bind_all}
use newsbaoter.Keys.Hex.{of_hex, of_hex-key_name}

-- the same key, as `%x` sees it
abbrev pub same_key : ℤ → ℤ → Bool
same_key c c' = to_u32 c == to_u32 c'

Bool_ext : (a b : Bool) → (a ≡ true → b ≡ true) → (b ≡ true → a ≡ true) → a ≡ b
Bool_ext true b h k = sym (h refl)
Bool_ext false true h k = k refl
Bool_ext false false h k = refl

str_eq-key_name : (c c' : ℤ) → str_eq (key_name c) (key_name c') ≡ same_key c c'
unfolding key_name
str_eq-key_name c c' =
    Bool_ext _ _
      (λ e. (==_iff (to_u32 c) (to_u32 c')).1 (
        sym (of_hex-key_name c)
        ∙ ap (of_hex 0) ((str_eq_iff (key_name c) (key_name c')).0 e)
        ∙ of_hex-key_name c'))
      (λ e.
        (str_eq_iff (key_name c) (key_name c')).1
          (ap (hex 8) ((==_iff (to_u32 c) (to_u32 c')).0 e)))

-- A valid table, the handlers that its keys call, and a bound on the slots taken.
pub record Binds (t : Table Handler) (handlers : ℤ → Option Handler) (used : ℕ) : Type 0 where
  pub valid : IsValid t
  pub reads : (c : ℤ) → process_key c t ≡ ok (handlers c)
  pub fits : count_live t.tab < used + 1

process_key-scan :
    (t : Table Handler) (c : ℤ)
    → IsValid t
    → count_live t.tab < 32
    → process_key c t ≡ ok (scan t.tab (key_name c))
unfolding process_key
process_key-scan t c valid room =
    rw (get-scan_lem t valid (key_name c), usable t valid (key_name c) room)

abbrev pub bound : (ℤ → Option Handler) → ℤ → Option Handler → ℤ → Option Handler
bound handlers c h c' = if same_key c c' then h else handlers c'

result : Option Handler → Run (Option Handler) → Option Handler
result h (fault why) = h
result h (ok r) = r

ok-injective : (a b : Option Handler) → ok a ≡ ok b → a ≡ b
unfolding result
ok-injective a b e = ap (result a) e

count_kept :
    (a c : ℕ) (x y : Bool) → a + (if x then 1 else 0) ≡ c + (if y then 1 else 0) → a < c + 2
count_kept a c x y h = ground arith

module _ (t : Table Handler) (f : ℤ → Option Handler) (used : ℕ) (b : Binds t f used)
    (room : used < 31) (c : ℤ) where
  room_for : (has_name t.tab (key_name c) || has_free t.tab) ≡ true
  room_for = usable t b.valid (key_name c) (omega (arith, b.fits))

  old : (c' : ℤ) → scan t.tab (key_name c') ≡ f c'
  old c' =
      ok-injective _ _ (sym (process_key-scan t c' b.valid (omega (arith, b.fits))) ∙ b.reads c')

  written :
      (t' : Table Handler) (h : Option Handler) (kept : Bool)
      → Writes t (key_name c) h kept t'
      → Binds t' (bound f c h) (used + 1)
  written t' h kept w = record {
    valid = w.valid;
    reads = λ c'.
        process_key-scan t' c' w.valid (omega (arith, b.fits, count_kept _ _ _ _ w.counts))
        ∙ ap ok (w.reads (key_name c') ∙ rw (str_eq-key_name c c', old c'));
    fits = omega (arith, b.fits, count_kept _ _ _ _ w.counts);
  }

  -- Where a table binds keys and fewer than 31 of its slots are taken, bind_key binds the key to the
  -- handler and leaves the keys that `%x` writes differently as they are.
  pub bind_key-Binds :
      (h : Option Handler) → Returns (bind_key c h t) (λ t'. Binds t' (bound f c h) (used + 1))
  unfolding bind_key
  bind_key-Binds h =
      let (t', run, w) = set-Writes t b.valid (key_name c) h room_for in
      (t', run, written t' h true w)

  -- Where a table binds keys and fewer than 31 of its slots are taken, unbind_key leaves the key
  -- without a handler and the keys that `%x` writes differently as they are.
  pub unbind_key-Binds : Returns (unbind_key c t) (λ t'. Binds t' (bound f c none) (used + 1))
  unfolding unbind_key
  unbind_key-Binds =
      let (t', run, w) = unset-Writes t b.valid (key_name c) room_for in
      (t', run, written t' none false w)

-- what a list of bindings makes of the keys
abbrev pub assigned : (ℤ → Option Handler) → List (ℤ × Handler) → ℤ → Option Handler
assigned f [] = f
assigned f ((c, h) ∷ keys) = assigned (bound f c (some h)) keys

pub bind_all-Binds :
    (keys : List (ℤ × Handler)) (t : Table Handler) (f : ℤ → Option Handler) (used : ℕ)
    → Binds t f used
    → used + length keys < 32
    → Returns (bind_all keys t) (λ t'. Binds t' (assigned f keys) (used + length keys))
unfolding bind_all
bind_all-Binds [] t f used b room =
    (t, refl, (let e : used ≡ used + 0 = omega arith in subst (Binds t f) e b))
bind_all-Binds ((c, h) ∷ keys) t f used b room =
    let (t1, run, b1) = bind_key-Binds t f used b (omega arith) c (some h) in
    let (t2, run2, b2) = bind_all-Binds keys t1 (bound f c (some h)) (used + 1) b1 (omega arith) in
    (
      t2,
      rw run run2,
      (let e : used + 1 + length keys ≡ used + suc (length keys) = omega arith in
          subst (Binds t2 (assigned f ((c, h) ∷ keys))) e b2),
    )

pub init-Binds : Binds init_table (λ c. none) 0
init-Binds = record {
  valid = init-IsValid;
  reads = λ c.
      process_key-scan init_table c init-IsValid (omega (arith, (init-empty {V = Handler}).0))
      ∙ ap ok (init-empty.1 (key_name c));
  fits = omega (arith, (init-empty {V = Handler}).0);
}

-- On a new table fewer than 32 keys are bound without a fault, and then every key calls the handler
-- that the last binding of it names, or none.
pub bind_all-init :
    (keys : List (ℤ × Handler))
    → length keys < 32
    → Returns
        (bind_all keys init_table)
        (λ t'. (c : ℤ) → process_key c t' ≡ ok (assigned (λ c'. none) keys c))
bind_all-init keys room =
    let (t', run, b) = bind_all-Binds keys init_table (λ c. none) 0 init-Binds (omega arith) in
    (t', run, b.reads)
