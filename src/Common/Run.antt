-- ===== src/Common/Run.antt =====
-- Results of C code that may have no defined behaviour, may abort, or may not come back.
use mathlib.Core.Path.{◌≡◌, refl, sym, ap, subst}
use mathlib.Core.Logic.{◌≢◌}
use mathlib.Core.Bool.{Bool, true, false}
use Prim.Native.Nat.{ℕ}
use newsbaoter.Common.Tests.{if◌then◌else◌}

-- `exits` is a call of `exit`; `diverges` a loop that never ends; `no_row` the use of a row of the list
-- on the screen that is not there.
pub data Fault : Type 0 where
  out_of_bounds : Fault
  null_pointer : Fault
  double_free : Fault
  diverges : Fault
  no_row : Fault
  exits : ℕ → Fault

pub data Run {ℓ} (R : Type ℓ) : Type ℓ where
  fault : Fault → Run R
  ok : R → Run R

-- What follows a fault is not run.
infixl 5 ◌>>=◌
abbrev pub ◌>>=◌ {ℓ κ} : {R : Type ℓ} {S : Type κ} → Run R → (R → Run S) → Run S
fault why >>= next = fault why
ok r >>= next = next r

-- The code comes back, with a value that satisfies `P`.
abbrev pub Returns {ℓ κ} : {R : Type ℓ} → Run R → (R → Type κ) → Type (ℓ ⊔ κ)
Returns {R} m P = (r : R) × (m ≡ ok r) × P r

-- What holds after the first part is used for the second.
pub Returns->>= {ℓ κ ι η} :
    {R : Type ℓ} {S : Type κ} {P : R → Type ι} {Q : S → Type η} (m : Run R) (f : R → Run S)
    → Returns m P
    → ((r : R) → P r → Returns (f r) Q)
    → Returns (m >>= f) Q
Returns->>= {Q} m f (r, e, p) k = subst (λ x. Returns (x >>= f) Q) (sym e) (k r p)

-- A fault of the second part is one of both.
pub fault->>= {ℓ κ ι} :
    {R : Type ℓ} {S : Type κ} {P : R → Type ι} {why : Fault} (m : Run R) (f : R → Run S)
    → Returns m P
    → ((r : R) → P r → f r ≡ fault why)
    → (m >>= f) ≡ fault why
fault->>= {why} m f (r, e, p) k = subst (λ x. (x >>= f) ≡ fault why) (sym e) (k r p)

-- What holds of the value, where the code comes back.
pub record Holds {ℓ κ} {R : Type ℓ} (m : Run R) (P : R → Type κ) : Type (ℓ ⊔ κ) where
  pub of_value : (r : R) → m ≡ ok r → P r

value {ℓ} : {R : Type ℓ} → R → Run R → R
value d (fault why) = d
value d (ok r) = r

pub Holds-ok {ℓ κ} : {R : Type ℓ} (P : R → Type κ) (r : R) → P r → Holds (ok r) P
unfolding value
Holds-ok P r p = record { of_value = λ s e. subst P (ap (value r) e) p }

pub Holds-fault {ℓ κ} : {R : Type ℓ} (P : R → Type κ) (why : Fault) → Holds (fault why) P
Holds-fault P why = record { of_value = λ r e. cc }

pub Holds->>= {ℓ κ ι η} :
    {R : Type ℓ} {S : Type κ} {P : R → Type ι} {Q : S → Type η} (m : Run R) (f : R → Run S)
    → Holds m P
    → ((r : R) → P r → Holds (f r) Q)
    → Holds (m >>= f) Q
Holds->>= {Q} (fault why) f h k = Holds-fault Q why
Holds->>= (ok r) f h k = k r (h.of_value r refl)

pub Holds-map {ℓ κ ι} :
    {R : Type ℓ} {P : R → Type κ} {Q : R → Type ι} {m : Run R}
    → Holds m P
    → ((r : R) → P r → Q r)
    → Holds m Q
Holds-map h k = record { of_value = λ r e. k r (h.of_value r e) }

pub Holds-if {ℓ κ} :
    {R : Type ℓ} {P : R → Type κ} (b : Bool) (x y : Run R)
    → Holds x P
    → Holds y P
    → Holds (if b then x else y) P
Holds-if true x y h k = h
Holds-if false x y h k = k

abbrev pub is_no_row : Fault → Bool
is_no_row no_row = true
is_no_row _ = false

-- What holds of the value, where the code comes back; and where it does not, that is not for a row
-- that is not there.
pub record Safe {ℓ κ} {R : Type ℓ} (m : Run R) (P : R → Type κ) : Type (ℓ ⊔ κ) where
  pub of_value : (r : R) → m ≡ ok r → P r
  pub of_fault : (why : Fault) → m ≡ fault why → is_no_row why ≡ false

reason {ℓ} : {R : Type ℓ} → Fault → Run R → Fault
reason d (fault why) = why
reason d (ok r) = d

pub Safe-ok {ℓ κ} : {R : Type ℓ} (P : R → Type κ) (r : R) → P r → Safe (ok r) P
Safe-ok P r p = record { of_value = (Holds-ok P r p).of_value; of_fault = λ why e. cc }

pub Safe-fault {ℓ κ} :
    {R : Type ℓ} (P : R → Type κ) (why : Fault) → is_no_row why ≡ false → Safe (fault why) P
unfolding reason
Safe-fault P why h = record {
  of_value = λ r e. cc;
  of_fault = λ w e. subst (λ x. is_no_row x ≡ false) (ap (reason why) e) h;
}

pub Safe->>= {ℓ κ ι η} :
    {R : Type ℓ} {S : Type κ} {P : R → Type ι} {Q : S → Type η} (m : Run R) (f : R → Run S)
    → Safe m P
    → ((r : R) → P r → Safe (f r) Q)
    → Safe (m >>= f) Q
Safe->>= {Q} (fault why) f h k = Safe-fault Q why (h.of_fault why refl)
Safe->>= (ok r) f h k = k r (h.of_value r refl)

pub Safe-map {ℓ κ ι} :
    {R : Type ℓ} {P : R → Type κ} {Q : R → Type ι} {m : Run R}
    → Safe m P
    → ((r : R) → P r → Q r)
    → Safe m Q
Safe-map h k = record { of_value = λ r e. k r (h.of_value r e); of_fault = h.of_fault }

pub Safe-if {ℓ κ} :
    {R : Type ℓ} {P : R → Type κ} (b : Bool) (x y : Run R)
    → Safe x P
    → Safe y P
    → Safe (if b then x else y) P
Safe-if true x y h k = h
Safe-if false x y h k = k

-- A guard that does not hold.
pub Safe-unless {ℓ κ} :
    {R : Type ℓ} {P : R → Type κ} (b : Bool) (x y : Run R)
    → b ≡ false
    → Safe y P
    → Safe (if b then x else y) P
Safe-unless {P} b x y e h = subst (λ c. Safe (if c then x else y) P) (sym e) h

pub Safe-Holds {ℓ κ} : {R : Type ℓ} {P : R → Type κ} {m : Run R} → Safe m P → Holds m P
Safe-Holds h = record { of_value = h.of_value }

-- The code does not run for ever: it stops with another fault, or comes back with a value that
-- satisfies `P`.
pub data Ends {ℓ κ} {R : Type ℓ} (m : Run R) (P : R → Type κ) : Type (ℓ ⊔ κ) where
  stops : (why : Fault) → m ≡ fault why → why ≢ diverges → Ends m P
  returns : (r : R) → m ≡ ok r → P r → Ends m P

pub Ends-ok {ℓ κ} : {R : Type ℓ} {P : R → Type κ} (r : R) → P r → Ends (ok r) P
Ends-ok r p = returns r refl p

pub Ends->>= {ℓ κ ι η} :
    {R : Type ℓ} {S : Type κ} {P : R → Type ι} {Q : S → Type η} (m : Run R) (f : R → Run S)
    → Ends m P
    → ((r : R) → P r → Ends (f r) Q)
    → Ends (m >>= f) Q
Ends->>= m f (stops why e ne) k = stops why (ap (λ x. x >>= f) e) ne
Ends->>= {Q} m f (returns r e p) k = subst (λ x. Ends (x >>= f) Q) (sym e) (k r p)

pub Ends-map {ℓ κ ι} :
    {R : Type ℓ} {P : R → Type κ} {Q : R → Type ι} {m : Run R}
    → Ends m P
    → ((r : R) → P r → Q r)
    → Ends m Q
Ends-map (stops why e ne) k = stops why e ne
Ends-map (returns r e p) k = returns r e (k r p)

pub Ends-if {ℓ κ} :
    {R : Type ℓ} {P : R → Type κ} (b : Bool) (x y : Run R)
    → Ends x P
    → Ends y P
    → Ends (if b then x else y) P
Ends-if true x y h k = h
Ends-if false x y h k = k

pub Ends-out_of_bounds {ℓ κ} : {R : Type ℓ} {P : R → Type κ} → Ends {R = R} (fault out_of_bounds) P
Ends-out_of_bounds = stops out_of_bounds refl (λ e. cc)

pub Ends-diverges {ℓ κ} : {R : Type ℓ} {P : R → Type κ} (m : Run R) → Ends m P → m ≢ fault diverges
Ends-diverges m (stops why e ne) d = ne (cc)
Ends-diverges m (returns r e p) d = cc
