-- ===== src/Common/Bits.antt =====
-- The bit operations of C on unsigned numbers, as arithmetic.
use Prim.Native.Nat.{
  ℕ, zero, suc, ◌+◌, ◌-◌, ◌*◌, ◌/◌, ◌%◌, ◌^◌, ◌≤◌, ◌<◌, min, max, digits, bit_and, bit_or,
  bit_and-bitwise, bit_or-bitwise,
}
use mathlib.Core.Path.{◌≡◌, refl, ap}
use native.Mathlib.Omega.{arith}
use native.Mathlib.Nat.{pow-suc}

-- Any fuel that the first number fits gives the same digits.
module _ (rest : ℕ → ℕ) (f : ℕ → ℕ → ℕ) where
  digits-enough : (a b n m : ℕ) → a ≤ n → a ≤ m → digits rest f n a b ≡ digits rest f m a b
  digits-enough zero b zero zero p q = refl
  digits-enough zero b zero (suc m) p q = refl
  digits-enough zero b (suc n) zero p q = refl
  digits-enough zero b (suc n) (suc m) p q = refl
  digits-enough (suc a) b zero m p q = absurd (omega arith)
  digits-enough (suc a) b (suc n) zero p q = absurd (omega arith)
  digits-enough (suc a) b (suc n) (suc m) p q =
      ap (λ (d : ℕ). d * 2 + f (suc a % 2) (b % 2))
        (digits-enough (suc a / 2) (b / 2) n m (omega arith) (omega arith))

bit_or-lowest : (a b : ℕ) → bit_or a b ≡ bit_or (a / 2) (b / 2) * 2 + max (a % 2) (b % 2)
bit_or-lowest zero b = omega (arith, bit_or-bitwise 0 b, bit_or-bitwise 0 (b / 2))
bit_or-lowest (suc a) b = omega (
  arith,
  bit_or-bitwise (suc a) b,
  bit_or-bitwise (suc a / 2) (b / 2),
  digits-enough (λ d. d) max (suc a / 2) (b / 2) a (suc a / 2) (omega arith) (omega arith),
)

bit_and-lowest : (a b : ℕ) → bit_and a b ≡ bit_and (a / 2) (b / 2) * 2 + min (a % 2) (b % 2)
bit_and-lowest zero b = omega (arith, bit_and-bitwise 0 b, bit_and-bitwise 0 (b / 2))
bit_and-lowest (suc a) b = omega (
  arith,
  bit_and-bitwise (suc a) b,
  bit_and-bitwise (suc a / 2) (b / 2),
  digits-enough (λ d. 0) min (suc a / 2) (b / 2) a (suc a / 2) (omega arith) (omega arith),
)

shift_once : (high k : ℕ) → high * 2 ^ suc k ≡ high * 2 ^ k * 2
shift_once high k = omega (arith, ap (λ (t : ℕ). high * t) (pow-suc 2 k))

-- `low | (high << k)`, where `low` has `k` bits
pub bit_or-shifted : (k low high : ℕ) → low < 2 ^ k → bit_or low (high * 2 ^ k) ≡ high * 2 ^ k + low
bit_or-shifted zero low high fits =
    let none_low : low ≡ 0 = omega arith in
    let all_high : high * 2 ^ 0 ≡ high = omega arith in
    rw (none_low, all_high) (omega (arith, bit_or-bitwise 0 high))
bit_or-shifted (suc k) low high fits = ground (
  arith,
  shift_once high k,
  bit_or-lowest low (high * 2 ^ suc k),
  bit_or-shifted k (low / 2) high (omega (arith, pow-suc 2 k)),
)

bit_and-none : (n a : ℕ) → a ≤ n → bit_and a 0 ≡ 0
bit_and-none n zero fits = bit_and-bitwise 0 0
bit_and-none zero (suc a) fits = absurd (omega arith)
bit_and-none (suc n) (suc a) fits =
    omega (arith, bit_and-lowest (suc a) 0, bit_and-none n (suc a / 2) (omega arith))

-- the low `k` bits of what `bit_or-shifted` packs
pub bit_and-ones : (k low high : ℕ) → low < 2 ^ k → bit_and (high * 2 ^ k + low) (2 ^ k - 1) ≡ low
bit_and-ones zero low high fits =
    omega (arith, bit_and-none (high * 2 ^ 0 + low) (high * 2 ^ 0 + low) (omega arith))
bit_and-ones (suc k) low high fits = ground (
  arith,
  shift_once high k,
  pow-suc 2 k,
  bit_and-lowest (high * 2 ^ suc k + low) (2 ^ suc k - 1),
  bit_and-ones k (low / 2) high (omega (arith, pow-suc 2 k)),
)
