-- ===== src/Keys/Hex.antt =====
-- src/ui/keys.c: the names of keys, as `snprintf` writes them and `strtol` reads them.
use newsbaoter.Common.{
  ℕ, zero, suc, ◌+◌, ◌-◌, ◌*◌, ◌/◌, ◌%◌, ◌^◌, ◌<◌, ◌≡◌, refl, true, inl, inr, Bool-cases, [], ◌∷◌,
  ◌++◌, Bytes, ltb, if◌then◌else◌, arith,
}
use native.Mathlib.Numerals.{unary_clauses}
use newsbaoter.Common.Int.{ℤ, pos, negsuc}
use newsbaoter.Keys.{to_u32, hex_digit, hex, key_name}

-- `strtol(name,NULL,16)` on digits
abbrev pub digit_value : ℕ → ℕ
digit_value c = if ltb c b'a' then c - b'0' else c - b'a' + 10

unfoldable pub of_hex : ℕ → Bytes → ℕ
of_hex n [] = n
of_hex n (c ∷ s) = of_hex (n * 16 + digit_value c) s

digit_value-hex_digit : (d : ℕ) → d < 16 → digit_value (hex_digit d) ≡ d
digit_value-hex_digit d h = ground arith

of_hex-append : (s : Bytes) (n c : ℕ) → of_hex n (s ++ c ∷ []) ≡ of_hex n s * 16 + digit_value c
unfolding of_hex
of_hex-append [] n c = refl
of_hex-append (x ∷ s) n c = of_hex-append s (n * 16 + digit_value x) c

of_ltb : (a b : ℕ) → ltb a b ≡ true → a < b
of_ltb a b h = ground arith

of_hex-hex : (places n : ℕ) → n < 16 ^ places → of_hex 0 (hex places n) ≡ n
unfolding hex of_hex
of_hex-hex zero n h = omega arith
of_hex-hex (suc places) n h = elim (Bool-cases (ltb n 16)) [
  | inl e ↦ rw e (omega (arith, digit_value-hex_digit n (of_ltb n 16 e)))
  | inr ne ↦
      let pow : 16 ^ suc places ≡ 16 ^ places * 16 = simp unary_clauses in
      rw
        (
          ne,
          of_hex-append (hex places (n / 16)) 0 (hex_digit (n % 16)),
          of_hex-hex places (n / 16) (omega (arith, h, pow)),
          digit_value-hex_digit (n % 16) (omega arith),
        )
        (omega arith)
]

to_u32_lt : (c : ℤ) → to_u32 c < 2 ^ 32
to_u32_lt (pos n) = omega arith
to_u32_lt (negsuc n) = omega arith

-- The number that strtol(3) reads back from the name of a key is the key, as an unsigned int.
pub of_hex-key_name : (c : ℤ) → of_hex 0 (key_name c) ≡ to_u32 c
unfolding key_name
of_hex-key_name c = of_hex-hex 8 (to_u32 c) (omega (arith, to_u32_lt c))
