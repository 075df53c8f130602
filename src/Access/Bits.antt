-- ===== src/Access/Bits.antt =====
-- The operators `^` and `|` of Rust on unsigned integers of a width, bit by bit, as the comparison
-- of tokens in crates/server/src/auth.rs uses them on bytes.
use mathlib.Core.Path.{subst}
use agent_dep_platform.Base.{
  ℕ, zero, suc, ◌+◌, ◌*◌, ◌/◌, ◌%◌, ◌<◌, ◌≡◌, refl, sym, arith, eqb, if◌then◌else◌,
}

abbrev pub bit_xor : ℕ → ℕ → ℕ → ℕ
bit_xor zero a b = 0
bit_xor (suc w) a b = (if eqb (a % 2) (b % 2) then 0 else 1) + 2 * bit_xor w (a / 2) (b / 2)

abbrev pub bit_or : ℕ → ℕ → ℕ → ℕ
bit_or zero a b = 0
bit_or (suc w) a b = (if eqb (a % 2 + b % 2) 0 then 0 else 1) + 2 * bit_or w (a / 2) (b / 2)

-- The number has no more bits than the width.
abbrev pub Fits : ℕ → ℕ → Type 0
Fits zero a = a ≡ 0
Fits (suc w) a = Fits w (a / 2)

pub Fits-byte : (a : ℕ) → a < 256 → Fits 8 a
Fits-byte a h = omega arith

pub bit_xor-eq-zero : (w a b : ℕ) → Fits w a → Fits w b → bit_xor w a b ≡ 0 → a ≡ b
bit_xor-eq-zero zero a b fa fb h = omega arith
bit_xor-eq-zero (suc w) a b fa fb h = ground (arith, bit_xor-eq-zero w (a / 2) (b / 2) fa fb)

pub bit_xor_self : (w a : ℕ) → bit_xor w a a ≡ 0
bit_xor_self zero a = refl
bit_xor_self (suc w) a = ground (arith, bit_xor_self w (a / 2))

pub bit_or-eq-zero : (w a b : ℕ) → Fits w a → Fits w b → bit_or w a b ≡ 0 → (a ≡ 0) × (b ≡ 0)
bit_or-eq-zero zero a b fa fb h = (fa, fb)
bit_or-eq-zero (suc w) a b fa fb h = ground (arith, bit_or-eq-zero w (a / 2) (b / 2) fa fb)

pub bit_or-zero : (w : ℕ) → bit_or w 0 0 ≡ 0
bit_or-zero zero = refl
bit_or-zero (suc w) = ground (arith, bit_or-zero w)

half : (n d : ℕ) → d < 2 → (d + 2 * n) / 2 ≡ n
half n d h = omega arith

pub bit_xor-Fits : (w a b : ℕ) → Fits w (bit_xor w a b)
bit_xor-Fits zero a b = refl
bit_xor-Fits (suc w) a b =
    subst (Fits w)
      (sym (half (bit_xor w (a / 2) (b / 2)) (if eqb (a % 2) (b % 2) then 0 else 1) (ground arith)))
      (bit_xor-Fits w (a / 2) (b / 2))

pub bit_or-Fits : (w a b : ℕ) → Fits w (bit_or w a b)
bit_or-Fits zero a b = refl
bit_or-Fits (suc w) a b =
    subst (Fits w)
      (sym
        (half (bit_or w (a / 2) (b / 2)) (if eqb (a % 2 + b % 2) 0 then 0 else 1) (ground arith)))
      (bit_or-Fits w (a / 2) (b / 2))
