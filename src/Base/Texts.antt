-- ===== src/Base/Texts.antt =====
-- Texts: white space as `char::is_whitespace` has it, and the decimal digits of a number.
use Prim.Native.Nat.{ℕ, zero, suc, ◌/◌, ◌%◌}
use Prim.Native.Char.{code}
use Prim.Native.String.{String, [], ◌∷◌, ◌++◌, char_at}
use mathlib.Core.Bool.{Bool, true, ◌&&◌, ◌||◌}
use agent_dep_platform.Base.Tests.{leb, ltb, eqb, if◌then◌else◌}

-- `char::is_whitespace`
abbrev pub is_whitespace : ℕ → Bool
is_whitespace c =
    (leb 9 c && leb c 13)
    || eqb c 32
    || eqb c 133
    || eqb c 160
    || eqb c 5760
    || (leb 8192 c && leb c 8202)
    || eqb c 8232
    || eqb c 8233
    || eqb c 8239
    || eqb c 8287
    || eqb c 12288

-- `s.trim().is_empty()`
abbrev pub is_blank : String → Bool
is_blank [] = true
is_blank (c ∷ s) = is_whitespace (code c) && is_blank s

abbrev digit : ℕ → String
digit d = char_at "0123456789" d ∷ []

abbrev digits : ℕ → ℕ → String
digits zero n = ""
digits (suc fuel) n =
    let rest = digits fuel (n / 10) in if ltb n 10 then digit n else rest ++ digit (n % 10)

-- A `u64` has at most 20 digits.
abbrev pub decimal : ℕ → String
decimal n = digits 20 n
