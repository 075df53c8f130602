-- ===== src/Urls/Splitting.antt =====
-- The operations on texts that crates/core/src/infrastructure/url_policy.rs uses to take a URL
-- apart. A character is given by its code.
use Prim.Native.Char.{code}
use Prim.Native.String.{[], ◌∷◌}
use agent_dep_platform.Base.{
  ℕ, String, Bool, true, false, ◌&&◌, ◌||◌, Option, none, some, List, eqb, is_whitespace,
  if◌then◌else◌,
}
use mathlib.Core.List.{[] as nil, ◌∷◌ as cons}

abbrev pub at_sign : ℕ
at_sign = 64

abbrev pub slash : ℕ
slash = 47

abbrev pub colon : ℕ
colon = 58

abbrev pub dot : ℕ
dot = 46

abbrev pub open_bracket : ℕ
open_bracket = 91

abbrev pub close_bracket : ℕ
close_bracket = 93

abbrev pub star : ℕ
star = 42

abbrev pub is_empty : String → Bool
is_empty [] = true
is_empty (c ∷ s) = false

abbrev pub starts_with : ℕ → String → Bool
starts_with d [] = false
starts_with d (c ∷ s) = eqb (code c) d

abbrev pub has_char : ℕ → String → Bool
has_char d [] = false
has_char d (c ∷ s) = eqb (code c) d || has_char d s

-- `s.find(d)`, as the parts before and after the first `d`.
abbrev pub before_first : ℕ → String → Option String
before_first d [] = none
before_first d (c ∷ s) =
    let rest = before_first d s in
    if eqb (code c) d then some [] else elim rest [ none ↦ none | some p ↦ some (c ∷ p) ]

abbrev pub after_first : ℕ → String → Option String
after_first d [] = none
after_first d (c ∷ s) = if eqb (code c) d then some s else after_first d s

-- `s.rfind(d)`, as the part before the last `d`.
abbrev pub before_last : ℕ → String → Option String
before_last d [] = none
before_last d (c ∷ s) = elim (before_last d s) [
  | some p ↦ some (c ∷ p)
  | none ↦ if eqb (code c) d then some [] else none
]

-- `trim_start_matches` and `trim_end_matches` of one character.
abbrev pub trim_start : (ℕ → Bool) → String → String
trim_start p [] = []
trim_start p (c ∷ s) = let rest = trim_start p s in if p (code c) then rest else c ∷ s

abbrev pub trim_end : (ℕ → Bool) → String → String
trim_end p [] = []
trim_end p (c ∷ s) = let rest = trim_end p s in if is_empty rest && p (code c) then [] else c ∷ rest

abbrev pub trim : String → String
trim s = trim_end is_whitespace (trim_start is_whitespace s)

-- Whether the text starts with `://`, and what follows.
abbrev after_separator : String → Option String
after_separator (a ∷ b ∷ c ∷ s) =
    if eqb (code a) colon && eqb (code b) slash && eqb (code c) slash then some s else none
after_separator _ = none

-- `s.find("://")`, as the scheme and the rest.
abbrev pub split_scheme : String → Option (String × String)
split_scheme [] = none
split_scheme (c ∷ s) =
    let later = split_scheme s in
    elim (after_separator (c ∷ s)) [
      | some rest ↦ some ([], rest)
      | none ↦ elim later [ none ↦ none | some found ↦ some (c ∷ found.0, found.1) ]
    ]

-- `s.split(',')`
abbrev pub split_commas : String → List String
split_commas [] = cons [] nil
split_commas (c ∷ s) =
    let later = split_commas s in
    if eqb (code c) 44
    then cons [] later
    else elim later [ nil ↦ cons (c ∷ []) nil | cons p ps ↦ cons (c ∷ p) ps ]
