-- ===== src/Access/Tokens.antt =====
-- crates/server/src/auth.rs: the bearer token of a request, and when it is refused.
use Prim.Native.Char.{code}
use Prim.Native.String.{[], ◌∷◌}
use agent_dep_platform.Base.{
  ℕ, ◌+◌, String, Bool, true, false, not, ◌&&◌, ◌||◌, Option, none, some, eqb, leb, ◌==◌, string_eq,
  if◌then◌else◌, is_some,
}
use agent_dep_platform.Urls.Splitting.{trim}
use agent_dep_platform.Accounts.Cookies.{strip_prefix}
use agent_dep_platform.Access.Requests.{Outside}

-- `to_ascii_lowercase` of one character.
abbrev lower : ℕ → ℕ
lower c = if leb 65 c && leb c 90 then c + 32 else c

-- `s.to_ascii_lowercase() == t`
abbrev is_lowered : String → String → Bool
is_lowered [] [] = true
is_lowered [] (d ∷ t) = false
is_lowered (c ∷ s) [] = false
is_lowered (c ∷ s) (d ∷ t) = eqb (lower (code c)) (code d) && is_lowered s t

unfoldable pub is_known_sentinel : String → Bool
is_known_sentinel token =
    is_lowered token ""
    || is_lowered token "null"
    || is_lowered token "undefined"
    || is_lowered token "none"
    || is_lowered token "nil"
    || is_lowered token "0"
    || is_lowered token "admin"
    || is_lowered token "root"
    || is_lowered token "anonymous"

-- A header that is no longer than the prefix has no token.
unfoldable pub extract_bearer : Option String → Option String
extract_bearer none = none
extract_bearer (some h) = elim (strip_prefix "Bearer " h) [
  | none ↦ none
  | some rest ↦ if is_known_sentinel (trim rest) then none else some (trim rest)
]

-- `matches!(v, "1" | "true" | "yes" | "on")`
unfoldable pub bearer_fallback_enabled : Outside → Bool
bearer_fallback_enabled out = elim out.agency_bearer_fallback [
  | none ↦ false
  | some v ↦ v == "1" || v == "true" || v == "yes" || v == "on"
]

-- An expiry that is not a date never passes.
unfoldable pub is_expired : Outside → ℕ → Option String → Bool
is_expired out now none = false
is_expired out now (some text) = elim (out.parse_from_rfc3339 text) [
  | none ↦ false
  | some expires ↦ leb expires now
]

-- A user without an expiry, whom no OIDC login made, may not use a bearer token.
abbrev pub is_pre_oidc_refused : Outside → Option String → Bool
is_pre_oidc_refused out expiry = not (is_some expiry) && not (bearer_fallback_enabled out)
