-- ===== src/Accounts/Cookies.antt =====
-- crates/server/src/session_cookie.rs: the session cookie, written and read back.
use Prim.Native.Char.{Char, code}
use Prim.Native.String.{[], ◌∷◌, ◌++◌, char_at}
use text.Mathlib.TextLemmas.{nil-append, cons-append, append_assoc}
use mathlib.Core.List.{[] as nil, ◌∷◌ as cons}
use agent_dep_platform.Base.{
  ℕ, String, Bool, true, false, not, ◌&&◌, ◌≡◌, refl, sym, ◌∙◌, ap, Option, none, some, List, arith,
  eqb, is_whitespace, if◌then◌else◌,
}
use agent_dep_platform.Urls.Splitting.{is_empty, trim_start, trim_end, trim}

abbrev pub session_cookie_name : String
session_cookie_name = "agency_session"

abbrev semicolon : ℕ
semicolon = 59

-- `s.strip_prefix(p)`
abbrev pub strip_prefix : String → String → Option String
strip_prefix [] s = some s
strip_prefix (a ∷ p) [] = none
strip_prefix (a ∷ p) (c ∷ s) = if eqb (code a) (code c) then strip_prefix p s else none

-- `s.split(d)`
abbrev pub split_on : ℕ → String → List String
split_on d [] = cons [] nil
split_on d (c ∷ s) =
    let later = split_on d s in
    if eqb (code c) d
    then cons [] later
    else elim later [ nil ↦ cons (c ∷ []) nil | cons p ps ↦ cons (c ∷ p) ps ]

abbrev secure_attr : Bool → String
secure_attr secure = if secure then "; Secure" else ""

-- `Max-Age` is SESSION_COOKIE_MAX_AGE_SECS, 3600.
abbrev attributes : String
attributes = "; HttpOnly; SameSite=Strict; Path=/; Max-Age=3600"

unfoldable pub make_session_cookie_header : String → Bool → String
make_session_cookie_header session_id secure =
    session_cookie_name ++ "=" ++ session_id ++ (attributes ++ secure_attr secure)

unfoldable pub clear_session_cookie_header : Bool → String
clear_session_cookie_header secure =
    session_cookie_name ++ "=; HttpOnly; SameSite=Strict; Path=/; Max-Age=0" ++ secure_attr secure

-- What follows the cookie's name, if it is `=` and a value.
abbrev cookie_value : String → Option String
cookie_value rest = elim (strip_prefix "=" rest) [
  | none ↦ none
  | some value ↦ if is_empty value then none else some value
]

-- The first pair that starts with the name decides.
unfoldable pub scan_pairs : List String → Option String
scan_pairs nil = none
scan_pairs (cons pair pairs) =
    let later = scan_pairs pairs in
    elim (strip_prefix session_cookie_name (trim pair)) [
      | none ↦ later
      | some rest ↦ cookie_value rest
    ]

-- The argument is the text of the `Cookie` header, if there is one.
unfoldable pub parse_session_cookie : Option String → Option String
parse_session_cookie none = none
parse_session_cookie (some raw) = scan_pairs (split_on semicolon raw)

module _ (bad : ℕ → Bool) where
  -- No character of the text passes the test.
  abbrev pub is_free : String → Bool
  is_free [] = true
  is_free (c ∷ s) = not (bad (code c)) && is_free s

  is_free-append : (s t : String) → is_free s ≡ true → is_free t ≡ true → is_free (s ++ t) ≡ true
  is_free-append [] t h k = rw (nil-append t) k
  is_free-append (c ∷ s) t h k = rw (cons-append c s t) (ground (arith, is_free-append s t))

  trim_end-is_free : (s : String) → is_free s ≡ true → trim_end bad s ≡ s
  trim_end-is_free [] h = refl
  trim_end-is_free (c ∷ s) h = ground (arith, trim_end-is_free s)

  trim_start-is_free : (s : String) → is_free s ≡ true → trim_start bad s ≡ s
  trim_start-is_free [] h = refl
  trim_start-is_free (c ∷ s) h = ground (arith, trim_start-is_free s)

abbrev pub is_semicolon : ℕ → Bool
is_semicolon c = eqb c semicolon

trim-is_free : (s : String) → is_free is_whitespace s ≡ true → trim s ≡ s
trim-is_free s h =
    ap (trim_end is_whitespace) (trim_start-is_free is_whitespace s h)
    ∙ trim_end-is_free is_whitespace s h

strip_prefix-append : (p s : String) → strip_prefix p (p ++ s) ≡ some s
strip_prefix-append [] s = rw (nil-append s) refl
strip_prefix-append (a ∷ p) s = rw (cons-append a p s) (ground (arith, strip_prefix-append p s))

-- A text before a separator is the first part.
split_on-is_free :
    (s : String) (d : Char) (t : String)
    → is_free is_semicolon s ≡ true
    → is_semicolon (code d) ≡ true
    → split_on semicolon (s ++ (d ∷ t)) ≡ cons s (split_on semicolon t)
split_on-is_free [] d t h e = rw (nil-append (d ∷ t)) (ground arith)
split_on-is_free (c ∷ s) d t h e =
    rw (cons-append c s (d ∷ t)) (ground (arith, split_on-is_free s d t))

-- The attributes start with the separator.
attributes_split :
    (s : String) (secure : Bool)
    → is_free is_semicolon s ≡ true
    → (later : List String) × (split_on semicolon (s ++ (attributes ++ secure_attr secure))
        ≡ cons s later)
attributes_split s true h = (_, split_on-is_free s (char_at ";" 0) _ h refl)
attributes_split s false h = (_, split_on-is_free s (char_at ";" 0) _ h refl)

-- The pair of a name and a value.
pair_of : String → String
pair_of id = session_cookie_name ++ ("=" ++ id)

pair_of-is_free :
    (bad : ℕ → Bool) (id : String)
    → is_free bad (session_cookie_name) ≡ true
    → is_free bad "=" ≡ true
    → is_free bad id ≡ true
    → is_free bad (pair_of id) ≡ true
unfolding pair_of
pair_of-is_free bad id name equals h =
    is_free-append bad session_cookie_name ("=" ++ id) name (is_free-append bad "=" id equals h)

make_split :
    (id : String) (secure : Bool)
    → make_session_cookie_header id secure ≡ pair_of id ++ (attributes ++ secure_attr secure)
unfolding make_session_cookie_header pair_of
make_split id secure =
    ap (λ s. session_cookie_name ++ s)
      (sym (append_assoc "=" id (attributes ++ secure_attr secure)))
    ∙ sym (append_assoc session_cookie_name ("=" ++ id) (attributes ++ secure_attr secure))

scan_found :
    (pair rest value : String) (pairs : List String)
    → strip_prefix session_cookie_name (trim pair) ≡ some rest
    → strip_prefix "=" rest ≡ some value
    → is_empty value ≡ false
    → scan_pairs (cons pair pairs) ≡ some value
unfolding scan_pairs
scan_found pair rest value pairs named equals full = ground arith

scan_pair :
    (id : String) (pairs : List String)
    → is_empty id ≡ false
    → is_free is_whitespace id ≡ true
    → scan_pairs (cons (pair_of id) pairs) ≡ some id
scan_pair id pairs full no_space =
    let trimmed = trim-is_free (pair_of id) (pair_of-is_free is_whitespace id refl refl no_space) in
    scan_found (pair_of id) ("=" ++ id) id pairs
      (ap (strip_prefix session_cookie_name) trimmed
        ∙ (unfold pair_of in strip_prefix-append session_cookie_name ("=" ++ id)))
      (strip_prefix-append "=" id) full

-- The session id that `make_session_cookie_header` puts into a header is what
-- `parse_session_cookie` reads from that header, for an id that is not empty and has neither
-- white space nor a semicolon.
pub parse-make :
    (id : String) (secure : Bool)
    → is_empty id ≡ false
    → is_free is_semicolon id ≡ true
    → is_free is_whitespace id ≡ true
    → parse_session_cookie (some (make_session_cookie_header id secure)) ≡ some id
unfolding parse_session_cookie
parse-make id secure full no_separator no_space =
    let (later, split) =
      attributes_split (pair_of id) secure
        (pair_of-is_free is_semicolon id refl refl no_separator) in
    rw (make_split id secure, split) (scan_pair id later full no_space)

-- The header that clears the cookie names no session.
parse-clear :
    (secure : Bool) → parse_session_cookie (some (clear_session_cookie_header secure)) ≡ none
unfolding parse_session_cookie clear_session_cookie_header scan_pairs
parse-clear true = refl
parse-clear false = refl
