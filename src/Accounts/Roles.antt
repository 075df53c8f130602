-- ===== src/Accounts/Roles.antt =====
-- crates/core/src/infrastructure/repository/users_repository.rs: `Role`, and the roles that the
-- layers of crates/server/src/lib.rs allow on a route.
use agent_dep_platform.Base.{
  String, Bool, true, false, ◌||◌, ◌≡◌, refl, List, [], ◌∷◌, CoreResult, ok, err,
  err_schema_invalid, ◌==◌, string_eq, if◌then◌else◌,
}

pub data Role : Type 0 where
  viewer operator admin : Role

unfoldable pub as_str : Role → String
as_str viewer = "viewer"
as_str operator = "operator"
as_str admin = "admin"

unfoldable pub parse : String → CoreResult Role
parse s =
    if s == "viewer"
    then ok viewer
    else if s == "operator"
    then ok operator
    else if s == "admin"
    then ok admin
    else err (err_schema_invalid "users.role")

-- What is stored is read back.
parse-as_str : (r : Role) → parse (as_str r) ≡ ok r
unfolding parse as_str
parse-as_str viewer = refl
parse-as_str operator = refl
parse-as_str admin = refl

abbrev is_same : Role → Role → Bool
is_same viewer viewer = true
is_same operator operator = true
is_same admin admin = true
is_same _ _ = false

-- `AllowedRoles`, and `allowed.contains(&role)`.
abbrev pub allows : List Role → Role → Bool
allows [] r = false
allows (a ∷ rest) r = is_same a r || allows rest r

abbrev pub allow_viewer : List Role
allow_viewer = viewer ∷ operator ∷ admin ∷ []

abbrev pub allow_operator : List Role
allow_operator = operator ∷ admin ∷ []

abbrev pub allow_admin : List Role
allow_admin = admin ∷ []
