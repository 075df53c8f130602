-- ===== src/Urls/Policy.antt =====
-- `UrlPolicy` of crates/core/src/infrastructure/url_policy.rs. `str::to_lowercase`, a table of
-- Unicode, and the parser of addresses are parameters; environment variables are arguments. The
-- text of a warning is not modelled.
use Prim.Native.Char.{code}
use Prim.Native.String.{◌∷◌ as text_cons}
use agent_dep_platform.Base.{
  String, Bool, true, false, not, ◌&&◌, ◌||◌, Option, none, some, List, [], ◌∷◌, ◌++◌, CoreResult,
  ok, err, ◌>>=◌, err_source_not_found, eqb, ◌==◌, string_eq, contains, map, select, if◌then◌else◌,
}
use agent_dep_platform.Urls.Splitting.{
  at_sign, slash, colon, dot, open_bracket, close_bracket, star, is_empty, starts_with, has_char,
  before_first, after_first, before_last, trim_start, trim_end, trim, split_scheme, split_commas,
}
use agent_dep_platform.Urls.Addresses.{IpAddr, is_ssrf_blocked_ip}

pub data CheckOutcome : Type 0 where
  allowed allowed_with_warning : String → CheckOutcome

pub record UrlPolicy : Type 0 where
  pub allowed_hosts : List String
  pub allow_http : Bool
  pub allow_file : Bool

abbrev pub deny_default : UrlPolicy
deny_default = record {
  allowed_hosts = "localhost" ∷ "127.0.0.1" ∷ [];
  allow_http = false;
  allow_file = false;
}

abbrev pub permissive_test : UrlPolicy
permissive_test = record { allowed_hosts = "*" ∷ []; allow_http = true; allow_file = true }

-- A variable that is set to "1" or "true".
abbrev is_enabled : Option String → Bool
is_enabled none = false
is_enabled (some s) = (s == "1") || (s == "true")

abbrev push_missing : String → List String → List String
push_missing host hosts = if contains hosts host then hosts else hosts ++ host ∷ []

-- `pattern.strip_prefix("*.")`
abbrev strip_wildcard : String → Option String
strip_wildcard (text_cons c (text_cons d s)) =
    if eqb (code c) star && eqb (code d) dot then some s else none
strip_wildcard _ = none

-- The outcome of an `http://` URL.
abbrev pub warn : CheckOutcome → CheckOutcome
warn (allowed host) = allowed_with_warning host
warn (allowed_with_warning host) = allowed_with_warning host

-- The text without what ends at its first `@`, and then without what its first `/` starts.
abbrev pub host_portion : String → String
host_portion rest =
    let after : String = elim (after_first at_sign rest) [ none ↦ rest | some s ↦ s ] in
    elim (before_first slash after) [ none ↦ after | some s ↦ s ]

abbrev trim_brackets : String → String
trim_brackets s = trim_end (λ c. eqb c close_bracket) (trim_start (λ c. eqb c open_bracket) s)

-- What stands in the brackets at the start of the text.
abbrev bracketed : String → String
bracketed (text_cons c s) = elim (before_first close_bracket s) [
  | none ↦ text_cons c s
  | some inner ↦ inner
]
bracketed s = s

abbrev pub https_host : String → String
https_host portion = trim_brackets (elim (before_last colon portion) [
  | none ↦ portion
  | some before ↦
      if starts_with open_bracket portion
      then bracketed portion
      else if has_char colon before
      then portion
      else before
])

abbrev pub ssh_host : String → String
ssh_host portion = trim_brackets (elim (before_last colon portion) [
  | none ↦ portion
  | some before ↦ if starts_with open_bracket portion then portion else before
])

abbrev pub starts_with_git : String → Bool
starts_with_git s = elim (before_first at_sign s) [ none ↦ false | some user ↦ user == "git" ]

module _ (to_lowercase : String → String) where
  abbrev hosts_of : Option String → List String
  hosts_of none = []
  hosts_of (some s) =
      select (λ h. not (is_empty h)) (map (λ h. to_lowercase (trim h)) (split_commas s))

  unfoldable pub from_env : Option String → Option String → Option String → UrlPolicy
  from_env hosts http file = record {
    allowed_hosts = push_missing "127.0.0.1" (push_missing "localhost" (hosts_of hosts));
    allow_http = is_enabled http;
    allow_file = is_enabled file;
  }

  abbrev pub matches_pattern : String → String → Bool
  matches_pattern lower pattern = (pattern == "*") || elim (strip_wildcard pattern) [
    | none ↦ lower == pattern
    | some suffix ↦ elim (after_first dot lower) [ none ↦ false | some rest ↦ rest == suffix ]
  ]

  abbrev pub matches_any : String → List String → Bool
  matches_any lower [] = false
  matches_any lower (p ∷ ps) = matches_pattern lower p || matches_any lower ps

  abbrev pub allows_host : UrlPolicy → String → Bool
  allows_host policy host = matches_any (to_lowercase host) policy.allowed_hosts

  module _ (parse_ip : String → Option IpAddr) where
    abbrev pub is_blocked_host : String → Bool
    is_blocked_host host = elim (parse_ip host) [ none ↦ false | some ip ↦ is_ssrf_blocked_ip ip ]

    unfoldable pub check_ssh_host : UrlPolicy → String → CoreResult CheckOutcome
    check_ssh_host policy host =
        if is_empty host
        then err err_source_not_found
        else if is_blocked_host host
        then err err_source_not_found
        else if allows_host policy host
        then ok (allowed (to_lowercase host))
        else err err_source_not_found

    unfoldable pub check_https_host : UrlPolicy → String → CoreResult CheckOutcome
    check_https_host policy rest = check_ssh_host policy (https_host (host_portion rest))

    unfoldable pub check_ssh_host_from_url : UrlPolicy → String → CoreResult CheckOutcome
    check_ssh_host_from_url policy rest = check_ssh_host policy (ssh_host (host_portion rest))

    -- A text with no scheme: `git@host:path` or `host:path`.
    abbrev pub check_scp : UrlPolicy → String → CoreResult CheckOutcome
    check_scp policy s =
        let target = if starts_with_git s then after_first at_sign s else some s in
        elim target [
          | none ↦ err err_source_not_found
          | some from ↦ elim (before_first colon from) [
            | none ↦ err err_source_not_found
            | some host ↦ check_ssh_host policy host
          ]
        ]

    abbrev pub check_scheme : UrlPolicy → String → String → CoreResult CheckOutcome
    check_scheme policy scheme rest =
        if scheme == "https"
        then check_https_host policy rest
        else if scheme == "http"
        then (if policy.allow_http
            then check_https_host policy rest >>= (λ outcome. ok (warn outcome))
            else err err_source_not_found)
        else if scheme == "file"
        then (if policy.allow_file then ok (allowed "(local file)") else err err_source_not_found)
        else if (scheme == "ssh") || (scheme == "git")
        then check_ssh_host_from_url policy rest
        else err err_source_not_found

    unfoldable pub check : UrlPolicy → String → CoreResult CheckOutcome
    check policy url =
        let trimmed = trim url in
        if is_empty trimmed then err err_source_not_found else elim (split_scheme trimmed) [
          | none ↦ check_scp policy trimmed
          | some parts ↦ check_scheme policy parts.0 parts.1
        ]
