-- ===== src/Urls/Defaults.antt =====
-- The policy that crates/core/src/infrastructure/url_policy.rs reads from an empty environment.
use agent_dep_platform.Base.{
  String, true, false, Option, none, ◌≡◌, ◌⊎◌, inl, inr, ap, ok, arith, string_eq, eq_iff,
}
use agent_dep_platform.Urls.Addresses.{IpAddr}
use agent_dep_platform.Urls.Policy.{
  CheckOutcome, allowed, allowed_with_warning, deny_default, from_env, matches_any, check,
}
use agent_dep_platform.Urls.Guard.{IsSafe, check-IsSafe}
use agent_dep_platform.Urls.Reading.{Reads}

module _ (to_lowercase : String → String) (parse_ip : String → Option IpAddr) (url : String) where
  matches_default :
      (lower : String)
      → matches_any to_lowercase lower deny_default.allowed_hosts ≡ true
      → (lower ≡ "localhost") ⊎ (lower ≡ "127.0.0.1")
  matches_default lower h = ground (arith, h, eq_iff lower "localhost", eq_iff lower "127.0.0.1")

  -- The outcome names a host that is read in the URL, and that is the machine itself.
  abbrev pub IsLocal : CheckOutcome → Type 0
  IsLocal o =
      (host : String) × Reads url false host
      × (o ≡ allowed (to_lowercase host))
      × ((to_lowercase host ≡ "localhost") ⊎ (to_lowercase host ≡ "127.0.0.1"))

  safe_default : (o : CheckOutcome) → IsSafe to_lowercase parse_ip url deny_default o → IsLocal o
  safe_default (allowed host) (inl g) =
      (g.host, g.read, ap allowed g.same, matches_default (to_lowercase g.host) g.listed)
  safe_default (allowed host) (inr f) = cc f.2
  safe_default (allowed_with_warning host) h = cc h.1

  -- Where no environment variable is set, what is let through has the scheme `https`, `ssh` or `git`
  -- or none, and the host that `check` reads in it is `localhost` or `127.0.0.1`, in any case of
  -- letters. That a client connects to the host that is read is not said.
  pub unset_env_denies :
      (o : CheckOutcome)
      → check to_lowercase parse_ip (from_env to_lowercase none none none) url ≡ ok o
      → IsLocal o
  unfolding from_env
  unset_env_denies o h = safe_default o (check-IsSafe to_lowercase parse_ip url deny_default o h)
