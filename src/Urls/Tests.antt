-- ===== src/Urls/Tests.antt =====
-- The URL policy at concrete inputs. The parameters are a mapping that leaves lower-case text
-- alone and a parser that knows two addresses.
use agent_dep_platform.Base.{
  String, false, Option, none, some, [], ◌∷◌, ◌≡◌, refl, CoreResult, ok, err, err_source_not_found,
  any, arith, ◌==◌, string_eq, if◌then◌else◌,
}
use agent_dep_platform.Urls.Addresses.{Ipv4, IpAddr, v4, is_blocked_v4}
use agent_dep_platform.Urls.Policy.{
  CheckOutcome, allowed, UrlPolicy, from_env, check_ssh_host, check_https_host,
  check_ssh_host_from_url, check,
}
use agent_dep_platform.Urls.Guard.{IsSafe, check-IsSafe, check_https_host_prefix}
use agent_dep_platform.Urls.Ranges.{IsIpv4, address, between, blocked_ranges, is_blocked_v4_lem}
use agent_dep_platform.Urls.Defaults.{IsLocal, unset_env_denies}

abbrev keep : String → String
keep s = s

abbrev ten : Ipv4
ten = record { octet₀ = 10; octet₁ = 0; octet₂ = 0; octet₃ = 5 }

abbrev public : Ipv4
public = record { octet₀ = 140; octet₁ = 82; octet₂ = 121; octet₃ = 3 }

abbrev parse : String → Option IpAddr
parse s =
    if s == "10.0.0.5"
    then some (v4 ten)
    else if s == "140.82.121.3"
    then some (v4 public)
    else none

abbrev policy : UrlPolicy
policy = record {
  allowed_hosts = "github.com" ∷ "*.example.com" ∷ "10.0.0.5" ∷ [];
  allow_http = false;
  allow_file = false;
}

abbrev try : String → CoreResult CheckOutcome
try url = check keep parse policy url

plain : try " https://user@github.com:443/x.git" ≡ ok (allowed "github.com")
unfolding check check_https_host check_ssh_host
plain = refl

wildcard : try "ssh://git@a.example.com/x" ≡ ok (allowed "a.example.com")
unfolding check check_ssh_host_from_url check_ssh_host
wildcard = refl

two_labels : try "https://a.b.example.com/x" ≡ err err_source_not_found
unfolding check check_https_host check_ssh_host
two_labels = refl

blocked : try "https://10.0.0.5/x" ≡ err err_source_not_found
unfolding check check_https_host check_ssh_host
blocked = refl

scp : try "git@github.com:me/x.git" ≡ ok (allowed "github.com")
unfolding check check_ssh_host
scp = refl

-- The `@` of a path hides the host that stands before it.
hidden : try "https://10.0.0.5/@github.com/x" ≡ ok (allowed "github.com")
unfolding check check_https_host check_ssh_host
hidden = refl

check-IsSafe_example : IsSafe keep parse "git@github.com:me/x.git" policy (allowed "github.com")
check-IsSafe_example =
    check-IsSafe keep parse "git@github.com:me/x.git" policy (allowed "github.com") scp

check_https_host_prefix_example :
    check_https_host keep parse policy "10.0.0.5/@github.com/x"
    ≡ check_https_host keep parse policy "@github.com/x"
check_https_host_prefix_example =
    check_https_host_prefix keep parse policy "10.0.0.5/@github.com/x" "@github.com/x"
      "github.com/x" refl refl

ten-IsIpv4 : IsIpv4 ten
ten-IsIpv4 = record {
  small₀ = omega arith;
  small₁ = omega arith;
  small₂ = omega arith;
  small₃ = omega arith;
}

is_blocked_v4_example : is_blocked_v4 ten ≡ any (λ r. between r.0 r.1 (address ten)) blocked_ranges
is_blocked_v4_example = is_blocked_v4_lem ten ten-IsIpv4

local : check keep parse (from_env keep none none none) "localhost:x" ≡ ok (allowed "localhost")
unfolding check from_env check_ssh_host
local = refl

unset_env_denies_example : IsLocal keep parse "localhost:x" (allowed "localhost")
unset_env_denies_example = unset_env_denies keep parse "localhost:x" (allowed "localhost") local
