-- ===== src/Urls/Guard.antt =====
-- What `check` of crates/core/src/infrastructure/url_policy.rs lets through, and what it looks at.

use agent_dep_platform.Base.{
  String, Bool, true, false, none, eq_iff, ◌||◌, Option, some, ◌≡◌, ◌⊎◌, inl, inr, refl, ap, ◌∙◌,
  ok, ◌>>=◌, Bool-cases, Option-cases, >>=-eq-ok, ok-injective, arith, ◌==◌, string_eq,
}
use mathlib.Core.Path.{subst}
use agent_dep_platform.Urls.Splitting.{
  at_sign, colon, is_empty, before_first, after_first, trim, split_scheme,
}
use agent_dep_platform.Urls.Addresses.{IpAddr}
use agent_dep_platform.Urls.Reading.{
  Reads, over_https, over_http, over_ssh, over_git, over_scp_git, over_scp,
}
use agent_dep_platform.Urls.Policy.{
  CheckOutcome, allowed, allowed_with_warning, UrlPolicy, warn, allows_host, is_blocked_host,
  check_ssh_host, host_portion, https_host, ssh_host, check_https_host, check_ssh_host_from_url,
  check_scp, starts_with_git, check_scheme, check,
}

same_portion :
    (left right tail : String)
    → after_first at_sign left ≡ some tail
    → after_first at_sign right ≡ some tail
    → host_portion left ≡ host_portion right
same_portion left right tail l r = ground (arith, l, r)

module _ (to_lowercase : String → String) (parse_ip : String → Option IpAddr) (url : String) where
  -- The host that the outcome names is read from the URL, is in the allowlist, and is no blocked
  -- address.
  pub record IsGuarded (policy : UrlPolicy) (over_plaintext : Bool) (named : String) : Type 0 where
    pub host : String
    pub read : Reads url over_plaintext host
    pub same : named ≡ to_lowercase host
    pub nonempty : is_empty host ≡ false
    pub listed : allows_host to_lowercase policy host ≡ true
    pub unblocked : is_blocked_host to_lowercase parse_ip host ≡ false

  abbrev pub IsSafe : UrlPolicy → CheckOutcome → Type 0
  IsSafe policy (allowed host) =
      IsGuarded policy false host
      ⊎ ((rest : String) × (split_scheme (trim url) ≡ some ("file", rest))
          × (policy.allow_file ≡ true)
          × (host ≡ "(local file)"))
  IsSafe policy (allowed_with_warning host) =
      IsGuarded policy true host × (policy.allow_http ≡ true)

  -- A plain outcome that names a guarded host.
  IsPlain : UrlPolicy → Bool → CheckOutcome → Type 0
  IsPlain policy over_plaintext o =
      (named : String) × (allowed named ≡ o) × IsGuarded policy over_plaintext named

  check_ssh_host-IsPlain :
      (policy : UrlPolicy) (over_plaintext : Bool) (host : String) (o : CheckOutcome)
      → Reads url over_plaintext host
      → check_ssh_host to_lowercase parse_ip policy host ≡ ok o
      → IsPlain policy over_plaintext o
  unfolding check_ssh_host IsPlain
  check_ssh_host-IsPlain policy over_plaintext host o read h = elim (Bool-cases (is_empty host)) [
    | inl empty ↦ ground (arith, empty, h)
    | inr full ↦ elim (Bool-cases (is_blocked_host to_lowercase parse_ip host)) [
      | inl blocked ↦ ground (arith, full, blocked, h)
      | inr free ↦ elim (Bool-cases (allows_host to_lowercase policy host)) [
        | inr unlisted ↦ ground (arith, full, free, unlisted, h)
        | inl listed ↦
            let result : ok (allowed (to_lowercase host)) ≡ ok o =
              ground (arith, full, free, listed, h) in
            (
              to_lowercase host,
              ok-injective result,
              record {
                host = host;
                read = read;
                same = refl;
                nonempty = full;
                listed = listed;
                unblocked = free;
              },
            )
      ]
    ]
  ]

  IsPlain-IsSafe :
      (policy : UrlPolicy) (o : CheckOutcome) → IsPlain policy false o → IsSafe policy o
  unfolding IsPlain
  IsPlain-IsSafe policy o (named, e, g) = subst (IsSafe policy) e (inl g)

  check_http-IsSafe :
      (policy : UrlPolicy) (rest : String) (o : CheckOutcome)
      → split_scheme (trim url) ≡ some ("http", rest)
      → policy.allow_http ≡ true
      → (check_https_host to_lowercase parse_ip policy rest >>= λ x. ok (warn x)) ≡ ok o
      → IsSafe policy o
  unfolding check_https_host IsPlain
  check_http-IsSafe policy rest o read on h =
      let (x, plain, e) =
        >>=-eq-ok (check_https_host to_lowercase parse_ip policy rest) _ {t = o} h in
      let (named, same, g) = check_ssh_host-IsPlain policy true _ x (over_http rest read) plain in
      subst (IsSafe policy) (ap warn same ∙ ok-injective e) (g, on)

  as_scheme :
      (scheme name rest : String)
      → split_scheme (trim url) ≡ some (scheme, rest)
      → (scheme == name) ≡ true
      → split_scheme (trim url) ≡ some (name, rest)
  as_scheme scheme name rest read same =
      read ∙ ap (λ s. some (s, rest)) ((eq_iff scheme name).0 same)

  remote_Reads :
      (scheme rest : String)
      → split_scheme (trim url) ≡ some (scheme, rest)
      → ((scheme == "ssh") || (scheme == "git")) ≡ true
      → Reads url false (ssh_host (host_portion rest))
  remote_Reads scheme rest read remote = elim (Bool-cases (scheme == "ssh")) [
    | inl ssh ↦ over_ssh rest (as_scheme scheme "ssh" rest read ssh)
    | inr other ↦ over_git rest (as_scheme scheme "git" rest read (ground (arith, remote, other)))
  ]

  check_remote-IsSafe :
      (policy : UrlPolicy) (scheme rest : String) (o : CheckOutcome)
      → split_scheme (trim url) ≡ some (scheme, rest)
      → (scheme == "https") ≡ false
      → (scheme == "http") ≡ false
      → (scheme == "file") ≡ false
      → check_scheme to_lowercase parse_ip policy scheme rest ≡ ok o
      → IsSafe policy o
  check_remote-IsSafe policy scheme rest o read a b c h =
      elim (Bool-cases ((scheme == "ssh") || (scheme == "git"))) [
        | inl remote ↦
            let go : check_ssh_host_from_url to_lowercase parse_ip policy rest ≡ ok o =
              ground (arith, a, b, c, remote, h) in
            IsPlain-IsSafe policy o (
              check_ssh_host-IsPlain policy false (ssh_host (host_portion rest)) o
                (remote_Reads scheme rest read remote) (unfold check_ssh_host_from_url in go))
        | inr unknown ↦ ground (arith, a, b, c, unknown, h)
      ]

  check_local-IsSafe :
      (policy : UrlPolicy) (scheme rest : String) (o : CheckOutcome)
      → split_scheme (trim url) ≡ some (scheme, rest)
      → (scheme == "https") ≡ false
      → (scheme == "http") ≡ false
      → check_scheme to_lowercase parse_ip policy scheme rest ≡ ok o
      → IsSafe policy o
  check_local-IsSafe policy scheme rest o read a b h = elim (Bool-cases (scheme == "file")) [
    | inr other ↦ check_remote-IsSafe policy scheme rest o read a b other h
    | inl file ↦ elim (Bool-cases policy.allow_file) [
      | inr off ↦ ground (arith, a, b, file, off, h)
      | inl on ↦
          let result : ok (allowed "(local file)") ≡ ok o = ground (arith, a, b, file, on, h) in
          subst (IsSafe policy) (ok-injective result)
            (inr (rest, as_scheme scheme "file" rest read file, on, refl))
    ]
  ]

  check_scheme-IsSafe :
      (policy : UrlPolicy) (scheme rest : String) (o : CheckOutcome)
      → split_scheme (trim url) ≡ some (scheme, rest)
      → check_scheme to_lowercase parse_ip policy scheme rest ≡ ok o
      → IsSafe policy o
  check_scheme-IsSafe policy scheme rest o read h = elim (Bool-cases (scheme == "https")) [
    | inl https ↦
        let go : check_https_host to_lowercase parse_ip policy rest ≡ ok o =
          ground (arith, https, h) in
        IsPlain-IsSafe policy o (
          check_ssh_host-IsPlain policy false (https_host (host_portion rest)) o
            (over_https rest (as_scheme scheme "https" rest read https))
            (unfold check_https_host in go))
    | inr other ↦ elim (Bool-cases (scheme == "http")) [
      | inl http ↦ elim (Bool-cases policy.allow_http) [
        | inl on ↦
            check_http-IsSafe policy rest o (as_scheme scheme "http" rest read http) on
              (ground (arith, other, http, on, h))
        | inr off ↦ ground (arith, other, http, off, h)
      ]
      | inr not_http ↦ check_local-IsSafe policy scheme rest o read other not_http h
    ]
  ]

  check_scp-IsSafe :
      (policy : UrlPolicy) (o : CheckOutcome)
      → split_scheme (trim url) ≡ none
      → check_scp to_lowercase parse_ip policy (trim url) ≡ ok o
      → IsSafe policy o
  check_scp-IsSafe policy o bare h =
      let s = trim url in
      elim (Bool-cases (starts_with_git s)) [
        | inl user ↦ elim (Option-cases (after_first at_sign s)) [
          | inl malformed ↦ ground (arith, user, malformed, h)
          | inr (from, e) ↦ elim (Option-cases (before_first colon from)) [
            | inl no_colon ↦ ground (arith, user, e, no_colon, h)
            | inr (host, found) ↦ IsPlain-IsSafe policy o (
                check_ssh_host-IsPlain policy false host o
                  (over_scp_git from host bare user e found) (ground (arith, user, e, found, h)))
          ]
        ]
        | inr nobody ↦ elim (Option-cases (before_first colon s)) [
          | inl no_colon ↦ ground (arith, nobody, no_colon, h)
          | inr (host, found) ↦ IsPlain-IsSafe policy o (
              check_ssh_host-IsPlain policy false host o (over_scp host bare nobody found)
                (ground (arith, nobody, found, h)))
        ]
      ]

  -- What the policy lets through has one of these forms. With `https`, `ssh`, `git` or no scheme the
  -- host that `check` reads in the URL, by the rule of the form, is not empty, matches the allowlist
  -- and is no blocked address, and the outcome names it. With `http` the same holds, `allow_http` is
  -- on and the outcome is a warning. With `file`, `allow_file` is on. That a client connects to the
  -- host that is read is not said.
  pub check-IsSafe :
      (policy : UrlPolicy) (o : CheckOutcome)
      → check to_lowercase parse_ip policy url ≡ ok o
      → IsSafe policy o
  unfolding check
  check-IsSafe policy o h = elim (Bool-cases (is_empty (trim url))) [
    | inl empty ↦ ground (arith, empty, h)
    | inr full ↦ elim (Option-cases (split_scheme (trim url))) [
      | inl bare ↦ check_scp-IsSafe policy o bare (ground (arith, full, bare, h))
      | inr (parts, e) ↦ check_scheme-IsSafe policy parts.0 parts.1 o e (ground (arith, full, e, h))
    ]
  ]

module _ (to_lowercase : String → String) (parse_ip : String → Option IpAddr) where
  -- The host that is checked is looked for after the first `@` of the whole text: whatever stands
  -- before it, a host and a path included, has no influence on the outcome.
  pub check_https_host_prefix :
      (policy : UrlPolicy) (left right tail : String)
      → after_first at_sign left ≡ some tail
      → after_first at_sign right ≡ some tail
      → check_https_host to_lowercase parse_ip policy left
        ≡ check_https_host to_lowercase parse_ip policy right
  unfolding check_https_host
  check_https_host_prefix policy left right tail l r =
      ap (λ t. check_ssh_host to_lowercase parse_ip policy (https_host t))
        (same_portion left right tail l r)
