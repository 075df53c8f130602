-- ===== src/Urls/Reading.antt =====
-- The host that `check` of crates/core/src/infrastructure/url_policy.rs looks at, by the form of a URL.
use agent_dep_platform.Base.{String, Bool, true, false, none, some, ◌≡◌}
use agent_dep_platform.Urls.Splitting.{
  at_sign, colon, before_first, after_first, trim, split_scheme,
}
use agent_dep_platform.Urls.Policy.{host_portion, https_host, ssh_host, starts_with_git}

-- How `check` reads the host of a URL, and whether the scheme is `http`. It is the host for the policy:
-- of a text with an `@` behind the path, a client may read another one.
pub data Reads (url : String) : Bool → String → Type 0 where
  over_https :
      (rest : String)
      → split_scheme (trim url) ≡ some ("https", rest)
      → Reads url false (https_host (host_portion rest))
  over_http :
      (rest : String)
      → split_scheme (trim url) ≡ some ("http", rest)
      → Reads url true (https_host (host_portion rest))
  over_ssh :
      (rest : String)
      → split_scheme (trim url) ≡ some ("ssh", rest)
      → Reads url false (ssh_host (host_portion rest))
  over_git :
      (rest : String)
      → split_scheme (trim url) ≡ some ("git", rest)
      → Reads url false (ssh_host (host_portion rest))
  -- `git@host:path`
  over_scp_git :
      (from host : String)
      → split_scheme (trim url) ≡ none
      → starts_with_git (trim url) ≡ true
      → after_first at_sign (trim url) ≡ some from
      → before_first colon from ≡ some host
      → Reads url false host
  -- `host:path`
  over_scp :
      (host : String)
      → split_scheme (trim url) ≡ none
      → starts_with_git (trim url) ≡ false
      → before_first colon (trim url) ≡ some host
      → Reads url false host
