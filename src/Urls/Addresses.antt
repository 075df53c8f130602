-- ===== src/Urls/Addresses.antt =====
-- `is_ssrf_blocked_ip` of crates/core/src/infrastructure/url_policy.rs, with the predicates of
-- the standard library that it uses. A mask of high bits is a rounding to a multiple.
use agent_dep_platform.Base.{
  ℕ, ◌*◌, ◌/◌, ◌%◌, Bool, false, ◌&&◌, ◌||◌, Option, none, some, eqb, leb, if◌then◌else◌,
}

pub record Ipv4 : Type 0 where
  pub octet₀ : ℕ
  pub octet₁ : ℕ
  pub octet₂ : ℕ
  pub octet₃ : ℕ

pub record Ipv6 : Type 0 where
  pub segment₀ : ℕ
  pub segment₁ : ℕ
  pub segment₂ : ℕ
  pub segment₃ : ℕ
  pub segment₄ : ℕ
  pub segment₅ : ℕ
  pub segment₆ : ℕ
  pub segment₇ : ℕ

pub data IpAddr : Type 0 where
  v4 : Ipv4 → IpAddr
  v6 : Ipv6 → IpAddr

abbrev pub is_loopback : Ipv4 → Bool
is_loopback a = eqb a.octet₀ 127

abbrev pub is_private : Ipv4 → Bool
is_private a =
    eqb a.octet₀ 10
    || (eqb a.octet₀ 172 && (leb 16 a.octet₁ && leb a.octet₁ 31))
    || (eqb a.octet₀ 192 && eqb a.octet₁ 168)

abbrev pub is_link_local : Ipv4 → Bool
is_link_local a = eqb a.octet₀ 169 && eqb a.octet₁ 254

abbrev pub all_octets : ℕ → Ipv4 → Bool
all_octets n a = eqb a.octet₀ n && (eqb a.octet₁ n && (eqb a.octet₂ n && eqb a.octet₃ n))

abbrev pub is_network : ℕ → ℕ → ℕ → Ipv4 → Bool
is_network x y z a = eqb a.octet₀ x && (eqb a.octet₁ y && eqb a.octet₂ z)

-- `x & m`, for the mask `m` of the bits from `2 ^ n = unit` up.
abbrev pub mask : ℕ → ℕ → ℕ
mask unit x = (x / unit) * unit

abbrev pub is_blocked_v4 : Ipv4 → Bool
is_blocked_v4 a =
    is_loopback a
    || (is_private a
        || (is_link_local a
            || (all_octets 0 a
                || (all_octets 255 a
                    || ((eqb a.octet₀ 100 && eqb (mask 64 a.octet₁) 64)
                        || ((eqb a.octet₀ 198 && eqb (mask 2 a.octet₁) 18)
                            || (is_network 192 0 0 a
                                || (is_network 192 0 2 a
                                    || (is_network 198 51 100 a || is_network 203 0 113 a)))))))))

abbrev high_segments_zero : Ipv6 → Bool
high_segments_zero a =
    eqb a.segment₀ 0
    && (eqb a.segment₁ 0 && (eqb a.segment₂ 0 && (eqb a.segment₃ 0 && eqb a.segment₄ 0)))

abbrev low_segments : ℕ → ℕ → ℕ → Ipv6 → Bool
low_segments x y z a = eqb a.segment₅ x && (eqb a.segment₆ y && eqb a.segment₇ z)

abbrev pub to_ipv4_mapped : Ipv6 → Option Ipv4
to_ipv4_mapped a =
    if high_segments_zero a && eqb a.segment₅ 65535
    then some (record {
      octet₀ = a.segment₆ / 256;
      octet₁ = a.segment₆ % 256;
      octet₂ = a.segment₇ / 256;
      octet₃ = a.segment₇ % 256;
    })
    else none

abbrev is_blocked_mapped : Option Ipv4 → Bool
is_blocked_mapped none = false
is_blocked_mapped (some a) = is_blocked_v4 a

abbrev pub is_ssrf_blocked_ip : IpAddr → Bool
is_ssrf_blocked_ip (v4 a) = is_blocked_v4 a
is_ssrf_blocked_ip (v6 a) =
    (high_segments_zero a && low_segments 0 0 1 a)
    || ((high_segments_zero a && low_segments 0 0 0 a)
        || (eqb (mask 512 a.segment₀) 64512
            || (eqb (mask 64 a.segment₀) 65152 || is_blocked_mapped (to_ipv4_mapped a))))
