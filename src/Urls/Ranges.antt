-- ===== src/Urls/Ranges.antt =====
-- The IPv4 networks that the guard of crates/core/src/infrastructure/url_policy.rs blocks, as
-- intervals of addresses.
use agent_dep_platform.Base.{
  ℕ, ◌+◌, ◌*◌, ◌<◌, ◌≡◌, refl, Bool, true, false, ◌&&◌, ◌||◌, List, [], ◌∷◌, any, leb, eqb, arith,
}
use agent_dep_platform.Urls.Addresses.{
  Ipv4, is_loopback, is_private, is_link_local, all_octets, is_network, mask, is_blocked_v4,
}

pub record IsIpv4 (a : Ipv4) : Type 0 where
  pub small₀ : a.octet₀ < 256
  pub small₁ : a.octet₁ < 256
  pub small₂ : a.octet₂ < 256
  pub small₃ : a.octet₃ < 256

-- The address as a number of 32 bits.
abbrev pub address : Ipv4 → ℕ
address a = a.octet₀ * 16777216 + a.octet₁ * 65536 + a.octet₂ * 256 + a.octet₃

abbrev pub between : ℕ → ℕ → ℕ → Bool
between low high n = leb low n && leb n high

-- The blocked networks, each from its first to its last address: 127.0.0.0/8, 10.0.0.0/8,
-- 172.16.0.0/12, 192.168.0.0/16, 169.254.0.0/16, 0.0.0.0/32, 255.255.255.255/32, 100.64.0.0/10,
-- 198.18.0.0/15, 192.0.0.0/24, 192.0.2.0/24, 198.51.100.0/24 and 203.0.113.0/24.
abbrev pub blocked_ranges : List (ℕ × ℕ)
blocked_ranges =
    (2130706432, 2147483647)
    ∷ (167772160, 184549375)
    ∷ (2886729728, 2887778303)
    ∷ (3232235520, 3232301055)
    ∷ (2851995648, 2852061183)
    ∷ (0, 0)
    ∷ (4294967295, 4294967295)
    ∷ (1681915904, 1686110207)
    ∷ (3323068416, 3323199487)
    ∷ (3221225472, 3221225727)
    ∷ (3221225984, 3221226239)
    ∷ (3325256704, 3325256959)
    ∷ (3405803776, 3405804031)
    ∷ []

or-or : {b c d e : Bool} → b ≡ d → c ≡ e → (b || c) ≡ (d || e)
or-or p q = rw (p, q) refl

or-three :
    (d e f : Bool) {b c g : Bool} → b ≡ (d || (e || f)) → c ≡ g → (b || c) ≡ (d || (e || (f || g)))
or-three true e f p q = rw p refl
or-three false true f p q = rw p refl
or-three false false f p q = rw (p, q) refl

or-false : {b c : Bool} → b ≡ c → b ≡ (c || false)
or-false {c = true} p = p
or-false {c = false} p = p

module _ (a : Ipv4) (h : IsIpv4 a) where
  loopback_range : is_loopback a ≡ between 2130706432 2147483647 (address a)
  loopback_range = ground arith

  link_local_range : is_link_local a ≡ between 2851995648 2852061183 (address a)
  link_local_range = ground arith

  unspecified_range : all_octets 0 a ≡ between 0 0 (address a)
  unspecified_range = ground arith

  broadcast_range : all_octets 255 a ≡ between 4294967295 4294967295 (address a)
  broadcast_range = ground arith

  carrier_range :
      (eqb a.octet₀ 100 && eqb (mask 64 a.octet₁) 64) ≡ between 1681915904 1686110207 (address a)
  carrier_range = ground arith

  benchmark_range :
      (eqb a.octet₀ 198 && eqb (mask 2 a.octet₁) 18) ≡ between 3323068416 3323199487 (address a)
  benchmark_range = ground arith

  protocol_range : is_network 192 0 0 a ≡ between 3221225472 3221225727 (address a)
  protocol_range = ground arith

  documentation₁_range : is_network 192 0 2 a ≡ between 3221225984 3221226239 (address a)
  documentation₁_range = ground arith

  documentation₂_range : is_network 198 51 100 a ≡ between 3325256704 3325256959 (address a)
  documentation₂_range = ground arith

  documentation₃_range : is_network 203 0 113 a ≡ between 3405803776 3405804031 (address a)
  documentation₃_range = ground arith

  private_range : is_private a ≡ (
      between 167772160 184549375 (address a)
      || (between 2886729728 2887778303 (address a) || between 3232235520 3232301055 (address a)))
  private_range = ground arith

  -- An IPv4 address with octets below 256 is blocked exactly when it lies in one of the documented
  -- networks.
  pub is_blocked_v4_lem : is_blocked_v4 a ≡ any (λ r. between r.0 r.1 (address a)) blocked_ranges
  is_blocked_v4_lem = or-or loopback_range (
      or-three (between 167772160 184549375 (address a)) (between 2886729728 2887778303 (address a))
        (between 3232235520 3232301055 (address a)) private_range
        (or-or link_local_range (
          or-or unspecified_range (
            or-or broadcast_range (
              or-or carrier_range (
                or-or benchmark_range (
                  or-or protocol_range (
                    or-or documentation₁_range
                      (or-or documentation₂_range (or-false documentation₃_range))))))))))
