-- ===== src/Audit/Chain.antt =====
-- The chain that `verify_chain` of
-- crates/core/src/infrastructure/repository/audit_log_repository.rs looks for, described without
-- the loop, and what `record` does to it.
use agent_dep_platform.Base.{
  ℕ, suc, ◌≡◌, refl, sym, ap, ◌∙◌, ◌↔◌, inl, inr, false, Option, none, some, List, [], ◌∷◌, ◌++◌,
  ok, length, Option-cases, Bool-cases, arith,
}
use mathlib.Core.Option.{some-injective}
use agent_dep_platform.Audit.Rows.{
  Bytes, AuditLogRowFull, is_empty, same_bytes_iff, genesis_prev_hash, row_preimage,
}
use agent_dep_platform.Audit.Recording.{AuditLog, AuditLogRepository, newest, previous_hash}
use agent_dep_platform.Audit.Verifying.{
  Walk, start, passed, verify_hmac, verify_digest, verify_row, verify_rows, verify_chain,
}

-- The digest of the newest row, or `p` before there is one.
abbrev pub head_hash : Bytes → List AuditLogRowFull → Bytes
head_hash p [] = p
head_hash p (r ∷ rows) = head_hash r.record_hash rows

is_empty_lem : (b : Bytes) (n : ℕ) → length b ≡ suc n → is_empty b ≡ false
is_empty_lem [] n h = ground arith
is_empty_lem (x ∷ b) n h = refl

module _ (sha256_hex : Bytes → Bytes) (hmac_hex : Bytes → Bytes → Bytes) where
  -- The row continues a chain whose newest digest is `prev`.
  pub record IsLinked (key : Option Bytes) (prev : Bytes) (r : AuditLogRowFull) : Type 0 where
    pub linked : r.prev_hash ≡ prev
    pub digest : r.record_hash ≡ sha256_hex (row_preimage r)
    pub signed : (k : Bytes) → key ≡ some k → r.hmac ≡ hmac_hex k r.record_hash

  abbrev pub IsChain : Option Bytes → Bytes → List AuditLogRowFull → Type 0
  IsChain key prev [] = Unit
  IsChain key prev (r ∷ rows) = IsLinked key prev r × IsChain key r.record_hash rows

  pub IsChain-append :
      (key : Option Bytes) (prev : Bytes) (rows : List AuditLogRowFull) (r : AuditLogRowFull)
      → IsChain key prev rows
      → IsLinked key (head_hash prev rows) r
      → IsChain key prev (rows ++ r ∷ [])
  IsChain-append key prev [] r chain link = (link, tt)
  IsChain-append key prev (s ∷ rows) r chain link =
      (chain.0, IsChain-append key s.record_hash rows r chain.1 link)

  module _ (digest_length : (x : Bytes) → length (sha256_hex x) ≡ 64) where
    digest_is_some : (x : Bytes) → is_empty (sha256_hex x) ≡ false
    digest_is_some x = is_empty_lem (sha256_hex x) 63 (digest_length x)

    verify_hmac_iff :
        (key : Option Bytes) (r : AuditLogRowFull)
        → (verify_hmac sha256_hex hmac_hex key r ≡ none)
          ↔ ((k : Bytes) → key ≡ some k → r.hmac ≡ hmac_hex k r.record_hash)
    verify_hmac_iff none r = (λ h k e. cc, λ h. refl)
    verify_hmac_iff (some k) r =
        let same = same_bytes_iff (hmac_hex k r.record_hash) r.hmac in
        (
          λ h l e. rw (sym (some-injective _ _ e)) (sym (same.0 (ground arith))),
          λ h. ground (arith, same.1 (sym (h k refl))),
        )

    verify_digest_iff :
        (key : Option Bytes) (r : AuditLogRowFull)
        → (verify_digest sha256_hex hmac_hex key r ≡ none) ↔ (
            (r.record_hash ≡ sha256_hex (row_preimage r))
            × ((k : Bytes) → key ≡ some k → r.hmac ≡ hmac_hex k r.record_hash))
    verify_digest_iff key r =
        ground
          (arith, verify_hmac_iff key r, same_bytes_iff (sha256_hex (row_preimage r)) r.record_hash)

    verify_row_parts :
        (key : Option Bytes) (w : Walk) (r : AuditLogRowFull)
        → (w.first_non_legacy_seen ≡ false → w.prev_hash ≡ genesis_prev_hash)
        → verify_row sha256_hex hmac_hex key w r ≡ none
        → (r.prev_hash ≡ w.prev_hash) × (verify_digest sha256_hex hmac_hex key r ≡ none)
    unfolding verify_row
    verify_row_parts key w r h e = elim (Bool-cases w.first_non_legacy_seen) [
      | inl seen ↦ ground (arith, seen, same_bytes_iff r.prev_hash w.prev_hash)
      | inr first ↦ ground (arith, first, h first, same_bytes_iff r.prev_hash genesis_prev_hash)
    ]

    verify_row_of :
        (key : Option Bytes) (w : Walk) (r : AuditLogRowFull)
        → (w.first_non_legacy_seen ≡ false → w.prev_hash ≡ genesis_prev_hash)
        → is_empty r.record_hash ≡ false
        → r.prev_hash ≡ w.prev_hash
        → verify_digest sha256_hex hmac_hex key r ≡ none
        → verify_row sha256_hex hmac_hex key w r ≡ none
    unfolding verify_row
    verify_row_of key w r h full e d = elim (Bool-cases w.first_non_legacy_seen) [
      | inl seen ↦ ground (arith, seen, same_bytes_iff r.prev_hash w.prev_hash)
      | inr first ↦ ground (arith, first, h first, same_bytes_iff r.prev_hash genesis_prev_hash)
    ]

    verify_row_iff :
        (key : Option Bytes) (w : Walk) (r : AuditLogRowFull)
        → (w.first_non_legacy_seen ≡ false → w.prev_hash ≡ genesis_prev_hash)
        → (verify_row sha256_hex hmac_hex key w r ≡ none) ↔ IsLinked key w.prev_hash r
    verify_row_iff key w r h = (
      λ e.
          let (linked, d) = verify_row_parts key w r h e in
          let (digest, signed) = (verify_digest_iff key r).0 d in
          record { linked = linked; digest = digest; signed = signed },
      λ l.
          verify_row_of key w r h (ap is_empty l.digest ∙ digest_is_some (row_preimage r)) l.linked
            ((verify_digest_iff key r).1 (l.digest, l.signed)),
    )

    verify_rows_iff :
        (key : Option Bytes) (w : Walk) (rows : List AuditLogRowFull)
        → (w.first_non_legacy_seen ≡ false → w.prev_hash ≡ genesis_prev_hash)
        → (verify_rows sha256_hex hmac_hex key w rows ≡ none) ↔ IsChain key w.prev_hash rows
    unfolding verify_rows
    verify_rows_iff key w [] h = (λ _. tt, λ _. refl)
    verify_rows_iff key w (r ∷ rows) h =
        ground (arith, verify_row_iff key w r h, verify_rows_iff key (passed r) rows (λ e. cc))

    pub verify_chain_iff :
        (repo : AuditLogRepository) (log : AuditLog)
        → (verify_chain sha256_hex hmac_hex repo log ≡ ok tt)
          ↔ IsChain repo.hmac_key genesis_prev_hash log.rows
    unfolding verify_chain
    verify_chain_iff repo log =
        ground (arith, verify_rows_iff repo.hmac_key start log.rows (λ _. refl))

    head_hash-newest :
        (p : Bytes) (rows : List AuditLogRowFull)
        → head_hash p rows ≡ elim (newest rows) [ none ↦ p | some r ↦ r.record_hash ]
    head_hash-newest p [] = refl
    head_hash-newest p (r ∷ rows) = ground (arith, head_hash-newest r.record_hash rows)

    newest_digest :
        (key : Option Bytes) (p : Bytes) (rows : List AuditLogRowFull) (r : AuditLogRowFull)
        → IsChain key p rows
        → newest rows ≡ some r
        → is_empty r.record_hash ≡ false
    newest_digest key p [] r chain e = cc
    newest_digest key p (s ∷ rows) r chain e = elim (Option-cases (newest rows)) [
      | inl none_newer ↦
          let here = ap is_empty chain.0.digest ∙ digest_is_some (row_preimage s) in
          ground (arith, none_newer, e, here)
      | inr (t, e') ↦ newest_digest key s.record_hash rows r chain.1 (ground arith)
    ]

    pub previous_hash_lem :
        (key : Option Bytes) (rows : List AuditLogRowFull)
        → IsChain key genesis_prev_hash rows
        → previous_hash rows ≡ head_hash genesis_prev_hash rows
    previous_hash_lem key rows chain = elim (Option-cases (newest rows)) [
      | inl empty ↦ ground (arith, head_hash-newest genesis_prev_hash rows)
      | inr (r, e) ↦ ground (
        arith,
        e,
        head_hash-newest genesis_prev_hash rows,
        newest_digest key genesis_prev_hash rows r chain e,
      )
    ]
