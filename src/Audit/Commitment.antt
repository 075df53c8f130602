-- ===== src/Audit/Commitment.antt =====
-- What the newest digest of the log of
-- crates/core/src/infrastructure/repository/audit_log_repository.rs says about the rows before
-- it, and what the digest of a row says about its columns.
use agent_dep_platform.Base.{
  ℕ, ◌≡◌, ◌≢◌, refl, sym, ap, ◌∙◌, ◌⊎◌, inl, inr, false, Option, List, [], ◌∷◌, ok, length,
  Bool-cases, arith, map,
}
use mathlib.Core.List.{head-eq_of_cons-eq, tail-eq_of_cons-eq}
use agent_dep_platform.Audit.Rows.{
  Bytes, AuditLogRowFull, same_bytes, same_bytes_iff, genesis_prev_hash, preimage, row_preimage,
  compute_record_hash, le_bytes, colon, text_or_empty,
}
use agent_dep_platform.Audit.Recording.{AuditLog, AuditLogRepository}
use agent_dep_platform.Audit.Verifying.{verify_chain}
use agent_dep_platform.Audit.Chain.{IsChain, head_hash, verify_chain_iff}

colon-cancel :
    (a b : Bytes) {c d : Bytes} → length a ≡ length b → colon a c ≡ colon b d → (a ≡ b) × (c ≡ d)
colon-cancel [] [] h e = (refl, tail-eq_of_cons-eq e)
colon-cancel [] (y ∷ b) h e = ground (arith, h)
colon-cancel (x ∷ a) [] h e = ground (arith, h)
colon-cancel (x ∷ a) (y ∷ b) h e =
    let (here, rest) = colon-cancel a b (omega (arith, h)) (tail-eq_of_cons-eq e) in
    (rw (head-eq_of_cons-eq e, here) refl, rest)

colon_assoc : (a b c : Bytes) → colon (colon a b) c ≡ colon a (colon b c)
colon_assoc [] b c = refl
colon_assoc (x ∷ a) b c = ap (λ z. x ∷ z) (colon_assoc a b c)

differs :
    (x y : AuditLogRowFull)
    → row_preimage x ≡ row_preimage y
    → same_bytes (row_preimage x) (row_preimage y) ≡ false
    → ⊥
differs x y e h = ground (arith, (same_bytes_iff (row_preimage x) (row_preimage y)).1 e, h)

module _ (sha256_hex : Bytes → Bytes) where
  -- The digest cannot tell where a `:` separates the actor from the action: a part of the actor
  -- can move to the action, and the digest of the row is the same.
  pub separator_moves :
      (sequence : ℕ) (prev_hash now actor part action : Bytes) (target : Option Bytes)
      (outcome : Bytes) (details : Option Bytes)
      → compute_record_hash sha256_hex sequence prev_hash now
          (colon actor part)
          action
          target
          outcome
          details
        ≡ compute_record_hash sha256_hex sequence prev_hash now actor
            (colon part action)
            target
            outcome
            details
  unfolding preimage
  separator_moves sequence prev_hash now actor part action target outcome details =
      let rest = colon (text_or_empty target) (colon outcome (text_or_empty details)) in
      ap (λ z. sha256_hex (colon (le_bytes 8 sequence) (colon prev_hash (colon now z))))
        (colon_assoc actor part (colon action rest)
          ∙ ap (colon actor) (sym (colon_assoc part action rest)))

  -- At some position the two lists have rows that differ in what is digested, with one digest.
  pub Collides : List AuditLogRowFull → List AuditLogRowFull → Type 0
  Collides (x ∷ xs) (y ∷ ys) =
      ((row_preimage x ≢ row_preimage y)
        × (sha256_hex (row_preimage x) ≡ sha256_hex (row_preimage y)))
      ⊎ Collides xs ys
  Collides _ _ = ⊥

  module _ (hmac_hex : Bytes → Bytes → Bytes)
      (digest_length : (x : Bytes) → length (sha256_hex x) ≡ 64) where
    row_preimage-prev_hash :
        (x y : AuditLogRowFull)
        → length x.prev_hash ≡ length y.prev_hash
        → row_preimage x ≡ row_preimage y
        → x.prev_hash ≡ y.prev_hash
    unfolding preimage
    row_preimage-prev_hash x y h e =
        let (ids, rest) = colon-cancel (le_bytes 8 x.id) (le_bytes 8 y.id) refl e in
        (colon-cancel x.prev_hash y.prev_hash h rest).0

    IsChain-commits :
        (k l : Option Bytes) (p q : Bytes) (xs ys : List AuditLogRowFull)
        → length xs ≡ length ys
        → length p ≡ 64
        → length q ≡ 64
        → IsChain sha256_hex hmac_hex k p xs
        → IsChain sha256_hex hmac_hex l q ys
        → head_hash p xs ≡ head_hash q ys
        → Collides xs ys ⊎ ((p ≡ q) × (map row_preimage xs ≡ map row_preimage ys))
    unfolding Collides
    IsChain-commits k l p q [] [] n hp hq cx cy h = inr (h, refl)
    IsChain-commits k l p q [] (y ∷ ys) n hp hq cx cy h = ground (arith, n)
    IsChain-commits k l p q (x ∷ xs) [] n hp hq cx cy h = ground (arith, n)
    IsChain-commits k l p q (x ∷ xs) (y ∷ ys) n hp hq cx cy h =
        elim (IsChain-commits k l x.record_hash y.record_hash xs ys (omega (arith, n))
          (ap length cx.0.digest ∙ digest_length (row_preimage x))
          (ap length cy.0.digest ∙ digest_length (row_preimage y)) cx.1 cy.1 h) [
            | inl later ↦ inl (inr later)
            | inr (heads, rest) ↦ elim (Bool-cases (same_bytes (row_preimage x) (row_preimage y))) [
              | inl same ↦
                  let whole = (same_bytes_iff (row_preimage x) (row_preimage y)).0 same in
                  let prev =
                    row_preimage-prev_hash x y
                      (ap length cx.0.linked ∙ hp ∙ sym hq ∙ sym (ap length cy.0.linked)) whole in
                  inr (sym cx.0.linked ∙ prev ∙ cy.0.linked, rw (whole, rest) refl)
              | inr differ ↦
                  inl
                    (inl (λ whole. differs x y whole differ, sym cx.0.digest ∙ heads ∙ cy.0.digest))
            ]
          ]

    -- Where digests have 64 characters, two logs of one length that verify_chain accepts (with
    -- whatever keys) and whose newest digests are equal agree in everything that was digested, in
    -- every row; or some rows at the same position are a collision of the digest.
    pub newest_digest_commits :
        (a b : AuditLogRepository) (left right : AuditLog)
        → length left.rows ≡ length right.rows
        → verify_chain sha256_hex hmac_hex a left ≡ ok tt
        → verify_chain sha256_hex hmac_hex b right ≡ ok tt
        → head_hash genesis_prev_hash left.rows ≡ head_hash genesis_prev_hash right.rows
        → (map row_preimage left.rows ≡ map row_preimage right.rows) ⊎ Collides left.rows right.rows
    newest_digest_commits a b left right n ha hb h =
        let chain = verify_chain_iff sha256_hex hmac_hex digest_length in
        elim (IsChain-commits a.hmac_key b.hmac_key genesis_prev_hash genesis_prev_hash left.rows
          right.rows n refl refl ((chain a left).0 ha) ((chain b right).0 hb) h) [
            | inl c ↦ inr c
            | inr (_, rows) ↦ inl rows
          ]
