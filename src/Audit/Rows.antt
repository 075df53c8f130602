-- ===== src/Audit/Rows.antt =====
-- The rows of crates/core/src/infrastructure/repository/audit_log_repository.rs and the digest of
-- a row. A text is the list of its UTF-8 bytes, as the digest reads it. The crates `sha2`, `hmac`
-- and `hex` are parameters of what uses them.
use agent_dep_platform.Base.{
  ℕ, zero, suc, ◌/◌, ◌%◌, ◌≡◌, refl, Bool, true, false, ◌&&◌, Option, none, some, List, [], ◌∷◌,
  CoreResult, ok, err, err_schema_invalid, eqb, if◌then◌else◌, arith, eqb_iff, ◌↔◌,
}

abbrev pub Bytes : Type 0
Bytes = List ℕ

abbrev pub same_bytes : Bytes → Bytes → Bool
same_bytes [] [] = true
same_bytes (a ∷ cs) (b ∷ bs) = eqb a b && same_bytes cs bs
same_bytes _ _ = false

abbrev pub is_empty : Bytes → Bool
is_empty [] = true
is_empty (b ∷ bs) = false

pub data AuditOutcome : Type 0 where
  succeeded error : AuditOutcome

-- "ok" and "error"
abbrev pub ok_text : Bytes
ok_text = 111 ∷ 107 ∷ []

abbrev pub error_text : Bytes
error_text = 101 ∷ 114 ∷ 114 ∷ 111 ∷ 114 ∷ []

abbrev pub outcome_as_str : AuditOutcome → Bytes
outcome_as_str succeeded = ok_text
outcome_as_str error = error_text

abbrev pub parse_outcome : Bytes → CoreResult AuditOutcome
parse_outcome s =
    if same_bytes s ok_text
    then ok succeeded
    else if same_bytes s error_text
    then ok error
    else err (err_schema_invalid "audit_log.outcome")

-- A row of the table: the `outcome` column holds a text.
pub record AuditLogRowFull : Type 0 where
  pub id : ℕ
  pub occurred_at : Bytes
  pub actor : Bytes
  pub action : Bytes
  pub target : Option Bytes
  pub outcome : Bytes
  pub details : Option Bytes
  pub prev_hash : Bytes
  pub record_hash : Bytes
  pub hmac : Bytes

abbrev pub repeat : ℕ → ℕ → Bytes
repeat zero b = []
repeat (suc n) b = b ∷ repeat n b

-- 64 characters `0`
abbrev pub genesis_prev_hash : Bytes
genesis_prev_hash = repeat 64 48

-- `to_le_bytes` of a number, in `n` bytes.
abbrev pub le_bytes : ℕ → ℕ → Bytes
le_bytes zero x = []
le_bytes (suc n) x = (x % 256) ∷ le_bytes n (x / 256)

abbrev pub text_or_empty : Option Bytes → Bytes
text_or_empty none = []
text_or_empty (some t) = t

-- Two texts, separated by `:`.
abbrev pub colon : Bytes → Bytes → Bytes
colon [] rest = 58 ∷ rest
colon (b ∷ bs) rest = b ∷ colon bs rest

-- The bytes that `compute_record_hash` feeds to the digest.
unfoldable pub preimage :
    ℕ → Bytes → Bytes → Bytes → Bytes → Option Bytes → Bytes → Option Bytes → Bytes
preimage sequence prev_hash occurred_at actor action target outcome details =
    colon (le_bytes 8 sequence) (
      colon prev_hash (
        colon occurred_at (
          colon actor
            (colon action (colon (text_or_empty target) (colon outcome (text_or_empty details)))))))

-- The same bytes for the columns of a stored row.
abbrev pub row_preimage : AuditLogRowFull → Bytes
row_preimage r =
    preimage r.id r.prev_hash r.occurred_at r.actor r.action r.target r.outcome r.details

module _ (sha256_hex : Bytes → Bytes) where
  abbrev pub compute_record_hash :
      ℕ → Bytes → Bytes → Bytes → Bytes → Option Bytes → Bytes → Option Bytes → Bytes
  compute_record_hash sequence prev_hash occurred_at actor action target outcome details =
      sha256_hex (preimage sequence prev_hash occurred_at actor action target outcome details)

pub same_bytes_iff : (cs bs : Bytes) → (same_bytes cs bs ≡ true) ↔ (cs ≡ bs)
same_bytes_iff [] [] = (λ h. refl, λ h. refl)
same_bytes_iff [] (b ∷ bs) = ground arith
same_bytes_iff (a ∷ cs) [] = ground arith
same_bytes_iff (a ∷ cs) (b ∷ bs) = ground (arith, same_bytes_iff cs bs, eqb_iff a b)
