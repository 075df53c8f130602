-- ===== src/Base/Errors.antt =====
-- crates/core/src/error.rs: the errors that the modelled operations return, and the result of a
-- fallible operation. The free-form text of a `reason` is not modelled; the fields by which a
-- caller tells errors apart are.
use Prim.Native.Nat.{ℕ}
use Prim.Native.String.{String}
use mathlib.Core.Path.{◌≡◌, refl, ap}
use mathlib.Core.Logic.{◌↔◌, ◌⊎◌, inl, inr}
use mathlib.Core.Option.{Option}

-- The `kind` of an `ErrStaleDeployment`, with the captured and the current version where the
-- source reports them (it reports a missing row as version -1).
pub data StaleKind : Type 0 where
  target_config_version deployment_fence : ℕ → ℕ → StaleKind
  target_row_missing fence_target_missing : ℕ → StaleKind
  snapshot_deleted : StaleKind
  commit_sha : String → String → StaleKind
  artifact_manifest_hash plan_hash : StaleKind

-- Why the database refuses a statement.
pub data SqlError : Type 0 where
  not_null foreign_key unique : SqlError

pub data CoreError : Type 0 where
  err_source_not_found : CoreError
  err_schema_invalid : String → CoreError
  err_dependency_missing : String → String → CoreError
  err_sqlx : SqlError → CoreError
  err_stale_deployment : ℕ → ℕ → StaleKind → CoreError
  -- The target and the deploy that holds it, if the source knows which.
  err_target_busy : ℕ → Option ℕ → CoreError
  err_io : CoreError
  err_path_outside_root : String → CoreError
  err_verification_failed : String → CoreError
  -- A failed `expect`: the call unwinds.
  panicked : CoreError

pub data CoreResult {ℓ} (T : Type ℓ) : Type ℓ where
  err : CoreError → CoreResult T
  ok : T → CoreResult T

-- The operator `?` of Rust: the first error ends the call.
infixl 5 ◌>>=◌ ◌>>◌
abbrev pub ◌>>=◌ {ℓ κ} :
    {S : Type ℓ} {T : Type κ} → CoreResult S → (S → CoreResult T) → CoreResult T
err refusal >>= next = err refusal
ok value >>= next = next value

abbrev pub ◌>>◌ {κ} : {T : Type κ} → CoreResult (Unit {0}) → CoreResult T → CoreResult T
check >> rest = check >>= λ _. rest

pub CoreResult-cases {ℓ} :
    {T : Type ℓ} (m : CoreResult T) → ((t : T) × (m ≡ ok t)) ⊎ ((e : CoreError) × (m ≡ err e))
CoreResult-cases (ok t) = inl (t, refl)
CoreResult-cases (err e) = inr (e, refl)

pub check-cases : (m : CoreResult (Unit {0})) → (m ≡ ok tt) ⊎ ((e : CoreError) × (m ≡ err e))
check-cases (ok _) = inl refl
check-cases (err e) = inr (e, refl)

-- Inversion of a successful chain.
pub >>=-eq-ok {ℓ κ} :
    {S : Type ℓ} {T : Type κ} (first : CoreResult S) (next : S → CoreResult T) {t : T}
    → (first >>= next) ≡ ok t
    → (s : S) × (first ≡ ok s) × (next s ≡ ok t)
>>=-eq-ok (err refusal) next h = cc
>>=-eq-ok (ok s) next h = (s, refl, h)

-- Two checks in a row pass exactly when each passes.
pub >>-eq-ok : (m n : CoreResult (Unit {0})) → ((m >> n) ≡ ok tt) ↔ ((m ≡ ok tt) × (n ≡ ok tt))
>>-eq-ok (ok _) n = (λ h. (refl, h), λ h. h.1)
>>-eq-ok (err e) n = (λ h. cc, λ h. cc h.0)

value_or {ℓ} : {T : Type ℓ} → T → CoreResult T → T
value_or d (err e) = d
value_or d (ok t) = t

pub ok-injective {ℓ} : {T : Type ℓ} {s t : T} → ok s ≡ ok t → s ≡ t
unfolding value_or
ok-injective {s = s} e = ap (value_or s) e
