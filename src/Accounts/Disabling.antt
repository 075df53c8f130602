-- ===== src/Accounts/Disabling.antt =====
-- What disabling a user means for the calls that follow on the table `users`
-- (crates/core/src/infrastructure/repository/users_repository.rs).
use Prim.Native.Nat.{suc}
use agent_dep_platform.Base.{
  ℕ, ◌<◌, ◌≡◌, sym, ◌∙◌, String, Bool, true, false, not, ◌&&◌, some, List, [], ◌∷◌, ◌++◌, arith, ok,
  err, CoreResult, All, All-append, All-update, All-find, find as fetch_optional, update,
  if◌then◌else◌,
}
use agent_dep_platform.Accounts.Roles.{Role, admin}
use agent_dep_platform.Accounts.Users.{
  UserRow, UserTable, UserCreated, has_user_id, is_disabled, create, touch_last_seen, disable,
  rotate_token, migrate_legacy_token, adopt_legacy, create_with_external_id, store_token_hash,
  set_token_expiry, invalidate_token,
}

-- A call that writes the table, with what it draws and its clock.
pub data Call : Type 0 where
  creates : String → ℕ → String → Role → Call
  creates_external : ℕ → String → Role → String → Call
  touches disables : ℕ → ℕ → Call
  rotates : String → ℕ → Call
  migrates : String → ℕ → String → Call
  stores_hash sets_expiry : ℕ → String → Call
  invalidates : ℕ → Call

module _ (sha256_hex : String → String) where
  unfoldable pub apply : Call → UserTable → UserTable
  apply (creates token now name role) t = (create sha256_hex token now name role t).0
  apply (creates_external now name role x) t = (create_with_external_id now name role x t).0
  apply (touches user_id now) t = touch_last_seen user_id now t
  apply (disables user_id now) t = (disable user_id now t).0
  apply (rotates token user_id) t = (rotate_token sha256_hex token user_id t).0
  apply (migrates token now legacy) t = (migrate_legacy_token sha256_hex token now legacy t).0
  apply (stores_hash user_id hash) t = (store_token_hash user_id hash t).0
  apply (sets_expiry user_id at) t = set_token_expiry user_id at t
  apply (invalidates user_id) t = invalidate_token user_id t

  unfoldable pub run : List Call → UserTable → UserTable
  run [] t = t
  run (c ∷ calls) t = run calls (apply c t)

-- Every row of the id is disabled, and the id is not given again.
unfoldable pub IsBarred : ℕ → UserTable → Type 0
IsBarred k t = (k < t.next_id) × All (λ u. has_user_id k u ≡ true → is_disabled u ≡ true) t.rows

-- The same of the table that a call leaves beside its result.
unfoldable Leaves : {T : Type 0} → ℕ → UserTable × T → Type 0
Leaves k r = IsBarred k r.0

module _ {T : Type 0} (k : ℕ) where
  if-Leaves :
      (b : Bool) (x y : UserTable × T) → Leaves k x → Leaves k y → Leaves k (if b then x else y)
  if-Leaves true x y hx hy = hx
  if-Leaves false x y hx hy = hy

  Leaves-of : (t : UserTable) (result : T) → IsBarred k t → Leaves k (t, result)
  unfolding Leaves
  Leaves-of t result h = h

  IsBarred-left : (r : UserTable × T) → Leaves k r → IsBarred k r.0
  unfolding Leaves
  IsBarred-left r h = h

module _ (k : ℕ) where
  -- An update of columns other than the id that enables nobody.
  update-IsBarred :
      (hit : UserRow → Bool) (f : UserRow → UserRow) (t : UserTable)
      → ((u : UserRow) → has_user_id k (f u) ≡ has_user_id k u)
      → ((u : UserRow) → is_disabled u ≡ true → is_disabled (f u) ≡ true)
      → IsBarred k t
      → IsBarred k (record t { rows = update hit f t.rows })
  unfolding IsBarred
  update-IsBarred hit f t same keeps (le, h) = (
    le,
    All-update (λ u. has_user_id k u ≡ true → is_disabled u ≡ true) hit f t.rows
        (λ u e p mine. keeps u (p (sym (same u) ∙ mine))) h,
  )

  insert-IsBarred :
      (u : UserRow) (t : UserTable)
      → u.id ≡ t.next_id
      → IsBarred k t
      → IsBarred k (record { rows = t.rows ++ (u ∷ []); next_id = suc t.next_id })
  unfolding IsBarred
  insert-IsBarred u t fresh (le, h) = (
    omega (arith, le),
    All-append (λ u. has_user_id k u ≡ true → is_disabled u ≡ true) t.rows (u ∷ []) h
        (λ mine. absurd (ground (arith, fresh, le, mine)), tt),
  )

  module _ (sha256_hex : String → String) where
    create-Leaves :
        (token : String) (now : ℕ) (name : String) (role : Role) (t : UserTable)
        → IsBarred k t
        → Leaves k (create sha256_hex token now name role t)
    unfolding create
    create-Leaves token now name role t h = search (if-Leaves, Leaves-of, insert-IsBarred)

    adopt_legacy-Leaves :
        (legacy : String) (t : UserTable) (result : CoreResult UserCreated)
        → IsBarred k t
        → Leaves k (adopt_legacy sha256_hex legacy t result)
    unfolding adopt_legacy
    adopt_legacy-Leaves legacy t (err e) h = Leaves-of k t _ h
    adopt_legacy-Leaves legacy t (ok created) h = search (if-Leaves, Leaves-of, update-IsBarred)

    migrate_legacy_token-Leaves :
        (token : String) (now : ℕ) (legacy : String) (t : UserTable)
        → IsBarred k t
        → Leaves k (migrate_legacy_token sha256_hex token now legacy t)
    unfolding migrate_legacy_token
    migrate_legacy_token-Leaves token now legacy t h =
        let created = create-Leaves token now "admin" admin t h in
        search (if-Leaves, Leaves-of, adopt_legacy-Leaves, IsBarred-left, created)

    create_with_external_id-Leaves :
        (now : ℕ) (name : String) (role : Role) (external : String) (t : UserTable)
        → IsBarred k t
        → Leaves k (create_with_external_id now name role external t)
    unfolding create_with_external_id
    create_with_external_id-Leaves now name role external t h =
        search (if-Leaves, Leaves-of, insert-IsBarred)

    rotate_token-Leaves :
        (token : String) (user_id : ℕ) (t : UserTable)
        → IsBarred k t
        → Leaves k (rotate_token sha256_hex token user_id t)
    unfolding rotate_token
    rotate_token-Leaves token user_id t h = search (if-Leaves, Leaves-of, update-IsBarred)

    store_token_hash-Leaves :
        (user_id : ℕ) (hash : String) (t : UserTable)
        → IsBarred k t
        → Leaves k (store_token_hash user_id hash t)
    unfolding store_token_hash
    store_token_hash-Leaves user_id hash t h = search (if-Leaves, Leaves-of, update-IsBarred)

    apply-IsBarred : (c : Call) (t : UserTable) → IsBarred k t → IsBarred k (apply sha256_hex c t)
    unfolding apply touch_last_seen disable set_token_expiry invalidate_token
    apply-IsBarred (creates token now name role) t h =
        IsBarred-left k _ (create-Leaves token now name role t h)
    apply-IsBarred (creates_external now name role x) t h =
        IsBarred-left k _ (create_with_external_id-Leaves now name role x t h)
    apply-IsBarred (touches user_id now) t h = search update-IsBarred
    apply-IsBarred (disables user_id now) t h = search update-IsBarred
    apply-IsBarred (rotates token user_id) t h =
        IsBarred-left k _ (rotate_token-Leaves token user_id t h)
    apply-IsBarred (migrates token now legacy) t h =
        IsBarred-left k _ (migrate_legacy_token-Leaves token now legacy t h)
    apply-IsBarred (stores_hash user_id hash) t h =
        IsBarred-left k _ (store_token_hash-Leaves user_id hash t h)
    apply-IsBarred (sets_expiry user_id at) t h = search update-IsBarred
    apply-IsBarred (invalidates user_id) t h = search update-IsBarred

    run-IsBarred :
        (calls : List Call) (t : UserTable) → IsBarred k t → IsBarred k (run sha256_hex calls t)
    unfolding run
    run-IsBarred [] t h = h
    run-IsBarred (c ∷ calls) t h = run-IsBarred calls (apply sha256_hex c t) (apply-IsBarred c t h)

  disable-IsBarred : (now : ℕ) (t : UserTable) → k < t.next_id → IsBarred k (disable k now t).0
  unfolding disable IsBarred
  disable-IsBarred now t le = (le, barred t.rows)
    where
      barred :
          (rows : List UserRow)
          → All
              (λ u. has_user_id k u ≡ true → is_disabled u ≡ true)
              (update
                (λ u. has_user_id k u && not (is_disabled u))
                (λ u. record u { disabled_at = some now })
                rows)
      barred [] = tt
      barred (u ∷ rest) = (λ mine. ground arith, barred rest)

  -- Whatever is called after a user is disabled, the lookups for authentication return no row of
  -- the user that is not disabled.
  pub disabled_after :
      (sha256_hex : String → String) (now : ℕ) (calls : List Call) (t : UserTable) (u : UserRow)
      (p : UserRow → Bool)
      → k < t.next_id
      → fetch_optional p (run sha256_hex calls (disable k now t).0).rows ≡ some u
      → has_user_id k u ≡ true
      → is_disabled u ≡ true
  unfolding IsBarred
  disabled_after sha256_hex now calls t u p le found mine =
      All-find (λ u. has_user_id k u ≡ true → is_disabled u ≡ true) p
        (run sha256_hex calls (disable k now t).0).rows u
        (run-IsBarred sha256_hex calls _ (disable-IsBarred now t le)).1 found mine
