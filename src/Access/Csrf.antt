-- ===== src/Access/Csrf.antt =====
-- crates/server/src/auth.rs: `require_csrf_for_mutations` and the comparison `ct_eq`; and the order
-- in which `router` of crates/server/src/lib.rs puts the layers around a handler.
use agent_dep_platform.Base.{
  ℕ, ◌<◌, ◌≡◌, ◌↔◌, refl, ◌∙◌, ap, String, Bool, true, false, Option, none, some, List, [], ◌∷◌,
  arith, eqb, eqb_iff, and-true, length, All, if◌then◌else◌,
}
use agent_dep_platform.Accounts.Roles.{Role}
use agent_dep_platform.Access.Requests.{
  Method, get, head, options, Request, Response, Extensions, ServerState, Outside, Next, action_of,
  audited, json_response,
}
use agent_dep_platform.Access.Bits.{
  bit_xor, bit_or, Fits, Fits-byte, bit_xor-eq-zero, bit_xor_self, bit_or-eq-zero, bit_or-zero,
  bit_xor-Fits, bit_or-Fits,
}
use agent_dep_platform.Access.Authentication.{check_role, require_session_or_bearer}

-- The loop over the zipped bytes.
abbrev diff_from : ℕ → List ℕ → List ℕ → ℕ
diff_from d [] ys = d
diff_from d (x ∷ xs) [] = d
diff_from d (x ∷ xs) (y ∷ ys) = diff_from (bit_or 8 d (bit_xor 8 x y)) xs ys

unfoldable pub ct_eq : List ℕ → List ℕ → Bool
ct_eq a b = if eqb (length a) (length b) then eqb (diff_from 0 a b) 0 else false

abbrev pub is_safe_method : Method → Bool
is_safe_method get = true
is_safe_method head = true
is_safe_method options = true
is_safe_method _ = false

unfoldable pub csrf_rejected :
    {App : Type 0} → Outside → Request → String → ServerState App → ServerState App × Response
csrf_rejected out req reason st = (
  audited
      (record {
        actor = "anonymous";
        action = action_of req;
        resource = some "csrf";
        details = ("csrf", reason) ∷ [];
      })
      st,
  json_response out 403 (
      ("code", "csrf.mismatch")
      ∷ ("kind", "client")
      ∷ (
        "hint",
        "state-changing requests must include `X-CSRF-Token` header matching the session's csrf_token (use GET /v1/auth/me or login response to read it)",
      )
      ∷ []),
)

module _ {App : Type 0} (out : Outside) where
  -- The rest of `require_csrf_for_mutations` for a session with a token.
  unfoldable pub compare_token :
      Next App
      → Request
      → Extensions
      → String
      → Option String
      → ServerState App
      → ServerState App × Response
  compare_token next req ext expected none st = csrf_rejected out req "missing" st
  compare_token next req ext expected (some presented) st =
      if ct_eq (out.as_bytes presented) (out.as_bytes expected)
      then next req ext st
      else csrf_rejected out req "mismatch" st

  unfoldable pub require_csrf_for_mutations :
      Next App → Request → Extensions → ServerState App → ServerState App × Response
  require_csrf_for_mutations next req ext st =
      if is_safe_method req.method then next req ext st else elim ext.csrf [
        | none ↦ next req ext st
        | some token ↦ elim token [
          | none ↦ next req ext st
          | some expected ↦ compare_token next req ext expected req.x_csrf_token st
        ]
      ]

  -- The layers of the sub-router `authed` around a handler: a later `route_layer` is further out.
  unfoldable pub authed :
      List Role → Next App → ℕ → Request → Extensions → ServerState App → ServerState App × Response
  authed allowed handler now req ext st =
      require_session_or_bearer out (require_csrf_for_mutations (check_role out allowed handler))
        now req ext st

byte_Fits : (xs : List ℕ) → All (λ b. b < 256) xs → All (Fits 8) xs
byte_Fits [] h = tt
byte_Fits (x ∷ xs) h = (Fits-byte x h.0, byte_Fits xs h.1)

diff_from-eq-zero :
    (d : ℕ) (xs ys : List ℕ)
    → Fits 8 d
    → All (Fits 8) xs
    → All (Fits 8) ys
    → length xs ≡ length ys
    → diff_from d xs ys ≡ 0
    → (d ≡ 0) × (xs ≡ ys)
diff_from-eq-zero d [] [] f fx fy len h = (h, refl)
diff_from-eq-zero d [] (y ∷ ys) f fx fy len h = absurd (omega (arith, len))
diff_from-eq-zero d (x ∷ xs) [] f fx fy len h = absurd (omega (arith, len))
diff_from-eq-zero d (x ∷ xs) (y ∷ ys) f fx fy len h =
    let (zero_, same) =
      diff_from-eq-zero (bit_or 8 d (bit_xor 8 x y)) xs ys (bit_or-Fits 8 d (bit_xor 8 x y)) fx.1
        fy.1 (omega (arith, len)) h in
    let (old, new) = bit_or-eq-zero 8 d (bit_xor 8 x y) f (bit_xor-Fits 8 x y) zero_ in
    let heads = bit_xor-eq-zero 8 x y fx.0 fy.0 new in (old, cc)

diff_from_self : (xs : List ℕ) → diff_from 0 xs xs ≡ 0
diff_from_self [] = refl
diff_from_self (x ∷ xs) =
    ap (λ d. diff_from d xs xs) (ap (bit_or 8 0) (bit_xor_self 8 x) ∙ bit_or-zero 8)
    ∙ diff_from_self xs

-- On bytes, the comparison that takes the same time for every content decides equality.
pub ct_eq_iff :
    (a b : List ℕ) → All (λ x. x < 256) a → All (λ x. x < 256) b → (ct_eq a b ≡ true) ↔ (a ≡ b)
unfolding ct_eq
ct_eq_iff a b ha hb = (
  λ h.
      let parts =
        and-true (eqb (length a) (length b)) (eqb (diff_from 0 a b) 0) (ground (arith, h)) in
      (diff_from-eq-zero 0 a b refl (byte_Fits a ha) (byte_Fits b hb)
        ((eqb_iff (length a) (length b)).0 parts.0) ((eqb_iff (diff_from 0 a b) 0).0 parts.1)).1,
  λ e. rw (← e) (
      rw ((eqb_iff (length a) (length a)).1 refl)
        ((eqb_iff (diff_from 0 a a) 0).1 (diff_from_self a))),
)
