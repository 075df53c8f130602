-- ===== src/Systems/Resolving.antt =====
-- The loop over references of crates/core/src/application/compose/mod.rs, described without the
-- loop.
use agent_dep_platform.Base.{
  String, true, false, Option, some, List, [], ◌∷◌, ◌≡◌, ◌≢◌, ◌↔◌, refl, sym, ap, ◌∙◌, ok, ◌>>=◌,
  CoreError, contains, string_eq, eq_iff, map, All, arith, Option-cases, Bool-cases, inl, inr,
  ok-injective, >>=-eq-ok,
}
use mathlib.Core.Path.{subst}
use agent_dep_platform.Systems.Composing.{resolve_all}

abbrev pub IsDistinct : List String → Type 0
IsDistinct [] = Unit
IsDistinct (x ∷ xs) = All (λ y. x ≢ y) xs × IsDistinct xs

module _ {E R : Type 0} (look_up : E → Option R) where
  -- Each item is in the catalog, in order, with this result.
  abbrev pub AreFound : List E → List R → Type 0
  AreFound [] [] = Unit
  AreFound (e ∷ es) (r ∷ rs) = (look_up e ≡ some r) × AreFound es rs
  AreFound _ _ = ⊥

module _ {E R : Type 0} (id_of : E → String) (look_up : E → Option R) (duplicate : CoreError)
    (missing : E → CoreError) where
  abbrev AreNew : List String → List E → Type 0
  AreNew seen [] = Unit
  AreNew seen (e ∷ es) = (contains seen (id_of e) ≡ false) × AreNew (id_of e ∷ seen) es

  resolve_all-found_first :
      (seen : List String) (e : E) (es : List E) (r : R)
      → contains seen (id_of e) ≡ false
      → look_up e ≡ some r
      → resolve_all id_of look_up duplicate missing seen (e ∷ es) ≡ (
          resolve_all id_of look_up duplicate missing (id_of e ∷ seen) es >>= λ later.
          ok (r ∷ later))
  resolve_all-found_first seen e es r new found = ground (arith, new, found)

  resolve_all-parts :
      (seen : List String) (e : E) (es : List E) (rs : List R)
      → resolve_all id_of look_up duplicate missing seen (e ∷ es) ≡ ok rs
      → (contains seen (id_of e) ≡ false)
        × (r : R) × (later : List R) × (look_up e ≡ some r)
        × (resolve_all id_of look_up duplicate missing (id_of e ∷ seen) es ≡ ok later)
        × (r ∷ later ≡ rs)
  resolve_all-parts seen e es rs h = elim (Bool-cases (contains seen (id_of e))) [
    | inl old ↦ ground (arith, old, h)
    | inr new ↦ elim (Option-cases (look_up e)) [
      | inl absent ↦ ground (arith, new, absent, h)
      | inr (r, found) ↦
          let rest = resolve_all id_of look_up duplicate missing (id_of e ∷ seen) es in
          let (later, done, all) =
            >>=-eq-ok rest (λ later. ok (r ∷ later)) {t = rs}
              (sym (resolve_all-found_first seen e es r new found) ∙ h) in
          (new, r, later, found, done, ok-injective all)
    ]
  ]

  resolve_all-found :
      (seen : List String) (es : List E) (rs : List R)
      → resolve_all id_of look_up duplicate missing seen es ≡ ok rs
      → AreFound look_up es rs × AreNew seen es
  resolve_all-found seen [] [] h = (tt, tt)
  resolve_all-found seen [] (r ∷ rs) h = cc
  resolve_all-found seen (e ∷ es) rs h =
      let (new, r, later, found, done, all) = resolve_all-parts seen e es rs h in
      let (rest, fresh) = resolve_all-found (id_of e ∷ seen) es later done in
      (subst (AreFound look_up (e ∷ es)) all (found, rest), (new, fresh))

  resolve_all-of :
      (seen : List String) (es : List E) (rs : List R)
      → AreFound look_up es rs
      → AreNew seen es
      → resolve_all id_of look_up duplicate missing seen es ≡ ok rs
  resolve_all-of seen [] [] f n = refl
  resolve_all-of seen [] (r ∷ rs) f n = absurd f
  resolve_all-of seen (e ∷ es) [] f n = absurd f
  resolve_all-of seen (e ∷ es) (r ∷ rs) f n =
      ground (arith, f.0, n.0, resolve_all-of (id_of e ∷ seen) es rs f.1 n.1)

  contains_lem :
      (seen : List String) (x : String) → (contains seen x ≡ false) ↔ All (λ y. y ≢ x) seen
  contains_lem [] x = (λ h. tt, λ h. refl)
  contains_lem (y ∷ seen) x = ground (arith, eq_iff y x, contains_lem seen x)

  unseen :
      (x : String) (seen : List String) (es : List E)
      → contains seen x ≡ true
      → AreNew seen es
      → All (λ y. x ≢ y) (map id_of es)
  unseen x seen [] h n = tt
  unseen x seen (e ∷ es) h n = (
    λ same. ground (arith, h, n.0, ap (contains seen) same),
    unseen x (id_of e ∷ seen) es (ground (arith, h)) n.1,
  )

  AreNew-IsDistinct :
      (seen : List String) (es : List E) → AreNew seen es → IsDistinct (map id_of es)
  AreNew-IsDistinct seen [] n = tt
  AreNew-IsDistinct seen (e ∷ es) n = (
    unseen (id_of e) (id_of e ∷ seen) es (ground (arith, (eq_iff (id_of e) (id_of e)).1 refl)) n.1,
    AreNew-IsDistinct (id_of e ∷ seen) es n.1,
  )

  AreNew-of :
      (seen : List String) (es : List E)
      → All (λ x. All (λ y. x ≢ y) (map id_of es)) seen
      → IsDistinct (map id_of es)
      → AreNew seen es
  AreNew-of seen [] apart d = tt
  AreNew-of seen (e ∷ es) apart d = (
    (contains_lem seen (id_of e)).1 (first_apart seen apart),
    AreNew-of (id_of e ∷ seen) es (d.0, rest_apart seen apart) d.1,
  )
    where
      first_apart :
          (xs : List String)
          → All (λ x. All (λ y. x ≢ y) (id_of e ∷ map id_of es)) xs
          → All (λ x. x ≢ id_of e) xs
      first_apart [] h = tt
      first_apart (x ∷ xs) h = (h.0.0, first_apart xs h.1)

      rest_apart :
          (xs : List String)
          → All (λ x. All (λ y. x ≢ y) (id_of e ∷ map id_of es)) xs
          → All (λ x. All (λ y. x ≢ y) (map id_of es)) xs
      rest_apart [] h = tt
      rest_apart (x ∷ xs) h = (h.0.1, rest_apart xs h.1)

  -- The loop succeeds exactly when the ids are distinct and every item is in the catalog.
  pub resolve_all_iff :
      (es : List E) (rs : List R)
      → (resolve_all id_of look_up duplicate missing [] es ≡ ok rs)
        ↔ (AreFound look_up es rs × IsDistinct (map id_of es))
  resolve_all_iff es rs = (
    λ h. let (found, new) = resolve_all-found [] es rs h in (found, AreNew-IsDistinct [] es new),
    λ h. resolve_all-of [] es rs h.0 (AreNew-of [] es tt h.1),
  )
