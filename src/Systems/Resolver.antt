-- ===== src/Systems/Resolver.antt =====
-- `VersionResolver` of crates/core/src/domain/version/resolver.rs. Versions and ranges are those
-- of the crate `semver`, an interface with the laws of its order.
use agent_dep_platform.Base.{
  Bool, true, Option, none, some, List, [], ◌∷◌, ◌≡◌, ◌⊎◌, inl, inr, refl, sym, ap, ◌∙◌, select,
  All, arith, Bool-cases, Option-cases, if◌then◌else◌,
}
use mathlib.Core.Option.{some-injective}
use mathlib.Core.Path.{subst}
use agent_dep_platform.Systems.Composition.{IsIn}
use agent_dep_platform.Systems.Deletions.{IsIn-select}

-- `le a b` is `a.cmp(b) != Greater`.
pub record Semver : Type 1 where
  pub Version : Type 0
  pub VersionReq : Type 0
  pub matches : VersionReq → Version → Bool
  pub le : Version → Version → Bool
  pub le_total : (a b : Version) → (le a b ≡ true) ⊎ (le b a ≡ true)
  pub le_trans : (a b c : Version) → le a b ≡ true → le b c ≡ true → le a c ≡ true

module _ (semver : Semver) where
  open semver use {Version, VersionReq, matches, le, le_total, le_trans}

  -- A stable sort, the greatest version first.
  abbrev insert_descending : Version → List Version → List Version
  insert_descending v [] = v ∷ []
  insert_descending v (w ∷ ws) =
      let rest = insert_descending v ws in if le w v then v ∷ w ∷ ws else w ∷ rest

  abbrev sort_descending : List Version → List Version
  sort_descending [] = []
  sort_descending (v ∷ vs) = insert_descending v (sort_descending vs)

  abbrev first : List Version → Option Version
  first [] = none
  first (v ∷ vs) = some v

  unfoldable pub resolve : VersionReq → List Version → Option Version
  resolve req candidates = first (sort_descending (select (matches req) candidates))

  abbrev greater_of : Version → Option Version → Version
  greater_of v none = v
  greater_of v (some w) = if le w v then v else w

  first-insert_descending :
      (v : Version) (ws : List Version)
      → first (insert_descending v ws) ≡ some (greater_of v (first ws))
  first-insert_descending v [] = refl
  first-insert_descending v (w ∷ ws) = ground arith

  le_refl : (v : Version) → le v v ≡ true
  le_refl v = elim (le_total v v) [ inl h ↦ h | inr h ↦ h ]

  All-le :
      (vs : List Version) (a b : Version)
      → All (λ v. le v a ≡ true) vs
      → le a b ≡ true
      → All (λ v. le v b ≡ true) vs
  All-le [] a b h up = tt
  All-le (v ∷ vs) a b h up = (le_trans v a b h.0 up, All-le vs a b h.1 up)

  nothing_sorted :
      (P : Version → Type 0) (vs : List Version) → first (sort_descending vs) ≡ none → All P vs
  nothing_sorted P [] h = tt
  nothing_sorted P (v ∷ vs) h = cc (sym (first-insert_descending v (sort_descending vs)) ∙ h)

  -- `top` is the greatest of the list.
  abbrev IsTop : Version → List Version → Type 0
  IsTop top vs = IsIn top vs × All (λ v. le v top ≡ true) vs

  greater_of-IsTop :
      (v w : Version) (vs : List Version) → IsTop w vs → IsTop (greater_of v (some w)) (v ∷ vs)
  greater_of-IsTop v w vs h = elim (Bool-cases (le w v)) [
    | inl up ↦
        subst (λ b. IsTop (if b then v else w) (v ∷ vs)) (sym up)
          (inl refl, (le_refl v, All-le vs w v h.1 up))
    | inr down ↦
        let below : le v w ≡ true = elim (le_total v w) [ inl e ↦ e | inr e ↦ cc (sym e ∙ down) ] in
        subst (λ b. IsTop (if b then v else w) (v ∷ vs)) (sym down) (inr h.0, (below, h.1))
  ]

  first-sort_descending :
      (vs : List Version) (top : Version) → first (sort_descending vs) ≡ some top → IsTop top vs
  first-sort_descending [] top h = cc
  first-sort_descending (v ∷ vs) top h =
      let sorted = first (sort_descending vs) in
      let is_top : greater_of v sorted ≡ top =
        some-injective _ _ (sym (first-insert_descending v (sort_descending vs)) ∙ h) in
      elim (Option-cases sorted) [
        | inl empty ↦
            subst (λ t. IsTop t (v ∷ vs)) (sym (ap (greater_of v) empty) ∙ is_top)
              (inl refl, (le_refl v, nothing_sorted (λ u. le u v ≡ true) vs empty))
        | inr (w, e) ↦
            subst (λ t. IsTop t (v ∷ vs)) (sym (ap (greater_of v) e) ∙ is_top)
              (greater_of-IsTop v w vs (first-sort_descending vs w e))
      ]

  All-select :
      (P : Version → Type 0) (p : Version → Bool) (vs : List Version)
      → All P (select p vs)
      → All (λ v. p v ≡ true → P v) vs
  All-select P p [] h = tt
  All-select P p (v ∷ vs) h = elim (Bool-cases (p v)) [
    | inl holds ↦
        let kept = subst (λ b. All P (if b then v ∷ select p vs else select p vs)) holds h in
        (λ _. kept.0, All-select P p vs kept.1)
    | inr fails ↦
        let kept = subst (λ b. All P (if b then v ∷ select p vs else select p vs)) fails h in
        (λ e. cc (sym e ∙ fails), All-select P p vs kept)
  ]

  -- The resolver picks a candidate that matches the range and that no matching candidate exceeds;
  -- it picks none only if no candidate matches.
  pub resolve_lem :
      (req : VersionReq) (candidates : List Version)
      → ((top : Version) × (resolve req candidates ≡ some top)
          × IsIn top candidates
          × (matches req top ≡ true)
          × All (λ v. matches req v ≡ true → le v top ≡ true) candidates)
        ⊎ ((resolve req candidates ≡ none) × All (λ v. matches req v ≡ true → ⊥) candidates)
  unfolding resolve
  resolve_lem req candidates =
      let matching = select (matches req) candidates in
      elim (Option-cases (first (sort_descending matching))) [
        | inl empty ↦ inr (
          empty,
          All-select (λ _. ⊥) (matches req) candidates (nothing_sorted (λ _. ⊥) matching empty),
        )
        | inr (top, e) ↦
            let (is_in, greatest) = first-sort_descending matching top e in
            let (listed, holds) = IsIn-select (matches req) top candidates is_in in
            inl (
              top,
              e,
              listed,
              holds,
              All-select (λ v. le v top ≡ true) (matches req) candidates greatest,
            )
      ]
