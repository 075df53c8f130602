-- ===== src/Systems/Composition.antt =====
-- What a composition of crates/core/src/application/compose/mod.rs contains, and when there is
-- one.
use agent_dep_platform.Base.{
  ℕ, String, Bool, true, Option, some, List, [], ◌∷◌, ◌≡◌, ◌⊎◌, inl, inr, refl, sym, ap, ◌∙◌,
  CoreResult, ok, ◌>>◌, find, map, arith, Option-cases, Bool-cases, eq_iff, string_eq, >>=-eq-ok,
  ok-injective, and-true,
}
use mathlib.Core.Path.{subst}
use mathlib.Core.Option.{some-injective}
use agent_dep_platform.Systems.Catalog.{
  same_version_iff, Agent, Skill, SystemAgentRef, SystemSkillRefV2, ParsedSystemFile, v1, v2,
  ResolvedAgent, ResolvedSkill, System,
}
use agent_dep_platform.Systems.Composing.{
  apply_override, is_agent, is_skill, look_up_agent, look_up_skill, resolve_agents, resolve_skills,
  check_file_v1, check_file_v2, lift_ref, compose_v1, compose_v2, compose, agent_missing,
  skill_missing,
}
use agent_dep_platform.Systems.Resolving.{AreFound, IsDistinct, resolve_all_iff}

abbrev pub IsIn : {A : Type 0} → A → List A → Type 0
IsIn a [] = ⊥
IsIn a (x ∷ xs) = (a ≡ x) ⊎ IsIn a xs

abbrev pub AllTwo : {A B : Type 0} → (A → B → Type 0) → List A → List B → Type 0
AllTwo P [] [] = Unit
AllTwo P (a ∷ as') (b ∷ bs) = P a b × AllTwo P as' bs
AllTwo P _ _ = ⊥

pub find-IsIn :
    {A : Type 0} (p : A → Bool) (xs : List A) (a : A)
    → find p xs ≡ some a
    → IsIn a xs × (p a ≡ true)
find-IsIn p [] a h = cc
find-IsIn p (x ∷ xs) a h = elim (Bool-cases (p x)) [
  | inl holds ↦
      let same = some-injective x a (sym (ground (arith, holds)) ∙ h) in
      (inl (sym same), sym (ap p same) ∙ holds)
  | inr fails ↦
      let (later, passes) = find-IsIn p xs a (ground (arith, fails, h)) in (inr later, passes)
]

-- The agent is a listed agent with the id and the version of the reference, as the override
-- changes it.
pub record IsAgentOf (agents : List Agent) (e : SystemAgentRef) (r : ResolvedAgent) : Type 0 where
  pub listed : Agent
  pub is_listed : IsIn listed agents
  pub same_id : listed.id ≡ e.agent_ref.id
  pub same_version : listed.version ≡ e.agent_ref.version
  pub overridden : r.agent ≡ apply_override listed e.agent_override
  pub from_ref : r.from_ref ≡ e.agent_ref
  pub applied_override : r.applied_override ≡ e.agent_override

pub record IsSkillOf (skills : List Skill) (e : SystemSkillRefV2) (r : ResolvedSkill) : Type 0 where
  pub is_listed : IsIn r.skill skills
  pub same_id : r.skill.id ≡ e.skill_ref.id
  pub same_version : r.skill.version ≡ e.skill_ref.version
  pub from_ref : r.from_ref ≡ e.skill_ref

look_up_agent-IsAgentOf :
    (agents : List Agent) (e : SystemAgentRef) (r : ResolvedAgent)
    → look_up_agent agents e ≡ some r
    → IsAgentOf agents e r
look_up_agent-IsAgentOf agents e r h =
    elim (Option-cases (find (is_agent agents e.agent_ref) agents)) [
      | inl absent ↦ ground (arith, absent, h)
      | inr (a, found) ↦
          let (listed, test) = find-IsIn (is_agent agents e.agent_ref) agents a found in
          let (ids, versions) = and-true _ _ test in
          let it = some-injective _ r (sym (ground (arith, found)) ∙ h) in
          subst (IsAgentOf agents e) it (record {
            listed = a;
            is_listed = listed;
            same_id = (eq_iff a.id e.agent_ref.id).0 ids;
            same_version = (same_version_iff a.version e.agent_ref.version).0 versions;
            overridden = refl;
            from_ref = refl;
            applied_override = refl;
          })
    ]

look_up_skill-IsSkillOf :
    (skills : List Skill) (e : SystemSkillRefV2) (r : ResolvedSkill)
    → look_up_skill skills e ≡ some r
    → IsSkillOf skills e r
look_up_skill-IsSkillOf skills e r h =
    elim (Option-cases (find (is_skill skills e.skill_ref) skills)) [
      | inl absent ↦ ground (arith, absent, h)
      | inr (s, found) ↦
          let (listed, test) = find-IsIn (is_skill skills e.skill_ref) skills s found in
          let (ids, versions) = and-true _ _ test in
          let it = some-injective _ r (sym (ground (arith, found)) ∙ h) in
          subst (IsSkillOf skills e) it (record {
            is_listed = listed;
            same_id = (eq_iff s.id e.skill_ref.id).0 ids;
            same_version = (same_version_iff s.version e.skill_ref.version).0 versions;
            from_ref = refl;
          })
    ]

module _ {E R : Type 0} (look_up : E → Option R) where
  AllTwo-of :
      (P : E → R → Type 0) (es : List E) (rs : List R)
      → ((e : E) (r : R) → look_up e ≡ some r → P e r)
      → AreFound look_up es rs
      → AllTwo P es rs
  AllTwo-of P [] [] each f = tt
  AllTwo-of P [] (r ∷ rs) each f = absurd f
  AllTwo-of P (e ∷ es) [] each f = absurd f
  AllTwo-of P (e ∷ es) (r ∷ rs) each f = (each e r f.0, AllTwo-of P es rs each f.1)

abbrev pub agents_of : ParsedSystemFile → List SystemAgentRef
agents_of (v1 f) = f.spec.agents
agents_of (v2 f) = map lift_ref f.spec.agents

abbrev pub skills_of : ParsedSystemFile → List SystemSkillRefV2
skills_of (v1 f) = []
skills_of (v2 f) = f.spec.skills

abbrev pub check_file : ParsedSystemFile → CoreResult (Unit {0})
check_file (v1 f) = check_file_v1 f
check_file (v2 f) = check_file_v2 f

-- The system consists of what its file refers to, in the file's order.
pub record IsComposition (source_id snapshot_id : ℕ) (agents : List Agent) (skills : List Skill)
    (file : ParsedSystemFile) (s : System) : Type 0 where
  pub checked : check_file file ≡ ok tt
  pub agents_resolved : AllTwo (IsAgentOf agents) (agents_of file) s.resolved
  pub agents_distinct : IsDistinct (map (λ e. e.agent_ref.id) (agents_of file))
  pub skills_resolved : AllTwo (IsSkillOf skills) (skills_of file) s.resolved_skills
  pub skills_distinct : IsDistinct (map (λ e. e.skill_ref.id) (skills_of file))
  pub source : s.source_id ≡ source_id
  pub snapshot : s.snapshot_id ≡ snapshot_id

resolve_agents-lem :
    (agents : List Agent) (system_id : String) (es : List SystemAgentRef) (rs : List ResolvedAgent)
    → resolve_agents agents system_id es ≡ ok rs
    → AllTwo (IsAgentOf agents) es rs × IsDistinct (map (λ e. e.agent_ref.id) es)
unfolding resolve_agents
resolve_agents-lem agents system_id es rs h =
    let (found, distinct) =
      (resolve_all_iff (λ e. e.agent_ref.id) (look_up_agent agents) _
          (agent_missing agents system_id) es rs).0
        h in
    (
      AllTwo-of (look_up_agent agents) (IsAgentOf agents) es rs (look_up_agent-IsAgentOf agents)
          found,
      distinct,
    )

resolve_skills-lem :
    (skills : List Skill) (system_id : String) (es : List SystemSkillRefV2)
    (rs : List ResolvedSkill)
    → resolve_skills skills system_id es ≡ ok rs
    → AllTwo (IsSkillOf skills) es rs × IsDistinct (map (λ e. e.skill_ref.id) es)
unfolding resolve_skills
resolve_skills-lem skills system_id es rs h =
    let (found, distinct) =
      (resolve_all_iff (λ e. e.skill_ref.id) (look_up_skill skills) _
          (skill_missing skills system_id) es rs).0
        h in
    (
      AllTwo-of (look_up_skill skills) (IsSkillOf skills) es rs (look_up_skill-IsSkillOf skills)
          found,
      distinct,
    )

module _ (source_id snapshot_id : ℕ) (agents : List Agent) (skills : List Skill) where
  -- A composition that succeeds contains, for every reference of the file and in the file's order,
  -- the listed agent or skill with that id and version, with the override applied; the file passed
  -- its checks, no id is referred to twice, and the source and the snapshot are recorded.
  pub compose_lem :
      (file : ParsedSystemFile) (s : System)
      → compose source_id snapshot_id agents skills file ≡ ok s
      → IsComposition source_id snapshot_id agents skills file s
  unfolding compose compose_v1 compose_v2
  compose_lem (v1 f) s h =
      let checked = check_file_v1 f in
      let resolving = resolve_agents agents f.metadata.id f.spec.agents in
      let (rs, both, made) = >>=-eq-ok (checked >> resolving) _ {t = s} h in
      let (u, checks, resolves) = >>=-eq-ok checked (λ _. resolving) {t = rs} both in
      let (found, distinct) = resolve_agents-lem agents f.metadata.id f.spec.agents rs resolves in
      subst (IsComposition source_id snapshot_id agents skills (v1 f)) (ok-injective made) (record {
        checked = checks;
        agents_resolved = found;
        agents_distinct = distinct;
        skills_resolved = tt;
        skills_distinct = tt;
        source = refl;
        snapshot = refl;
      })
  compose_lem (v2 f) s h =
      let checked = check_file_v2 f in
      let refs = map lift_ref f.spec.agents in
      let resolving = resolve_agents agents f.metadata.id refs in
      let skilling = resolve_skills skills f.metadata.id f.spec.skills in
      let (rs, both, more) = >>=-eq-ok (checked >> resolving) _ {t = s} h in
      let (u, checks, resolves) = >>=-eq-ok checked (λ _. resolving) {t = rs} both in
      let (ss, skilled, made) = >>=-eq-ok skilling _ {t = s} more in
      let (found, distinct) = resolve_agents-lem agents f.metadata.id refs rs resolves in
      let (skill_found, skill_distinct) =
        resolve_skills-lem skills f.metadata.id f.spec.skills ss skilled in
      subst (IsComposition source_id snapshot_id agents skills (v2 f)) (ok-injective made) (record {
        checked = checks;
        agents_resolved = found;
        agents_distinct = distinct;
        skills_resolved = skill_found;
        skills_distinct = skill_distinct;
        source = refl;
        snapshot = refl;
      })
