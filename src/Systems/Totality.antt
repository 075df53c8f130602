-- ===== src/Systems/Totality.antt =====
-- When a composition of crates/core/src/application/compose/mod.rs succeeds.
use agent_dep_platform.Base.{
  ℕ, String, Bool, true, Option, some, List, [], ◌∷◌, ◌≡◌, inl, inr, ap, ok, find, map, All, arith,
  Bool-cases, eq_iff, string_eq,
}
use agent_dep_platform.Systems.Catalog.{
  same_version_iff, Agent, Skill, SystemAgentRef, SystemSkillRefV2, ParsedSystemFile, v1, v2,
  ResolvedAgent, ResolvedSkill, System,
}
use agent_dep_platform.Systems.Composing.{
  apply_override, is_agent, is_skill, look_up_agent, look_up_skill, resolve_agents, resolve_skills,
  lift_ref, system_v1, system_v2, compose_v1, compose_v2, compose, agent_missing, skill_missing,
}
use agent_dep_platform.Systems.Resolving.{AreFound, IsDistinct, resolve_all_iff}
use agent_dep_platform.Systems.Composition.{IsIn, agents_of, skills_of, check_file}

IsIn-find :
    {A : Type 0} (p : A → Bool) (xs : List A) (a : A)
    → IsIn a xs
    → p a ≡ true
    → (b : A) × (find p xs ≡ some b)
IsIn-find p [] a h e = absurd h
IsIn-find p (x ∷ xs) a h e = elim (Bool-cases (p x)) [
  | inl holds ↦ (x, ground (arith, holds))
  | inr fails ↦
      let later = λ (i : IsIn a xs). IsIn-find p xs a i e in
      elim h [
        | inl same ↦ ground (arith, e, fails, ap p same)
        | inr i ↦ let (b, found) = later i in (b, ground (arith, fails, found))
      ]
]

-- An agent, or a skill, with the id and the version of the reference is listed.
unfoldable pub IsListedAgent : List Agent → SystemAgentRef → Type 0
IsListedAgent agents e =
    (a : Agent) × IsIn a agents × (a.id ≡ e.agent_ref.id) × (a.version ≡ e.agent_ref.version)

unfoldable pub IsListedSkill : List Skill → SystemSkillRefV2 → Type 0
IsListedSkill skills e =
    (s : Skill) × IsIn s skills × (s.id ≡ e.skill_ref.id) × (s.version ≡ e.skill_ref.version)

look_up_agent_listed :
    (agents : List Agent) (e : SystemAgentRef)
    → IsListedAgent agents e
    → (r : ResolvedAgent) × (look_up_agent agents e ≡ some r)
unfolding IsListedAgent
look_up_agent_listed agents e (a, listed, ids, versions) =
    let test : is_agent agents e.agent_ref a ≡ true = ground (
      arith,
      (eq_iff a.id e.agent_ref.id).1 ids,
      (same_version_iff a.version e.agent_ref.version).1 versions,
    ) in
    let (b, found) = IsIn-find (is_agent agents e.agent_ref) agents a listed test in
    (
      record {
        agent = apply_override b e.agent_override;
        from_ref = e.agent_ref;
        applied_override = e.agent_override;
      },
      ground (arith, found),
    )

look_up_skill_listed :
    (skills : List Skill) (e : SystemSkillRefV2)
    → IsListedSkill skills e
    → (r : ResolvedSkill) × (look_up_skill skills e ≡ some r)
unfolding IsListedSkill
look_up_skill_listed skills e (s, listed, ids, versions) =
    let test : is_skill skills e.skill_ref s ≡ true = ground (
      arith,
      (eq_iff s.id e.skill_ref.id).1 ids,
      (same_version_iff s.version e.skill_ref.version).1 versions,
    ) in
    let (b, found) = IsIn-find (is_skill skills e.skill_ref) skills s listed test in
    (record { skill = b; from_ref = e.skill_ref }, ground (arith, found))

module _ {E R : Type 0} (look_up : E → Option R) (P : E → Type 0) where
  find_each :
      (es : List E)
      → ((e : E) → P e → (r : R) × (look_up e ≡ some r))
      → All P es
      → (rs : List R) × AreFound look_up es rs
  find_each [] each h = ([], tt)
  find_each (e ∷ es) each h =
      let (rs, found) = find_each es each h.1 in
      let (r, here) = each e h.0 in (r ∷ rs, (here, found))

module _ (agents : List Agent) (system_id : String) where
  resolve_agents_total :
      (es : List SystemAgentRef)
      → All (IsListedAgent agents) es
      → IsDistinct (map (λ e. e.agent_ref.id) es)
      → (rs : List ResolvedAgent) × (resolve_agents agents system_id es ≡ ok rs)
  unfolding resolve_agents
  resolve_agents_total es listed distinct =
      let (rs, found) =
        find_each (look_up_agent agents) (IsListedAgent agents) es (look_up_agent_listed agents)
          listed in
      (
        rs,
        (resolve_all_iff (λ e. e.agent_ref.id) (look_up_agent agents) _
              (agent_missing agents system_id) es rs).1
            (found, distinct),
      )

module _ (skills : List Skill) (system_id : String) where
  resolve_skills_total :
      (es : List SystemSkillRefV2)
      → All (IsListedSkill skills) es
      → IsDistinct (map (λ e. e.skill_ref.id) es)
      → (rs : List ResolvedSkill) × (resolve_skills skills system_id es ≡ ok rs)
  unfolding resolve_skills
  resolve_skills_total es listed distinct =
      let (rs, found) =
        find_each (look_up_skill skills) (IsListedSkill skills) es (look_up_skill_listed skills)
          listed in
      (
        rs,
        (resolve_all_iff (λ e. e.skill_ref.id) (look_up_skill skills) _
              (skill_missing skills system_id) es rs).1
            (found, distinct),
      )

-- A composition succeeds if the file passes its checks, refers to no id twice, and refers only to
-- agents and skills that are listed with that version.
pub compose_total :
    (source_id snapshot_id : ℕ) (agents : List Agent) (skills : List Skill)
    (file : ParsedSystemFile)
    → check_file file ≡ ok tt
    → All (IsListedAgent agents) (agents_of file)
    → IsDistinct (map (λ e. e.agent_ref.id) (agents_of file))
    → All (IsListedSkill skills) (skills_of file)
    → IsDistinct (map (λ e. e.skill_ref.id) (skills_of file))
    → (s : System) × (compose source_id snapshot_id agents skills file ≡ ok s)
unfolding compose compose_v1 compose_v2
compose_total source_id snapshot_id agents skills (v1 f) checked listed distinct sl sd =
    let (rs, done) = resolve_agents_total agents f.metadata.id f.spec.agents listed distinct in
    (system_v1 source_id snapshot_id f rs, ground (arith, checked, done))
compose_total source_id snapshot_id agents skills (v2 f) checked listed distinct sl sd =
    let refs = map lift_ref f.spec.agents in
    let (rs, done) = resolve_agents_total agents f.metadata.id refs listed distinct in
    let (ss, skilled) = resolve_skills_total skills f.metadata.id f.spec.skills sl sd in
    (system_v2 source_id snapshot_id f rs ss, ground (arith, checked, done, skilled))
