-- ===== src/Jobs/Analytics/Counts.antt =====
-- app/services/analytics.py: the counts of a row.
use careerops_agent.Shared.{
  ℕ, ◌≤◌, List, [], ◌∷◌, map, keep, length, ltb, ltb→lt, length-keep-le, length-map, All,
  sorted-All, keep-All, keep_sound, All-both, All-weaken, arith, not, ◌==◌, Eq_nat,
}
use careerops_agent.Jobs.Rows.{Skill, JobRequirement, JobDb}
use careerops_agent.Jobs.Analytics.{
  SkillDemand, distinct_count, demand_of, skill_demand_rows, comes_first, requirements_of,
}

distinct_count-le : (ns : List ℕ) → length (distinct_count ns) ≤ length ns
unfolding distinct_count
distinct_count-le [] = omega arith
distinct_count-le (n ∷ ns) =
    omega (arith, distinct_count-le ns, length-keep-le (λ m. not (m == n)) (distinct_count ns))

distinct_count-positive : (ns : List ℕ) → 1 ≤ length ns → 1 ≤ length (distinct_count ns)
unfolding distinct_count
distinct_count-positive [] h = omega (arith, h)
distinct_count-positive (n ∷ ns) h = omega arith

-- A demanded skill has a job, and no more jobs than requirements.
abbrev pub IsDemanded : SkillDemand → Type 0
IsDemanded d = (1 ≤ d.job_count) × (d.job_count ≤ d.requirement_count)

demand_of-IsDemanded :
    (requirements : List JobRequirement) (k : Skill)
    → 1 ≤ (demand_of requirements k).requirement_count
    → IsDemanded (demand_of requirements k)
unfolding demand_of
demand_of-IsDemanded requirements k h =
    let jobs = map (λ q. q.job_id) (requirements_of requirements k) in
    let counted = length-map (λ q. q.job_id) (requirements_of requirements k) in
    (
      distinct_count-positive jobs (omega (arith, h, counted)),
      omega (arith, distinct_count-le jobs, counted),
    )

demands :
    (requirements : List JobRequirement) (skills : List Skill)
    → All (λ d. 1 ≤ d.requirement_count → IsDemanded d) (map (demand_of requirements) skills)
demands requirements [] = tt
demands requirements (k ∷ skills) =
    (demand_of-IsDemanded requirements k, demands requirements skills)

-- Every row of the demand has at least one job, and no more jobs than requirements.
pub skill_demand_rows-IsDemanded : (db : JobDb) → All IsDemanded (skill_demand_rows db)
unfolding skill_demand_rows
skill_demand_rows-IsDemanded db =
    let rows = map (demand_of db.requirements) db.skills in
    let demanded = keep (λ d. ltb 0 d.requirement_count) rows in
    sorted-All IsDemanded comes_first demanded (
      All-weaken _ IsDemanded (λ d (h, positive). h (ltb→lt 0 d.requirement_count positive))
        demanded
        (All-both _ _ demanded
          (keep-All _ (λ d. ltb 0 d.requirement_count) rows (demands db.requirements db.skills))
          (keep_sound (λ d. ltb 0 d.requirement_count) rows)))
