-- ===== src/Jobs/Analytics.antt =====
-- app/services/analytics.py: how many jobs demand a skill.
pub mod Counts
use careerops_agent.Shared.{
  ℕ, zero, String, Bool, true, false, not, List, [], ◌∷◌, map, keep, length, ltb, sorted,
  text_below, if◌then◌else◌, ◌==◌, Eq_nat,
}
use careerops_agent.Jobs.Rows.{Skill, JobRequirement, JobDb}

pub record SkillDemand : Type 0 where
  pub skill_id : ℕ
  pub name : String
  pub category : String
  pub requirement_count : ℕ
  pub job_count : ℕ

-- `count(distinct(...))`
pub distinct_count : List ℕ → List ℕ
distinct_count [] = []
distinct_count (n ∷ ns) = n ∷ keep (λ m. not (m == n)) (distinct_count ns)

abbrev requirements_of : List JobRequirement → Skill → List JobRequirement
requirements_of requirements k = keep (λ q. q.skill_id == k.id) requirements

pub demand_of : List JobRequirement → Skill → SkillDemand
unfolding distinct_count
demand_of requirements k = record {
  skill_id = k.id;
  name = k.name;
  category = k.category;
  requirement_count = length (requirements_of requirements k);
  job_count = length (distinct_count (map (λ q. q.job_id) (requirements_of requirements k)));
}

-- The order of the query.
abbrev comes_first : (d e : SkillDemand) → Bool
comes_first d e =
    if d.job_count == e.job_count
    then (if d.requirement_count == e.requirement_count
        then text_below d.name e.name
        else ltb e.requirement_count d.requirement_count)
    else ltb e.job_count d.job_count

-- `skill_demand_rows`: a row for each skill that some requirement joins.
unfoldable pub skill_demand_rows : JobDb → List SkillDemand
unfolding demand_of
skill_demand_rows db =
    sorted comes_first
      (keep (λ d. ltb 0 d.requirement_count) (map (demand_of db.requirements) db.skills))
