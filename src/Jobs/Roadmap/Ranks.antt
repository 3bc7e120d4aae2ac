-- ===== src/Jobs/Roadmap/Ranks.antt =====
-- app/services/roadmap.py: the order of the learning tasks.
use careerops_agent.Shared.{
  ℕ, suc, ◌+◌, ◌*◌, ◌≡◌, refl, ap, List, [], ◌∷◌, ◌++◌, length, take, length-append, arith,
}
use careerops_agent.Jobs.Analytics.{SkillDemand}
use careerops_agent.Jobs.Roadmap.{
  RoadmapItem, LearningTask, roadmap_from, build_learning_roadmap, project_task, evidence_task,
  extend_tasks, build_learning_tasks,
}

-- The ranks count the tasks from `n + 1` on.
abbrev pub AreRanked : ℕ → List LearningTask → Type 0
AreRanked n [] = Unit
AreRanked n (t ∷ ts) = (t.rank ≡ suc n) × AreRanked (suc n) ts

AreRanked-append :
    (n : ℕ) (tasks : List LearningTask) (t u : LearningTask)
    → AreRanked n tasks
    → t.rank ≡ n + length tasks + 1
    → u.rank ≡ n + length tasks + 2
    → AreRanked n (tasks ++ (t ∷ u ∷ []))
AreRanked-append n [] t u r first second = (omega arith, (omega arith, tt))
AreRanked-append n (x ∷ tasks) t u (r, rs) first second =
    (r, AreRanked-append (suc n) tasks t u rs (omega arith) (omega arith))

extend_tasks-AreRanked :
    (tasks : List LearningTask) (items : List RoadmapItem)
    → AreRanked 0 tasks
    → AreRanked 0 (extend_tasks tasks items)
      × (length (extend_tasks tasks items) ≡ length tasks + 2 * length items)
unfolding extend_tasks project_task evidence_task
extend_tasks-AreRanked tasks [] r = (r, omega arith)
extend_tasks-AreRanked tasks (item ∷ items) r =
    let t = project_task (length tasks + 1) item in
    let u = evidence_task (length tasks + 2) item in
    let ranked = AreRanked-append 0 tasks t u r (omega arith) (omega arith) in
    let (more, counted) = extend_tasks-AreRanked (tasks ++ (t ∷ u ∷ [])) items ranked in
    (more, omega (arith, counted, length-append tasks (t ∷ u ∷ [])))

length-roadmap_from :
    (rank : ℕ) (demand : List SkillDemand) → length (roadmap_from rank demand) ≡ length demand
unfolding roadmap_from
length-roadmap_from rank [] = refl
length-roadmap_from rank (d ∷ demand) = ap suc (length-roadmap_from (suc rank) demand)

-- The learning tasks are ranked from 1 on without a gap, and there are two for each skill of the
-- roadmap.
pub build_learning_tasks-AreRanked :
    (demand : List SkillDemand) (limit : ℕ)
    → AreRanked 0 (build_learning_tasks demand limit)
      × (length (build_learning_tasks demand limit) ≡ 2 * length (take limit demand))
unfolding build_learning_tasks build_learning_roadmap
build_learning_tasks-AreRanked demand limit =
    let (ranked, counted) = extend_tasks-AreRanked [] (roadmap_from 1 (take limit demand)) tt in
    (ranked, omega (arith, counted, length-roadmap_from 1 (take limit demand)))
