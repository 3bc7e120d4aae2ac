-- ===== src/Loop/Request/Kept.antt =====
-- app/services/agent_loop.py: building a request leaves the runs alone.
use careerops_agent.Shared.{ℕ, ◌≡◌, refl, true, false, Option, none, some, Bool-cases, inl, inr}
use careerops_agent.Context.Task.{PlannedTask}
use careerops_agent.Run.Rows.{AgentRun, AgentModelRequest, is_running}
use careerops_agent.Loop.Model.{Result, ok, raised}
use careerops_agent.Loop.Store.{Store, Engine, get_run, get_task}
use careerops_agent.Loop.Request.{maybe, build_for, build_found, build_request}

-- The runs are as before, and without a request the run has ended.
abbrev pub Kept : Store → AgentRun → Result (Option AgentModelRequest) × Store → Type 0
Kept s r (raised x, s') = s'.runs ≡ s.runs
Kept s r (ok none, s') = (s'.runs ≡ s.runs) × (is_running r.status ≡ false)
Kept s r (ok (some request), s') = (s'.runs ≡ s.runs) × (is_running r.status ≡ true)

module _ (e : Engine) (s : Store) (r : AgentRun) where
  maybe-Kept :
      (request : Result AgentModelRequest) (s' : Store)
      → s'.runs ≡ s.runs
      → is_running r.status ≡ true
      → Kept s r (maybe request, s')
  maybe-Kept (raised x) s' same t = same
  maybe-Kept (ok request) s' same t = (same, t)

  build_for-runs : (task : Option PlannedTask) → (build_for e s r task).1.runs ≡ s.runs
  unfolding build_for
  build_for-runs none = refl
  build_for-runs (some task) = refl

  build_some-Kept : Kept s r (build_found e s (some r))
  unfolding build_found
  build_some-Kept = elim (Bool-cases (is_running r.status)) [
    | inl t ↦ rw t (
        maybe-Kept (build_for e s r (get_task s r.task_id)).0
          (build_for e s r (get_task s r.task_id)).1 (build_for-runs (get_task s r.task_id)) t)
    | inr f ↦ rw f (refl, f)
  ]

  pub build_request-Kept :
      (run_id : ℕ) → get_run s run_id ≡ some r → Kept s r (build_request e s run_id)
  unfolding build_request
  build_request-Kept run_id has = rw has build_some-Kept
