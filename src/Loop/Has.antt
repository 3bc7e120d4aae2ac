-- ===== src/Loop/Has.antt =====
-- app/services/agent_loop.py: a run in the table, its limit and its end.
use careerops_agent.Shared.{
  ℕ, ◌≤◌, ◌≡◌, ◌∙◌, false, some, List, [], ◌∷◌, first, update_where, arith, Bool-cases, inl, inr,
  ◌==◌, Eq_nat, first_sound, ==_eq,
}
use careerops_agent.Run.Rows.{AgentRun, is_running}
use careerops_agent.Loop.Store.{Store, get_run, put_run}

-- The run is there, with these columns.
abbrev pub Has : (run_id : ℕ) → Store → AgentRun → Type 0
Has run_id s r = get_run s run_id ≡ some r

-- The run is there, with its limit, within which its steps are.
abbrev pub Within : (run_id limit : ℕ) → Store → Type 0
Within run_id limit s =
    (r : AgentRun) × Has run_id s r × (r.max_steps ≡ limit) × (r.step_count ≤ limit)

-- And it has ended.
abbrev pub Ended : (run_id limit : ℕ) → Store → Type 0
Ended run_id limit s =
    (r : AgentRun) × Has run_id s r
    × (r.max_steps ≡ limit)
    × (r.step_count ≤ limit)
    × (is_running r.status ≡ false)

-- Writing a run that was read back: it is read next.
get_run-put :
    (runs : List AgentRun) (run_id : ℕ) (r r' : AgentRun)
    → first (λ z. z.id == run_id) runs ≡ some r
    → r'.id ≡ run_id
    → first (λ z. z.id == run_id) (update_where (λ z. z.id == r'.id) (λ _. r') runs) ≡ some r'
get_run-put [] run_id r r' h e = cc
get_run-put (z ∷ runs) run_id r r' h e = elim (Bool-cases (z.id == run_id)) [
  | inl t ↦ ground (arith, t, e)
  | inr f ↦ ground (arith, f, e, get_run-put runs run_id r r' (rw f at h) e)
]

pub put_run-Has :
    (s : Store) (run_id : ℕ) (r r' : AgentRun)
    → Has run_id s r
    → r'.id ≡ r.id
    → Has run_id (put_run r' s) r'
put_run-Has s run_id r r' h e =
    get_run-put s.runs run_id r r' h (e ∙ ==_eq r.id run_id (first_sound _ s.runs h))
