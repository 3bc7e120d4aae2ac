-- ===== src/Loop/Resume/Ends.antt =====
-- app/services/agent_run_recovery.py: a run that goes on ends.
use careerops_agent.Shared.{
  ℕ, ◌≤◌, ◌≡◌, refl, sym, ◌∙◌, false, String, Option, none, some, List, [], ◌∷◌, subst, first_sound,
  ==_eq, ◌==◌, Eq_nat,
}
use careerops_agent.Run.Rows.{AgentRun, RunStatus, is_running}
use careerops_agent.Loop.Model.{Result, ok, raised}
use careerops_agent.Loop.Store.{Store, Engine}
use careerops_agent.Loop.Has.{Has, Ended, put_run-Has}
use careerops_agent.Loop.Engine.Ends.{run_engine-Ended}
use careerops_agent.Loop.Workflow.{AgentWorkflowState, Node, Snapshot}
use careerops_agent.Loop.Workflow.Ends.{continue_from-ReturnsEnded}
use careerops_agent.Loop.Resume.{
  AgentRunRecoveryDecision, Recovered, mark_run_for_review, finished_decision, done_of, resume_from,
  resume_snapshot, resume_outer_workflow, after_outer, after_engine, resume,
}

-- Without an exception, the decision says how the run has ended.
abbrev pub Fine : (run_id : ℕ) → Result AgentRunRecoveryDecision × Store → Type 0
Fine run_id (raised x, s) = Unit
Fine run_id (ok d, s) =
    (r : AgentRun) × Has run_id s r × (is_running r.status ≡ false) × (d.status ≡ r.status)

abbrev pub Settles : (run_id : ℕ) → Recovered → Type 0
Settles run_id recovered =
    (done : Result AgentRunRecoveryDecision × Store) × (recovered ≡ some done) × Fine run_id done

-- The snapshots of a run are those of its own thread.
abbrev pub IsOwn : (saved : AgentRun → Option Snapshot) → Type 0
IsOwn saved =
    (r : AgentRun) (snapshot : Snapshot) → saved r ≡ some snapshot → snapshot.values.run_id ≡ r.id

pub mark_run_for_review-Settles :
    (s : Store) (run_id : ℕ) (run : AgentRun) (previous : RunStatus) (reason : String)
    → Has run_id s run
    → Settles run_id (mark_run_for_review s run previous reason)
unfolding mark_run_for_review
mark_run_for_review-Settles s run_id run previous reason has =
    (_, refl, (_, put_run-Has s run_id run _ has refl, refl, refl))

-- The outer workflow returns, with the run ended.
abbrev OuterEnded : (run_id limit : ℕ) → Option (Result (Unit {0}) × Store) → Type 0
OuterEnded run_id limit o =
    (done : Result (Unit {0}) × Store) × (o ≡ some done) × Ended run_id limit done.1

module _ (saved : AgentRun → Option Snapshot) (e : Engine) (run_id limit : ℕ) where
  done_of-OuterEnded :
      (done : Result AgentWorkflowState × Store)
      → Ended run_id limit done.1
      → OuterEnded run_id limit (done_of saved e (some done))
  done_of-OuterEnded (raised x, s) ended = (_, refl, ended)
  done_of-OuterEnded (ok w, s) ended = (_, refl, ended)

  resume_from-OuterEnded :
      (error : Option String) (node : Node) (w : AgentWorkflowState) (s : Store)
      → w.run_id ≡ run_id
      → Ended run_id limit s
      → OuterEnded run_id limit (resume_from saved e error node w s)
  unfolding resume_from
  resume_from-OuterEnded (some x) node w s own ended = (_, refl, ended)
  resume_from-OuterEnded none node w s own ended =
      let (done, returns, after) =
        continue_from-ReturnsEnded e limit node w s
          (subst (λ i. Ended i limit s) (sym own) ended) in
      rw returns (done_of-OuterEnded done (subst (λ i. Ended i limit done.1) own after))

  resume_next-OuterEnded :
      (next : List Node) (w : AgentWorkflowState) (s : Store)
      → w.run_id ≡ run_id
      → Ended run_id limit s
      → OuterEnded run_id limit
          (resume_snapshot saved e (some (record { values = w; next = next })) s)
  unfolding resume_snapshot
  resume_next-OuterEnded [] w s own ended = (_, refl, ended)
  resume_next-OuterEnded (n ∷ next) w s own ended = resume_from-OuterEnded _ n w s own ended

  resume_snapshot-OuterEnded :
      (o : Option Snapshot) (r : AgentRun) (s : Store)
      → saved r ≡ o
      → IsOwn saved
      → r.id ≡ run_id
      → Ended run_id limit s
      → OuterEnded run_id limit (resume_snapshot saved e o s)
  unfolding resume_snapshot
  resume_snapshot-OuterEnded none r s found own same ended = (_, refl, ended)
  resume_snapshot-OuterEnded (some snapshot) r s found own same ended =
      resume_next-OuterEnded snapshot.next snapshot.values s (own r snapshot found ∙ same) ended

  after_outer-Settles :
      (previous : RunStatus) (action reason : String) (done : Result (Unit {0}) × Store)
      → Ended run_id limit done.1
      → Settles run_id (after_outer saved e run_id previous action reason (some done))
  unfolding after_outer finished_decision
  after_outer-Settles previous action reason (raised x, s) ended = (_, refl, tt)
  after_outer-Settles previous action reason (ok u, s) (r, has, m, c, over) =
      rw has (_, refl, (r, has, over, refl))

  after_engine-Settles :
      (previous : RunStatus) (action reason : String) (s : Store)
      → IsOwn saved
      → Ended run_id limit s
      → Settles run_id (after_engine saved e run_id previous action reason (some s))
  unfolding after_engine resume_outer_workflow
  after_engine-Settles previous action reason s own (r, has, m, c, over) =
      let (done, returns, after) =
        resume_snapshot-OuterEnded (saved r) r s refl own
          (==_eq r.id run_id (first_sound (λ z. z.id == run_id) s.runs has)) (r, has, m, c, over) in
      rw (has, returns) (after_outer-Settles previous action reason done after)

module _ (saved : AgentRun → Option Snapshot) (own : IsOwn saved) (e : Engine) where
  pub resume-Settles :
      (s : Store) (run_id : ℕ) (r : AgentRun) (previous : RunStatus) (action reason : String)
      → Has run_id s r
      → r.step_count ≤ r.max_steps
      → Settles run_id (resume saved e s run_id previous action reason)
  unfolding resume
  resume-Settles s run_id r previous action reason has fits =
      let (s', returns, ended) = run_engine-Ended e run_id r fits s has in
      rw returns
        (after_engine-Settles saved e run_id r.max_steps previous action reason s' own ended)
