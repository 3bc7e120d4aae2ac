-- ===== src/Run/Worker/Examples.antt =====
-- A failure reported too late.
use careerops_agent.Shared.{◌≡◌, refl, [], ◌∷◌, arith, eq_iff}
use careerops_agent.Run.Worker.{record_failure, schedule_startup_recovery, last_activity_at}
use careerops_agent.Run.Worker.Lost.{record_failure-Held}
use careerops_agent.Run.Lease.Examples.{held_run}

record_failure-Held_example :
    record_failure 110 1 "w2" "timeout" (held_run ∷ [], []) ≡ (held_run ∷ [], [])
record_failure-Held_example =
    record_failure-Held 110 1 "w1" "w2" "timeout" 130 (held_run ∷ []) [] ((λ e. (refl, refl)), tt)
      (λ e. ground (arith, eq_iff "w2" "w1"))

stale_run_submitted : schedule_startup_recovery 110 60 [] (held_run ∷ []) ≡ 1 ∷ []
unfolding schedule_startup_recovery last_activity_at
stale_run_submitted = refl
