-- ===== src/Run/Lease.antt =====
-- app/services/agent_run_lease.py: the lease that lets one worker at a time execute a run. Times
-- are seconds; a comparison with NULL does not hold.
pub mod Examples
pub mod Exclusive
use careerops_agent.Shared.{
  ℕ, ◌+◌, String, Bool, true, false, not, ◌&&◌, ◌||◌, Option, none, some, List, update_where,
  row_count, is_none, ltb, leb, if◌then◌else◌, ◌==◌, Eq_nat, Eq_text, Eq_option,
}
use careerops_agent.Run.Rows.{AgentRun, is_running}

abbrev pub default_lease_seconds : ℕ
default_lease_seconds = 30

-- `column <= current`
abbrev pub at_or_before : Option ℕ → ℕ → Bool
at_or_before none current = false
at_or_before (some t) current = leb t current

-- `column > current`
abbrev pub after : Option ℕ → ℕ → Bool
after none current = false
after (some t) current = ltb current t

abbrev pub can_acquire : (run_id : ℕ) (owner : String) (current : ℕ) → AgentRun → Bool
can_acquire run_id owner current r =
    r.id == run_id
    && is_running r.status
    && (is_none r.lease_owner
        || is_none r.lease_expires_at
        || at_or_before r.lease_expires_at current
        || r.lease_owner == some owner)

abbrev pub leased : (owner : String) (lease_seconds current : ℕ) → AgentRun → AgentRun
leased owner lease_seconds current r = record r {
  lease_owner = some owner;
  lease_expires_at = some (current + lease_seconds);
  lease_heartbeat_at = some current;
}

-- `none` is the `ValueError`.
unfoldable pub acquire_agent_run_lease :
    (run_id : ℕ) (owner : String) (lease_seconds current : ℕ)
    → List AgentRun
    → Option Bool × List AgentRun
acquire_agent_run_lease run_id owner lease_seconds current runs =
    if owner == "" || ltb lease_seconds 3 then (none, runs) else (
      some (row_count (can_acquire run_id owner current) runs == 1),
      update_where (can_acquire run_id owner current) (leased owner lease_seconds current) runs,
    )

abbrev pub can_renew : (run_id : ℕ) (owner : String) (current : ℕ) → AgentRun → Bool
can_renew run_id owner current r =
    r.id == run_id
    && is_running r.status
    && r.lease_owner == some owner
    && after r.lease_expires_at current

abbrev pub renewed : (lease_seconds current : ℕ) → AgentRun → AgentRun
renewed lease_seconds current r = record r {
  lease_expires_at = some (current + lease_seconds);
  lease_heartbeat_at = some current;
}

unfoldable pub renew_agent_run_lease :
    (run_id : ℕ) (owner : String) (lease_seconds current : ℕ) → List AgentRun → Bool × List AgentRun
renew_agent_run_lease run_id owner lease_seconds current runs = (
  row_count (can_renew run_id owner current) runs == 1,
  update_where (can_renew run_id owner current) (renewed lease_seconds current) runs,
)

abbrev pub can_release : (run_id : ℕ) (owner : String) → AgentRun → Bool
can_release run_id owner r = r.id == run_id && r.lease_owner == some owner

abbrev pub unleased : AgentRun → AgentRun
unleased r = record r { lease_owner = none; lease_expires_at = none; lease_heartbeat_at = none }

unfoldable pub release_agent_run_lease :
    (run_id : ℕ) (owner : String) → List AgentRun → Bool × List AgentRun
release_agent_run_lease run_id owner runs = (
  row_count (can_release run_id owner) runs == 1,
  update_where (can_release run_id owner) unleased runs,
)
