-- ===== src/Run/Worker/Lost.antt =====
-- A worker that lost the lease of its run.
use careerops_agent.Shared.{
  ℕ, String, ◌≡◌, ◌≢◌, refl, true, not, ◌||◌, some, List, [], ◌∷◌, first, Bool-cases, Option-cases,
  inl, inr, arith, eq_iff, some_inj, subst, ◌==◌, Eq_nat, Eq_text, Eq_option, ==_eq,
}
use careerops_agent.Run.Rows.{AgentRun, is_running}
use careerops_agent.Run.Lease.Exclusive.{Held}
use careerops_agent.Run.Worker.{FailureTrace, fail_found, record_failure}

first-Held :
    (i : ℕ) (owner : String) (until : ℕ) (runs : List AgentRun) {r : AgentRun}
    → Held i owner until runs
    → first (λ s. s.id == i) runs ≡ some r
    → r.lease_owner ≡ some owner
first-Held i owner until [] held h = cc
first-Held i owner until (x ∷ runs) held h = elim (Bool-cases (x.id == i)) [
  | inl t ↦
      subst (λ y. y.lease_owner ≡ some owner) (some_inj (rw t at h)) (held.0 (==_eq x.id i t)).0
  | inr f ↦ first-Held i owner until runs held.1 (rw f at h)
]

not_owner :
    (r : AgentRun) (owner other : String)
    → r.lease_owner ≡ some owner
    → other ≢ owner
    → (not (is_running r.status) || not (r.lease_owner == some other)) ≡ true
not_owner r owner other h differ = ground (arith, h, eq_iff owner other)

-- A worker that reports a failure after another worker took over the lease of the run changes
-- nothing.
pub record_failure-Held :
    (now i : ℕ) (owner other reason : String) (until : ℕ) (runs : List AgentRun)
    (traces : List FailureTrace)
    → Held i owner until runs
    → other ≢ owner
    → record_failure now i other reason (runs, traces) ≡ (runs, traces)
unfolding record_failure fail_found
record_failure-Held now i owner other reason until runs traces held differ =
    elim (Option-cases (first (λ r. r.id == i) runs)) [
      | inl e ↦ rw e refl
      | inr (r, e) ↦
          rw (e, not_owner r owner other (first-Held i owner until runs held e) differ) refl
    ]
