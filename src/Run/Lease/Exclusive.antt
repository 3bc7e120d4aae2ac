-- ===== src/Run/Lease/Exclusive.antt =====
-- While a lease is live no other worker can take it, extend it or give it up.
use careerops_agent.Shared.{
  ℕ, ◌+◌, ◌<◌, String, ◌≡◌, ◌≢◌, refl, ap, inl, inr, Bool, true, false, ◌||◌, none, some, List, [],
  ◌∷◌, All, update_where, row_count, ltb, arith, some_inj, ◌==◌, Eq_nat, Eq_text, Eq_option, ==_eq,
  Bool-cases, eq_iff,
}
use careerops_agent.Run.Rows.{AgentRun}
use careerops_agent.Run.Lease.{
  can_acquire, leased, acquire_agent_run_lease, can_renew, renewed, renew_agent_run_lease,
  can_release, unleased, release_agent_run_lease,
}

-- The run `i` is leased to `owner` up to `until`.
abbrev pub Held : ℕ → String → ℕ → List AgentRun → Type 0
Held i owner until =
    All (λ r. r.id ≡ i → (r.lease_owner ≡ some owner) × (r.lease_expires_at ≡ some until))

-- What a worker does with the lease of a run.
pub data Request : Type 0 where
  acquire renew : (owner : String) (lease_seconds current : ℕ) → Request
  release : (owner : String) → Request

unfoldable pub serve : ℕ → Request → List AgentRun → List AgentRun
serve i (acquire owner lease_seconds current) runs =
    (acquire_agent_run_lease i owner lease_seconds current runs).1
serve i (renew owner lease_seconds current) runs =
    (renew_agent_run_lease i owner lease_seconds current runs).1
serve i (release owner) runs = (release_agent_run_lease i owner runs).1

pub serve_all : ℕ → List Request → List AgentRun → List AgentRun
serve_all i [] runs = runs
serve_all i (q ∷ later) runs = serve_all i later (serve i q runs)

-- The request comes from another worker, while the lease is live.
abbrev pub Foreign : String → ℕ → Request → Type 0
Foreign owner until (acquire other lease_seconds current) = (other ≢ owner) × (current < until)
Foreign owner until (renew other lease_seconds current) = (other ≢ owner) × (current < until)
Foreign owner until (release other) = other ≢ owner

module _ (i : ℕ) (owner other : String) (until current : ℕ) (differ : other ≢ owner)
    (live : current < until) where
  acquire-refused :
      (r : AgentRun)
      → (r.id ≡ i → (r.lease_owner ≡ some owner) × (r.lease_expires_at ≡ some until))
      → can_acquire i other current r ≡ false
  acquire-refused r h = ground (arith, h, eq_iff owner other)

  renew-refused :
      (r : AgentRun)
      → (r.id ≡ i → (r.lease_owner ≡ some owner) × (r.lease_expires_at ≡ some until))
      → can_renew i other current r ≡ false
  renew-refused r h = ground (arith, h, eq_iff owner other)

release-refused :
    (i : ℕ) (owner other : String) (until : ℕ) (differ : other ≢ owner) (r : AgentRun)
    → (r.id ≡ i → (r.lease_owner ≡ some owner) × (r.lease_expires_at ≡ some until))
    → can_release i other r ≡ false
release-refused i owner other until differ r h = ground (arith, h, eq_iff owner other)

-- A statement whose condition no row of the table meets.
untouched :
    {P : AgentRun → Type 0} (p : AgentRun → Bool) (f : AgentRun → AgentRun) (runs : List AgentRun)
    → ((r : AgentRun) → P r → p r ≡ false)
    → All P runs
    → (update_where p f runs ≡ runs) × (row_count p runs ≡ 0)
untouched p f [] h held = (refl, refl)
untouched p f (r ∷ runs) h held =
    let (same, count) = untouched p f runs h held.1 in
    rw (h r held.0) (ap (◌∷◌ r) same, omega (arith, count))

-- Another worker that asks for a live lease with a valid request is told that it did not get it.
pub acquire-conflict :
    (i : ℕ) (owner other : String) (until lease_seconds current : ℕ) (runs : List AgentRun)
    → Held i owner until runs
    → other ≢ owner
    → current < until
    → (other == "" || ltb lease_seconds 3) ≡ false
    → acquire_agent_run_lease i other lease_seconds current runs ≡ (some false, runs)
unfolding acquire_agent_run_lease
acquire-conflict i owner other until lease_seconds current runs held differ live valid =
    let (same, count) =
      untouched (can_acquire i other current) (leased other lease_seconds current) runs
        (acquire-refused i owner other until current differ live) held in
    rw (valid, same, count)

acquire-invalid :
    (i : ℕ) (other : String) (lease_seconds current : ℕ) (runs : List AgentRun)
    → (other == "" || ltb lease_seconds 3) ≡ true
    → acquire_agent_run_lease i other lease_seconds current runs ≡ (none, runs)
unfolding acquire_agent_run_lease
acquire-invalid i other lease_seconds current runs invalid = rw invalid

-- A foreign request on a live lease changes nothing.
serve-Foreign :
    (i : ℕ) (owner : String) (until : ℕ) (q : Request) (runs : List AgentRun)
    → Foreign owner until q
    → Held i owner until runs
    → serve i q runs ≡ runs
unfolding serve renew_agent_run_lease release_agent_run_lease
serve-Foreign i owner until (acquire other lease_seconds current) runs (differ, live) held =
    elim (Bool-cases (other == "" || ltb lease_seconds 3)) [
      | inl invalid ↦ ap (λ x. x.1) (acquire-invalid i other lease_seconds current runs invalid)
      | inr valid ↦
          ap (λ x. x.1)
            (acquire-conflict i owner other until lease_seconds current runs held differ live valid)
    ]
serve-Foreign i owner until (renew other lease_seconds current) runs (differ, live) held =
    (untouched (can_renew i other current) (renewed lease_seconds current) runs
      (renew-refused i owner other until current differ live) held).0
serve-Foreign i owner until (release other) runs differ held =
    (untouched (can_release i other) unleased runs (release-refused i owner other until differ)
      held).0

-- While a worker's lease of a run is live, any sequence of requests by other workers, in any order,
-- leaves the table of runs as it is.
pub serve_all-exclusive :
    (i : ℕ) (owner : String) (until : ℕ) (requests : List Request) (runs : List AgentRun)
    → Held i owner until runs
    → All (Foreign owner until) requests
    → serve_all i requests runs ≡ runs
unfolding serve_all
serve_all-exclusive i owner until [] runs held foreign = refl
serve_all-exclusive i owner until (q ∷ later) runs held foreign =
    rw (serve-Foreign i owner until q runs foreign.0 held)
      (serve_all-exclusive i owner until later runs held foreign.1)

-- Ids of the runs differ.
abbrev pub UniqueRuns : List AgentRun → Type 0
UniqueRuns [] = Unit {0}
UniqueRuns (r ∷ runs) = All (λ s. s.id ≢ r.id) runs × UniqueRuns runs

absent-Held :
    (i : ℕ) (owner : String) (until : ℕ) (p : AgentRun → Bool) (f : AgentRun → AgentRun)
    (runs : List AgentRun)
    → ((r : AgentRun) → (f r).id ≡ r.id)
    → All (λ s. s.id ≢ i) runs
    → Held i owner until (update_where p f runs)
absent-Held i owner until p f [] keeps h = tt
absent-Held i owner until p f (r ∷ runs) keeps h =
    (λ e. ground (arith, keeps r, h.0), absent-Held i owner until p f runs keeps h.1)

absent-count :
    (i : ℕ) (owner : String) (current : ℕ) (runs : List AgentRun)
    → All (λ s. s.id ≢ i) runs
    → row_count (can_acquire i owner current) runs ≡ 0
absent-count i owner current [] h = refl
absent-count i owner current (r ∷ runs) h =
    ground (arith, h.0, absent-count i owner current runs h.1)

acquire-id :
    (i : ℕ) (owner : String) (current : ℕ) (r : AgentRun)
    → can_acquire i owner current r ≡ true
    → r.id ≡ i
acquire-id i owner current r h = ground arith

-- A won request leaves the lease with the worker.
acquired-Held :
    (i : ℕ) (owner : String) (lease_seconds current : ℕ) (runs : List AgentRun)
    → UniqueRuns runs
    → row_count (can_acquire i owner current) runs ≡ 1
    → Held i owner
        (current + lease_seconds)
        (update_where (can_acquire i owner current) (leased owner lease_seconds current) runs)
acquired-Held i owner lease_seconds current [] u h = tt
acquired-Held i owner lease_seconds current (r ∷ runs) u h =
    elim (Bool-cases (can_acquire i owner current r)) [
      | inl t ↦ rw t (
        λ _. (refl, refl),
        absent-Held i owner (current + lease_seconds) (can_acquire i owner current)
            (leased owner lease_seconds current) runs (λ s. refl)
            (rw (acquire-id i owner current r t) at (u.0)),
      )
      | inr f ↦ rw f (
        λ e. absurd (omega (arith, absent-count i owner current runs (rw e at (u.0)), rw f at h)),
        acquired-Held i owner lease_seconds current runs u.1 (omega (arith, rw f at h)),
      )
    ]

-- In a table of runs with distinct ids, a worker that is told that it got the lease of a run holds
-- it until `lease_seconds` later: no requests of other workers before then change the table.
pub acquire-exclusive :
    (i : ℕ) (owner : String) (lease_seconds current : ℕ) (runs : List AgentRun)
    (requests : List Request)
    → UniqueRuns runs
    → (acquire_agent_run_lease i owner lease_seconds current runs).0 ≡ some true
    → All (Foreign owner (current + lease_seconds)) requests
    → let after = (acquire_agent_run_lease i owner lease_seconds current runs).1 in
      Held i owner (current + lease_seconds) after × (serve_all i requests after ≡ after)
unfolding acquire_agent_run_lease
acquire-exclusive i owner lease_seconds current runs requests u won foreign =
    elim (Bool-cases (owner == "" || ltb lease_seconds 3)) [
      | inl invalid ↦ cc (rw invalid at won)
      | inr valid ↦
          let hit =
            ==_eq (row_count (can_acquire i owner current) runs) 1 (some_inj (rw valid at won)) in
          let held = acquired-Held i owner lease_seconds current runs u hit in
          rw valid
            (held, serve_all-exclusive i owner (current + lease_seconds) requests _ held foreign)
    ]
