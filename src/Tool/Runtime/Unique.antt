-- ===== src/Tool/Runtime/Unique.antt =====
-- The keys of the table of calls under `run_tool_call`.
use careerops_agent.Shared.{
  ◌+◌, length, ℕ, suc, String, ◌≡◌, refl, ap, ◌∙◌, Bool, true, ◌&&◌, Option, none, some, List, [],
  ◌∷◌, ◌++◌, arith, Bool-cases, inl, inr, ◌==◌, Eq_text, Eq_nat,
}
use careerops_agent.Tool.Rows.{
  Json, IdempotencyMode, no_key, operation_key, AgentTask, ToolCallRecord, ToolAuthorization,
  ToolReplayFixture, Message, TraceStatus, Db, authorized, executing, executed,
}
use careerops_agent.Tool.Tests.{
  is_execution_pending, is_allowed, is_internal_write, is_requires_approval, save, next_trace_id,
}
use careerops_agent.Tool.Registry.{ToolDefinition, get_tool}
use careerops_agent.Tool.Authorization.{authorize_tool_call}
use careerops_agent.Tool.Authorization.Keeps.{authorize-SameCalls}
use careerops_agent.Tool.Execution.{
  Platform, RecordLinker, capture_tool_before_state, trace_and_save, run_tool, run_executing,
  execute_authorized_record, executed_summary, with_execution,
}
use careerops_agent.Tool.Keys.{
  heads, HasRow, IsKeyed, heads-save, heads-update, first-HasRow, IsKeyed-append,
}
use careerops_agent.Tool.Runtime.{
  request_fingerprint, resolve_key, keyed, find_tool_call, link_record, replay_authorized,
  replay_with, replay_or_conflict, after_authorization, proposed_record, insert_or_replay,
  lookup_or_insert, run_defined, run_tool_call,
}

abbrev calls : Db → List ToolCallRecord
calls db = db.tool_calls

capture-calls :
    (on_file : Bool) (r : ToolCallRecord) (db : Db)
    → calls (capture_tool_before_state on_file r db).1 ≡ calls db
unfolding capture_tool_before_state
capture-calls on_file r db = elim (Bool-cases (is_internal_write r.effect && on_file)) [
  | inl t ↦ rw t
  | inr f ↦ rw f
]

trace-heads :
    (status : TraceStatus) (summary : Message) (a : Option ToolAuthorization)
    (f : Option ToolReplayFixture) (r : ToolCallRecord) (task : ℕ) (db : Db)
    → HasRow r (heads (calls db))
    → heads (calls (trace_and_save status summary a f r task db).1) ≡ heads (calls db)
unfolding trace_and_save
trace-heads status summary a f r task db h =
    heads-save (record r { trace_id = some (next_trace_id db) }) db h

module _ (p : Platform) (task : AgentTask) where
  executing-heads :
      (d : ToolDefinition) (r : ToolCallRecord) (db : Db)
      → HasRow r (heads (calls db))
      → heads (calls (run_executing p task d r db).2) ≡ heads (calls db)
  unfolding run_executing run_tool
  executing-heads d r db h = ap heads (capture-calls p.on_file r (save r db)) ∙ heads-save r db h

  execute-heads :
      (r : ToolCallRecord) (d : ToolDefinition) (a : ToolAuthorization) (db : Db)
      → HasRow r (heads (calls db))
      → heads (calls (execute_authorized_record p task r d a db).1) ≡ heads (calls db)
  unfolding execute_authorized_record
  execute-heads r d a db h =
      let authorized_r = record r { status = authorized; error = none } in
      let executing_r = record authorized_r {
        status = executing;
        attempt_count = r.attempt_count + 1;
        started_at = some db.outside.clock;
      } in
      let db' = save authorized_r db in
      let saved = heads-save authorized_r db h in
      let ran = executing-heads d executing_r db' (rw saved h) in
      let (execution, fixture, db'') = run_executing p task d executing_r db' in
      trace-heads (executed execution.status) (executed_summary execution execution.status) (some a)
        fixture (with_execution executing_r execution db''.outside.clock) task.id db''
        (rw (ran, saved) h)
      ∙ ran
      ∙ saved

  replayed-heads :
      (existing : ToolCallRecord) (d : ToolDefinition) (a : ToolAuthorization) (db : Db)
      → HasRow existing (heads (calls db))
      → heads (calls (replay_authorized p task existing d a db).1) ≡ heads (calls db)
  unfolding replay_authorized
  replayed-heads existing d a db h = elim (Bool-cases (is_allowed a.decision)) [
    | inr refuses ↦ rw refuses
    | inl ok ↦ elim (Bool-cases (is_execution_pending existing.status)) [
      | inl pending ↦ rw (ok, pending) (execute-heads existing d a db h)
      | inr settled ↦
          rw (ok, settled)
            (heads-save (record existing { replay_count = existing.replay_count + 1 }) db h)
    ]
  ]

  replay_with-heads :
      (found : Option ToolDefinition) (existing : ToolCallRecord) (db : Db)
      → HasRow existing (heads (calls db))
      → heads (calls (replay_with p found task existing db).1) ≡ heads (calls db)
  unfolding replay_with
  replay_with-heads none existing db h = refl
  replay_with-heads (some d) existing db h =
      let pending = is_execution_pending existing.status in
      let (a, db') = authorize_tool_call p.registry task existing d pending db in
      let same = ap heads (authorize-SameCalls p.registry task existing d pending db).tool_calls in
      replayed-heads existing d a db' (rw same h) ∙ same

  conflict-heads :
      (existing : ToolCallRecord) (fingerprint : String) (db : Db)
      → HasRow existing (heads (calls db))
      → heads (calls (replay_or_conflict p task existing fingerprint db).1) ≡ heads (calls db)
  unfolding replay_or_conflict
  conflict-heads existing fingerprint db h =
      elim (Bool-cases (existing.request_fingerprint == fingerprint)) [
        | inl same ↦
            rw same (replay_with-heads (get_tool p.registry existing.tool_name) existing db h)
        | inr other ↦ rw other
      ]

  after-heads :
      (r : ToolCallRecord) (d : ToolDefinition) (a : ToolAuthorization) (db : Db)
      → HasRow r (heads (calls db))
      → heads (calls (after_authorization p task r d a db).1) ≡ heads (calls db)
  unfolding after_authorization
  after-heads r d a db h = elim (Bool-cases (is_allowed a.decision)) [
    | inl ok ↦ rw ok (execute-heads r d a db h)
    | inr refuses ↦ elim (Bool-cases (is_requires_approval a.decision)) [
      | inl asks ↦ rw (refuses, asks) (heads-update r _ (calls db) refl h)
      | inr denies ↦ rw (refuses, denies) (heads-update r _ (calls db) refl h)
    ]
  ]

link-calls :
    (p : Platform) (linker : Option RecordLinker) (r : ToolCallRecord) (db : Db)
    → calls (link_record p linker r db) ≡ calls db
unfolding link_record
link-calls p none r db = refl
link-calls p (some linker) r db = refl

keyed-calls :
    (p : Platform) (requested : Option String) (db : Db) → calls (keyed p requested db).1 ≡ calls db
unfolding keyed
keyed-calls p none db = refl
keyed-calls p (some key) db = ground arith

resolve-calls :
    (p : Platform) (mode : IdempotencyMode) (requested : Option String) (db : Db)
    → calls (resolve_key p mode requested db).1 ≡ calls db
unfolding resolve_key
resolve-calls p no_key requested db = refl
resolve-calls p operation_key requested db = keyed-calls p requested db

module _ (p : Platform) (task : AgentTask) (d : ToolDefinition) (linker : Option RecordLinker) where
  known-IsKeyed :
      (existing : ToolCallRecord) (fingerprint : String) (owner : ℕ) (key : String) (db : Db)
      → IsKeyed db
      → find_tool_call p db owner key ≡ some existing
      → IsKeyed
          (replay_or_conflict p task existing fingerprint (link_record p linker existing db)).1
  unfolding find_tool_call
  known-IsKeyed existing fingerprint owner key db u e =
      let linked = ap heads (link-calls p linker existing db) in
      let row = first-HasRow _ 0 db.tool_calls u.0 e in
      rw
        (conflict-heads p task existing fingerprint (link_record p linker existing db)
            (rw linked row)
          ∙ linked)
        u

  flushed-IsKeyed :
      (found : Option ToolCallRecord) (r : ToolCallRecord) (db : Db)
      → IsKeyed db
      → r.id ≡ suc (length db.tool_calls)
      → find_tool_call p db r.task_id r.idempotency_key ≡ found
      → IsKeyed (insert_or_replay p found task d linker r db).1
  unfolding insert_or_replay find_tool_call
  flushed-IsKeyed (some existing) r db u e f =
      known-IsKeyed existing r.request_fingerprint r.task_id r.idempotency_key db u f
  flushed-IsKeyed none r db u e f =
      let (in_order, row) = IsKeyed-append db r u e f in
      let added = record db { tool_calls = db.tool_calls ++ r ∷ [] } in
      let linked = link_record p linker r added in
      let (a, db') = authorize_tool_call p.registry task r d true linked in
      let same =
        ap heads (authorize-SameCalls p.registry task r d true linked).tool_calls
        ∙ ap heads (link-calls p linker r added) in
      rw (after-heads p task r d a db' (rw same row) ∙ same) in_order

module _ (p : Platform) (others : Db → Db) (keeps : (x : Db) → IsKeyed x → IsKeyed (others x))
    (task : AgentTask) (arguments : Json) (step : Option ℕ) (linker : Option RecordLinker) where
  looked_up-IsKeyed :
      (found : Option ToolCallRecord) (d : ToolDefinition) (key fingerprint : String) (db : Db)
      → IsKeyed db
      → find_tool_call p db task.id key ≡ found
      → IsKeyed (lookup_or_insert p found others task d arguments key fingerprint step linker db).1
  unfolding lookup_or_insert proposed_record
  looked_up-IsKeyed (some existing) d key fingerprint db u e =
      known-IsKeyed p task d linker existing fingerprint task.id key db u e
  looked_up-IsKeyed none d key fingerprint db u e =
      flushed-IsKeyed p task d linker (find_tool_call p (others db) task.id key)
        (proposed_record p task d arguments key fingerprint step (others db)) (others db)
        (keeps db u) refl refl

  defined-IsKeyed :
      (found : Option ToolDefinition) (fingerprint : String) (requested : Option String) (db : Db)
      → IsKeyed db
      → IsKeyed (run_defined p found others task arguments fingerprint requested step linker db).1
  unfolding run_defined
  defined-IsKeyed none fingerprint requested db u = u
  defined-IsKeyed (some d) fingerprint requested db u =
      let (key, db') = resolve_key p d.idempotency_mode requested db in
      let drawn = ap heads (resolve-calls p d.idempotency_mode requested db) in
      looked_up-IsKeyed (find_tool_call p db' task.id key) d key fingerprint db' (rw drawn u) refl

-- A tool call keeps the primary keys in order and the pairs of task and idempotency key distinct,
-- on every path, whatever other sessions commit between the lookup of the key and the flush of the
-- new row, if they keep them too.
pub run_tool_call-IsKeyed :
    (p : Platform) (others : Db → Db) (task : AgentTask) (name : String) (arguments : Json)
    (requested : Option String) (step : Option ℕ) (linker : Option RecordLinker) (db : Db)
    → ((x : Db) → IsKeyed x → IsKeyed (others x))
    → IsKeyed db
    → IsKeyed (run_tool_call p others task name arguments requested step linker db).1
unfolding run_tool_call
run_tool_call-IsKeyed p others task name arguments requested step linker db keeps u =
    defined-IsKeyed p others keeps task arguments step linker (get_tool p.registry name)
      (request_fingerprint p name arguments step) requested db u
