-- ===== src/Tool/Approval/Consumed.antt =====
-- What an approval that a call consumes was, and what the table has of it afterwards.
use mathlib.Core.List.{Mem, mem-cons_self, mem-cons_of_mem}
use careerops_agent.Shared.{
  some_inj, Bool, ℕ, ◌<◌, ◌≡◌, refl, inl, inr, true, false, Option-cases, eq_iff, first_sound,
  subst, sym, none, some, List, [], ◌∷◌, update_where, first, Bool-cases, arith, Eq_nat, Eq_text,
  Eq_option, if◌then◌else◌,
}
use careerops_agent.Tool.Rows.{ToolCallRecord, ToolApproval, Db}
use careerops_agent.Tool.Approval.{
  matches, claimable, consumed, claim, claim_found, consume_matching_tool_approval,
}

matches-fields :
    (r : ToolCallRecord) (now : ℕ) (a : ToolApproval)
    → matches r now a ≡ true
    → (a.task_id ≡ r.task_id)
      × (a.tool_call_id ≡ r.id)
      × (a.tool_name ≡ r.tool_name)
      × (a.idempotency_key ≡ r.idempotency_key)
      × (a.request_fingerprint ≡ r.request_fingerprint)
      × (a.active_slot ≡ some r.id)
      × (a.consumed_at ≡ none)
      × (a.revoked_at ≡ none)
      × (now < a.expires_at)
matches-fields r now a h = ground (
  arith,
  eq_iff a.tool_name r.tool_name,
  eq_iff a.idempotency_key r.idempotency_key,
  eq_iff a.request_fingerprint r.request_fingerprint,
)

first_used :
    (q : ToolApproval → Bool) (f : ToolApproval → ToolApproval) (x : ToolApproval)
    (rows : List ToolApproval)
    → q x ≡ true
    → Mem (f x) (update_where q f (x ∷ rows))
first_used q f x rows t = rw t mem-cons_self

-- The row that a `select` found is in the table, and its rewriting is in the table after an
-- `update` whose conditions it meets.
found_used :
    (p q : ToolApproval → Bool) (f : ToolApproval → ToolApproval) (rows : List ToolApproval)
    {b : ToolApproval}
    → first p rows ≡ some b
    → q b ≡ true
    → Mem b rows × Mem (f b) (update_where q f rows)
found_used p q f [] h t = cc
found_used p q f (x ∷ rows) {b} h t = elim (Bool-cases (p x)) [
  | inl u ↦
      let same = some_inj (rw u at h) in
      (
        subst (λ y. Mem y (x ∷ rows)) same mem-cons_self,
        subst (λ y. Mem (f y) (update_where q f (x ∷ rows))) same
            (first_used q f x rows (subst (λ y. q y ≡ true) (sym same) t)),
      )
  | inr v ↦
      let (before, after) = found_used p q f rows (rw v at h) t in
      (mem-cons_of_mem x before, mem-cons_of_mem (if q x then f x else x) after)
]

-- An approval `a` that a call uses: the row of the table from which it comes was granted for that
-- call (the same task, call, tool, idempotency key and request fingerprint), held the call's slot,
-- and was neither consumed nor revoked nor expired; the table has it out of its slot from then on,
-- and marked with the time of its use.
abbrev pub IsConsumed :
    ToolCallRecord → (now : ℕ) (before after : List ToolApproval) → ToolApproval → Type 0
IsConsumed r now before after a =
    (b : ToolApproval) × Mem b before
    × (b.task_id ≡ r.task_id)
    × (b.tool_call_id ≡ r.id)
    × (b.tool_name ≡ r.tool_name)
    × (b.idempotency_key ≡ r.idempotency_key)
    × (b.request_fingerprint ≡ r.request_fingerprint)
    × (b.active_slot ≡ some r.id)
    × (b.consumed_at ≡ none)
    × (b.revoked_at ≡ none)
    × (now < b.expires_at)
    × (a ≡ record b { active_slot = none; consumed_at = some now })
    × Mem a after

claimable-live :
    (i : ℕ) (r : ToolCallRecord) (now : ℕ) (b : ToolApproval)
    → b.id ≡ i
    → b.active_slot ≡ some r.id
    → b.consumed_at ≡ none
    → b.revoked_at ≡ none
    → now < b.expires_at
    → claimable i r now b ≡ true
claimable-live i r now b same slot unused kept later =
    rw (same, slot, unused, kept) (ground (arith, later))

used_by : (hit : Bool) {x a : ToolApproval} → (if hit then some x else none) ≡ some a → x ≡ a
used_by true h = some_inj h
used_by false h = cc

-- An approval that a call consumes was live and granted for that call, and is stored as used.
pub consume_sound :
    (r : ToolCallRecord) (db : Db) {a : ToolApproval}
    → (consume_matching_tool_approval r db).0 ≡ some a
    → IsConsumed r db.outside.clock db.approvals (consume_matching_tool_approval r db).1.approvals a
unfolding consume_matching_tool_approval claim_found claim
consume_sound r db h = elim (Option-cases (first (matches r db.outside.clock) db.approvals)) [
  | inl e ↦ cc (rw e at h)
  | inr (b, e) ↦
      let now = db.outside.clock in
      let (task, call, tool, key, print, slot, unused, kept, later) =
        matches-fields r now b (first_sound _ db.approvals e) in
      let same = used_by _ (rw e at h) in
      let (before, after) =
        found_used (matches r now) (claimable b.id r now) (consumed now) db.approvals e
          (claimable-live b.id r now b refl slot unused kept later) in
      rw (e, sym same)
        (b, before, task, call, tool, key, print, slot, unused, kept, later, refl, after)
]
