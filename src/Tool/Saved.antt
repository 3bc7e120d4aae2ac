-- ===== src/Tool/Saved.antt =====
-- What a commit of a call leaves in the table of calls.
use careerops_agent.Shared.{
  ℕ, ◌≡◌, refl, true, List, [], ◌∷◌, ◌++◌, All, any, update_where, arith, Bool-cases, inl, inr,
  ◌==◌, if◌then◌else◌, Eq_nat,
}
use careerops_agent.Tool.Rows.{CallStatus, ToolCallRecord, Db}
use careerops_agent.Tool.Tests.{save}

-- The table has a row with this id, and its status is this one.
abbrev pub IsRecordedAs : (id : ℕ) → CallStatus → Db → Type 0
IsRecordedAs i status db =
    (any (λ c. c.id == i) db.tool_calls ≡ true)
    × All (λ c. c.id ≡ i → c.status ≡ status) db.tool_calls

abbrev pub IsStored : (id : ℕ) → Db → Type 0
IsStored i db = any (λ c. c.id == i) db.tool_calls ≡ true

module _ (r r' : ToolCallRecord) (same : r'.id ≡ r.id) where
  update-any :
      (rows : List ToolCallRecord)
      → any (λ c. c.id == r.id) rows ≡ true
      → any (λ c. c.id == r.id) (update_where (λ c. c.id == r.id) (λ _. r') rows) ≡ true
  update-any [] h = h
  update-any (c ∷ rows) h = elim (Bool-cases (c.id == r.id)) [
    | inl t ↦ rw t (ground (arith, same))
    | inr f ↦ rw f (ground (arith, f, update-any rows (rw f at h)))
  ]

  written_status :
      (c : ToolCallRecord)
      → (if c.id == r.id then r' else c).id ≡ r.id
      → (if c.id == r.id then r' else c).status ≡ r'.status
  written_status c = elim (Bool-cases (c.id == r.id)) [
    | inl t ↦ rw t (λ e. refl)
    | inr f ↦ rw f (λ e. ground (arith, e, f))
  ]

  update-status :
      (rows : List ToolCallRecord)
      → All
          (λ c. c.id ≡ r.id → c.status ≡ r'.status)
          (update_where (λ c. c.id == r.id) (λ _. r') rows)
  update-status [] = tt
  update-status (c ∷ rows) = (written_status c, update-status rows)

  -- An update of the rows with the id of `r`, as the body of a commit.
  pub update-recorded :
      (rows : List ToolCallRecord)
      → any (λ c. c.id == r.id) rows ≡ true
      → (any (λ c. c.id == r.id) (update_where (λ c. c.id == r.id) (λ _. r') rows) ≡ true)
        × All
            (λ c. c.id ≡ r.id → c.status ≡ r'.status)
            (update_where (λ c. c.id == r.id) (λ _. r') rows)
  update-recorded rows h = (update-any rows h, update-status rows)

-- A commit records the status of the call that it writes.
pub save-IsRecordedAs :
    (r : ToolCallRecord) (db : Db) → IsStored r.id db → IsRecordedAs r.id r.status (save r db)
save-IsRecordedAs r db h =
    let r' : ToolCallRecord = record r { updated_at = db.outside.clock } in
    update-recorded r r' refl db.tool_calls h

-- A row that is added is stored.
pub append-IsStored :
    (rows : List ToolCallRecord) (r : ToolCallRecord)
    → any (λ c. c.id == r.id) (rows ++ r ∷ []) ≡ true
append-IsStored [] r = ground arith
append-IsStored (c ∷ rows) r = ground (arith, append-IsStored rows r)
