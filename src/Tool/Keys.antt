-- ===== src/Tool/Keys.antt =====
-- The keys of the table of calls: its primary keys, and the unique pairs of task and key.
use careerops_agent.Shared.{
  ℕ, suc, ◌+◌, ◌≤◌, ◌<◌, String, ◌≡◌, refl, ap, Bool, ◌&&◌, none, some, List, [], ◌∷◌, ◌++◌, arith,
  All, first, update_where, length, Bool-cases, inl, inr, ◌==◌, Eq_nat, Eq_text, ==_eq, some_inj,
  eq_iff,
}
use careerops_agent.Tool.Rows.{ToolCallRecord, Db}
use careerops_agent.Tool.Tests.{save}

pub record Head : Type 0 where
  pub id : ℕ
  pub task_id : ℕ
  pub key : String

abbrev pub head_of : ToolCallRecord → Head
head_of c = record { id = c.id; task_id = c.task_id; key = c.idempotency_key }

abbrev pub heads : List ToolCallRecord → List Head
heads [] = []
heads (c ∷ cs) = head_of c ∷ heads cs

-- The ids count the rows from `n + 1` on.
abbrev pub Numbered : ℕ → List Head → Type 0
Numbered n [] = Unit {0}
Numbered n (h ∷ hs) = (h.id ≡ suc n) × Numbered (suc n) hs

-- No two rows have the same task and idempotency key.
abbrev pub Distinct : List Head → Type 0
Distinct [] = Unit {0}
Distinct (h ∷ hs) = All (λ k. ¬ ((k.task_id ≡ h.task_id) × (k.key ≡ h.key))) hs × Distinct hs

abbrev pub IsKeyed : Db → Type 0
IsKeyed db = Numbered 0 (heads db.tool_calls) × Distinct (heads db.tool_calls)

-- The rows with the id of `r` have its task and its key.
abbrev pub HasRow : ToolCallRecord → List Head → Type 0
HasRow r = All (λ h. h.id ≡ r.id → (h.task_id ≡ r.task_id) × (h.key ≡ r.idempotency_key))

pub heads-update :
    (r r' : ToolCallRecord) (cs : List ToolCallRecord)
    → head_of r' ≡ head_of r
    → HasRow r (heads cs)
    → heads (update_where (λ c. c.id == r.id) (λ _. r') cs) ≡ heads cs
heads-update r r' [] e h = refl
heads-update r r' (c ∷ cs) e h = elim (Bool-cases (c.id == r.id)) [
  | inl same ↦
      rw same (
        ground
          (arith, heads-update r r' cs e h.1, h.0 (==_eq c.id r.id same), ==_eq c.id r.id same))
  | inr other ↦ rw other (ap (◌∷◌ (head_of c)) (heads-update r r' cs e h.1))
]

pub heads-save :
    (r : ToolCallRecord) (db : Db)
    → HasRow r (heads db.tool_calls)
    → heads (save r db).tool_calls ≡ heads db.tool_calls
heads-save r db h = heads-update r (record r { updated_at = db.outside.clock }) db.tool_calls refl h

first-above :
    (q : ToolCallRecord → Bool) (n : ℕ) (cs : List ToolCallRecord) {e : ToolCallRecord}
    → Numbered n (heads cs)
    → first q cs ≡ some e
    → n < e.id
first-above q n [] u h = cc
first-above q n (c ∷ cs) u h = elim (Bool-cases (q c)) [
  | inl t ↦ ground (arith, rw t at h)
  | inr f ↦ omega (arith, first-above q (suc n) cs u.1 (rw f at h))
]

below-HasRow :
    (r : ToolCallRecord) (n : ℕ) (hs : List Head) → Numbered n hs → r.id ≤ n → HasRow r hs
below-HasRow r n [] u h = tt
below-HasRow r n (x ∷ hs) u h =
    (λ e. absurd (omega arith), below-HasRow r (suc n) hs u.1 (omega arith))

-- A row that a query finds is the row with its id.
pub first-HasRow :
    (q : ToolCallRecord → Bool) (n : ℕ) (cs : List ToolCallRecord) {e : ToolCallRecord}
    → Numbered n (heads cs)
    → first q cs ≡ some e
    → HasRow e (heads cs)
first-HasRow q n [] u h = tt
first-HasRow q n (c ∷ cs) {e} u h = elim (Bool-cases (q c)) [
  | inl t ↦
      (let same = some_inj (rw t at h) in
        (
          λ _. (ap (λ x. x.task_id) same, ap (λ x. x.idempotency_key) same),
          below-HasRow e (suc n) (heads cs) u.1 (omega (arith, ap (λ x. x.id) same)),
        ))
  | inr f ↦ (
    λ same. absurd (omega (arith, first-above q (suc n) cs u.1 (rw f at h))),
    first-HasRow q (suc n) cs u.1 (rw f at h),
  )
]

pub heads-append : (cs ds : List ToolCallRecord) → heads (cs ++ ds) ≡ heads cs ++ heads ds
heads-append [] ds = refl
heads-append (c ∷ cs) ds = ap (◌∷◌ (head_of c)) (heads-append cs ds)

Numbered-append :
    (n : ℕ) (cs : List ToolCallRecord) (h : Head)
    → Numbered n (heads cs)
    → h.id ≡ suc (n + length cs)
    → Numbered n (heads cs ++ h ∷ [])
Numbered-append n [] h u e = (omega arith, tt)
Numbered-append n (c ∷ cs) h u e = (u.0, Numbered-append (suc n) cs h u.1 (omega arith))

HasRow-append :
    (r : ToolCallRecord) (n : ℕ) (cs : List ToolCallRecord)
    → Numbered n (heads cs)
    → r.id ≡ suc (n + length cs)
    → HasRow r (heads cs ++ head_of r ∷ [])
HasRow-append r n [] u e = (λ _. (refl, refl), tt)
HasRow-append r n (c ∷ cs) u e =
    (λ same. absurd (omega arith), HasRow-append r (suc n) cs u.1 (omega arith))

absent-append :
    (c h : Head) (hs : List Head)
    → All (λ k. ¬ ((k.task_id ≡ c.task_id) × (k.key ≡ c.key))) hs
    → ¬ ((h.task_id ≡ c.task_id) × (h.key ≡ c.key))
    → All (λ k. ¬ ((k.task_id ≡ c.task_id) × (k.key ≡ c.key))) (hs ++ h ∷ [])
absent-append c h [] a e = (e, tt)
absent-append c h (x ∷ hs) a e = (a.0, absent-append c h hs a.1 e)

Distinct-append :
    (cs : List ToolCallRecord) (h : Head)
    → Distinct (heads cs)
    → first (λ c. c.task_id == h.task_id && c.idempotency_key == h.key) cs ≡ none
    → Distinct (heads cs ++ h ∷ [])
Distinct-append [] h u e = (tt, tt)
Distinct-append (c ∷ cs) h u e =
    elim (Bool-cases (c.task_id == h.task_id && c.idempotency_key == h.key)) [
      | inl t ↦ cc (rw t at e)
      | inr f ↦ (
        absent-append (head_of c) h (heads cs) u.0
            (λ both. ground (arith, f, both.0, both.1, eq_iff c.idempotency_key h.key)),
        Distinct-append cs h u.1 (rw f at e),
      )
    ]

-- A new row with the next id and a key that the query does not find keeps the keys in order.
pub IsKeyed-append :
    (db : Db) (r : ToolCallRecord)
    → IsKeyed db
    → r.id ≡ suc (length db.tool_calls)
    → first (λ c. c.task_id == r.task_id && c.idempotency_key == r.idempotency_key) db.tool_calls
      ≡ none
    → IsKeyed (record db { tool_calls = db.tool_calls ++ r ∷ [] })
      × HasRow r (heads (db.tool_calls ++ r ∷ []))
IsKeyed-append db r (numbered, distinct) e absent =
    let next = Numbered-append 0 db.tool_calls (head_of r) numbered (omega (arith, e)) in
    rw heads-append (
      (next, Distinct-append db.tool_calls (head_of r) distinct absent),
      HasRow-append r 0 db.tool_calls numbered (omega (arith, e)),
    )
