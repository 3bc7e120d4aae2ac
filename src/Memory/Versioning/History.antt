-- ===== src/Memory/Versioning/History.antt =====
-- The revisions of a memory form a history with one open end.
use mathlib.Core.Path.{ap₂}
use mathlib.Core.List.{append_assoc, append-nil}
use careerops_agent.Shared.{
  map, sym, ap, if◌then◌else◌, ℕ, ◌+◌, ◌≤◌, ◌<◌, String, ◌≡◌, ◌≢◌, refl, ◌∙◌, true, false, Option,
  none, some, List, [], ◌∷◌, ◌++◌, All, append-All, first, update_where, arith, Bool-cases, inl,
  inr, Eq_nat,
}
use careerops_agent.Tool.Rows.{Json}
use careerops_agent.Memory.Rows.{AgentMemory, AgentMemoryRevision}
use careerops_agent.Memory.Versioning.{
  initial_revision, record_initial_memory_version, is_current, closed, close_current, next_revision,
  supersede_memory,
}

-- A revision of the memory is not newer than the memory, and is closed if it is older.
abbrev pub Follows : AgentMemory → AgentMemoryRevision → Type 0
Follows m r =
    r.memory_id ≡ m.id → (r.version ≤ m.version) × (r.valid_to ≡ none → r.version ≡ m.version)

abbrev pub History : AgentMemory → List AgentMemoryRevision → Type 0
History m = All (Follows m)

-- Every revision of the memory, up to its version, is closed.
abbrev Past : AgentMemory → List AgentMemoryRevision → Type 0
Past m = All (λ r. r.memory_id ≡ m.id → (r.version ≤ m.version) × (r.valid_to ≢ none))

closed-Past :
    (m : AgentMemory) (now : ℕ) (rows : List AgentMemoryRevision)
    → History m rows
    → Past m (update_where (is_current m) (closed now) rows)
closed-Past m now [] h = tt
closed-Past m now (r ∷ rows) h = elim (Bool-cases (is_current m r)) [
  | inl t ↦ rw t ((λ e. (ground arith, λ z. cc)), closed-Past m now rows h.1)
  | inr f ↦ rw f ((λ e. ground (arith, h.0)), closed-Past m now rows h.1)
]

initial-Follows :
    (m : AgentMemory) (provenance : Option Json) → Follows m (initial_revision m provenance)
unfolding initial_revision
initial-Follows m provenance e = (omega arith, λ _. refl)

close_current-Past :
    (found : Option AgentMemoryRevision) (m : AgentMemory) (now : ℕ)
    (rows : List AgentMemoryRevision)
    → History m rows
    → Past m (close_current found m now rows)
unfolding close_current record_initial_memory_version
close_current-Past (some r) m now rows h = closed-Past m now rows h
close_current-Past none m now rows h =
    closed-Past m now (rows ++ initial_revision m none ∷ [])
      (append-All (Follows m) rows (initial_revision m none ∷ []) h (initial-Follows m none, tt))

-- A revision of the past is none of the next version.
past_version :
    (m m' : AgentMemory) (x : AgentMemoryRevision)
    → (x.memory_id ≡ m.id → (x.version ≤ m.version) × (x.valid_to ≢ none))
    → m'.id ≡ m.id
    → m.version < m'.version
    → is_current m' x ≡ false
past_version m m' x h same newer = ground (arith, h)

-- Where the past ends, the next version is the first and only one of its number.
first-next :
    (m m' : AgentMemory) (r : AgentMemoryRevision) (rows : List AgentMemoryRevision)
    → Past m rows
    → m'.id ≡ m.id
    → m.version < m'.version
    → is_current m' r ≡ true
    → first (is_current m') (rows ++ r ∷ []) ≡ some r
first-next m m' r [] h same newer e = rw e refl
first-next m m' r (x ∷ rows) h same newer e =
    rw (past_version m m' x h.0 same newer) (first-next m m' r rows h.1 same newer e)

Past-History :
    (m m' : AgentMemory) (rows : List AgentMemoryRevision)
    → Past m rows
    → m'.id ≡ m.id
    → m.version < m'.version
    → History m' rows
Past-History m m' [] h same newer = tt
Past-History m m' (x ∷ rows) h same newer = (
  (λ e. (ground (arith, h.0), λ z. absurd ((h.0 (e ∙ same)).1 z))),
  Past-History m m' rows h.1 same newer,
)

-- A revision as it was before the current one was closed.
abbrev pub reopened : AgentMemory → AgentMemoryRevision → AgentMemoryRevision
reopened m r = if is_current m r then record r { valid_to = none } else r

-- The revisions are all still there, in their order, before those that were added, and nothing of
-- them has changed but the end of the current one.
abbrev pub KeepsRevisions : AgentMemory → (before after : List AgentMemoryRevision) → Type 0
KeepsRevisions m before after =
    (added : List AgentMemoryRevision) × (map (reopened m) after ≡ map (reopened m) before ++ added)

reopened-closed :
    (m : AgentMemory) (now : ℕ) (r : AgentMemoryRevision)
    → reopened m (if is_current m r then closed now r else r) ≡ reopened m r
reopened-closed m now r = elim (Bool-cases (is_current m r)) [
  | inl t ↦ rw t (rw t refl)
  | inr f ↦ rw f (rw f refl)
]

closed-Keeps :
    (m : AgentMemory) (now : ℕ) (rows : List AgentMemoryRevision)
    → map (reopened m) (update_where (is_current m) (closed now) rows) ≡ map (reopened m) rows
closed-Keeps m now [] = refl
closed-Keeps m now (r ∷ rows) =
    ap₂ (λ x xs. x ∷ xs) (reopened-closed m now r) (closed-Keeps m now rows)

map-append-rows :
    (m : AgentMemory) (xs ys : List AgentMemoryRevision)
    → map (reopened m) (xs ++ ys) ≡ map (reopened m) xs ++ map (reopened m) ys
map-append-rows m [] ys = refl
map-append-rows m (x ∷ xs) ys = ap (◌∷◌ (reopened m x)) (map-append-rows m xs ys)

close_current-Keeps :
    (found : Option AgentMemoryRevision) (m : AgentMemory) (now : ℕ)
    (rows : List AgentMemoryRevision)
    → KeepsRevisions m rows (close_current found m now rows)
unfolding close_current record_initial_memory_version
close_current-Keeps (some r) m now rows =
    ([], closed-Keeps m now rows ∙ sym (append-nil (map (reopened m) rows)))
close_current-Keeps none m now rows = (
  map (reopened m) (initial_revision m none ∷ []),
  closed-Keeps m now (rows ++ initial_revision m none ∷ [])
      ∙ map-append-rows m rows (initial_revision m none ∷ []),
)

Keeps-append :
    (m : AgentMemory) (rows before : List AgentMemoryRevision) (r : AgentMemoryRevision)
    → KeepsRevisions m rows before
    → KeepsRevisions m rows (before ++ r ∷ [])
Keeps-append m rows before r (added, e) = (
  added ++ reopened m r ∷ [],
  map-append-rows m before (r ∷ [])
      ∙ ap (λ xs. xs ++ reopened m r ∷ []) e
      ∙ append_assoc (map (reopened m) rows) added (reopened m r ∷ []),
)

-- A change of a memory keeps its history: every revision is still there, changed in nothing but the
-- end of the current one; no revision is newer than the memory, and only the one of its version is
-- open. Memory and open revision hold the given content from now on.
pub supersede_memory-History :
    (now : ℕ) (m : AgentMemory) (content source : String) (importance : ℕ)
    (provenance : Option Json) (reason : String) (rows : List AgentMemoryRevision)
    → History m rows
    → let (m', rows') = supersede_memory now m content source importance provenance reason rows in
      History m' rows'
      × KeepsRevisions m rows rows'
      × (m'.version ≡ m.version + 1)
      × (m'.content ≡ content)
      × ((r : AgentMemoryRevision) × (first (is_current m') rows' ≡ some r)
          × (r.content ≡ content)
          × (r.valid_from ≡ now)
          × (r.valid_to ≡ none))
unfolding supersede_memory
supersede_memory-History now m content source importance provenance reason rows h =
    let past = close_current-Past (first (is_current m) rows) m now rows h in
    let (m', rows') = supersede_memory now m content source importance provenance reason rows in
    let before = close_current (first (is_current m) rows) m now rows in
    let opened : AgentMemoryRevision =
      next_revision m now content source importance provenance reason in
    (
      append-All (Follows m') before (opened ∷ [])
          (Past-History m m' before past refl (omega arith)) ((λ e. (omega arith, λ _. refl)), tt),
      Keeps-append m rows before opened
          (close_current-Keeps (first (is_current m) rows) m now rows),
      refl,
      refl,
      (
        opened,
        first-next m m' opened before past refl (omega arith) (ground arith),
        refl,
        refl,
        refl,
      ),
    )
