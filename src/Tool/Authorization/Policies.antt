-- ===== src/Tool/Authorization/Policies.antt =====
-- What a task's policy can list.
use careerops_agent.Shared.{
  ◌+◌, String, ◌≡◌, refl, Bool, true, false, some, List, [], ◌∷◌, arith, any, All, some_inj,
  is_none, ◌⊎◌, ◌||◌, ap, sym, subst, Bool-cases, inl, inr, ◌==◌, Eq_text, Eq_nat, ==_eq, ==_refl,
}
use careerops_agent.Tool.Rows.{Permission, AgentTask, TaskPolicy, Db}
use careerops_agent.Tool.Tests.{permission_eq}
use careerops_agent.Tool.Registry.{ToolDefinition, Registry, get_tool}
use careerops_agent.Tool.Authorization.{
  default_allowed_tools, get_or_create_task_policy, distinct, normalized_tools, update_task_policy,
}

permission_eq-read : (x : Permission) → permission_eq x Permission.read ≡ true → x ≡ Permission.read
permission_eq-read Permission.read h = refl
permission_eq-read Permission.write h = cc

-- `x` is the name of a tool of the registry with read permission.
abbrev pub ReadTool : Registry → String → Type 0
ReadTool [] x = ⊥
ReadTool (d ∷ ds) x = ((d.name ≡ x) × (d.permission ≡ Permission.read)) ⊎ ReadTool ds x

All-weaken :
    (d : ToolDefinition) (ds : Registry) (xs : List String)
    → All (ReadTool ds) xs
    → All (ReadTool (d ∷ ds)) xs
All-weaken d ds [] h = tt
All-weaken d ds (x ∷ xs) h = (inr h.0, All-weaken d ds xs h.1)

-- A task that has no policy yet may use read tools only.
pub default_allowed_tools-ReadTool :
    (registry : Registry) → All (ReadTool registry) (default_allowed_tools registry)
unfolding default_allowed_tools
default_allowed_tools-ReadTool [] = tt
default_allowed_tools-ReadTool (d ∷ ds) =
    let rest = All-weaken d ds _ (default_allowed_tools-ReadTool ds) in
    elim (Bool-cases (permission_eq d.permission Permission.read)) [
      | inl reads ↦ rw reads (inl (refl, permission_eq-read d.permission reads), rest)
      | inr writes ↦ rw writes rest
    ]

any-false :
    (test : String → Bool) (xs : List String) → any test xs ≡ false → All (λ x. test x ≡ false) xs
any-false test [] h = tt
any-false test (x ∷ xs) h = (ground arith, any-false test xs (ground arith))

-- No text occurs in the list after itself.
abbrev pub NoRepeat : List String → Type 0
NoRepeat [] = Unit {0}
NoRepeat (x ∷ xs) = (any (λ y. y == x) xs ≡ false) × NoRepeat xs

distinct-avoids :
    (x : String) (seen xs : List String)
    → any (λ y. y == x) seen ≡ true
    → any (λ y. y == x) (distinct seen xs) ≡ false
unfolding distinct
distinct-avoids x seen [] h = refl
distinct-avoids x seen (y ∷ xs) h =
    let later = distinct-avoids x seen xs h in
    elim (Bool-cases (y == x)) [
      | inl same ↦
          let old = subst (λ z. any (λ y'. y' == z) seen ≡ true) (sym (==_eq y x same)) h in
          rw old later
      | inr other ↦ elim (Bool-cases (any (λ y'. y' == y) seen)) [
        | inl old ↦ rw old later
        | inr new ↦ rw (new, other) (distinct-avoids x (y ∷ seen) xs (rw (other, ◌||◌) h))
      ]
    ]

distinct-NoRepeat : (seen xs : List String) → NoRepeat (distinct seen xs)
unfolding distinct
distinct-NoRepeat seen [] = tt
distinct-NoRepeat seen (x ∷ xs) = elim (Bool-cases (any (λ y. y == x) seen)) [
  | inl old ↦ rw old (distinct-NoRepeat seen xs)
  | inr new ↦
      rw new (distinct-avoids x (x ∷ seen) xs (rw (==_refl x)), distinct-NoRepeat (x ∷ seen) xs)
]

-- An accepted update lists registered tools only, none twice, and raises the version of the policy
-- of the task by one.
pub update_task_policy_sound :
    (registry : Registry) (task : AgentTask) (names : List String) (db : Db) {policy : TaskPolicy}
    → (update_task_policy registry task names db).0 ≡ some policy
    → All (λ n. is_none (get_tool registry n) ≡ false) policy.allowed_tools
      × NoRepeat policy.allowed_tools
      × (policy.version ≡ (get_or_create_task_policy registry task db).0.version + 1)
unfolding update_task_policy normalized_tools
update_task_policy_sound registry task names db {policy} h =
    elim (Bool-cases (any (λ n. is_none (get_tool registry n)) (normalized_tools names))) [
      | inl bad ↦ cc (rw bad at h)
      | inr good ↦
          let made = some_inj (rw good at h) in
          (
            rw (← ap (λ q. q.allowed_tools) made) (any-false _ (normalized_tools names) good),
            rw (← ap (λ q. q.allowed_tools) made) (distinct-NoRepeat [] _),
            sym (ap (λ q. q.version) made),
          )
    ]
