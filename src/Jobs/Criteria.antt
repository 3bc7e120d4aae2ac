-- ===== src/Jobs/Criteria.antt =====
-- app/services/roadmap.py: when a learning project is done.
use careerops_agent.Shared.{String, List, [], ◌∷◌, Dict, lookup, or_else}

criteria_by_skill : Dict (List String)
criteria_by_skill =
    (
      "Agent Harness",
      "A user goal can be represented as a task with explicit state."
          ∷ "The harness can call at least one registered tool."
          ∷ "Every step is recorded in an execution trace."
          ∷ "A failed tool call is retried or converted into a clear error state."
          ∷ "At least one pytest test verifies the happy path." ∷ [],
    )
    ∷ (
      "Tool Calling",
      "Tools are registered with names, descriptions, and argument schemas."
          ∷ "Invalid arguments are rejected before execution."
          ∷ "Every tool call records input, output, and status."
          ∷ "At least one permission or safety boundary is enforced."
          ∷ "Tests cover success, validation failure, and blocked calls." ∷ [],
    )
    ∷ (
      "Context Engineering",
      "A long trace can be compacted into a shorter context summary."
          ∷ "The summary preserves user goal, constraints, completed steps, and open issues."
          ∷ "The compactor has tests for losing critical constraints."
          ∷ "Before and after context examples are included." ∷ [],
    )
    ∷ (
      "LLM Evaluation",
      "At least three golden tasks are defined."
          ∷ "Each task has an expected outcome and scoring rule."
          ∷ "The evaluation runner produces a pass/fail report."
          ∷ "A regression example is documented." ∷ [],
    )
    ∷ (
      "Memory",
      "Memory entries have clear read and write rules."
          ∷ "The demo shows memory retrieval changing a later action."
          ∷ "Irrelevant or unsafe memory writes can be rejected."
          ∷ "Tests cover create, retrieve, update, and reject paths." ∷ [],
    )
    ∷ []

-- `_project_acceptance_criteria`
unfoldable pub project_acceptance_criteria : (skill : String) → List String
unfolding criteria_by_skill
project_acceptance_criteria skill = or_else (lookup skill criteria_by_skill) (
    "A small working demo uses the skill in an Agent-related workflow."
    ∷ "The implementation includes at least one automated test."
    ∷ "The README explains what was learned and what tradeoffs were made."
    ∷ "A demo trace or sample output is included." ∷ [])
