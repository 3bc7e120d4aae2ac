-- ===== src/Memory/Selection/Chosen.antt =====
-- app/services/memory_runtime.py: the selection takes memories from the candidates.
use careerops_agent.Shared.{
  ℕ, zero, suc, ◌+◌, ◌≡◌, Option, none, some, List, [], ◌∷◌, ◌++◌, All, append-All, length, ltb,
  leb, subst, Bool-cases, inl, inr,
}
use careerops_agent.Tool.Rows.{Json}
use careerops_agent.Context.Json.{array}
use careerops_agent.Context.Budget.{estimate_tokens}
use careerops_agent.Memory.Selection.{
  RankedDocument, Selection, first_affordable, add_memory, add_knowledge, pick_memory,
  pick_knowledge, pick_both, select_loop, select_under_budget, untouched,
}

module _ {κ} (count : Json → ℕ) (token_budget memory_limit knowledge_limit : ℕ)
    (P : Json → Type κ) where
  abbrev From : List RankedDocument → Type κ
  From = All (λ c. P c.payload)

  -- The memories chosen, and those still to choose from, are as `P` says.
  abbrev Chosen : Selection → Type κ
  Chosen v = All P v.selected × From v.memories_left

  abbrev Found : Option RankedDocument × List RankedDocument → Type κ
  Found (none, rest) = From rest
  Found (some c, rest) = P c.payload × From rest

  first_affordable-Found :
      (payloads : List Json) (cs : List RankedDocument)
      → From cs
      → Found (first_affordable count token_budget memory_limit knowledge_limit payloads cs)
  unfolding first_affordable
  first_affordable-Found payloads [] u = tt
  first_affordable-Found payloads (c ∷ cs) (p, u) =
      elim (Bool-cases
        (leb (estimate_tokens count (array (payloads ++ c.payload ∷ []))) token_budget)) [
          | inl t ↦ rw t (p, u)
          | inr f ↦ rw f (first_affordable-Found payloads cs u)
        ]

  add_memory-Chosen :
      (v : Selection) (found : Option RankedDocument × List RankedDocument)
      → Chosen v
      → Found found
      → Chosen (add_memory count token_budget memory_limit knowledge_limit v found).1
  unfolding add_memory
  add_memory-Chosen v (none, rest) (s, u) w = (s, w)
  add_memory-Chosen v (some c, rest) (s, u) (p, w) =
      (append-All P v.selected (c.payload ∷ []) s (p, tt), w)

  add_knowledge-Chosen :
      (v : Selection) (found : Option RankedDocument × List RankedDocument)
      → Chosen v
      → Chosen (add_knowledge count token_budget memory_limit knowledge_limit v found).1
  unfolding add_knowledge
  add_knowledge-Chosen v (none, rest) h = h
  add_knowledge-Chosen v (some c, rest) h = h

  pick_memory-Chosen :
      (v : Selection)
      → Chosen v
      → Chosen (pick_memory count token_budget memory_limit knowledge_limit v).1
  unfolding pick_memory
  pick_memory-Chosen v (s, u) = elim (Bool-cases (ltb (length v.selected) memory_limit)) [
    | inl t ↦
        rw t
          (add_memory-Chosen v _ (s, u) (first_affordable-Found v.token_payloads v.memories_left u))
    | inr f ↦ rw f (s, u)
  ]

  pick_knowledge-Chosen :
      (v : Selection)
      → Chosen v
      → Chosen (pick_knowledge count token_budget memory_limit knowledge_limit v).1
  unfolding pick_knowledge
  pick_knowledge-Chosen v h = elim (Bool-cases (ltb (length v.knowledge) knowledge_limit)) [
    | inl t ↦ rw t (add_knowledge-Chosen v _ h)
    | inr f ↦ rw f h
  ]

  abbrev Selects : Option Selection → Type κ
  Selects none = Unit
  Selects (some v) = Chosen v

  select_loop-Selects :
      (fuel : ℕ) (v : Selection)
      → Chosen v
      → Selects (select_loop count token_budget memory_limit knowledge_limit fuel v)
  unfolding select_loop pick_both
  select_loop-Selects zero v h = tt
  select_loop-Selects (suc fuel) v h =
      let picked = pick_knowledge-Chosen _ (pick_memory-Chosen v h) in
      elim (Bool-cases (pick_both count token_budget memory_limit knowledge_limit v).0) [
        | inl t ↦ rw t (select_loop-Selects fuel _ picked)
        | inr f ↦ rw f picked
      ]

  -- What is selected of memories are payloads of candidates for memories.
  pub select_under_budget-chosen :
      (memory_candidates knowledge_candidates : List RankedDocument) {v : Selection}
      → From memory_candidates
      → select_under_budget count token_budget memory_limit knowledge_limit memory_candidates
          knowledge_candidates
        ≡ some v
      → All P v.selected
  unfolding select_under_budget
  select_under_budget-chosen memory_candidates knowledge_candidates {v} u h =
      (subst Selects h (
        select_loop-Selects (suc (length memory_candidates + length knowledge_candidates))
          (untouched memory_candidates knowledge_candidates) (tt, u))).0
