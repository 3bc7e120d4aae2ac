-- ===== src/Memory/Selection/Bounded.antt =====
-- app/services/memory_runtime.py: the selection ends, within its budget and its limits.
use mathlib.Core.List.{Perm, append_assoc}
use mathlib.Core.List.Perm
use mathlib.Core.List.Permᴰ
use careerops_agent.Shared.{
  ℕ, zero, suc, ◌+◌, ◌≤◌, ◌<◌, ◌≡◌, refl, Bool, true, false, ◌||◌, Option, none, some, List, [],
  ◌∷◌, ◌++◌, length, ltb, leb, leb→le, ltb→lt, arith, Bool-cases, inl, inr, length-append, subst,
  sym,
}
use careerops_agent.Tool.Rows.{Json}
use careerops_agent.Context.Json.{array}
use careerops_agent.Context.Budget.{estimate_tokens}
use careerops_agent.Memory.Selection.{
  RankedDocument, Selection, SelectionPass, first_affordable, add_memory, add_knowledge,
  pick_memory, pick_knowledge, pick_both, select_loop, select_under_budget, untouched,
}

module _ (count : Json → ℕ) (token_budget memory_limit knowledge_limit : ℕ) where
  -- What is selected fits the budget, which the texts of both channels are charged to, and the limits.
  abbrev pub IsBounded : Selection → Type 0
  IsBounded v =
      (estimate_tokens count (array v.token_payloads) ≤ token_budget)
      × Perm v.token_payloads (v.selected ++ v.knowledge)
      × (length v.selected ≤ memory_limit)
      × (length v.knowledge ≤ knowledge_limit)

  abbrev left : Selection → ℕ
  left v = length v.memories_left + length v.knowledge_left

  -- A pass keeps the bounds, and uses up a candidate if it progresses.
  abbrev Passes : Selection → SelectionPass → Type 0
  Passes v (progressed, v') =
      IsBounded v' × (left v' ≤ left v) × (progressed ≡ true → left v' < left v)

  abbrev Affordable :
      (payloads : List Json) (n : ℕ) → Option RankedDocument × List RankedDocument → Type 0
  Affordable payloads n (none, rest) = length rest ≤ n
  Affordable payloads n (some c, rest) =
      (estimate_tokens count (array (payloads ++ c.payload ∷ [])) ≤ token_budget)
      × (length rest < n)

  later-Affordable :
      (payloads : List Json) (n : ℕ) (found : Option RankedDocument × List RankedDocument)
      → Affordable payloads n found
      → Affordable payloads (suc n) found
  later-Affordable payloads n (none, rest) h = omega (arith, h)
  later-Affordable payloads n (some c, rest) (fits, h) = (fits, omega (arith, h))

  first_affordable-Affordable :
      (payloads : List Json) (cs : List RankedDocument)
      → Affordable payloads
          (length cs)
          (first_affordable count token_budget memory_limit knowledge_limit payloads cs)
  unfolding first_affordable
  first_affordable-Affordable payloads [] = omega arith
  first_affordable-Affordable payloads (c ∷ cs) =
      elim (Bool-cases
        (leb (estimate_tokens count (array (payloads ++ c.payload ∷ []))) token_budget)) [
          | inl t ↦ rw t (leb→le _ _ t, omega arith)
          | inr f ↦
              rw f
                (later-Affordable payloads (length cs) _ (first_affordable-Affordable payloads cs))
        ]

  added_one :
      (xs : List Json) (x : Json) (limit : ℕ) → length xs < limit → length (xs ++ x ∷ []) ≤ limit
  added_one xs x limit h = omega (arith, h, length-append xs (x ∷ []))

  charged_knowledge :
      (payloads selected knowledge : List Json) (x : Json)
      → Perm payloads (selected ++ knowledge)
      → Perm (payloads ++ x ∷ []) (selected ++ (knowledge ++ x ∷ []))
  charged_knowledge payloads selected knowledge x p =
      subst (λ xs. Perm (payloads ++ x ∷ []) xs) (append_assoc selected knowledge (x ∷ []))
        (Perm.append_right (x ∷ []) p)

  charged_memory :
      (payloads selected knowledge : List Json) (x : Json)
      → Perm payloads (selected ++ knowledge)
      → Perm (payloads ++ x ∷ []) ((selected ++ x ∷ []) ++ knowledge)
  charged_memory payloads selected knowledge x p =
      subst (λ xs. Perm (payloads ++ x ∷ []) xs) (sym (append_assoc selected (x ∷ []) knowledge))
        (Perm.trans (charged_knowledge payloads selected knowledge x p)
          (Perm.append_left selected ∣ Permᴰ.append_comm knowledge (x ∷ []) ∣₁))

  add_memory-Passes :
      (v : Selection) (found : Option RankedDocument × List RankedDocument)
      → IsBounded v
      → length v.selected < memory_limit
      → Affordable v.token_payloads (length v.memories_left) found
      → Passes v (add_memory count token_budget memory_limit knowledge_limit v found)
  unfolding add_memory
  add_memory-Passes v (none, rest) b h a = (b, omega (arith, a), λ t. cc)
  add_memory-Passes v (some c, rest) b h (fits, fewer) = (
    (
      fits,
      charged_memory v.token_payloads v.selected v.knowledge c.payload b.1,
      added_one v.selected c.payload memory_limit h,
      b.3,
    ),
    omega (arith, fewer),
    λ t. omega (arith, fewer),
  )

  add_knowledge-Passes :
      (v : Selection) (found : Option RankedDocument × List RankedDocument)
      → IsBounded v
      → length v.knowledge < knowledge_limit
      → Affordable v.token_payloads (length v.knowledge_left) found
      → Passes v (add_knowledge count token_budget memory_limit knowledge_limit v found)
  unfolding add_knowledge
  add_knowledge-Passes v (none, rest) b h a = (b, omega (arith, a), λ t. cc)
  add_knowledge-Passes v (some c, rest) b h (fits, fewer) = (
    (
      fits,
      charged_knowledge v.token_payloads v.selected v.knowledge c.payload b.1,
      b.2,
      added_one v.knowledge c.payload knowledge_limit h,
    ),
    omega (arith, fewer),
    λ t. omega (arith, fewer),
  )

  pick_memory-Passes :
      (v : Selection)
      → IsBounded v
      → Passes v (pick_memory count token_budget memory_limit knowledge_limit v)
  unfolding pick_memory
  pick_memory-Passes v b = elim (Bool-cases (ltb (length v.selected) memory_limit)) [
    | inl t ↦ rw t (
        add_memory-Passes v _ b (ltb→lt _ _ t)
          (first_affordable-Affordable v.token_payloads v.memories_left))
    | inr f ↦ rw f (b, omega arith, λ t. cc)
  ]

  pick_knowledge-Passes :
      (v : Selection)
      → IsBounded v
      → Passes v (pick_knowledge count token_budget memory_limit knowledge_limit v)
  unfolding pick_knowledge
  pick_knowledge-Passes v b = elim (Bool-cases (ltb (length v.knowledge) knowledge_limit)) [
    | inl t ↦ rw t (
        add_knowledge-Passes v _ b (ltb→lt _ _ t)
          (first_affordable-Affordable v.token_payloads v.knowledge_left))
    | inr f ↦ rw f (b, omega arith, λ t. cc)
  ]

  fewer_left :
      (p q : Bool) (before between after : ℕ)
      → between ≤ before
      → (p ≡ true → between < before)
      → after ≤ between
      → (q ≡ true → after < between)
      → (p || q) ≡ true
      → after < before
  fewer_left true q before between after h k l m t = omega (arith, k refl, l)
  fewer_left false true before between after h k l m t = omega (arith, h, m refl)
  fewer_left false false before between after h k l m t = cc

  pick_both-Passes :
      (v : Selection)
      → IsBounded v
      → Passes v (pick_both count token_budget memory_limit knowledge_limit v)
  unfolding pick_both
  pick_both-Passes v b =
      let (first_bounds, first_left, first_fewer) = pick_memory-Passes v b in
      let picked = (pick_memory count token_budget memory_limit knowledge_limit v).1 in
      let (bounds, second_left, second_fewer) = pick_knowledge-Passes picked first_bounds in
      (
        bounds,
        omega (arith, first_left, second_left),
        fewer_left _ _ _ _ _ first_left first_fewer second_left second_fewer,
      )

  abbrev Returns : Option Selection → Type 0
  Returns result = (v : Selection) × (result ≡ some v) × IsBounded v

  select_loop-Returns :
      (fuel : ℕ) (v : Selection)
      → IsBounded v
      → left v < fuel
      → Returns (select_loop count token_budget memory_limit knowledge_limit fuel v)
  unfolding select_loop
  select_loop-Returns zero v b h = absurd (omega (arith, h))
  select_loop-Returns (suc fuel) v b h =
      let (bounds, keeps, fewer) = pick_both-Passes v b in
      elim (Bool-cases (pick_both count token_budget memory_limit knowledge_limit v).0) [
        | inl t ↦ rw t (
            select_loop-Returns fuel (pick_both count token_budget memory_limit knowledge_limit v).1
              bounds (omega (arith, h, fewer t)))
        | inr f ↦ rw f (_, refl, bounds)
      ]

  -- The selection of memories and job evidence ends, within both limits. The payloads whose estimate
  -- the token budget bounds are exactly those of the selected memories and the selected evidence.
  pub select_under_budget-IsBounded :
      (memory_candidates knowledge_candidates : List RankedDocument)
      → (v : Selection) × (select_under_budget count token_budget memory_limit knowledge_limit
            memory_candidates knowledge_candidates
          ≡ some v)
        × (estimate_tokens count (array v.token_payloads) ≤ token_budget)
        × Perm v.token_payloads (v.selected ++ v.knowledge)
        × (length v.selected ≤ memory_limit)
        × (length v.knowledge ≤ knowledge_limit)
  unfolding select_under_budget estimate_tokens
  select_under_budget-IsBounded memory_candidates knowledge_candidates =
      let (v, returns, b) =
        select_loop-Returns (suc (length memory_candidates + length knowledge_candidates))
          (untouched memory_candidates knowledge_candidates)
          (omega arith, Perm.refl [], omega arith, omega arith) (omega arith) in
      (v, returns, b.0, b.1, b.2, b.3)
