-- ===== src/Memory/Maintenance/Justified.antt =====
-- app/services/memory_maintenance.py: why a memory is retired.
use careerops_agent.Shared.{
  Eq_nat, Eq_option, ℕ, ◌≡◌, refl, true, false, ◌||◌, Option, none, some, List, [], ◌∷◌, All,
  append-All, map, drop, zero, suc, first, arith, Bool-cases, inl, inr, ◌==◌, Eq_text, String,
}
use careerops_agent.Memory.Rows.{AgentMemory, is_retired}
use careerops_agent.Memory.Maintenance.{
  Retirement, Pass, goes_before, insert_ranked, ranked, has_expired, is_runtime_episode, retire_as,
  repeat_or_new, visit, visit_all, retirements,
}

All-drop {ℓ κ} : {A : Type ℓ} (P : A → Type κ) (n : ℕ) (xs : List A) → All P xs → All P (drop n xs)
All-drop P zero xs h = h
All-drop P (suc n) [] h = tt
All-drop P (suc n) (x ∷ xs) h = All-drop P n xs h.1

module _ (P : AgentMemory → Type 0) (now : ℕ) where
  -- An active memory of the list that has expired or is an episode that the agent runtime wrote.
  abbrev pub IsJustified : Retirement → Type 0
  IsJustified r =
      (m : AgentMemory) × P m
      × (m.id ≡ r.memory_id)
      × (is_retired m.status ≡ false)
      × ((has_expired now m || is_runtime_episode m) ≡ true)

  abbrev Episode : AgentMemory → Type 0
  Episode m =
      P m × (is_retired m.status ≡ false) × ((has_expired now m || is_runtime_episode m) ≡ true)

  abbrev Sorted : Pass → Type 0
  Sorted pass = All IsJustified pass.retire × All Episode pass.episodes

  insert_ranked-All :
      (m : AgentMemory) (ms : List AgentMemory) → P m → All P ms → All P (insert_ranked m ms)
  unfolding insert_ranked
  insert_ranked-All m [] p h = (p, tt)
  insert_ranked-All m (n ∷ ms) p h = elim (Bool-cases (goes_before m n)) [
    | inl t ↦ rw t (p, h)
    | inr f ↦ rw f (h.0, insert_ranked-All m ms p h.1)
  ]

  ranked-All : (ms : List AgentMemory) → All P ms → All P (ranked ms)
  unfolding ranked
  ranked-All [] h = tt
  ranked-All (m ∷ ms) h = insert_ranked-All m (ranked ms) h.0 (ranked-All ms h.1)

  justify :
      (reason : String) (representative : Option ℕ) (m : AgentMemory)
      → Episode m
      → IsJustified (retire_as reason representative m)
  justify reason representative m (p, active, cause) = (m, p, refl, active, cause)

  repeat_or_new-Sorted :
      (o : Option AgentMemory) (m : AgentMemory) (pass : Pass)
      → Episode m
      → Sorted pass
      → Sorted (repeat_or_new o m pass)
  unfolding repeat_or_new
  repeat_or_new-Sorted none m pass e (r, es) = (r, append-All Episode pass.episodes _ es (e, tt))
  repeat_or_new-Sorted (some k) m pass e (r, es) =
      (append-All IsJustified pass.retire _ r (justify "duplicate_episode" (some k.id) m e, tt), es)

  visit-Sorted : (m : AgentMemory) (pass : Pass) → P m → Sorted pass → Sorted (visit now m pass)
  unfolding visit
  visit-Sorted m pass p s = elim (Bool-cases (is_retired m.status)) [
    | inl t ↦ rw t s
    | inr active ↦ rw active (elim (Bool-cases (has_expired now m)) [
      | inl t ↦ rw t (
        append-All IsJustified pass.retire _ s.0 ((m, p, refl, active, ground (arith, t)), tt),
        s.1,
      )
      | inr f ↦ rw f (elim (Bool-cases (is_runtime_episode m)) [
        | inl t ↦
            (let known = first (λ e. e.content == m.content) pass.episodes in
              rw t (repeat_or_new-Sorted known m pass (p, active, ground (arith, t)) s))
        | inr g ↦ rw g s
      ])
    ])
  ]

  visit_all-Sorted :
      (ms : List AgentMemory) (pass : Pass)
      → All P ms
      → Sorted pass
      → Sorted (visit_all now ms pass)
  unfolding visit_all
  visit_all-Sorted [] pass h s = s
  visit_all-Sorted (m ∷ ms) pass h s =
      visit_all-Sorted ms (visit now m pass) h.1 (visit-Sorted m pass h.0 s)

  over-Justified :
      (ms : List AgentMemory)
      → All Episode ms
      → All IsJustified (map (retire_as "episode_capacity" none) ms)
  over-Justified [] h = tt
  over-Justified (m ∷ ms) h = (justify "episode_capacity" none m h.0, over-Justified ms h.1)

  -- Each memory that is retired is one of the given ones, is active, and has expired or is an
  -- episode that the agent runtime wrote for the task, whatever the limit.
  pub retirements-IsJustified :
      (episode_limit : ℕ) (memories : List AgentMemory)
      → All P memories
      → All IsJustified (retirements now episode_limit memories)
  unfolding retirements
  retirements-IsJustified episode_limit memories h =
      let pass = visit_all now (ranked memories) (record { retire = []; episodes = [] }) in
      let (retire, episodes) =
        visit_all-Sorted (ranked memories) (record { retire = []; episodes = [] })
          (ranked-All memories h) (tt, tt) in
      append-All IsJustified pass.retire _ retire (
        over-Justified (drop episode_limit pass.episodes)
          (All-drop Episode episode_limit pass.episodes episodes))
