-- ===== src/Context/Compaction/Fits.antt =====
-- The loop of `_compact_observations` ends, and what it returns fits the budget.
use careerops_agent.Shared.{
  ℕ, zero, suc, ◌+◌, ◌*◌, ◌-◌, ◌≤◌, ◌<◌, ◌≡◌, Bool, true, false, not, Option, some, List, [], ◌∷◌,
  keep, any, length, arith, leb, leb→le, length-keep-le, min, if◌then◌else◌, ◌==◌, Eq_nat, refl,
  Bool-cases, Option-cases, inl, inr, some_inj, subst,
}
use careerops_agent.Tool.Rows.{Json}
use careerops_agent.Context.Json.{array}
use careerops_agent.Context.Budget.{estimate_tokens}
use careerops_agent.Context.Compaction.{
  range_from, insert_sorted, Attempt, give_way, Compacted, Library, built, compact_loop,
  first_attempt, compaction_fuel, compact_observations,
}

length-range_from : (start n : ℕ) → length (range_from start n) ≡ n
unfolding range_from
length-range_from start zero = refl
length-range_from start (suc n) = omega (arith, length-range_from (suc start) n)

length-insert_sorted : (x : ℕ) (ys : List ℕ) → length (insert_sorted x ys) ≡ suc (length ys)
unfolding insert_sorted
length-insert_sorted x [] = refl
length-insert_sorted x (y ∷ ys) = ground (arith, length-insert_sorted x ys)

-- How many more attempts the loop can make.
attempts : List ℕ → List ℕ → Bool → ℕ → ℕ
attempts [] removed true limit = suc limit
attempts [] removed false limit = limit
attempts (i ∷ retained) removed preview limit = 2 * suc (length retained) + length removed + 1

attempts_left : Attempt → ℕ
unfolding attempts
attempts_left a = attempts a.retained a.removed a.include_preview a.summary_item_limit

attempts-bound :
    (retained removed : List ℕ) (preview : Bool) (limit : ℕ)
    → limit ≤ length removed
    → attempts retained removed preview limit ≤ 2 * length retained + length removed + 1
unfolding attempts
attempts-bound [] removed true limit h = omega arith
attempts-bound [] removed false limit h = omega arith
attempts-bound (i ∷ retained) removed preview limit h = omega arith

same_left : {a b : Attempt} {n : ℕ} → some a ≡ some b → attempts_left a < n → attempts_left b < n
same_left {n = n} e h = subst (λ z. attempts_left z < n) (some_inj e) h

give_way-fewer :
    (retained removed : List ℕ) (preview : Bool) (limit : ℕ) {next : Attempt}
    → give_way retained removed preview limit ≡ some next
    → attempts_left next < attempts retained removed preview limit
unfolding give_way attempts_left attempts
give_way-fewer [] removed true limit h = same_left h (omega arith)
give_way-fewer [] removed false zero h = cc
give_way-fewer [] removed false (suc limit) h = same_left h (omega arith)
give_way-fewer (i ∷ retained) removed preview limit h = same_left h (
    omega (
      arith,
      length-insert_sorted i removed,
      attempts-bound retained (insert_sorted i removed) preview (length (insert_sorted i removed))
          (omega arith),
    ))

fewer-fuel :
    (a next : Attempt) {fuel : ℕ}
    → give_way a.retained a.removed a.include_preview a.summary_item_limit ≡ some next
    → attempts_left a < suc fuel
    → attempts_left next < fuel
unfolding attempts_left
fewer-fuel a next e h =
    omega (arith, h, give_way-fewer a.retained a.removed a.include_preview a.summary_item_limit e)

-- Either the observations that were built fit, or none are returned.
unfoldable pub Fits : Library → ℕ → Compacted → Type 0
Fits lib token_budget c = estimate_tokens lib.count (array c.observations) ≤ token_budget

abbrev pub Settles : Library → (budget : ℕ) → Option Compacted → Type 0
Settles lib token_budget result = (c : Compacted) × (result ≡ some c) × Fits lib token_budget c

gives_up-Fits :
    (lib : Library) (token_budget : ℕ) (a : Attempt)
    → Fits lib token_budget
        (record { observations = []; retained = a.retained; removed = a.removed })
unfolding Fits estimate_tokens
gives_up-Fits lib token_budget a = omega arith

compact_loop-Settles :
    (lib : Library) (fuel : ℕ) (observations : List Json) (token_budget : ℕ) (a : Attempt)
    → attempts_left a < fuel
    → Settles lib token_budget (compact_loop lib fuel observations token_budget a)
unfolding compact_loop Fits
compact_loop-Settles lib zero observations token_budget a h = absurd (omega arith)
compact_loop-Settles lib (suc fuel) observations token_budget a h =
    elim (Bool-cases
      (leb (estimate_tokens lib.count (array (built lib observations a))) token_budget)) [
        | inl t ↦ rw (t, compact_loop) (_, refl, leb→le _ _ t)
        | inr f ↦
            rw (f, compact_loop)
              (elim (Option-cases
                (give_way a.retained a.removed a.include_preview a.summary_item_limit)) [
                  | inl e ↦ rw e (_, refl, gives_up-Fits lib token_budget a)
                  | inr (next, e) ↦ rw e (
                      compact_loop-Settles lib fuel observations token_budget next
                        (fewer-fuel a next e h))
                ])
      ]

kept-le : (none_left : Bool) (n m : ℕ) → (if none_left then 0 else min n m) ≤ m
kept-le none_left n m = ground arith

first_attempt-fuel :
    (lib : Library) (observations : List Json) (token_budget : ℕ)
    → attempts_left (first_attempt lib observations token_budget) < compaction_fuel observations
unfolding attempts_left first_attempt compaction_fuel
first_attempt-fuel lib observations token_budget =
    let count = length observations in
    let trimmed = lib.trim_last token_budget observations in
    let kept = if token_budget == 0 then 0 else min trimmed count in
    let retained = range_from (count - kept) kept in
    let removed = keep (λ i. not (any (λ j. j == i) retained)) (range_from 0 count) in
    omega (
      arith,
      attempts-bound retained removed true (length removed) (omega arith),
      length-range_from (count - kept) kept,
      length-keep-le (λ i. not (any (λ j. j == i) retained)) (range_from 0 count),
      length-range_from 0 count,
      kept-le (token_budget == 0) trimmed count,
    )

-- Compaction always ends, and the observations that it returns are within the token budget,
-- whatever the messages that `trim_messages` keeps and however tokens are counted.
pub compact_observations-Settles :
    (lib : Library) (observations : List Json) (token_budget : ℕ)
    → Settles lib token_budget (compact_observations lib observations token_budget)
unfolding compact_observations
compact_observations-Settles lib observations token_budget =
    compact_loop-Settles lib (compaction_fuel observations) observations token_budget
      (first_attempt lib observations token_budget)
      (first_attempt-fuel lib observations token_budget)
