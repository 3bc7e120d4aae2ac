-- ===== src/Context/Compaction.antt =====
-- app/services/context_compaction.py: old observations become a summary until the rest fits.
pub mod Fits
use careerops_agent.Shared.{
  ℕ, zero, suc, ◌+◌, ◌-◌, ◌*◌, ◌≤◌, String, Bool, true, false, not, ◌&&◌, ◌||◌, Option, none, some,
  List, [], ◌∷◌, ◌++◌, map, keep, any, length, drop, get_elem?, ltb, leb, if◌then◌else◌, ◌==◌,
  Eq_nat, or_else, min,
}
use careerops_agent.Tool.Rows.{Json, null, num, str, obj, Fields, end, field}
use careerops_agent.Context.Json.{is_empty, get, array, preview}
use careerops_agent.Context.Budget.{estimate_tokens}
use careerops_agent.Context.Task.{PlannedTask, execution_context, context_with}

abbrev pub default_recent_observation_tokens : ℕ
default_recent_observation_tokens = 384

-- `range(start, start + count)`
unfoldable pub range_from : (start count : ℕ) → List ℕ
range_from start zero = []
range_from start (suc n) = start ∷ range_from (suc start) n

-- `list.append` and then `list.sort`, on a sorted list.
pub insert_sorted : ℕ → List ℕ → List ℕ
insert_sorted x [] = x ∷ []
insert_sorted x (y ∷ ys) = let rest = insert_sorted x ys in if leb x y then x ∷ y ∷ ys else y ∷ rest

-- `observations[index]`, for an index in range.
abbrev pub observation_at : List Json → ℕ → Json
observation_at observations i = or_else (get_elem? observations i) null

abbrev pub is_null : Json → Bool
is_null null = true
is_null _ = false

-- The variables of the loop of `_compact_observations`.
pub record Attempt : Type 0 where
  pub retained : List ℕ
  pub removed : List ℕ
  pub include_preview : Bool
  pub summary_item_limit : ℕ

-- What the loop changes when the attempt does not fit: `none` gives up.
pub give_way : List ℕ → List ℕ → Bool → ℕ → Option Attempt
unfolding insert_sorted
give_way (i ∷ retained) removed include_preview limit = some (record {
  retained = retained;
  removed = insert_sorted i removed;
  include_preview = include_preview;
  summary_item_limit = length (insert_sorted i removed);
})
give_way [] removed true limit = some (record {
  retained = [];
  removed = removed;
  include_preview = false;
  summary_item_limit = limit;
})
give_way [] removed false (suc limit) = some (record {
  retained = [];
  removed = removed;
  include_preview = false;
  summary_item_limit = limit;
})
give_way [] removed false zero = none

pub record Compacted : Type 0 where
  pub observations : List Json
  pub retained : List ℕ
  pub removed : List ℕ

-- What the code uses of other libraries: the token count of a serialized value, the text of
-- `json.dumps`, and how many of the last messages `trim_messages` keeps in a budget.
pub record Library : Type 0 where
  pub count : Json → ℕ
  pub dumps : Json → String
  pub trim_last : (max_tokens : ℕ) → List Json → ℕ

-- An attempt for each observation given up, for the previews and for each summary item.
pub compaction_fuel : List Json → ℕ
compaction_fuel observations = 3 * length observations + 2

module _ (lib : Library) where
  -- One entry of the summary.
  summary_item : Bool → Json → Json
  unfolding get preview
  summary_item include_preview o =
      let shown =
        preview lib.dumps 160
          (if is_null (get "output" o) then get "error" o else get "output" o) in
      obj (
        field "tool_call_id" (get "tool_call_id" o) (
          field "trace_id" (get "trace_id" o) (
            field "plan_step_id" (get "plan_step_id" o) (
              field "tool_name" (get "tool_name" o) (
                field "status" (get "status" o)
                  (if include_preview then field "outcome_preview" shown end else end))))))

  -- `observations[-item_limit:] if item_limit else []`
  summarized : List Json → ℕ → List Json
  summarized observations item_limit =
      if item_limit == 0 then [] else drop (length observations - item_limit) observations

  summarize_observations : List Json → Bool → ℕ → Json
  unfolding summary_item summarized
  summarize_observations observations include_preview item_limit =
      let shown = summarized observations item_limit in
      obj (
        field "observation_count" (num (length observations)) (
          field "omitted_detail_count" (num (length observations - length shown))
            (field "items" (array (map (summary_item include_preview) shown)) end)))

  -- `_build_compacted_observations`
  pub build_compacted : List Json → (retained removed : List ℕ) → Bool → ℕ → List Json
  unfolding summarize_observations
  build_compacted observations retained [] include_preview item_limit =
      map (observation_at observations) retained
  build_compacted observations retained (i ∷ removed) include_preview item_limit =
      obj (
        field "kind" (str "compacted_observation_summary") (
          field "summary"
            (summarize_observations (map (observation_at observations) (i ∷ removed))
              include_preview item_limit)
            end))
      ∷ map (observation_at observations) retained

  pub built : List Json → Attempt → List Json
  unfolding build_compacted
  built observations a =
      build_compacted observations a.retained a.removed a.include_preview a.summary_item_limit

  -- The `while True` loop, with fuel.
  pub compact_loop : ℕ → List Json → (token_budget : ℕ) → Attempt → Option Compacted
  unfolding built give_way
  compact_loop zero observations token_budget a = none
  compact_loop (suc fuel) observations token_budget a =
      elim (leb (estimate_tokens lib.count (array (built observations a))) token_budget) [
        | true ↦ some (record {
          observations = built observations a;
          retained = a.retained;
          removed = a.removed;
        })
        | false ↦ elim (give_way a.retained a.removed a.include_preview a.summary_item_limit) [
          | none ↦ some (record { observations = []; retained = a.retained; removed = a.removed })
          | some next ↦ compact_loop fuel observations token_budget next
        ]
      ]

  -- `trim_messages` returns the last messages, and nothing without a budget.
  pub first_attempt : List Json → (token_budget : ℕ) → Attempt
  unfolding range_from
  first_attempt observations token_budget =
      let count = length observations in
      let kept =
        if token_budget == 0 then 0 else min (lib.trim_last token_budget observations) count in
      let retained = range_from (count - kept) kept in
      let removed = keep (λ i. not (any (λ j. j == i) retained)) (range_from 0 count) in
      record {
        retained = retained;
        removed = removed;
        include_preview = true;
        summary_item_limit = length removed;
      }

  unfoldable pub compact_observations : List Json → (token_budget : ℕ) → Option Compacted
  unfolding compact_loop first_attempt compaction_fuel
  compact_observations observations token_budget =
      compact_loop (compaction_fuel observations) observations token_budget
        (first_attempt observations token_budget)
