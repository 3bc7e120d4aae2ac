-- ===== src/Loop/Model.antt =====
-- app/services/agent_loop.py: the requests that a model answers, and the decisions that it returns.
use Prim.Native.String.{◌++◌ as concat}
use careerops_agent.Shared.{
  ℕ, String, Bool, true, not, ◌&&◌, ◌||◌, Option, none, some, List, [], ◌∷◌, map, length,
  if◌then◌else◌, is_none, ◌==◌, Eq_text,
}
use careerops_agent.Shared.Text.{decimal}
use careerops_agent.Tool.Rows.{Json, null, bool, num, str, arr, obj, Fields, end, field}
use careerops_agent.Context.Json.{get, array}
use careerops_agent.Context.Task.{texts, opt_text}
use careerops_agent.Memory.Candidate.{listed}
use careerops_agent.Run.Rows.{AgentDecision, AgentModelRequest}
pub use careerops_agent.Shared.{Exception, Result, ok, raised, value_error}

-- The `AgentModel` protocol. An answer may be an exception.
pub record AgentModel : Type 0 where
  pub provider : String
  pub model : String
  pub decide : AgentModelRequest → Result AgentDecision

abbrev opt_json : Option Json → Json
opt_json none = null
opt_json (some v) = v

-- `value or {}`
abbrev or_empty : Json → Json
or_empty null = obj end
or_empty v = v

-- `AgentDecision.as_dict`
unfoldable pub decision_dict : AgentDecision → Json
decision_dict d = obj (
    field "action_type" (str d.action_type) (
      field "content" (opt_text d.content) (
        field "tool_name" (opt_text d.tool_name) (
          field "arguments" (opt_json d.arguments) (
            field "call_id" (opt_text d.call_id)
              (field "provider_metadata" (or_empty d.provider_metadata) end))))))

-- `AgentModelRequest.as_dict`, what a model reads.
unfoldable pub request_dict : AgentModelRequest → Json
unfolding get
request_dict r = obj (
    field "task_id" (num r.task_id) (
      field "user_goal" (str r.user_goal) (
        field "constraints" (texts r.constraints) (
          field "success_criteria" (texts r.success_criteria) (
            field "memory_context"
              (obj (field "goal_contract" r.memory_context.goal_contract r.memory_context.others))
              (field "observations" (array r.observations) (
                field "tools" (array (map (get "name") r.tools)) (
                  field "step_number" (num r.step_number) (
                    field "max_steps" (num r.max_steps)
                      (field "execution_context" r.execution_context end))))))))))

-- `len(value.get("skills", []))`, of a list.
abbrev item_count : Json → ℕ
item_count (arr items) = length (listed items)
item_count _ = 0

-- `value.get("count", 0)`, of a number.
abbrev counted : Json → ℕ
counted (num n) = n
counted _ = 0

abbrev demo_call : (tool_name : String) → Fields → (step_number : ℕ) → AgentDecision
demo_call tool_name arguments step_number = record {
  action_type = "tool_call";
  content = none;
  tool_name = some tool_name;
  arguments = some (obj arguments);
  call_id = some (concat "demo-" (decimal step_number));
  provider_metadata = obj (field "deterministic" (bool true) end);
}

-- `DemoAgentModel.decide`
demo_decide : List Json → (step_number : ℕ) → AgentDecision
unfolding decimal get listed
demo_decide [] step_number =
    demo_call "search_jobs" (field "query" (str "Agent") (field "limit" (num 3) end)) step_number
demo_decide (o ∷ []) step_number =
    demo_call "get_skill_demand" (field "limit" (num 5) end) step_number
demo_decide (jobs ∷ skills ∷ more) step_number = record {
  action_type = "final_answer";
  content = some (
      concat "Reviewed " (
        concat (decimal (counted (get "count" (get "output" jobs)))) (
          concat " matching jobs and " (
            concat (decimal (item_count (get "skills" (get "output" skills))))
              " demanded skills. Use the JD evidence to choose the next learning task."))));
  tool_name = none;
  arguments = none;
  call_id = none;
  provider_metadata = obj (field "deterministic" (bool true) end);
}

unfoldable pub demo_agent_model : AgentModel
unfolding demo_decide
demo_agent_model = record {
  provider = "demo";
  model = "careerops-demo-policy-v1";
  decide = λ request. ok (demo_decide request.observations request.step_number);
}

-- `not decision.tool_name`
abbrev lacks_name : Option String → Bool
lacks_name none = true
lacks_name (some name) = name == ""

-- `_validate_decision`
unfoldable pub validate_decision : AgentDecision → Result (Unit {0})
validate_decision d =
    if not (d.action_type == "tool_call") && not (d.action_type == "final_answer")
    then value_error (concat "unsupported model action: " d.action_type)
    else if d.action_type == "tool_call" && (lacks_name d.tool_name || is_none d.arguments)
    then value_error "tool_call action requires tool_name and arguments"
    else ok tt

abbrev configured : (error : String) → Option AgentModel → Result AgentModel
configured error none = value_error error
configured error (some m) = ok m

-- `create_agent_model`. The two clients are the classes of the `openai` package's callers, which may
-- not be configured.
unfoldable pub create_agent_model :
    (openai deepseek : (model : Option String) → Option AgentModel)
    → (provider : String) (model : Option String) → Result AgentModel
unfolding demo_agent_model
create_agent_model openai deepseek provider model =
    if provider == "demo"
    then ok demo_agent_model
    else if provider == "openai"
    then configured "OpenAI provider is not configured; set OPENAI_API_KEY before starting the run"
        (openai model)
    else if provider == "deepseek"
    then configured
        "DeepSeek provider is not configured; set DEEPSEEK_API_KEY or provide a non-empty ds_key.txt"
        (deepseek model)
    else value_error (concat "unknown agent model provider: " provider)
