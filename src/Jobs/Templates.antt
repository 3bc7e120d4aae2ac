-- ===== src/Jobs/Templates.antt =====
-- app/services/roadmap.py: the templates of the roadmap.
use careerops_agent.Shared.{String, [], ◌∷◌, Dict}

pub record RoadmapTemplate : Type 0 where
  pub learning_goal : String
  pub project_idea : String
  pub evidence : String

abbrev template : (learning_goal project_idea evidence : String) → RoadmapTemplate
template learning_goal project_idea evidence = record {
  learning_goal = learning_goal;
  project_idea = project_idea;
  evidence = evidence;
}

unfoldable pub default_template : RoadmapTemplate
default_template =
    template
      "Build enough working knowledge to explain the concept and use it in a small Agent project."
      "Create a focused demo that uses this skill in a realistic Agent workflow."
      "GitHub repository with README, tests, and a short demo trace."

unfoldable pub roadmap_templates : Dict RoadmapTemplate
roadmap_templates =
    (
      "Agent Harness",
      template
          "Understand Agent Loop, state management, tool execution, retries, and long-running task control."
          "Build a mini Agent Harness with task state, tool calls, retry handling, and execution logs."
          "Repo with a runnable harness demo, trace examples, and tests for failure recovery.",
    )
    ∷ (
      "Tool Calling",
      template
          "Implement tool registration, argument validation, permission checks, and call logging."
          "Build a Tool Registry that exposes search, read, and write tools to an Agent loop."
          "Unit tests for valid calls, invalid arguments, permission denial, and call history.",
    )
    ∷ (
      "Context Engineering",
      template
          "Learn how to preserve task intent, compress history, and hand off context across long tasks."
          "Build a context compaction module that turns a long Agent trace into a concise task summary."
          "Before/after trace examples plus tests that important constraints survive compaction.",
    )
    ∷ (
      "LLM Evaluation",
      template "Design repeatable checks for task success, latency, cost, and regression behavior."
          "Build a small Agent Eval harness with golden tasks, scoring rules, and a regression report."
          "Evaluation report generated from several sample Agent runs.",
    )
    ∷ (
      "Memory",
      template
          "Understand short-term state, long-term memory, retrieval, and when memory should be updated."
          "Add memory to the mini Agent Harness with explicit read/write rules."
          "Demo showing memory creation, retrieval, update, and refusal to store unsafe or irrelevant data.",
    )
    ∷ (
      "Multi-agent Systems",
      template
          "Learn task decomposition, role boundaries, handoff protocol, and shared state risks."
          "Build a two-agent workflow where a planner creates tasks and an executor runs tool calls."
          "Trace showing planner/executor handoff, shared context, and final verification.",
    )
    ∷ (
      "MCP",
      template
          "Understand how tools and resources are exposed to Agents through a standard protocol."
          "Build a tiny MCP-style server that exposes a job database search tool."
          "Server code, client call examples, and tests for tool schema validation.",
    )
    ∷ (
      "RAG",
      template
          "Learn retrieval, chunking, relevance, citations, and how RAG combines with Agent workflows."
          "Build a JD knowledge search feature that retrieves matching requirements for a target skill."
          "Search examples with retrieved snippets and a short explanation of ranking behavior.",
    )
    ∷ (
      "LangChain",
      template
          "Understand chains, tools, retrievers, and where framework abstractions help or get in the way."
          "Rebuild one mini Agent workflow with LangChain and compare it with your hand-written version."
          "Comparison notes plus tests that both versions complete the same task.",
    )
    ∷ (
      "LangGraph",
      template
          "Model Agent workflows as explicit state graphs with branching, retries, and checkpoints."
          "Build a LangGraph workflow for JD ingestion: parse, validate, dedupe, and save."
          "Graph diagram, runnable workflow, and tests for retry/error paths.",
    )
    ∷ (
      "Go",
      template
          "Gain enough Go backend fluency to read and implement service code in Agent infrastructure teams."
          "Build a small Go HTTP service for tool execution logs."
          "Go service repo with endpoints, tests, and a short load test result.",
    )
    ∷ (
      "Python",
      template
          "Strengthen Python backend, testing, typing, and data processing for Agent applications."
          "Extend CareerOps with one well-tested ingestion or analytics feature."
          "Merged feature with pytest coverage and a clear README example.",
    )
    ∷ []
