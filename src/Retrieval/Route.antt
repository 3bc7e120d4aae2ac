-- ===== src/Retrieval/Route.antt =====
-- app/services/retrieval_router.py
use careerops_agent.Shared.{
  ℕ, String, Bool, not, ◌&&◌, List, [], length, leb, if◌then◌else◌, ◌==◌, Eq_nat,
}

abbrev pub max_identifier_lookup_tokens : ℕ
max_identifier_lookup_tokens = 8

pub record RetrievalRouteDecision : Type 0 where
  pub strategy : String
  pub reason : String
  pub signals : List String

-- `choose_retrieval_route`, of the matches of its two patterns.
unfoldable pub choose_retrieval_route :
    (find_identifiers find_tokens : String → List String)
    → (query : String) (embedding_available : Bool) → RetrievalRouteDecision
choose_retrieval_route find_identifiers find_tokens query embedding_available =
    let identifiers = find_identifiers query in
    let token_count = length (find_tokens query) in
    if not embedding_available
    then record { strategy = "lexical"; reason = "embedding_provider_unavailable"; signals = [] }
    else if not (length identifiers == 0) && leb token_count max_identifier_lookup_tokens
    then record {
      strategy = "lexical";
      reason = "short_exact_identifier_lookup";
      signals = identifiers;
    }
    else record { strategy = "hybrid"; reason = "default_recall_route"; signals = identifiers }
