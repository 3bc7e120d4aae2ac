-- ===== src/Http/Responses.antt =====
-- What a route of app/main.py answers.
use careerops_agent.Shared.{ℕ, String}

-- A value, or an `HTTPException`.
pub data Response {ℓ} (A : Type ℓ) : Type ℓ where
  reply : A → Response A
  http_error : (status_code : ℕ) (detail : String) → Response A
