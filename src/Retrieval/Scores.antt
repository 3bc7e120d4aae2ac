-- ===== src/Retrieval/Scores.antt =====
-- The scores of app/services/hybrid_retrieval.py and app/services/memory_similarity.py, which have the
-- same code for them.
use careerops_agent.Shared.{
  ℕ, String, Bool, not, ◌||◌, List, [], ◌∷◌, ◌++◌, map, keep, any, length, if◌then◌else◌, ◌==◌,
  Eq_nat, Eq_text, Result, ok, value_error,
}
use careerops_agent.Tool.Rows.{Json}

-- Python's floating point numbers: `below` and `same` are `<` and `==`, and `rounded` is the value of
-- `round(x, 6)` in a result.
pub record Floats (F : Type 0) : Type 0 where
  pub of_nat : ℕ → F
  pub plus : F → F → F
  pub times : F → F → F
  pub over : F → F → F
  pub sqrt : F → F
  pub below : F → F → Bool
  pub same : F → F → Bool
  pub rounded : F → Json

-- `TOKEN_PATTERN.findall` and `str.lower`.
pub record TokenLibrary : Type 0 where
  pub find_tokens : String → List String
  pub lower : String → String

-- A set, as the list of its elements.
pub elements : List String → List String
elements [] = []
elements (x ∷ xs) = x ∷ keep (λ y. not (y == x)) (elements xs)

abbrev is_in : List String → String → Bool
is_in xs x = any (λ y. y == x) xs

-- `_tokens`
unfoldable pub tokens : TokenLibrary → String → List String
unfolding elements
tokens t value = elements (map t.lower (t.find_tokens value))

module _ {F : Type 0} (fl : Floats F) where
  -- `_jaccard`, of two sets.
  unfoldable pub jaccard : (left right : List String) → F
  unfolding elements
  jaccard left right =
      let both = length (keep (is_in right) left) in
      let union = length (elements (left ++ right)) in
      if union == 0 then fl.of_nat 0 else fl.over (fl.of_nat both) (fl.of_nat union)

  pub sum_of_products : (left right : List F) → F → F
  sum_of_products (a ∷ left) (b ∷ right) sum =
      sum_of_products left right (fl.plus sum (fl.times a b))
  sum_of_products left right sum = sum

  pub norm : List F → F
  unfolding sum_of_products
  norm v = fl.sqrt (sum_of_products v v (fl.of_nat 0))

  -- `_cosine`
  unfoldable pub cosine : (left right : List F) → Result F
  unfolding sum_of_products norm
  cosine left right =
      if not (length left == length right) || length left == 0
      then value_error "embedding vectors must have equal non-zero dimensions"
      else if fl.same (norm left) (fl.of_nat 0) || fl.same (norm right) (fl.of_nat 0)
      then value_error "embedding vectors must have non-zero norms"
      else ok
          (fl.over (sum_of_products left right (fl.of_nat 0)) (fl.times (norm left) (norm right)))
