-- ===== src/Memory/Decision/Accepted.antt =====
-- What an accepted candidate has passed.
use careerops_agent.Shared.{
  ◌≤◌, String, ◌≡◌, ◌≢◌, refl, Bool, true, false, Option, none, some, List, [], ◌∷◌, ◌++◌, any,
  if◌then◌else◌, ltb, is_some, arith, ltb-false, first,
}
use careerops_agent.Shared.Text.{strip}
use careerops_agent.Context.Json.{char_count}
use careerops_agent.Tool.Rows.{Json, ToolCallRecord}
use careerops_agent.Run.Rows.{AgentRun, RunStep}
use careerops_agent.Context.Task.{PlannedTask}
use careerops_agent.Memory.Rows.{AgentMemory, MemoryDb}
use careerops_agent.Memory.Candidate.{MemoryCandidate, Evidence, TraceRow}
use careerops_agent.Memory.Rules.{
  runtime_provenance, tool_provenance_found, user_input_provenance, TextLibrary, secret_patterns,
  Verdict, accept, needs_review, reject, is_reject, is_needs_review, scope_reasons,
  validate_provenance, find_duplicate,
}
use careerops_agent.Memory.Decision.{reason_if, reject_reasons, weigh, evaluate_rules}

append-nil_parts {ℓ} : {A : Type ℓ} (xs ys : List A) → xs ++ ys ≡ [] → (xs ≡ []) × (ys ≡ [])
append-nil_parts [] ys h = (refl, h)
append-nil_parts (x ∷ xs) ys h = cc

reason_if-nil : (b : Bool) (r : String) → reason_if b r ≡ [] → b ≡ false
unfolding reason_if
reason_if-nil true r h = cc
reason_if-nil false r h = refl

parts-nil :
    (scope proof : List String) (b b' b'' : Bool) (r r' r'' : String)
    → scope ++ proof ++ reason_if b r ++ reason_if b' r' ++ reason_if b'' r'' ≡ []
    → (scope ≡ []) × (proof ≡ []) × (b ≡ false) × (b' ≡ false) × (b'' ≡ false)
parts-nil scope proof b b' b'' r r' r'' h =
    let (rest, fifth) = append-nil_parts _ (reason_if b'' r'') h in
    let (rest, fourth) = append-nil_parts _ (reason_if b' r') rest in
    let (rest, third) = append-nil_parts _ (reason_if b r) rest in
    let (first, second) = append-nil_parts scope proof rest in
    (first, second, reason_if-nil _ _ third, reason_if-nil _ _ fourth, reason_if-nil _ _ fifth)

pub record Passes (lib : TextLibrary) (seen : Evidence) (task : PlannedTask) (c : MemoryCandidate)
    : Type 0 where
  pub in_scope : scope_reasons seen task c ≡ []
  pub proven : (validate_provenance lib seen task c).0 ≡ accept
  pub informative : 24 ≤ char_count (strip c.relevance_text)
  pub no_secret : any (λ p. lib.search p (strip c.relevance_text)) secret_patterns ≡ false

weigh-accept :
    (c : MemoryCandidate) (verdict : Verdict) (reasons : List String)
    (duplicate : Option AgentMemory) (against : List String)
    → (weigh c (verdict, reasons) duplicate against).decision ≡ accept
    → (against ≡ []) × (is_needs_review verdict ≡ false)
unfolding weigh
weigh-accept c verdict reasons duplicate (r ∷ against) h = cc
weigh-accept c accept reasons duplicate [] h = (refl, refl)
weigh-accept c needs_review reasons duplicate [] h = cc
weigh-accept c reject reasons duplicate [] h = (refl, refl)

-- Every verdict on a provenance comes with a reason.
runtime_reason :
    (task : PlannedTask) (p : Json) (o : Option AgentRun) → (runtime_provenance task p o).1 ≢ []
unfolding runtime_provenance
runtime_reason task p none h = cc
runtime_reason task p (some run) h = ground arith

tool_reason :
    (seen : Evidence) (task : PlannedTask) (source : String) (p : Json) (r : Option AgentRun)
    (s : Option RunStep) (t : Option ToolCallRecord)
    → (tool_provenance_found seen task source p r s t).1 ≢ []
unfolding tool_provenance_found
tool_reason seen task source p none s t h = cc
tool_reason seen task source p (some r) none t h = cc
tool_reason seen task source p (some r) (some s) none h = cc
tool_reason seen task source p (some r) (some s) (some t) h = ground arith

user_reason :
    (lib : TextLibrary) (task : PlannedTask) (p : Json) (o : Option TraceRow)
    → (user_input_provenance lib task p o).1 ≢ []
unfolding user_input_provenance
user_reason lib task p none h = cc
user_reason lib task p (some t) h = ground arith

if_reason :
    (b : Bool) (v w : Verdict × List String) → v.1 ≢ [] → w.1 ≢ [] → (if b then v else w).1 ≢ []
if_reason true v w p q = p
if_reason false v w p q = q

some_reason : (r : String) → r ∷ [] ≢ []
some_reason r = λ h. cc

validate_reason :
    (lib : TextLibrary) (seen : Evidence) (task : PlannedTask) (c : MemoryCandidate)
    → (validate_provenance lib seen task c).1 ≢ []
unfolding validate_provenance
validate_reason lib seen task c =
    let p = c.provenance in
    search (if_reason, some_reason, runtime_reason, tool_reason, user_reason)

proven_by :
    (v : Verdict × List String)
    → v.1 ≢ []
    → (if is_reject v.0 then v.1 else []) ≡ []
    → is_needs_review v.0 ≡ false
    → v.0 ≡ accept
proven_by (accept, reasons) s h n = refl
proven_by (needs_review, reasons) s h n = cc
proven_by (reject, reasons) s h n = absurd (s h)

-- No reason against a candidate: none of the five tests found one.
reject_reasons-nil :
    (lib : TextLibrary) (seen : Evidence) (task : PlannedTask) (c : MemoryCandidate)
    (v : Verdict × List String) (d : Option AgentMemory)
    → reject_reasons lib seen task c v d ≡ []
    → (scope_reasons seen task c ≡ [])
      × ((if is_reject v.0 then v.1 else []) ≡ [])
      × (ltb (char_count (strip c.relevance_text)) 24 ≡ false)
      × (any (λ p. lib.search p (strip c.relevance_text)) secret_patterns ≡ false)
      × (is_some d ≡ false)
unfolding reject_reasons
reject_reasons-nil lib seen task c (verdict, reasons) d h =
    parts-nil (scope_reasons seen task c) (if is_reject verdict then reasons else [])
      (ltb (char_count (strip c.relevance_text)) 24)
      (any (λ p. lib.search p (strip c.relevance_text)) secret_patterns) (is_some d)
      "insufficient_information" "contains_sensitive_value" "duplicate_content" h

none_found : (o : Option AgentMemory) → is_some o ≡ false → o ≡ none
none_found none h = refl
none_found (some m) h = cc

-- The rules accept a candidate only if its scope fits the task, its provenance is verified, its text
-- has at least 24 characters and no pattern of a secret occurs in it; and if duplicates are
-- checked, only if no stored memory has its content.
pub evaluate_rules-Passes :
    (lib : TextLibrary) (db : MemoryDb) (seen : Evidence) (task : PlannedTask) (c : MemoryCandidate)
    (check_duplicate : Bool)
    → (evaluate_rules lib db seen task c check_duplicate).decision ≡ accept
    → Passes lib seen task c
      × ((if check_duplicate then find_duplicate lib db task c else none) ≡ none)
unfolding evaluate_rules reject_reasons
evaluate_rules-Passes lib db seen task c check h =
    let v = validate_provenance lib seen task c in
    let d = if check then find_duplicate lib db task c else none in
    let (none_against, decided) = weigh-accept c v.0 v.1 d (reject_reasons lib seen task c v d) h in
    let (scope, proof, long, no_secret, novel) =
      reject_reasons-nil lib seen task c v d none_against in
    (
      record {
        in_scope = scope;
        proven = proven_by v (validate_reason lib seen task c) proof decided;
        informative = ltb-false (char_count (strip c.relevance_text)) 24 long;
        no_secret = no_secret;
      },
      none_found d novel,
    )

weigh-candidate :
    (c : MemoryCandidate) (verdict : Verdict × List String) (duplicate : Option AgentMemory)
    (against : List String)
    → (weigh c verdict duplicate against).candidate ≡ c
unfolding weigh
weigh-candidate c (verdict, reasons) duplicate (r ∷ against) = refl
weigh-candidate c (accept, reasons) duplicate [] = refl
weigh-candidate c (needs_review, reasons) duplicate [] = refl
weigh-candidate c (reject, reasons) duplicate [] = refl

pub evaluate_rules-candidate :
    (lib : TextLibrary) (db : MemoryDb) (seen : Evidence) (task : PlannedTask) (c : MemoryCandidate)
    (check_duplicate : Bool)
    → (evaluate_rules lib db seen task c check_duplicate).candidate ≡ c
unfolding evaluate_rules
evaluate_rules-candidate lib db seen task c check = search weigh-candidate
