-- ===== src/ControlPlane/Policy/Rules.antt =====
-- core/policies/policy.py, and how control_plane/policy/engine.py picks the rule that decides. The
-- times of a rule are not modelled; a priority is a natural number.
use kitematic.Base.{
  same_list, starts_with, codes, ℕ, String, ◌<>◌, is_empty, Bool, true, false, ◌&&◌, ◌||◌, Option,
  none, some, List, [], ◌∷◌, ◌++◌, select, leb, length, ◌==◌, if◌then◌else◌,
}

pub data PolicyEffect : Type 0 where
  allow deny require_approval : PolicyEffect

pub data PolicyStatus : Type 0 where
  active inactive deprecated : PolicyStatus

pub record PolicyRule : Type 0 where
  pub policy_id : String
  pub tenant_id : String
  pub name : String
  pub target : String
  pub effect : PolicyEffect
  pub condition : Option String
  pub priority : ℕ
  pub status : PolicyStatus
  pub required_capabilities : List String

abbrev require_field : String → String → List String
require_field field text = if is_empty field then text ∷ [] else []

unfoldable pub validate_rule : PolicyRule → List String
validate_rule r =
    require_field r.policy_id "policy_id is required"
    ++ require_field r.target "target is required (e.g. 'mcp.database.*')"
    ++ require_field r.name "name is required"

unfoldable pub rule_is_valid : PolicyRule → Bool
unfolding validate_rule
rule_is_valid r = length (validate_rule r) == 0

pub record PolicyEvaluation : Type 0 where
  pub request_id : String
  pub decision : PolicyEffect
  pub matched_rule : Option String
  pub reason : String
  pub audit_log_ref : Option String

unfoldable pub is_allowed : PolicyEvaluation → Bool
is_allowed e = elim e.decision [ allow ↦ true | deny ↦ false | require_approval ↦ false ]

unfoldable pub is_denied : PolicyEvaluation → Bool
is_denied e = elim e.decision [ allow ↦ false | deny ↦ true | require_approval ↦ false ]

unfoldable pub requires_approval : PolicyEvaluation → Bool
requires_approval e = elim e.decision [ allow ↦ false | deny ↦ false | require_approval ↦ true ]

-- `target[:-2]` if the target ends in ".*", on codes
unfoldable pub wildcard_prefix : List ℕ → Option (List ℕ)
wildcard_prefix [] = none
wildcard_prefix (c ∷ s) =
    let rest = wildcard_prefix s in
    if same_list (c ∷ s) (46 ∷ 42 ∷ [])
    then some []
    else elim rest [ none ↦ none | some prefix ↦ some (c ∷ prefix) ]

abbrev by_prefix : Option (List ℕ) → (target resource : List ℕ) → Bool
by_prefix none target resource = same_list target resource
by_prefix (some prefix) target resource =
    same_list resource prefix || starts_with (prefix ++ 46 ∷ []) resource

unfoldable pub codes_match : (target resource : List ℕ) → Bool
codes_match target resource =
    if same_list target (42 ∷ []) then true else by_prefix (wildcard_prefix target) target resource

-- `_target_matches`
unfoldable pub target_matches : (target resource : String) → Bool
unfolding codes_match
target_matches target resource = codes_match (codes target) (codes resource)

unfoldable pub is_active : PolicyStatus → Bool
is_active active = true
is_active _ = false

-- what the loop over the rules keeps
unfoldable pub applies : String → PolicyRule → Bool
unfolding is_active target_matches
applies resource r = is_active r.status && target_matches r.target resource

unfoldable pub insert_by_priority : PolicyRule → List PolicyRule → List PolicyRule
insert_by_priority r [] = r ∷ []
insert_by_priority r (s ∷ rules) =
    let rest = insert_by_priority r rules in
    if leb r.priority s.priority then r ∷ s ∷ rules else s ∷ rest

-- `sort(key=lambda r: r.priority)`, which keeps the order of equal priorities
unfoldable pub sort_by_priority : List PolicyRule → List PolicyRule
unfolding insert_by_priority
sort_by_priority [] = []
sort_by_priority (r ∷ rules) = insert_by_priority r (sort_by_priority rules)

-- The three keys of a decision.
pub record Decision : Type 0 where
  pub decision : PolicyEffect
  pub matched_rule : Option String
  pub reason : String

abbrev pub no_rule : Decision
no_rule = record { decision = allow; matched_rule = none; reason = "No matching policy rule found" }

abbrev pub decided_by : PolicyRule → Decision
decided_by best = record {
  decision = best.effect;
  matched_rule = some best.policy_id;
  reason = "Matched rule: " <> best.name;
}

unfoldable pub decision_of : List PolicyRule → Decision
decision_of [] = no_rule
decision_of (best ∷ _) = decided_by best

-- the decision of the rules for a resource
unfoldable pub decide : List PolicyRule → String → Decision
unfolding applies sort_by_priority decision_of
decide rules resource = decision_of (sort_by_priority (select (applies resource) rules))
