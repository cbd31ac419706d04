-- ===== src/Marketplace/Checks.antt =====
-- control_plane/governance/marketplace/: governance/security_checker.py, enterprise/policy_enforcer.py
-- and domain/publisher.py. The rules of both checks are placeholders in the code, and pass always.
use kitematic.Base.{
  ◌<>◌, String, str_eq, Bool, true, false, ◌&&◌, ◌==◌, Option, some, List, [], ◌∷◌, ◌++◌, length,
  select, if◌then◌else◌,
}

pub record SecurityFinding : Type 0 where
  pub severity : String
  pub category : String
  pub description : String

pub record SecurityScanResult : Type 0 where
  pub passed : Bool
  pub findings : List SecurityFinding

abbrev pub Rule : Type 0 → Type 0
Rule P = P → List SecurityFinding

unfoldable pub findings_of : {P : Type 0} → List (Rule P) → P → List SecurityFinding
findings_of [] content = []
findings_of (rule ∷ rules) content = rule content ++ findings_of rules content

abbrev none_of_severity : String → List SecurityFinding → Bool
none_of_severity severity fs = length (select (λ f. str_eq f.severity severity) fs) == 0

unfoldable pub scan_with : {P : Type 0} → List (Rule P) → P → SecurityScanResult
unfolding findings_of
scan_with rules content =
    let findings = findings_of rules content in
    record {
      passed = none_of_severity "CRITICAL" findings && none_of_severity "HIGH" findings;
      findings = findings;
    }

unfoldable pub check_malware_signatures : {P : Type 0} → Rule P
check_malware_signatures content = []

unfoldable pub check_permissions : {P : Type 0} → Rule P
check_permissions content = []

unfoldable pub check_data_exfiltration : {P : Type 0} → Rule P
check_data_exfiltration content = []

unfoldable pub check_vulnerabilities : {P : Type 0} → Rule P
check_vulnerabilities content = []

unfoldable pub scan_extension : {P : Type 0} → P → SecurityScanResult
unfolding check_malware_signatures check_permissions check_data_exfiltration check_vulnerabilities
    scan_with
scan_extension content =
    scan_with
      (check_malware_signatures ∷ check_permissions ∷ check_data_exfiltration
        ∷ check_vulnerabilities ∷ [])
      content

pub record EnterpriseRule : Type 0 where
  pub rule_id : String
  pub name : String
  pub description : String
  pub effect : String
  pub actions : List String

unfoldable pub check_rule : {C : Type 0} → EnterpriseRule → C → Bool
check_rule rule context = true

unfoldable pub enforce : {C : Type 0} → List EnterpriseRule → C → Bool × List String
unfolding check_rule
enforce [] context = (true, [])
enforce (rule ∷ rules) context =
    let rest = enforce rules context in
    if check_rule rule context
    then rest
    else (false, ("Policy violation: " <> rule.name <> " - " <> rule.description) ∷ [])

pub data PublisherStatus : Type 0 where
  pending_verification verified suspended revoked : PublisherStatus

pub record MarketplacePublisher : Type 0 where
  pub publisher_id : String
  pub name : String
  pub email : String
  pub status : PublisherStatus
  pub verified_at : Option String
  pub created_at : String
  pub updated_at : String

-- The clock is read twice.
unfoldable pub verify_publisher : (now later : String) → MarketplacePublisher → MarketplacePublisher
verify_publisher now later p = record p {
  status = verified;
  verified_at = some now;
  updated_at = later;
}

unfoldable pub suspend_publisher : (now : String) → MarketplacePublisher → MarketplacePublisher
suspend_publisher now p = record p { status = suspended; updated_at = now }
