-- ===== src/Audit/Validate.antt =====
-- apps/web/modules/audit/validate.ts: what the validation run reads and writes. Every `withTenantAccess` is
-- a transaction of its own, so that a run that throws leaves what it has committed. The sidecar, the hash,
-- the enqueuer and the time of expiry are parameters; the base64 of a request is left out.
pub mod Loading
pub mod Running
pub mod Expected
pub mod Writes
pub mod Runs
mod Tests
use compliance_data_layer.Base.{ℕ, Bool, List, [], ◌∷◌, ◌++◌, map, Option, none, some}
use compliance_data_layer.Base.Texts.{Text, codes}
use compliance_data_layer.Schema.{
  ClientData, FlowDirection, FailureClass, Severity, warning, Verdict, pass, fail, warn, ValueShape,
  Charset, ValidationStage, post_map,
}
use compliance_data_layer.Tenancy.{TenantAccess}
use compliance_data_layer.Corpus.Recurrence.{recurrence_key}
use compliance_data_layer.Mapping.SpecIdentifiers.{SpecIdentifiers}

-- The table `finding` of packages/db/schema/client-data.ts
pub record Finding : Type 0 where
  pub tenant_id : Text
  pub entity_id : Text
  pub run_id : Text
  pub invoice_id : Text
  pub doc_hash : Text
  pub direction : FlowDirection
  pub spec_id : Text
  pub spec_version : Text
  pub ruleset_hash : Text
  pub stage : ValidationStage
  pub validator : Text
  pub outcome : Verdict
  pub rule_id : Option Text
  pub native_rule_code : Option Text
  pub severity : Option Severity
  pub business_term : Option Text
  pub xpath : Option Text
  pub failure_class : Option FailureClass
  pub value_shape : Option ValueShape
  pub message : Option Text
  pub recurrence_key : Text
  pub expires_at : ℕ

pub record FindingStore : Type 0 where
  pub client_data : ClientData
  pub findings : List Finding

-- The contract of the sidecar: an optional member that is missing or null is `none`.
pub record ContractShape : Type 0 where
  pub len : Option ℕ
  pub charset : Option Charset
  pub regex_class : Option Text
  pub expected : Option Text

pub record ContractFinding : Type 0 where
  pub rule_id : Text
  pub severity : Severity
  pub business_term : Option Text
  pub xpath : Option Text
  pub failure_class : Option FailureClass
  pub value_shape : Option ContractShape
  pub message : Option Text

pub record ValidateRequest : Type 0 where
  pub run_id : Text
  pub ubl : Text
  pub profile : Text
  pub spec_version : Text
  pub direction : FlowDirection

pub record ValidateResponse : Type 0 where
  pub spec_version : Text
  pub ruleset_hash : Text
  pub outcome : Verdict
  pub findings : List ContractFinding

-- What a call of the sidecar comes to.
pub data Reply : Type 0 where
  answered : ValidateResponse → Reply
  parse_failed : Reply
  failed : Text → Reply

pub record ValidateRunInput : Type 0 where
  pub run_id : Text
  pub tenant_id : Text
  pub entity_id : Text
  pub actor_id : Text
  pub entity_hash : Text
  pub invoice_ids : List Text
  pub profile : Text
  pub spec_version : Text
  pub direction : FlowDirection
  pub seller_name : Option Text
  pub seller_country : Option Text
  pub buyer_country : Option Text
  pub ubl_identifiers : Option SpecIdentifiers
  pub trace_id : Option Text

pub record ValidatedDocument : Type 0 where
  pub doc_hash : Text
  pub doc_type : Text
  pub scenario : Text
  pub currency : Text
  pub line_count : ℕ
  pub has_allowance_charge : Bool
  pub has_multi_tax_rate : Bool

pub record PersistedFinding : Type 0 where
  pub doc_hash : Text
  pub stage : ValidationStage
  pub outcome : Verdict
  pub rule_id : Option Text
  pub business_term : Option Text
  pub xpath : Option Text
  pub failure_class : Option FailureClass
  pub value_shape : Option ValueShape
  pub message : Option Text

pub record ValidateRunResult : Type 0 where
  pub ruleset_hash : Option Text
  pub documents : List ValidatedDocument
  pub findings : List PersistedFinding
  pub parse_errors : ℕ

abbrev pub to_column_shape : Option ContractShape → Option ValueShape
to_column_shape none = none
to_column_shape (some s) = some (record {
  len = s.len;
  charset = s.charset;
  regex_class = s.regex_class;
  expected = s.expected;
})

abbrev pub pass_row : Text → PersistedFinding
pass_row doc_hash = record {
  doc_hash = doc_hash;
  stage = post_map;
  outcome = pass;
  rule_id = none;
  business_term = none;
  xpath = none;
  failure_class = none;
  value_shape = none;
  message = none;
}

abbrev pub outcome_of : Severity → Verdict → Verdict
outcome_of s document_outcome = elim s [ warning ↦ warn | _ ↦ document_outcome ]

abbrev pub finding_row : Text → Verdict → ContractFinding → PersistedFinding
finding_row doc_hash document_outcome f = record {
  doc_hash = doc_hash;
  stage = post_map;
  outcome = outcome_of f.severity document_outcome;
  rule_id = some f.rule_id;
  business_term = f.business_term;
  xpath = f.xpath;
  failure_class = f.failure_class;
  value_shape = to_column_shape f.value_shape;
  message = f.message;
}

abbrev pub rows_of : Text → Verdict → List ContractFinding → List PersistedFinding
rows_of doc_hash outcome [] = pass_row doc_hash ∷ []
rows_of doc_hash outcome (f ∷ fs) = map (finding_row doc_hash outcome) (f ∷ fs)

module _ (sha256 : Text → Text) (expires_at : ℕ) (input : ValidateRunInput) where
  abbrev pub access : TenantAccess
  access = record {
    tenant_id = input.tenant_id;
    actor_id = input.actor_id;
    reason = codes "audit_delivery";
    trace_id = input.trace_id;
  }

  abbrev pub stored_finding : Text → Text → Text → Text → PersistedFinding → Finding
  stored_finding invoice_id doc_hash spec_version ruleset_hash row = record {
    tenant_id = input.tenant_id;
    entity_id = input.entity_id;
    run_id = input.run_id;
    invoice_id = invoice_id;
    doc_hash = doc_hash;
    direction = input.direction;
    spec_id = input.profile;
    spec_version = spec_version;
    ruleset_hash = ruleset_hash;
    stage = row.stage;
    validator = codes "own_schematron";
    outcome = row.outcome;
    rule_id = row.rule_id;
    native_rule_code = none;
    severity = none;
    business_term = row.business_term;
    xpath = row.xpath;
    failure_class = row.failure_class;
    value_shape = row.value_shape;
    message = row.message;
    recurrence_key = recurrence_key sha256 input.entity_hash row.rule_id row.xpath row.value_shape;
    expires_at = expires_at;
  }

  -- `writeFindings`
  unfoldable pub write_findings :
      Text → Text → Text → Text → List PersistedFinding → FindingStore → FindingStore
  unfolding recurrence_key
  write_findings invoice_id doc_hash spec_version ruleset_hash rows s = record s {
    findings =
        s.findings ++ map (stored_finding invoice_id doc_hash spec_version ruleset_hash) rows;
  }
