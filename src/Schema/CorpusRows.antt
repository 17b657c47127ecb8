-- ===== src/Schema/CorpusRows.antt =====
-- packages/db/schema/corpus.ts: the rows of the corpus.
use compliance_data_layer.Base.{ℕ, Bool, Option}
use compliance_data_layer.Base.Texts.{Text}
use compliance_data_layer.Schema.Unions.{
  FailureClass, Severity, Verdict, FlowDirection, ValidationStage, LineCountBucket, ValueShape,
}

pub record Specification : Type 0 where
  pub spec_id : Text
  pub jurisdiction : Text
  pub name : Text
  pub version : Text
  pub effective_from : ℕ

pub record Rule : Type 0 where
  pub rule_id : Text
  pub spec_id : Text
  pub native_rule_code : Text
  pub severity : Severity
  pub business_term : Option Text
  pub xpath_context : Option Text
  pub failure_class : FailureClass
  pub assert_text : Text
  pub canonical_text_hash : Text

pub record SourceSystem : Type 0 where
  pub sys_id : Text
  pub vendor : Text
  pub product : Text

pub record CorpusTenant : Type 0 where
  pub tenant_hash : Text
  pub sector_code : Option Text
  pub size_band : Option Text
  pub country : Text

pub record CorpusEntity : Type 0 where
  pub entity_hash : Text
  pub tenant_hash : Text
  pub jurisdiction : Text
  pub sys_id : Option Text
  pub entity_size_band : Option Text
  pub scenario_profile : Text

pub record CorpusCounterparty : Type 0 where
  pub counterparty_hash : Text
  pub jurisdiction : Text
  pub size_band : Option Text
  pub sector_code : Option Text

pub record CorpusDocument : Type 0 where
  pub doc_hash : Text
  pub entity_hash : Text
  pub counterparty_hash : Option Text
  pub direction : FlowDirection
  pub doc_type : Text
  pub scenario : Text
  pub currency : Text
  pub line_count_bucket : LineCountBucket
  pub has_allowance_charge : Bool
  pub has_multi_tax_rate : Bool

pub record ValidationEvent : Type 0 where
  pub doc_hash : Text
  pub entity_hash : Text
  pub direction : FlowDirection
  pub spec_id : Text
  pub spec_version : Text
  pub ruleset_hash : Text
  pub stage : ValidationStage
  pub validator : Text
  pub outcome : Verdict
  pub rule_id : Option Text
  pub business_term : Option Text
  pub xpath : Option Text
  pub failure_class : Option FailureClass
  pub value_shape : Option ValueShape
  pub attempt_number : ℕ
  pub recurrence_key : Text
