-- ===== src/Corpus/Record.antt =====
-- apps/web/modules/corpus/record.ts: one transaction that records the findings of a run. The store is
-- the value of the schema's tables; a transaction that throws leaves the store that it was given, so
-- only its result is an `err`. Times and the hash are parameters.
pub mod Tables
pub mod Integrity
pub mod AppendOnly
mod Tests
use compliance_data_layer.Base.{
  ℕ, ◌≡◌, Bool, true, false, not, ◌&&◌, List, [], ◌∷◌, ◌++◌, map, Option, none, some, Result, ok,
  err, ◌>>=◌, ◌>>◌, throw_if, any, length, or_else, or_option, if◌then◌else◌,
}
use compliance_data_layer.Base.Texts.{Text, codes, text_eq}
use compliance_data_layer.Schema.{
  ValueShape, FailureClass, FlowDirection, ValidationStage, Verdict, Specification, Rule,
  SourceSystem, CorpusTenant, CorpusEntity, CorpusCounterparty, CorpusDocument, ValidationEvent,
  Severity,
}
use compliance_data_layer.Corpus.Redaction.{assert_redacted, RedactionFailure}
use compliance_data_layer.Corpus.Recurrence.{recurrence_key, line_count_bucket}
use compliance_data_layer.Corpus.Record.Tables.{has, insert_new}

pub record CorpusFindingInput : Type 0 where
  pub doc_hash : Text
  pub stage : ValidationStage
  pub outcome : Verdict
  pub rule_id : Option Text
  pub business_term : Option Text
  pub xpath : Option Text
  pub failure_class : Option FailureClass
  pub value_shape : Option ValueShape
  pub message : Option Text
  pub attempt : Option ℕ

pub record CorpusDocumentInput : Type 0 where
  pub doc_hash : Text
  pub doc_type : Text
  pub scenario : Text
  pub currency : Text
  pub line_count : ℕ
  pub has_allowance_charge : Bool
  pub has_multi_tax_rate : Bool
  pub counterparty_hash : Option Text

pub record RecordCorpusInput : Type 0 where
  pub tenant_hash : Text
  pub entity_hash : Text
  pub jurisdiction : Text
  pub country : Text
  pub sector_code : Option Text
  pub size_band : Option Text
  pub scenario_profile : Text
  pub sys_id : Option Text
  pub direction : FlowDirection
  pub spec_id : Text
  pub spec_name : Text
  pub spec_version : Text
  pub ruleset_hash : Text
  pub documents : List CorpusDocumentInput
  pub findings : List CorpusFindingInput
  pub counterparty_hash : Option Text

pub record Store : Type 0 where
  pub specifications : List Specification
  pub rules : List Rule
  pub source_systems : List SourceSystem
  pub tenants : List CorpusTenant
  pub entities : List CorpusEntity
  pub counterparties : List CorpusCounterparty
  pub documents : List CorpusDocument
  pub events : List ValidationEvent

pub data RecordError : Type 0 where
  redaction_failure unlisted_document catalogue_incomplete foreign_key_violation : RecordError

abbrev pub redacted_or : Result RedactionFailure (Unit {0}) → Result RecordError (Unit {0})
redacted_or (ok u) = ok tt
redacted_or (err e) = err redaction_failure

-- The two loops over the findings before the transaction.
unfoldable pub check_redacted : List CorpusFindingInput → Result RecordError (Unit {0})
check_redacted [] = ok tt
check_redacted (f ∷ fs) = do
  redacted_or (assert_redacted f.value_shape f.message)
  check_redacted fs

unfoldable pub check_listed :
    List CorpusDocumentInput → List CorpusFindingInput → Result RecordError (Unit {0})
check_listed docs [] = ok tt
check_listed docs (f ∷ fs) = do
  throw_if (not (has (λ (d : CorpusDocumentInput). d.doc_hash) f.doc_hash docs)) unlisted_document
  check_listed docs fs

-- Primary keys.
abbrev pub specification_key : Specification → Text
specification_key r = r.spec_id

abbrev pub source_system_key : SourceSystem → Text
source_system_key r = r.sys_id

abbrev pub tenant_key : CorpusTenant → Text
tenant_key r = r.tenant_hash

abbrev pub entity_key : CorpusEntity → Text
entity_key r = r.entity_hash

abbrev pub counterparty_key : CorpusCounterparty → Text
counterparty_key r = r.counterparty_hash

abbrev pub document_key : CorpusDocument → Text
document_key r = r.doc_hash

abbrev pub rule_key : Rule → Text
rule_key r = r.rule_id

abbrev pub insert_source_system : Option Text → List SourceSystem → List SourceSystem
insert_source_system none rows = rows
insert_source_system (some sys) rows =
    insert_new source_system_key (record { sys_id = sys; vendor = sys; product = sys }) rows

abbrev pub insert_counterparty :
    Text → Option Text → List CorpusCounterparty → List CorpusCounterparty
insert_counterparty jurisdiction none rows = rows
insert_counterparty jurisdiction (some hash) rows =
    insert_new counterparty_key
      (record {
        counterparty_hash = hash;
        jurisdiction = jurisdiction;
        size_band = none;
        sector_code = none;
      })
      rows

-- The foreign key of a document to its counterparty, checked for a row that is inserted.
abbrev pub is_known_counterparty : Store → Option Text → Bool
is_known_counterparty s none = true
is_known_counterparty s (some hash) = has counterparty_key hash s.counterparties

abbrev pub breaks_foreign_key : Store → CorpusDocument → Bool
breaks_foreign_key s row =
    not (has document_key row.doc_hash s.documents)
    && not (is_known_counterparty s row.counterparty_hash)

abbrev pub is_known_rule : List Rule → Option Text → Bool
is_known_rule rules none = true
is_known_rule rules (some id) = has rule_key id rules

-- `assertRulesKnown`
unfoldable pub assert_rules_known :
    List Rule → List CorpusFindingInput → Result RecordError (Unit {0})
assert_rules_known rules [] = ok tt
assert_rules_known rules (f ∷ fs) = do
  throw_if (not (is_known_rule rules f.rule_id)) catalogue_incomplete
  assert_rules_known rules fs

module _ (sha256 : Text → Text) (now : ℕ) (input : RecordCorpusInput) where
  -- The upserts of the dimensions, in the order of the code.
  unfoldable pub upsert_dimensions : Store → Store
  upsert_dimensions s = record s {
    specifications =
        insert_new specification_key
          (record {
            spec_id = input.spec_id;
            jurisdiction = input.jurisdiction;
            name = input.spec_name;
            version = input.spec_version;
            effective_from = now;
          })
          s.specifications;
    source_systems = insert_source_system input.sys_id s.source_systems;
    tenants =
        insert_new tenant_key
          (record {
            tenant_hash = input.tenant_hash;
            sector_code = input.sector_code;
            size_band = input.size_band;
            country = input.country;
          })
          s.tenants;
    entities =
        insert_new entity_key
          (record {
            entity_hash = input.entity_hash;
            tenant_hash = input.tenant_hash;
            jurisdiction = input.jurisdiction;
            sys_id = input.sys_id;
            entity_size_band = input.size_band;
            scenario_profile = input.scenario_profile;
          })
          s.entities;
    counterparties =
        insert_counterparty input.jurisdiction input.counterparty_hash s.counterparties;
  }

  abbrev pub document_row : CorpusDocumentInput → CorpusDocument
  document_row d = record {
    doc_hash = d.doc_hash;
    entity_hash = input.entity_hash;
    counterparty_hash = or_option d.counterparty_hash input.counterparty_hash;
    direction = input.direction;
    doc_type = d.doc_type;
    scenario = d.scenario;
    currency = d.currency;
    line_count_bucket = line_count_bucket d.line_count;
    has_allowance_charge = d.has_allowance_charge;
    has_multi_tax_rate = d.has_multi_tax_rate;
  }

  unfoldable pub insert_documents : List CorpusDocumentInput → Store → Result RecordError Store
  insert_documents [] s = ok s
  insert_documents (d ∷ ds) s = do
    throw_if (breaks_foreign_key s (document_row d)) foreign_key_violation
    insert_documents ds
        (record s { documents = insert_new document_key (document_row d) s.documents })

  abbrev pub event_row : CorpusFindingInput → ValidationEvent
  event_row f = record {
    doc_hash = f.doc_hash;
    entity_hash = input.entity_hash;
    direction = input.direction;
    spec_id = input.spec_id;
    spec_version = input.spec_version;
    ruleset_hash = input.ruleset_hash;
    stage = f.stage;
    validator = codes "own_schematron";
    outcome = f.outcome;
    rule_id = f.rule_id;
    business_term = f.business_term;
    xpath = f.xpath;
    failure_class = f.failure_class;
    value_shape = f.value_shape;
    attempt_number = or_else f.attempt 1;
    recurrence_key = recurrence_key sha256 input.entity_hash f.rule_id f.xpath f.value_shape;
  }

  abbrev pub insert_events : Store → Store
  insert_events s = record s { events = s.events ++ map event_row input.findings }

  -- `recordCorpus`: the store after the commit, and the counts that it returns.
  unfoldable pub record_corpus : Store → Result RecordError (Store × ℕ × ℕ)
  unfolding upsert_dimensions
  record_corpus s = do
    check_redacted input.findings
    check_listed input.documents input.findings
    s' ← insert_documents input.documents (upsert_dimensions s)
    assert_rules_known s'.rules input.findings
    ok (insert_events s', length input.findings, length input.documents)
