-- ===== src/Corpus/Record/Tests.antt =====
-- apps/web/modules/corpus/record.ts on a run of one document and one finding.
use compliance_data_layer.Base.{
  ℕ, ◌≡◌, refl, ◌++◌, map, false, [], ◌∷◌, none, some, Result, ok, err, length, All,
}
use compliance_data_layer.Base.Texts.{Text, codes, text_eq}
use compliance_data_layer.Schema.{Rule, ar, post_map, fail, fatal, missing_mandatory}
use compliance_data_layer.Corpus.Patterns.{test, match_here}
use compliance_data_layer.Corpus.Redaction.{scan, assert_redacted}
use compliance_data_layer.Corpus.Record.{
  CorpusFindingInput, CorpusDocumentInput, RecordCorpusInput, Store, RecordError, check_redacted,
  check_listed, upsert_dimensions, insert_documents, assert_rules_known, event_row, record_corpus,
}
use compliance_data_layer.Corpus.Record.Tables.{has, insert_new}
use compliance_data_layer.Corpus.Record.AppendOnly.{IsExtension, record_corpus-IsExtension}
use compliance_data_layer.Corpus.Record.Integrity.{IsAnchored, record_corpus-IsAnchored}

abbrev rule : Rule
rule = record {
  rule_id = codes "BR-01";
  spec_id = codes "pint-ae";
  native_rule_code = codes "BR-01";
  severity = fatal;
  business_term = none;
  xpath_context = none;
  failure_class = missing_mandatory;
  assert_text = codes "must";
  canonical_text_hash = codes "h";
}

abbrev finding : CorpusFindingInput
finding = record {
  doc_hash = codes "d1";
  stage = post_map;
  outcome = fail;
  rule_id = some (codes "BR-01");
  business_term = none;
  xpath = none;
  failure_class = none;
  value_shape = none;
  message = some (codes "missing");
  attempt = none;
}

abbrev document : CorpusDocumentInput
document = record {
  doc_hash = codes "d1";
  doc_type = codes "invoice";
  scenario = codes "standard";
  currency = codes "AED";
  line_count = 3;
  has_allowance_charge = false;
  has_multi_tax_rate = false;
  counterparty_hash = none;
}

abbrev input : RecordCorpusInput
input = record {
  tenant_hash = codes "t";
  entity_hash = codes "e";
  jurisdiction = codes "AE";
  country = codes "AE";
  sector_code = none;
  size_band = none;
  scenario_profile = codes "standard";
  sys_id = some (codes "tally");
  direction = ar;
  spec_id = codes "pint-ae";
  spec_name = codes "PINT AE";
  spec_version = codes "1";
  ruleset_hash = codes "r";
  documents = document ∷ [];
  findings = finding ∷ [];
  counterparty_hash = some (codes "c");
}

abbrev store : Store
store = record {
  specifications = [];
  rules = rule ∷ [];
  source_systems = [];
  tenants = [];
  entities = [];
  counterparties = [];
  documents = [];
  events = [];
}

-- The text itself in the place of its hash.
abbrev hash : Text → Text
hash t = t

abbrev store_of : Result RecordError (Store × ℕ × ℕ) → Store
store_of (ok (t, _, _)) = t
store_of (err e) = store

abbrev recorded : Store
recorded = store_of (record_corpus hash 7 input store)

is_recorded : record_corpus hash 7 input store ≡ ok (recorded, 1, 1)
unfolding record_corpus check_redacted check_listed assert_redacted scan test match_here has
    insert_new insert_documents upsert_dimensions assert_rules_known text_eq
is_recorded = refl

record_corpus-IsExtension_example :
    IsExtension store recorded
    × (recorded.events ≡ [] ++ map (event_row hash 7 input) (finding ∷ []))
    × (1 ≡ length (finding ∷ []))
record_corpus-IsExtension_example =
    record_corpus-IsExtension hash 7 input store recorded 1 1 is_recorded

record_corpus-IsAnchored_example :
    All (IsAnchored recorded) (map (event_row hash 7 input) (finding ∷ []))
record_corpus-IsAnchored_example =
    record_corpus-IsAnchored hash 7 input store recorded 1 1 is_recorded
