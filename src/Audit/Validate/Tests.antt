-- ===== src/Audit/Validate/Tests.antt =====
-- runValidation on one invoice: a document that fails a rule, and one that cannot be parsed.
use compliance_data_layer.Base.{
  ◌≡◌, refl, false, List, [], ◌∷◌, map, concat, none, some, Result, ok,
}
use compliance_data_layer.Base.Texts.{Text, codes, text_eq}
use compliance_data_layer.Base.Texts.Strips.{trim}
use compliance_data_layer.Schema.{Invoice, ar, invoice, standard, fatal, fail}
use compliance_data_layer.Corpus.Recurrence.{recurrence_key}
use compliance_data_layer.Mapping.Ubl.Document.{to_ubl}
use compliance_data_layer.Audit.Validate.{
  FindingStore, Finding, ContractFinding, ValidateRequest, Reply, answered, ValidateRunInput,
  ValidateRunResult,
}
use compliance_data_layer.Audit.Validate.Loading.{load_canonical}
use compliance_data_layer.Audit.Validate.Running.{
  chunks, validate_chunks, validate_documents, validate_document, run_validation, ValidateError,
}
use compliance_data_layer.Audit.Validate.Runs.{HasWritten, run_validation-HasWritten}

abbrev stored_invoice : Text → Invoice
stored_invoice id = record {
  id = id;
  tenant_id = codes "t";
  entity_id = codes "e";
  run_id = codes "r";
  direction = ar;
  counterparty_id = none;
  doc_hash = id;
  doc_type = invoice;
  scenario = standard;
  invoice_number = id;
  issue_date = codes "2026-01-31T00:00:00Z";
  currency = codes "AED";
  buyer_name = none;
  buyer_trn = none;
  seller_trn = none;
  predecessor_ref = none;
  line_extension_minor = none;
  tax_amount_minor = none;
  payable_minor = none;
  has_allowance_charge = false;
  has_multi_tax_rate = false;
  line_count = 0;
  mapped_payload = none;
  expires_at = 9;
}

abbrev store : FindingStore
store = record {
  client_data = record {
    runs = [];
    raw_documents = [];
    invoices = stored_invoice (codes "a") ∷ stored_invoice (codes "b") ∷ [];
    lines = [];
    profiles = [];
    defects = [];
    access_log = [];
  };
  findings = [];
}

abbrev input : ValidateRunInput
input = record {
  run_id = codes "r";
  tenant_id = codes "t";
  entity_id = codes "e";
  actor_id = codes "u";
  entity_hash = codes "h";
  invoice_ids = codes "a" ∷ codes "b" ∷ [];
  profile = codes "pint-ae";
  spec_version = codes "1";
  direction = ar;
  seller_name = none;
  seller_country = none;
  buyer_country = none;
  ubl_identifiers = some (record { customization_id = codes "c"; profile_id = codes "p" });
  trace_id = none;
}

abbrev broken_rule : ContractFinding
broken_rule = record {
  rule_id = codes "BR-06";
  severity = fatal;
  business_term = none;
  xpath = none;
  failure_class = none;
  value_shape = none;
  message = none;
}

abbrev fails_all : ValidateRequest → Reply
fails_all r = answered (record {
  spec_version = codes "1";
  ruleset_hash = codes "x";
  outcome = fail;
  findings = broken_rule ∷ [];
})

abbrev sent : ValidateRunResult → Result Text (Unit {0})
sent r = ok tt

abbrev rules_found : FindingStore × Result ValidateError ValidateRunResult → List (Text × Text)
rules_found (s, r) = map (λ (f : Finding). (f.invoice_id, f.recurrence_key)) s.findings

both_found :
    rules_found (run_validation fails_all sent (λ s. codes "k") 9 input store)
    ≡ (codes "a", codes "k") ∷ (codes "b", codes "k") ∷ []
unfolding run_validation chunks validate_chunks validate_documents validate_document load_canonical
    to_ubl trim text_eq recurrence_key
both_found = refl

run_validation-HasWritten_example :
    (concat (chunks 2 input.invoice_ids) ≡ input.invoice_ids)
    × HasWritten fails_all sent
        (λ s. codes "k")
        9
        input
        store
        (run_validation fails_all sent (λ s. codes "k") 9 input store)
run_validation-HasWritten_example =
    run_validation-HasWritten fails_all sent (λ s. codes "k") 9 input store
