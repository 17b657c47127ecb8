-- ===== src/Audit/Validate/Running.antt =====
-- apps/web/modules/audit/validate.ts, runValidation: chunks of documents, each sent and recorded in turn.
use compliance_data_layer.Base.{
  ℕ, zero, suc, ◌+◌, ◌&&◌, List, [], ◌∷◌, ◌++◌, map, length, take, drop, Option, none, some, Result,
  ok, err, if◌then◌else◌,
}
use compliance_data_layer.Base.Texts.{Text, text_eq}
use compliance_data_layer.Schema.{
  ClientData, IngestionRun, MasterDataDefect, parse_error, reporting, DocType, doc_type_text,
  scenario_text,
}
use compliance_data_layer.Tenancy.{log_access}
use compliance_data_layer.Ingestion.Normalise.{CanonicalDoc}
use compliance_data_layer.Mapping.SpecIdentifiers.{
  SpecIdentifiers, Answer, identifiers, unresolved, undefined_pair, ubl_spec_identifiers,
}
use compliance_data_layer.Mapping.Ubl.{UblContext, UblError}
use compliance_data_layer.Mapping.Ubl.Document.{to_ubl}
use compliance_data_layer.Audit.Validate.{
  FindingStore, ValidateRequest, Reply, answered, parse_failed, failed, ValidateRunInput,
  ValidatedDocument, PersistedFinding, ValidateRunResult, rows_of, access, write_findings,
}
use compliance_data_layer.Audit.Validate.Loading.{LoadedInvoice, load_canonical}

abbrev pub validate_batch_size : ℕ
validate_batch_size = 50

-- The slices of the loop over the offsets; the length of the list is fuel enough.
unfoldable pub chunks : ℕ → List Text → List (List Text)
chunks zero ids = []
chunks (suc fuel) [] = []
chunks (suc fuel) (id ∷ ids) =
    take validate_batch_size (id ∷ ids) ∷ chunks fuel (drop validate_batch_size (id ∷ ids))

pub data ValidateError : Type 0 where
  no_identifiers : ValidateError
  unwritable : UblError → ValidateError
  sidecar_failed enqueue_failed : Text → ValidateError

-- The variables of the loop.
pub record Progress : Type 0 where
  pub documents : List ValidatedDocument
  pub persisted : List PersistedFinding
  pub ruleset_hash : Option Text
  pub parse_errors : ℕ

abbrev pub Outcome : Type 0 → Type 0
Outcome A = FindingStore × Result ValidateError A

-- What follows runs where nothing was thrown.
abbrev pub and_then : {A B : Type 0} → (A → FindingStore → Outcome B) → Outcome A → Outcome B
and_then k (s, err e) = (s, err e)
and_then k (s, ok a) = k a s

abbrev pub validated : Text → CanonicalDoc → ValidatedDocument
validated doc_hash doc = record {
  doc_hash = doc_hash;
  doc_type = doc_type_text doc.doc_type;
  scenario = scenario_text doc.scenario;
  currency = doc.currency;
  line_count = length doc.lines;
  has_allowance_charge = doc.has_allowance_charge;
  has_multi_tax_rate = doc.has_multi_tax_rate;
}

abbrev pub initial : Progress
initial = record { documents = []; persisted = []; ruleset_hash = none; parse_errors = 0 }

module _ (sidecar : ValidateRequest → Reply) (enqueue : ValidateRunResult → Result Text (Unit {0}))
    (sha256 : Text → Text) (expires_at : ℕ) (input : ValidateRunInput) where
  -- `withTenantAccess`
  abbrev pub with_access : FindingStore → FindingStore
  with_access s = record s {
    client_data = log_access (access sha256 expires_at input) s.client_data;
  }

  abbrev pub answered_identifiers : Answer → Result ValidateError SpecIdentifiers
  answered_identifiers (identifiers pair) = ok pair
  answered_identifiers unresolved = err no_identifiers
  answered_identifiers undefined_pair = err no_identifiers

  abbrev pub identifiers_for :
      Option SpecIdentifiers → DocType → Result ValidateError SpecIdentifiers
  identifiers_for (some pair) doc_type = ok pair
  identifiers_for none doc_type = answered_identifiers (ubl_spec_identifiers input.profile doc_type)

  abbrev pub ubl_context : SpecIdentifiers → UblContext
  ubl_context pair = record {
    customization_id = pair.customization_id;
    profile_id = pair.profile_id;
    seller_name = input.seller_name;
    seller_country = input.seller_country;
    buyer_country = input.buyer_country;
  }

  abbrev pub request : Text → ValidateRequest
  request ubl = record {
    run_id = input.run_id;
    ubl = ubl;
    profile = input.profile;
    spec_version = input.spec_version;
    direction = input.direction;
  }

  abbrev pub parse_defect : MasterDataDefect
  parse_defect = record {
    tenant_id = input.tenant_id;
    entity_id = input.entity_id;
    run_id = input.run_id;
    defect_class = parse_error;
    affected_count = 1;
    effort_minutes = none;
    sample_shape = none;
    expires_at = expires_at;
  }

  abbrev pub add_defect : FindingStore → FindingStore
  add_defect s = record s {
    client_data = record (s.client_data) { defects = s.client_data.defects ++ parse_defect ∷ [] };
  }

  -- The reply on one document, recorded.
  abbrev pub record_reply : LoadedInvoice → Reply → Progress → FindingStore → Outcome Progress
  record_reply l (failed e) p s = (s, err (sidecar_failed e))
  record_reply l parse_failed p s =
      (add_defect (with_access s), ok (record p { parse_errors = p.parse_errors + 1 }))
  record_reply l (answered response) p s =
      let rows = rows_of l.doc_hash response.outcome response.findings in
      (
        write_findings sha256 expires_at input l.invoice_id l.doc_hash response.spec_version
            response.ruleset_hash rows (with_access s),
        ok (record p {
          documents = p.documents ++ validated l.doc_hash l.doc ∷ [];
          persisted = p.persisted ++ rows;
          ruleset_hash = some response.ruleset_hash;
        }),
      )

  abbrev pub send :
      LoadedInvoice → Result UblError Text → Progress → FindingStore → Outcome Progress
  send l (err e) p s = (s, err (unwritable e))
  send l (ok ubl) p s = record_reply l (sidecar (request ubl)) p s

  abbrev pub identify :
      LoadedInvoice
      → Result ValidateError SpecIdentifiers
      → Progress
      → FindingStore
      → Outcome Progress
  identify l (err e) p s = (s, err e)
  identify l (ok pair) p s = send l (to_ubl l.doc (ubl_context pair)) p s

  -- One round of the loop over the documents of a chunk.
  unfoldable pub validate_document : LoadedInvoice → Progress → FindingStore → Outcome Progress
  unfolding write_findings to_ubl
  validate_document l p s = identify l (identifiers_for input.ubl_identifiers l.doc.doc_type) p s

  unfoldable pub validate_documents :
      List LoadedInvoice → Progress → FindingStore → Outcome Progress
  unfolding validate_document
  validate_documents [] p s = (s, ok p)
  validate_documents (l ∷ ls) p s = and_then (validate_documents ls) (validate_document l p s)

  abbrev pub load : List Text → ClientData → List LoadedInvoice
  load ids db = load_canonical input.tenant_id ids db.invoices db.lines

  -- The loop over the chunks.
  unfoldable pub validate_chunks : List (List Text) → Progress → FindingStore → Outcome Progress
  unfolding validate_documents load_canonical
  validate_chunks [] p s = (s, ok p)
  validate_chunks (ids ∷ rest) p s =
      and_then (validate_chunks rest)
        (validate_documents (load ids s.client_data) p (with_access s))

  abbrev pub set_reporting : IngestionRun → IngestionRun
  set_reporting r =
      if text_eq r.run_id input.run_id && text_eq r.tenant_id input.tenant_id
      then record r { status = reporting }
      else r

  abbrev pub report : FindingStore → FindingStore
  report s = record s {
    client_data = record (s.client_data) { runs = map set_reporting s.client_data.runs };
  }

  abbrev pub result_of : Progress → ValidateRunResult
  result_of p = record {
    ruleset_hash = p.ruleset_hash;
    documents = p.documents;
    findings = p.persisted;
    parse_errors = p.parse_errors;
  }

  -- The last transaction: an enqueuer that throws takes the status back.
  abbrev pub finish :
      ValidateRunResult → Result Text (Unit {0}) → FindingStore → Outcome ValidateRunResult
  finish r (err e) s = (s, err (enqueue_failed e))
  finish r (ok u) s = (report (with_access s), ok r)

  unfoldable pub run_validation : FindingStore → Outcome ValidateRunResult
  unfolding validate_chunks chunks
  run_validation s =
      and_then (λ p t. finish (result_of p) (enqueue (result_of p)) t)
        (validate_chunks (chunks (length input.invoice_ids) input.invoice_ids) initial s)
