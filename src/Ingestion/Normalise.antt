-- ===== src/Ingestion/Normalise.antt =====
-- apps/web/modules/ingestion/normalise.ts, its write transaction: what an extraction leaves in the
-- tables. The hash of a document, the ids of the database and the time of expiry are parameters; the
-- instant of an issue date is its text.
pub mod Defects
pub mod Documents
mod Tests
use compliance_data_layer.Base.{
  ℕ, ◌+◌, ◌≡◌, Bool, true, false, ◌&&◌, List, [], ◌∷◌, ◌++◌, map, Option, none, some, length,
  Result, ok, err, ◌>>=◌, if◌then◌else◌,
}
use compliance_data_layer.Base.Int.{ℤ}
use compliance_data_layer.Base.Texts.{Text, codes, text_eq}
use compliance_data_layer.Schema.{
  DocType, Scenario, DefectClass, defect_text, ValueShape, ar, Invoice, InvoiceLine,
  MasterDataDefect, IngestionRun, mapping, ClientData,
}
use compliance_data_layer.Tenancy.{TenantAccess, with_tenant_access}

-- apps/web/modules/ingestion/canonical.ts
pub record CanonicalLine : Type 0 where
  pub line_number : ℕ
  pub description : Option Text
  pub quantity : Option Text
  pub unit_code : Option Text
  pub net_amount_minor : Option ℤ
  pub tax_category_code : Option Text
  pub tax_rate : Option Text

pub record CanonicalDoc : Type 0 where
  pub doc_type : DocType
  pub scenario : Scenario
  pub invoice_number : Text
  pub issue_date : Text
  pub currency : Text
  pub buyer_name : Option Text
  pub buyer_trn : Option Text
  pub seller_trn : Option Text
  pub predecessor_ref : Option Text
  pub line_extension_minor : Option ℤ
  pub tax_amount_minor : Option ℤ
  pub payable_minor : Option ℤ
  pub has_allowance_charge : Bool
  pub has_multi_tax_rate : Bool
  pub lines : List CanonicalLine
  pub source_ref : Text

pub record ExtractionDefect : Type 0 where
  pub defect_class : DefectClass
  pub source_ref : Text
  pub sample_shape : Option ValueShape

pub record ExtractionResult : Type 0 where
  pub documents : List CanonicalDoc
  pub defects : List ExtractionDefect

pub record NormaliseInput : Type 0 where
  pub run_id : Text
  pub tenant_id : Text
  pub entity_id : Text
  pub actor_id : Text
  pub raw_document_id : Text
  pub source_system : Text
  pub default_currency : Text
  pub trace_id : Option Text

pub record NormaliseResult : Type 0 where
  pub invoice_ids : List Text
  pub documents_written : ℕ
  pub defects_written : ℕ

abbrev pub same_class : DefectClass → DefectClass → Bool
same_class a b = text_eq (defect_text a) (defect_text b)

-- One round of the loop over the defects, on the `Map` in its order of insertion.
unfoldable pub count_defect :
    ExtractionDefect → List (ExtractionDefect × ℕ) → List (ExtractionDefect × ℕ)
count_defect d [] = (d, 1) ∷ []
count_defect d ((e, n) ∷ seen) =
    let rest = count_defect d seen in
    if same_class e.defect_class d.defect_class then (e, n + 1) ∷ seen else (e, n) ∷ rest

unfoldable pub by_class :
    List ExtractionDefect → List (ExtractionDefect × ℕ) → List (ExtractionDefect × ℕ)
unfolding count_defect
by_class [] seen = seen
by_class (d ∷ ds) seen = by_class ds (count_defect d seen)

module _ (doc_hash : CanonicalDoc → Text) (expires_at : ℕ) (input : NormaliseInput) where
  abbrev pub defect_row : ExtractionDefect × ℕ → MasterDataDefect
  defect_row (d, count) = record {
    tenant_id = input.tenant_id;
    entity_id = input.entity_id;
    run_id = input.run_id;
    defect_class = d.defect_class;
    affected_count = count;
    effort_minutes = none;
    sample_shape = d.sample_shape;
    expires_at = expires_at;
  }

  unfoldable pub write_defects : List ExtractionDefect → ClientData → ClientData
  unfolding by_class
  write_defects ds db = record db { defects = db.defects ++ map defect_row (by_class ds []) }

  abbrev pub invoice_row : Text → CanonicalDoc → Invoice
  invoice_row id doc = record {
    id = id;
    tenant_id = input.tenant_id;
    entity_id = input.entity_id;
    run_id = input.run_id;
    direction = ar;
    counterparty_id = none;
    doc_hash = doc_hash doc;
    doc_type = doc.doc_type;
    scenario = doc.scenario;
    invoice_number = doc.invoice_number;
    issue_date = doc.issue_date ++ codes "T00:00:00Z";
    currency = doc.currency;
    buyer_name = doc.buyer_name;
    buyer_trn = doc.buyer_trn;
    seller_trn = doc.seller_trn;
    predecessor_ref = doc.predecessor_ref;
    line_extension_minor = doc.line_extension_minor;
    tax_amount_minor = doc.tax_amount_minor;
    payable_minor = doc.payable_minor;
    has_allowance_charge = doc.has_allowance_charge;
    has_multi_tax_rate = doc.has_multi_tax_rate;
    line_count = length doc.lines;
    mapped_payload = none;
    expires_at = expires_at;
  }

  abbrev pub line_row : Text → CanonicalLine → InvoiceLine
  line_row id line = record {
    tenant_id = input.tenant_id;
    invoice_id = id;
    line_number = line.line_number;
    description = line.description;
    quantity = line.quantity;
    unit_code = line.unit_code;
    net_amount_minor = line.net_amount_minor;
    tax_category_code = line.tax_category_code;
    tax_rate = line.tax_rate;
    expires_at = expires_at;
  }

  -- `writeDocuments`, with the id that the database gives the n-th row that is inserted.
  unfoldable pub write_documents :
      (ℕ → Text) → ℕ → List CanonicalDoc → ClientData → ClientData × List Text
  write_documents new_id n [] db = (db, [])
  write_documents new_id n (doc ∷ docs) db =
      let db' = record db {
        invoices = db.invoices ++ invoice_row (new_id n) doc ∷ [];
        lines = db.lines ++ map (line_row (new_id n)) doc.lines;
      } in
      let (final, ids) = write_documents new_id (n + 1) docs db' in (final, new_id n ∷ ids)

  abbrev pub set_mapping : ℕ → List IngestionRun → List IngestionRun
  set_mapping count rows =
      map
        (λ (r : IngestionRun).
          if text_eq r.run_id input.run_id && text_eq r.tenant_id input.tenant_id
          then record r { status = mapping; doc_count = some count }
          else r)
        rows

  -- The body of the second transaction of `normaliseRun`.
  unfoldable pub write_extracted :
      {E : Type 0}
      → (ℕ → Text)
      → ExtractionResult
      → (ClientData → NormaliseResult → Result E ClientData)
      → ClientData
      → Result E (ClientData × NormaliseResult)
  unfolding write_documents write_defects
  write_extracted new_id extracted enqueue =
      with_tenant_access
        (record {
          tenant_id = input.tenant_id;
          actor_id = input.actor_id;
          reason = codes "scheduled_job";
          trace_id = input.trace_id;
        })
        (λ db.
          let (written, ids) = write_documents new_id 0 extracted.documents db in
          let noted = write_defects extracted.defects written in
          let result : NormaliseResult = record {
            invoice_ids = ids;
            documents_written = length extracted.documents;
            defects_written = length extracted.defects;
          } in
          enqueue (record noted { runs = set_mapping (length extracted.documents) noted.runs })
            result
          >>= λ final. ok (final, result))
