-- ===== src/Ingestion/Normalise/Tests.antt =====
-- apps/web/modules/ingestion/normalise.ts on an extraction of one document and three defects.
use compliance_data_layer.Base.{◌≤◌, ◌≡◌, false, List, [], ◌∷◌, ◌++◌, none, some}
use compliance_data_layer.Base.Int.{pos}
use compliance_data_layer.Base.Texts.{Text, codes}
use compliance_data_layer.Schema.{
  invoice, standard, parse_error, trn_missing, MasterDataDefect, ClientData,
}
use compliance_data_layer.Ingestion.Normalise.{
  CanonicalDoc, CanonicalLine, ExtractionDefect, NormaliseInput, write_defects,
}
use compliance_data_layer.Ingestion.Normalise.Defects.{
  affected, occurrences, rows_of, write_defects-counts,
}

abbrev input : NormaliseInput
input = record {
  run_id = codes "r1";
  tenant_id = codes "t1";
  entity_id = codes "e1";
  actor_id = codes "u1";
  raw_document_id = codes "d1";
  source_system = codes "tally";
  default_currency = codes "AED";
  trace_id = none;
}

abbrev store : ClientData
store = record {
  runs = [];
  raw_documents = [];
  invoices = [];
  lines = [];
  profiles = [];
  defects = [];
  access_log = [];
}

abbrev line : CanonicalLine
line = record {
  line_number = 1;
  description = none;
  quantity = some (codes "2");
  unit_code = none;
  net_amount_minor = some (pos 100);
  tax_category_code = some (codes "S");
  tax_rate = some (codes "5");
}

abbrev document : CanonicalDoc
document = record {
  doc_type = invoice;
  scenario = standard;
  invoice_number = codes "INV-1";
  issue_date = codes "2026-01-31";
  currency = codes "AED";
  buyer_name = none;
  buyer_trn = none;
  seller_trn = none;
  predecessor_ref = none;
  line_extension_minor = some (pos 100);
  tax_amount_minor = some (pos 5);
  payable_minor = some (pos 105);
  has_allowance_charge = false;
  has_multi_tax_rate = false;
  lines = line ∷ [];
  source_ref = codes "row 1";
}

abbrev unreadable : ExtractionDefect
unreadable = record { defect_class = parse_error; source_ref = codes "row 2"; sample_shape = none }

abbrev without_trn : ExtractionDefect
without_trn = record { defect_class = trn_missing; source_ref = codes "row 3"; sample_shape = none }

abbrev hash : CanonicalDoc → Text
hash d = d.invoice_number

write_defects-counts_example :
    (new : List MasterDataDefect) × ((write_defects hash 90 input
        (unreadable ∷ without_trn ∷ unreadable ∷ [])
        store).defects
      ≡ [] ++ new)
    × (affected parse_error new
        ≡ occurrences parse_error (unreadable ∷ without_trn ∷ unreadable ∷ []))
    × (rows_of parse_error new ≤ 1)
write_defects-counts_example =
    write_defects-counts hash 90 input (unreadable ∷ without_trn ∷ unreadable ∷ []) store
      parse_error
