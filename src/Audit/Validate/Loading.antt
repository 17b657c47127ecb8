-- ===== src/Audit/Validate/Loading.antt =====
-- apps/web/modules/audit/validate.ts, loadCanonical: the documents of a chunk, from their rows. The issue
-- date of a row is the text of its instant in UTC, of which `toISOString().slice(0, 10)` is the beginning.
use compliance_data_layer.Base.{◌&&◌, List, [], ◌∷◌, map, any, filter, take, leb, if◌then◌else◌}
use compliance_data_layer.Base.Texts.{Text, text_eq}
use compliance_data_layer.Schema.{Invoice, InvoiceLine}
use compliance_data_layer.Ingestion.Normalise.{CanonicalLine, CanonicalDoc}

pub record LoadedInvoice : Type 0 where
  pub invoice_id : Text
  pub doc_hash : Text
  pub doc : CanonicalDoc

abbrev pub selected_invoices : Text → List Text → List Invoice → List Invoice
selected_invoices tenant ids rows =
    filter (λ (r : Invoice). text_eq r.tenant_id tenant && any (λ i. text_eq i r.id) ids) rows

abbrev pub selected_lines : Text → List Text → List InvoiceLine → List InvoiceLine
selected_lines tenant ids rows =
    filter
      (λ (l : InvoiceLine). text_eq l.tenant_id tenant && any (λ i. text_eq i l.invoice_id) ids)
      rows

-- `linesByInvoice.get(row.id) ?? []`
abbrev pub lines_of_invoice : Text → List InvoiceLine → List InvoiceLine
lines_of_invoice id rows = filter (λ (l : InvoiceLine). text_eq l.invoice_id id) rows

unfoldable pub insert_line : InvoiceLine → List InvoiceLine → List InvoiceLine
insert_line l [] = l ∷ []
insert_line l (k ∷ ks) =
    if leb l.line_number k.line_number then l ∷ k ∷ ks else k ∷ insert_line l ks

-- The stable sort by line number
unfoldable pub sort_lines : List InvoiceLine → List InvoiceLine
unfolding insert_line
sort_lines [] = []
sort_lines (l ∷ ls) = insert_line l (sort_lines ls)

abbrev pub canonical_line : InvoiceLine → CanonicalLine
canonical_line l = record {
  line_number = l.line_number;
  description = l.description;
  quantity = l.quantity;
  unit_code = l.unit_code;
  net_amount_minor = l.net_amount_minor;
  tax_category_code = l.tax_category_code;
  tax_rate = l.tax_rate;
}

abbrev pub loaded_invoice : List InvoiceLine → Invoice → LoadedInvoice
loaded_invoice rows r = record {
  invoice_id = r.id;
  doc_hash = r.doc_hash;
  doc = record {
    doc_type = r.doc_type;
    scenario = r.scenario;
    invoice_number = r.invoice_number;
    issue_date = take 10 r.issue_date;
    currency = r.currency;
    buyer_name = r.buyer_name;
    buyer_trn = r.buyer_trn;
    seller_trn = r.seller_trn;
    predecessor_ref = r.predecessor_ref;
    line_extension_minor = r.line_extension_minor;
    tax_amount_minor = r.tax_amount_minor;
    payable_minor = r.payable_minor;
    has_allowance_charge = r.has_allowance_charge;
    has_multi_tax_rate = r.has_multi_tax_rate;
    lines = map canonical_line (sort_lines (lines_of_invoice r.id rows));
    source_ref = r.id;
  };
}

unfoldable pub load_canonical :
    Text → List Text → List Invoice → List InvoiceLine → List LoadedInvoice
unfolding sort_lines
load_canonical tenant ids invoices lines =
    map (loaded_invoice (selected_lines tenant ids lines)) (selected_invoices tenant ids invoices)
