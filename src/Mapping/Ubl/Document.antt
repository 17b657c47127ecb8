-- ===== src/Mapping/Ubl/Document.antt =====
-- apps/web/modules/mapping/ubl.ts, toUbl: a line, the head, and the whole text.
use compliance_data_layer.Base.{
  List, [], ◌∷◌, ◌++◌, concat, Result, ok, ◌>>=◌, ◌>>◌, throw_if, if◌then◌else◌,
}
use compliance_data_layer.Base.Texts.{Text, codes, is_empty}
use compliance_data_layer.Base.Texts.Strips.{trim}
use compliance_data_layer.Base.Texts.Decimals.{decimal}
use compliance_data_layer.Ingestion.Normalise.{CanonicalLine, CanonicalDoc}
use compliance_data_layer.Mapping.Ubl.{
  type_code, UblContext, UblError, el, present, try_present, amount, tax_category, party,
  is_credit_note, billing_reference, tax_total, two_amounts, legal_monetary_total, unit_attribute,
  item, line_category, has_any, missing_spec_identifiers,
}

unfoldable pub line_text : CanonicalDoc → CanonicalLine → Result UblError Text
unfolding amount tax_category
line_text doc line = do
  let credit = is_credit_note doc
  let line_tag = if credit then codes "cac:CreditNoteLine" else codes "cac:InvoiceLine"
  let quantity_tag = if credit then codes "cbc:CreditedQuantity" else codes "cbc:InvoicedQuantity"
  net ←
      try_present line.net_amount_minor
        (λ m. amount (codes "cbc:LineExtensionAmount") m doc.currency)
  ok (
      codes "<"
      ++ line_tag
      ++ codes ">"
      ++ concat (
          el (codes "cbc:ID") (decimal line.line_number) []
            ∷ present line.quantity (λ q. el quantity_tag q (unit_attribute line.unit_code))
          ++ net
          ++ item (
              present line.description (λ d. el (codes "cbc:Name") d [])
              ++ line_category line.tax_category_code line.tax_rate))
      ++ codes "</"
      ++ line_tag
      ++ codes ">")

-- `doc.lines.map`
unfoldable pub lines_text : CanonicalDoc → List CanonicalLine → Result UblError (List Text)
unfolding line_text
lines_text doc [] = ok []
lines_text doc (line ∷ lines) = do t ← line_text doc line; ts ← lines_text doc lines; ok (t ∷ ts)

abbrev pub missing_identifiers : UblContext → List Text
missing_identifiers ctx =
    (if is_empty (trim ctx.customization_id) then codes "CustomizationID" ∷ [] else [])
    ++ (if is_empty (trim ctx.profile_id) then codes "ProfileID" ∷ [] else [])

-- The elements that stand in every document.
unfoldable pub leading_elements : CanonicalDoc → UblContext → List Text
unfolding el party
leading_elements doc ctx =
    el (codes "cbc:CustomizationID") ctx.customization_id []
      ∷ el (codes "cbc:ProfileID") ctx.profile_id []
      ∷ el (codes "cbc:ID") doc.invoice_number []
      ∷ el (codes "cbc:IssueDate") doc.issue_date []
      ∷ el
          (if is_credit_note doc
            then codes "cbc:CreditNoteTypeCode"
            else codes "cbc:InvoiceTypeCode")
          (type_code doc.doc_type) []
      ∷ el (codes "cbc:DocumentCurrencyCode") doc.currency []
      ∷ present doc.predecessor_ref billing_reference
    ++ party (codes "cac:AccountingSupplierParty") ctx.seller_name doc.seller_trn ctx.seller_country
      ∷ party (codes "cac:AccountingCustomerParty") doc.buyer_name doc.buyer_trn ctx.buyer_country
      ∷ []

abbrev pub root_name : CanonicalDoc → Text
root_name doc = if is_credit_note doc then codes "CreditNote" else codes "Invoice"

abbrev pub prolog : Text
prolog = codes "<?xml version=\"1.0\" encoding=\"UTF-8\"?>\n"

abbrev pub namespaces : Text → Text
namespaces root =
    codes " xmlns=\"urn:oasis:names:specification:ubl:schema:xsd:"
    ++ root
    ++ codes "-2\""
    ++ codes " xmlns:cbc=\"urn:oasis:names:specification:ubl:schema:xsd:CommonBasicComponents-2\""
    ++ codes
        " xmlns:cac=\"urn:oasis:names:specification:ubl:schema:xsd:CommonAggregateComponents-2\""

unfoldable pub to_ubl : CanonicalDoc → UblContext → Result UblError Text
unfolding leading_elements tax_total amount lines_text
to_ubl doc ctx = do
  throw_if (has_any (missing_identifiers ctx)) (missing_spec_identifiers (missing_identifiers ctx))
  tax ← try_present doc.tax_amount_minor (tax_total doc)
  net_totals ←
      two_amounts (codes "cbc:LineExtensionAmount") (codes "cbc:TaxExclusiveAmount") doc.currency
        doc.line_extension_minor
  gross_totals ←
      two_amounts (codes "cbc:TaxInclusiveAmount") (codes "cbc:PayableAmount") doc.currency
        doc.payable_minor
  lines ← lines_text doc doc.lines
  ok (
      prolog
      ++ codes "<"
      ++ root_name doc
      ++ namespaces (root_name doc)
      ++ codes ">"
      ++ concat
          (leading_elements doc ctx ++ tax ++ legal_monetary_total (net_totals ++ gross_totals))
      ++ concat lines
      ++ codes "</"
      ++ root_name doc
      ++ codes ">")
