-- ===== src/Mapping/Ubl/Tree.antt =====
-- apps/web/modules/mapping/ubl.ts: the elements that a document stands for, each from a term that the
-- document has. `printed` is the decimal text of an amount.
use compliance_data_layer.Base.{
  ◌||◌, List, [], ◌∷◌, ◌++◌, Option, none, some, is_some, if◌then◌else◌,
}
use compliance_data_layer.Base.Int.{ℤ}
use compliance_data_layer.Base.Texts.{Text, codes}
use compliance_data_layer.Base.Texts.Decimals.{decimal}
use compliance_data_layer.Ingestion.Normalise.{CanonicalLine, CanonicalDoc}
use compliance_data_layer.Mapping.Ubl.{UblContext, type_code, is_credit_note, of_first}
use compliance_data_layer.Mapping.Ubl.Document.{root_name}
use compliance_data_layer.Mapping.Ubl.Xml.{Element, Elements, element, nil, cons, append}

abbrev pub leaf : Text → List (Text × Text) → Text → Elements
leaf name attributes text = cons (element name attributes text nil) nil

abbrev pub node : Text → Elements → Elements
node name children = cons (element name [] [] children) nil

abbrev pub optional {ℓ} : {A : Type ℓ} → Option A → (A → Elements) → Elements
optional none f = nil
optional (some a) f = f a

abbrev pub money_leaf : (ℤ → Text) → Text → Text → ℤ → Elements
money_leaf printed currency name minor =
    leaf name ((codes "currencyID", currency) ∷ []) (printed minor)

abbrev pub vat_scheme : Elements
vat_scheme = node (codes "cac:TaxScheme") (leaf (codes "cbc:ID") [] (codes "VAT"))

abbrev pub category_tree : Text → Option Text → Option Text → Elements
category_tree name code rate = node name (
    append
      (append (optional code (leaf (codes "cbc:ID") []))
        (optional rate (leaf (codes "cbc:Percent") [])))
      vat_scheme)

abbrev pub address_tree : Text → Elements
address_tree country =
    node (codes "cac:PostalAddress")
      (node (codes "cac:Country") (leaf (codes "cbc:IdentificationCode") [] country))

abbrev pub tax_scheme_tree : Text → Elements
tax_scheme_tree trn =
    node (codes "cac:PartyTaxScheme") (append (leaf (codes "cbc:CompanyID") [] trn) vat_scheme)

abbrev pub legal_entity_tree : Text → Elements
legal_entity_tree name =
    node (codes "cac:PartyLegalEntity") (leaf (codes "cbc:RegistrationName") [] name)

abbrev pub party_tree : Text → Option Text → Option Text → Option Text → Elements
party_tree tag name trn country = node tag (
    node (codes "cac:Party") (
      append (append (optional country address_tree) (optional trn tax_scheme_tree))
        (optional name legal_entity_tree)))

abbrev pub reference_tree : Text → Elements
reference_tree predecessor =
    node (codes "cac:BillingReference")
      (node (codes "cac:InvoiceDocumentReference") (leaf (codes "cbc:ID") [] predecessor))

-- An element around what there is, and no element around nothing.
abbrev pub unless_empty : Text → Elements → Elements
unless_empty name nil = nil
unless_empty name (cons e es) = node name (cons e es)

abbrev pub line_category_tree : Option Text → Option Text → Elements
line_category_tree code rate =
    if is_some code || is_some rate
    then category_tree (codes "cac:ClassifiedTaxCategory") code rate
    else nil

abbrev pub unit_attributes : Option Text → List (Text × Text)
unit_attributes none = []
unit_attributes (some unit) = (codes "unitCode", unit) ∷ []

abbrev pub quantity_name : CanonicalDoc → Text
quantity_name doc =
    if is_credit_note doc then codes "cbc:CreditedQuantity" else codes "cbc:InvoicedQuantity"

abbrev pub line_name : CanonicalDoc → Text
line_name doc = if is_credit_note doc then codes "cac:CreditNoteLine" else codes "cac:InvoiceLine"

abbrev pub type_code_name : CanonicalDoc → Text
type_code_name doc =
    if is_credit_note doc then codes "cbc:CreditNoteTypeCode" else codes "cbc:InvoiceTypeCode"

abbrev pub head_tree : CanonicalDoc → UblContext → Elements
head_tree doc ctx =
    append
      (append (leaf (codes "cbc:CustomizationID") [] ctx.customization_id) (
        append (leaf (codes "cbc:ProfileID") [] ctx.profile_id) (
          append (leaf (codes "cbc:ID") [] doc.invoice_number) (
            append (leaf (codes "cbc:IssueDate") [] doc.issue_date) (
              append (leaf (type_code_name doc) [] (type_code doc.doc_type)) (
                append (leaf (codes "cbc:DocumentCurrencyCode") [] doc.currency)
                  (optional doc.predecessor_ref reference_tree)))))))
      (append
        (party_tree (codes "cac:AccountingSupplierParty") ctx.seller_name doc.seller_trn
          ctx.seller_country)
        (party_tree (codes "cac:AccountingCustomerParty") doc.buyer_name doc.buyer_trn
          ctx.buyer_country))

abbrev pub root_attributes : CanonicalDoc → List (Text × Text)
root_attributes doc =
    (
      codes "xmlns",
      codes "urn:oasis:names:specification:ubl:schema:xsd:" ++ root_name doc ++ codes "-2",
    )
    ∷ (
      codes "xmlns:cbc",
      codes "urn:oasis:names:specification:ubl:schema:xsd:CommonBasicComponents-2",
    )
    ∷ (
      codes "xmlns:cac",
      codes "urn:oasis:names:specification:ubl:schema:xsd:CommonAggregateComponents-2",
    )
    ∷ []

module _ (printed : ℤ → Text) (doc : CanonicalDoc) where
  abbrev pub money_tree : Text → ℤ → Elements
  money_tree name minor = money_leaf printed doc.currency name minor

  abbrev pub subtotal_tree : ℤ → ℤ → Elements
  subtotal_tree tax line_extension = node (codes "cac:TaxSubtotal") (
      append
        (append (money_tree (codes "cbc:TaxableAmount") line_extension)
          (money_tree (codes "cbc:TaxAmount") tax))
        (category_tree (codes "cac:TaxCategory") (of_first (λ l. l.tax_category_code) doc.lines)
          (of_first (λ l. l.tax_rate) doc.lines)))

  abbrev pub tax_tree : ℤ → Elements
  tax_tree tax = node (codes "cac:TaxTotal") (
      append (money_tree (codes "cbc:TaxAmount") tax)
        (optional doc.line_extension_minor (subtotal_tree tax)))

  abbrev pub twice : Text → Text → ℤ → Elements
  twice first second minor = append (money_tree first minor) (money_tree second minor)

  abbrev pub totals_tree : Elements
  totals_tree =
      append
        (optional doc.line_extension_minor
          (twice (codes "cbc:LineExtensionAmount") (codes "cbc:TaxExclusiveAmount")))
        (optional doc.payable_minor
          (twice (codes "cbc:TaxInclusiveAmount") (codes "cbc:PayableAmount")))

  abbrev pub item_tree : CanonicalLine → Elements
  item_tree line =
      append (optional line.description (leaf (codes "cbc:Name") []))
        (line_category_tree line.tax_category_code line.tax_rate)

  abbrev pub line_tree : CanonicalLine → Elements
  line_tree line = node (line_name doc) (
      append
        (append
          (append (leaf (codes "cbc:ID") [] (decimal line.line_number))
            (optional line.quantity (leaf (quantity_name doc) (unit_attributes line.unit_code))))
          (optional line.net_amount_minor (money_tree (codes "cbc:LineExtensionAmount"))))
        (unless_empty (codes "cac:Item") (item_tree line)))

  abbrev pub lines_tree : List CanonicalLine → Elements
  lines_tree [] = nil
  lines_tree (line ∷ lines) = append (line_tree line) (lines_tree lines)

  unfoldable pub ubl_tree : UblContext → Element
  ubl_tree ctx = element (root_name doc) (root_attributes doc) [] (
      append
        (append (append (head_tree doc ctx) (optional doc.tax_amount_minor tax_tree))
          (unless_empty (codes "cac:LegalMonetaryTotal") totals_tree))
        (lines_tree doc.lines))
