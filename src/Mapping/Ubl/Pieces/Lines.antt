-- ===== src/Mapping/Ubl/Pieces/Lines.antt =====
-- apps/web/modules/mapping/ubl.ts: the lines and the leading elements of a document.
use compliance_data_layer.Base.{
  ◌≡◌, refl, true, ◌||◌, List, [], ◌∷◌, ◌++◌, Option, none, some, is_some, Bool-cases, inl, inr,
}
use compliance_data_layer.Base.Int.{ℤ}
use compliance_data_layer.Base.Texts.{Text, codes}
use compliance_data_layer.Base.Texts.Decimals.{decimal}
use compliance_data_layer.Ingestion.Normalise.{CanonicalLine, CanonicalDoc}
use compliance_data_layer.Mapping.Ubl.{
  UblContext, el, amount, is_credit_note, party, billing_reference, legal_monetary_total,
  unit_attribute, item, line_category, present, type_code,
}
use compliance_data_layer.Mapping.Ubl.Document.{line_text, lines_text, leading_elements}
use compliance_data_layer.Mapping.Ubl.Tree.{
  leaf, optional, category_tree, reference_tree, unless_empty, money_tree, line_category_tree,
  unit_attributes, quantity_name, line_name, line_tree, lines_tree, type_code_name, head_tree,
}
use compliance_data_layer.Mapping.Ubl.Xml.{Elements, append}
use compliance_data_layer.Mapping.Ubl.Pieces.Tags.{
  is_name, no_attributes, one_attribute, ReadsAttributes,
}
use compliance_data_layer.Mapping.Ubl.Pieces.Writes.{
  el-Writes, plain_node-Writes, WritesAll, WritesAll-nil, WritesAll-cons, WritesAll-one,
  WritesAll-append, WritesAll-present, Gives, GivesAll, GivesAll-try_present,
}
use compliance_data_layer.Mapping.Ubl.Pieces.Terms.{
  el-WritesOne, tax_category-Writes, billing_reference-Writes, party-Writes,
}
use compliance_data_layer.Mapping.Ubl.Pieces.Amounts.{wrapped-Writes, Prints, amount-Gives}

unit_attribute-Reads :
    (unit : Option Text) → ReadsAttributes (unit_attribute unit) (unit_attributes unit)
unit_attribute-Reads none = no_attributes
unit_attribute-Reads (some unit) = one_attribute (codes "unitCode") unit refl

line_category-WritesAll :
    (code rate : Option Text) → WritesAll (line_category code rate) (line_category_tree code rate)
line_category-WritesAll code rate = elim (Bool-cases (is_some code || is_some rate)) [
  | inl e ↦ rw e (
      WritesAll-one _ (category_tree (codes "cac:ClassifiedTaxCategory") code rate)
        (tax_category-Writes (codes "cac:ClassifiedTaxCategory") code rate refl))
  | inr e ↦ rw e WritesAll-nil
]

quantity_name-is_name : (doc : CanonicalDoc) → is_name (quantity_name doc) ≡ true
quantity_name-is_name doc = elim (Bool-cases (is_credit_note doc)) [
  | inl e ↦ rw e refl
  | inr e ↦ rw e refl
]

line_name-is_name : (doc : CanonicalDoc) → is_name (line_name doc) ≡ true
line_name-is_name doc = elim (Bool-cases (is_credit_note doc)) [
  | inl e ↦ rw e refl
  | inr e ↦ rw e refl
]

type_code_name-is_name : (doc : CanonicalDoc) → is_name (type_code_name doc) ≡ true
type_code_name-is_name doc = elim (Bool-cases (is_credit_note doc)) [
  | inl e ↦ rw e refl
  | inr e ↦ rw e refl
]

item-WritesAll :
    (description code rate : Option Text)
    → WritesAll
        (item (present description (λ d. el (codes "cbc:Name") d []) ++ line_category code rate))
        (unless_empty (codes "cac:Item") (
          append
            (optional description (leaf (codes "cbc:Name") []))
            (line_category_tree code rate)))
item-WritesAll description code rate =
    wrapped-Writes (codes "cac:Item") (codes "<cac:Item>") (codes "</cac:Item>") item _ _ refl refl
      refl refl (λ t ts. refl)
      (WritesAll-append _ _ _ _
        (WritesAll-present description (λ d. el (codes "cbc:Name") d [])
          (leaf (codes "cbc:Name") []) (λ d. el-WritesOne (codes "cbc:Name") d refl))
        (line_category-WritesAll code rate))

pub legal_monetary_total-WritesAll :
    (ss : List Text) (es : Elements)
    → WritesAll ss es
    → WritesAll (legal_monetary_total ss) (unless_empty (codes "cac:LegalMonetaryTotal") es)
legal_monetary_total-WritesAll ss es p =
    wrapped-Writes (codes "cac:LegalMonetaryTotal") (codes "<cac:LegalMonetaryTotal>")
      (codes "</cac:LegalMonetaryTotal>") legal_monetary_total ss es refl refl refl refl
      (λ t ts. refl) p

module _ (printed : ℤ → Text) (doc : CanonicalDoc) where
  line_text-Gives :
      (line : CanonicalLine)
      → Prints printed doc
      → Gives (line_text doc line) (line_tree printed doc line)
  unfolding line_text
  line_text-Gives line prints =
      let (net, e, p) =
        GivesAll-try_present line.net_amount_minor
          (λ m. amount (codes "cbc:LineExtensionAmount") m doc.currency)
          (money_tree printed doc (codes "cbc:LineExtensionAmount"))
          (λ m. amount-Gives printed doc (codes "cbc:LineExtensionAmount") m prints refl) in
      let named =
        el (codes "cbc:ID") (decimal line.line_number) []
        ∷ present line.quantity (λ q. el (quantity_name doc) q (unit_attribute line.unit_code)) in
      (
        _,
        rw e refl,
        (
          plain_node-Writes (line_name doc) _ _ (line_name-is_name doc)
              (WritesAll-append (named ++ net) _ _ _
                (WritesAll-append named net _ _
                  (WritesAll-cons _ _ _ _
                    (el-WritesOne (codes "cbc:ID") (decimal line.line_number) refl)
                    (WritesAll-present line.quantity
                      (λ q. el (quantity_name doc) q (unit_attribute line.unit_code))
                      (leaf (quantity_name doc) (unit_attributes line.unit_code))
                      (λ q. (
                        el-Writes (quantity_name doc) q _ _ (quantity_name-is_name doc)
                            (unit_attribute-Reads line.unit_code),
                        refl,
                      ))))
                  p)
                (item-WritesAll line.description line.tax_category_code line.tax_rate)).0,
          refl,
        ),
      )

  pub lines_text-GivesAll :
      (lines : List CanonicalLine)
      → Prints printed doc
      → GivesAll (lines_text doc lines) (lines_tree printed doc lines)
  unfolding lines_text
  lines_text-GivesAll [] prints = ([], refl, WritesAll-nil)
  lines_text-GivesAll (line ∷ lines) prints =
      let (t, e, p) = line_text-Gives line prints in
      let (ts, es, ps) = lines_text-GivesAll lines prints in
      (t ∷ ts, rw e (rw es refl), WritesAll-cons t ts _ _ p ps)

  pub leading_elements-WritesAll :
      (ctx : UblContext) → WritesAll (leading_elements doc ctx) (head_tree doc ctx)
  unfolding leading_elements
  leading_elements-WritesAll ctx =
      let lineage = present doc.predecessor_ref billing_reference in
      let from_currency = el (codes "cbc:DocumentCurrencyCode") doc.currency [] ∷ lineage in
      let from_type = el (type_code_name doc) (type_code doc.doc_type) [] ∷ from_currency in
      let from_date = el (codes "cbc:IssueDate") doc.issue_date [] ∷ from_type in
      let from_number = el (codes "cbc:ID") doc.invoice_number [] ∷ from_date in
      let from_profile = el (codes "cbc:ProfileID") ctx.profile_id [] ∷ from_number in
      let seller =
        party (codes "cac:AccountingSupplierParty") ctx.seller_name doc.seller_trn
          ctx.seller_country in
      let buyer =
        party (codes "cac:AccountingCustomerParty") doc.buyer_name doc.buyer_trn
          ctx.buyer_country in
      WritesAll-append (el (codes "cbc:CustomizationID") ctx.customization_id [] ∷ from_profile)
        (seller ∷ buyer ∷ []) _ _
        (WritesAll-cons _ from_profile _ _
          (el-WritesOne (codes "cbc:CustomizationID") ctx.customization_id refl)
          (WritesAll-cons _ from_number _ _
            (el-WritesOne (codes "cbc:ProfileID") ctx.profile_id refl)
            (WritesAll-cons _ from_date _ _ (el-WritesOne (codes "cbc:ID") doc.invoice_number refl)
              (WritesAll-cons _ from_type _ _
                (el-WritesOne (codes "cbc:IssueDate") doc.issue_date refl)
                (WritesAll-cons _ from_currency _ _
                  (el-WritesOne (type_code_name doc) (type_code doc.doc_type)
                    (type_code_name-is_name doc))
                  (WritesAll-cons _ lineage _ _
                    (el-WritesOne (codes "cbc:DocumentCurrencyCode") doc.currency refl)
                    (WritesAll-present doc.predecessor_ref billing_reference reference_tree
                      billing_reference-Writes)))))))
        (WritesAll-cons seller (buyer ∷ []) _ _
          (party-Writes (codes "cac:AccountingSupplierParty") ctx.seller_name doc.seller_trn
            ctx.seller_country refl)
          (WritesAll-one buyer _ (
            party-Writes (codes "cac:AccountingCustomerParty") doc.buyer_name doc.buyer_trn
              ctx.buyer_country refl)))
