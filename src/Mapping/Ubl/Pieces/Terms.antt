-- ===== src/Mapping/Ubl/Pieces/Terms.antt =====
-- apps/web/modules/mapping/ubl.ts: the parts of a document, each with its elements.
use compliance_data_layer.Base.{◌≡◌, refl, subst, true, [], ◌∷◌, Option}
use mathlib.Core.List as Lists
use compliance_data_layer.Base.Texts.{Text, codes, text_eq}
use compliance_data_layer.Mapping.Ubl.{
  el, tax_category, postal_address, party_tax_scheme, party_legal_entity, party, billing_reference,
}
use compliance_data_layer.Mapping.Ubl.Tree.{
  leaf, vat_scheme, category_tree, address_tree, tax_scheme_tree, legal_entity_tree, party_tree,
  reference_tree,
}
use compliance_data_layer.Mapping.Ubl.Xml.{opened, content, run}
use compliance_data_layer.Mapping.Ubl.Pieces.Tags.{is_name, no_attributes}
use compliance_data_layer.Mapping.Ubl.Pieces.Writes.{
  Writes, run-around, el-Writes, plain_node-Writes, WritesOne, WritesAll-one, WritesAll-append,
  WritesAll-present,
}

-- An element without attributes.
pub el-WritesOne :
    (name value : Text) → is_name name ≡ true → WritesOne (el name value []) (leaf name [] value)
el-WritesOne name value named = (el-Writes name value [] [] named no_attributes, refl)

vat_scheme-Writes :
    WritesOne (codes "<cac:TaxScheme><cbc:ID>VAT</cbc:ID></cac:TaxScheme>") vat_scheme
unfolding run text_eq
vat_scheme-Writes = ((λ f fs. refl), refl)

pub tax_category-Writes :
    (tag : Text) (code rate : Option Text)
    → is_name tag ≡ true
    → WritesOne (tax_category tag code rate) (category_tree tag code rate)
unfolding tax_category
tax_category-Writes tag code rate named = (
  plain_node-Writes tag _ _ named
      (WritesAll-append _ _ _ vat_scheme
        (WritesAll-append _ _ _ _
          (WritesAll-present code (λ c. el (codes "cbc:ID") c []) (leaf (codes "cbc:ID") [])
            (λ c. el-WritesOne (codes "cbc:ID") c refl))
          (WritesAll-present rate (λ r. el (codes "cbc:Percent") r [])
            (leaf (codes "cbc:Percent") []) (λ r. el-WritesOne (codes "cbc:Percent") r refl)))
        (WritesAll-one _ vat_scheme vat_scheme-Writes)).0,
  refl,
)

postal_address-Writes : (country : Text) → WritesOne (postal_address country) (address_tree country)
unfolding run text_eq
postal_address-Writes country = (
  (λ f fs.
      run-around (codes "<cac:PostalAddress><cac:Country>")
        (el (codes "cbc:IdentificationCode") country [])
        (codes "</cac:Country></cac:PostalAddress>")
        (leaf (codes "cbc:IdentificationCode") [] country) (opened (codes "cac:Country") [])
        (opened (codes "cac:PostalAddress") [] ∷ f ∷ fs) (content, f ∷ fs) _
        (el-WritesOne (codes "cbc:IdentificationCode") country refl).0 refl refl),
  refl,
)

party_tax_scheme-Writes : (trn : Text) → WritesOne (party_tax_scheme trn) (tax_scheme_tree trn)
unfolding run text_eq
party_tax_scheme-Writes trn = (
  (λ f fs.
      run-around (codes "<cac:PartyTaxScheme>") (el (codes "cbc:CompanyID") trn [])
        (codes "<cac:TaxScheme><cbc:ID>VAT</cbc:ID></cac:TaxScheme></cac:PartyTaxScheme>")
        (leaf (codes "cbc:CompanyID") [] trn) (opened (codes "cac:PartyTaxScheme") []) (f ∷ fs)
        (content, f ∷ fs) _ (el-WritesOne (codes "cbc:CompanyID") trn refl).0 refl refl),
  refl,
)

party_legal_entity-Writes :
    (name : Text) → WritesOne (party_legal_entity name) (legal_entity_tree name)
unfolding run text_eq
party_legal_entity-Writes name = (
  (λ f fs.
      run-around (codes "<cac:PartyLegalEntity>") (el (codes "cbc:RegistrationName") name [])
        (codes "</cac:PartyLegalEntity>") (leaf (codes "cbc:RegistrationName") [] name)
        (opened (codes "cac:PartyLegalEntity") []) (f ∷ fs) (content, f ∷ fs) _
        (el-WritesOne (codes "cbc:RegistrationName") name refl).0 refl refl),
  refl,
)

pub billing_reference-Writes : (p : Text) → WritesOne (billing_reference p) (reference_tree p)
unfolding run text_eq
billing_reference-Writes p = (
  (λ f fs.
      run-around (codes "<cac:BillingReference><cac:InvoiceDocumentReference>")
        (el (codes "cbc:ID") p []) (codes "</cac:InvoiceDocumentReference></cac:BillingReference>")
        (leaf (codes "cbc:ID") [] p) (opened (codes "cac:InvoiceDocumentReference") [])
        (opened (codes "cac:BillingReference") [] ∷ f ∷ fs) (content, f ∷ fs) _
        (el-WritesOne (codes "cbc:ID") p refl).0 refl refl),
  refl,
)

pub party-Writes :
    (tag : Text) (name trn country : Option Text)
    → is_name tag ≡ true
    → WritesOne (party tag name trn country) (party_tree tag name trn country)
unfolding party
party-Writes tag name trn country named = (
  subst (λ t. Writes t (party_tree tag name trn country)) (simp (Lists.append_assoc) (refl))
      (plain_node-Writes tag _ _ named (
        plain_node-Writes (codes "cac:Party") _ _ refl
          (WritesAll-append _ _ _ _
            (WritesAll-append _ _ _ _
              (WritesAll-present country postal_address address_tree postal_address-Writes)
              (WritesAll-present trn party_tax_scheme tax_scheme_tree party_tax_scheme-Writes))
            (WritesAll-present name party_legal_entity legal_entity_tree
              party_legal_entity-Writes)).0)),
  refl,
)
