-- ===== src/Mapping/Ubl.antt =====
-- apps/web/modules/mapping/ubl.ts: the elements that the UBL text is put together from. A thrown error is `err`.
pub mod Xml
pub mod Tree
pub mod Document
pub mod Escaping
mod Pieces
pub mod Reading
mod Tests
use compliance_data_layer.Base.{
  ℕ, ◌≡◌, Bool, true, false, ◌||◌, List, [], ◌∷◌, ◌++◌, concat, Option, none, some, or_else,
  is_some, head?, Result, ok, err, ◌>>=◌, ◌>>◌, throw_if, ◌==◌, if◌then◌else◌, not,
}
use compliance_data_layer.Base.Int.{ℤ}
use compliance_data_layer.Base.Texts.{Text, codes, is_empty}
use compliance_data_layer.Base.Texts.Strips.{trim}
use compliance_data_layer.Base.Texts.Decimals.{decimal}
use compliance_data_layer.Schema.{DocType, invoice, credit_note, debit_note, self_billed}
use compliance_data_layer.Ingestion.Money.{MoneyError, minor_to_decimal}
use compliance_data_layer.Ingestion.Normalise.{CanonicalLine, CanonicalDoc}

-- `TYPE_CODE`
abbrev pub type_code : DocType → Text
type_code invoice = codes "380"
type_code credit_note = codes "381"
type_code debit_note = codes "383"
type_code self_billed = codes "389"

pub record UblContext : Type 0 where
  pub customization_id : Text
  pub profile_id : Text
  pub seller_name : Option Text
  pub seller_country : Option Text
  pub buyer_country : Option Text

pub data UblError : Type 0 where
  missing_spec_identifiers : List Text → UblError
  money : MoneyError → UblError

-- `.replace(/c/g, by)`
unfoldable pub replace_all : ℕ → Text → Text → Text
replace_all c by [] = []
replace_all c by (d ∷ s) = let rest = replace_all c by s in if d == c then by ++ rest else d ∷ rest

unfoldable pub escape_xml : Text → Text
unfolding replace_all
escape_xml s = replace_all b'\'' (codes "&apos;") (
    replace_all b'"' (codes "&quot;") (
      replace_all b'>' (codes "&gt;")
        (replace_all b'<' (codes "&lt;") (replace_all b'&' (codes "&amp;") s))))

unfoldable pub el : Text → Text → Text → Text
unfolding escape_xml
el name value attrs =
    codes "<" ++ name ++ attrs ++ codes ">" ++ escape_xml value ++ codes "</" ++ name ++ codes ">"

-- ` name="value"` in a start tag
abbrev pub attribute : Text → Text → Text
attribute name value = codes " " ++ name ++ codes "=\"" ++ escape_xml value ++ codes "\""

-- `if (x !== null) parts.push(f(x));`
abbrev pub present {ℓ} : {A : Type ℓ} → Option A → (A → Text) → List Text
present none f = []
present (some a) f = f a ∷ []

-- The same where `f` may throw.
abbrev pub try_present {ℓ} :
    {A : Type ℓ} → Option A → (A → Result UblError Text) → Result UblError (List Text)
try_present none f = ok []
try_present (some a) f = do t ← f a; ok (t ∷ [])

abbrev pub money_or {ℓ} : {A : Type ℓ} → Result MoneyError A → Result UblError A
money_or (ok a) = ok a
money_or (err e) = err (money e)

unfoldable pub amount : Text → ℤ → Text → Result UblError Text
unfolding el
amount name minor currency = do
  t ← money_or (minor_to_decimal minor currency)
  ok (el name t (attribute (codes "currencyID") currency))

unfoldable pub tax_category : Text → Option Text → Option Text → Text
unfolding el
tax_category tag category_code rate =
    codes "<"
    ++ tag
    ++ codes ">"
    ++ concat (
        present category_code (λ c. el (codes "cbc:ID") c [])
        ++ present rate (λ r. el (codes "cbc:Percent") r [])
        ++ codes "<cac:TaxScheme><cbc:ID>VAT</cbc:ID></cac:TaxScheme>" ∷ [])
    ++ codes "</"
    ++ tag
    ++ codes ">"

abbrev pub postal_address : Text → Text
postal_address country =
    codes "<cac:PostalAddress><cac:Country>"
    ++ el (codes "cbc:IdentificationCode") country []
    ++ codes "</cac:Country></cac:PostalAddress>"

abbrev pub party_tax_scheme : Text → Text
party_tax_scheme trn =
    codes "<cac:PartyTaxScheme>"
    ++ el (codes "cbc:CompanyID") trn []
    ++ codes "<cac:TaxScheme><cbc:ID>VAT</cbc:ID></cac:TaxScheme></cac:PartyTaxScheme>"

abbrev pub party_legal_entity : Text → Text
party_legal_entity name =
    codes "<cac:PartyLegalEntity>"
    ++ el (codes "cbc:RegistrationName") name []
    ++ codes "</cac:PartyLegalEntity>"

unfoldable pub party : Text → Option Text → Option Text → Option Text → Text
unfolding el
party tag name trn country =
    codes "<"
    ++ tag
    ++ codes "><cac:Party>"
    ++ concat (
        present country postal_address
        ++ present trn party_tax_scheme
        ++ present name party_legal_entity)
    ++ codes "</cac:Party></"
    ++ tag
    ++ codes ">"

abbrev pub is_credit_note : CanonicalDoc → Bool
is_credit_note doc = elim doc.doc_type [ credit_note ↦ true | _ ↦ false ]

abbrev pub billing_reference : Text → Text
billing_reference predecessor =
    codes "<cac:BillingReference><cac:InvoiceDocumentReference>"
    ++ el (codes "cbc:ID") predecessor []
    ++ codes "</cac:InvoiceDocumentReference></cac:BillingReference>"

-- `doc.lines[0]?.f ?? null`
abbrev pub of_first : (CanonicalLine → Option Text) → List CanonicalLine → Option Text
of_first f [] = none
of_first f (line ∷ lines) = f line

unfoldable pub tax_subtotal : CanonicalDoc → ℤ → ℤ → Result UblError Text
unfolding amount tax_category
tax_subtotal doc tax line_extension = do
  taxable ← amount (codes "cbc:TaxableAmount") line_extension doc.currency
  due ← amount (codes "cbc:TaxAmount") tax doc.currency
  ok (
      codes "<cac:TaxSubtotal>"
      ++ taxable
      ++ due
      ++ tax_category (codes "cac:TaxCategory") (of_first (λ l. l.tax_category_code) doc.lines)
          (of_first (λ l. l.tax_rate) doc.lines)
      ++ codes "</cac:TaxSubtotal>")

unfoldable pub tax_total : CanonicalDoc → ℤ → Result UblError Text
unfolding tax_subtotal
tax_total doc tax = do
  subtotal ← try_present doc.line_extension_minor (tax_subtotal doc tax)
  due ← amount (codes "cbc:TaxAmount") tax doc.currency
  ok (codes "<cac:TaxTotal>" ++ due ++ concat subtotal ++ codes "</cac:TaxTotal>")

abbrev pub two_amounts : Text → Text → Text → Option ℤ → Result UblError (List Text)
two_amounts first second currency none = ok []
two_amounts first second currency (some minor) = do
  a ← amount first minor currency
  b ← amount second minor currency
  ok (a ∷ b ∷ [])

abbrev pub legal_monetary_total : List Text → List Text
legal_monetary_total [] = []
legal_monetary_total (t ∷ ts) =
    (codes "<cac:LegalMonetaryTotal>" ++ concat (t ∷ ts) ++ codes "</cac:LegalMonetaryTotal>") ∷ []

abbrev pub unit_attribute : Option Text → Text
unit_attribute none = []
unit_attribute (some unit) = attribute (codes "unitCode") unit

abbrev pub item : List Text → List Text
item [] = []
item (t ∷ ts) = (codes "<cac:Item>" ++ concat (t ∷ ts) ++ codes "</cac:Item>") ∷ []

abbrev pub line_category : Option Text → Option Text → List Text
line_category code rate =
    if is_some code || is_some rate
    then tax_category (codes "cac:ClassifiedTaxCategory") code rate ∷ []
    else []

abbrev pub has_any {ℓ} : {A : Type ℓ} → List A → Bool
has_any [] = false
has_any (_ ∷ _) = true
