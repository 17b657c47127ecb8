-- ===== src/Mapping/Ubl/Tests.antt =====
-- toUbl on a credit note of one line, to a buyer whose name has a character that XML reserves.
use compliance_data_layer.Base.{◌≡◌, ◌≢◌, refl, false, [], ◌∷◌, none, some, ok, err}
use compliance_data_layer.Base.Int.{pos}
use compliance_data_layer.Base.Texts.{Text, codes}
use compliance_data_layer.Base.Texts.Strips.{trim}
use compliance_data_layer.Schema.{credit_note, standard}
use compliance_data_layer.Ingestion.Money.Known.{printed_in, dirham-known}
use compliance_data_layer.Ingestion.Normalise.{CanonicalLine, CanonicalDoc}
use compliance_data_layer.Mapping.Ubl.{UblContext, escape_xml, missing_spec_identifiers}
use compliance_data_layer.Mapping.Ubl.Document.{to_ubl}
use compliance_data_layer.Mapping.Ubl.Tree.{ubl_tree}
use compliance_data_layer.Mapping.Ubl.Xml.{nil, cons, read}
use compliance_data_layer.Mapping.Ubl.Reading.{to_ubl-read}

abbrev line : CanonicalLine
line = record {
  line_number = 1;
  description = some (codes "Tea");
  quantity = some (codes "2");
  unit_code = some (codes "EA");
  net_amount_minor = some (pos 1050);
  tax_category_code = some (codes "S");
  tax_rate = none;
}

abbrev doc : CanonicalDoc
doc = record {
  doc_type = credit_note;
  scenario = standard;
  invoice_number = codes "CN-1";
  issue_date = codes "2026-01-31";
  currency = codes "AED";
  buyer_name = some (codes "Tea & Co");
  buyer_trn = none;
  seller_trn = some (codes "100");
  predecessor_ref = some (codes "INV-1");
  line_extension_minor = some (pos 1050);
  tax_amount_minor = some (pos 53);
  payable_minor = none;
  has_allowance_charge = false;
  has_multi_tax_rate = false;
  lines = line ∷ [];
  source_ref = codes "row 2";
}

abbrev context : UblContext
context = record {
  customization_id = codes "urn:c";
  profile_id = codes "urn:p";
  seller_name = none;
  seller_country = some (codes "AE");
  buyer_country = none;
}

reserved : escape_xml (codes "a&<'") ≡ codes "a&amp;&lt;&apos;"
unfolding escape_xml
reserved = refl

no_profile :
    to_ubl doc (record context { profile_id = codes " " })
    ≡ err (missing_spec_identifiers (codes "ProfileID" ∷ []))
unfolding to_ubl trim
no_profile = refl

customized : trim context.customization_id ≢ []
unfolding trim
customized = λ e. cc

profiled : trim context.profile_id ≢ []
unfolding trim
profiled = λ e. cc

to_ubl-read_example :
    (s : Text) × (to_ubl doc context ≡ ok s)
    × (read s ≡ some (cons (ubl_tree (printed_in (codes "AED")) doc context) nil))
to_ubl-read_example = to_ubl-read doc context dirham-known customized profiled
