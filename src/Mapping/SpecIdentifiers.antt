-- ===== src/Mapping/SpecIdentifiers.antt =====
-- apps/web/modules/mapping/spec-identifiers.ts: the identifiers of the specification that a document
-- claims. The tables are object literals, read by a computed name.
pub mod Answers
mod Tests
use compliance_data_layer.Base.{
  ℕ, ◌≡◌, Bool, true, false, List, [], ◌∷◌, ◌++◌, Result, ok, err, or_option, Option, none, some,
}
use compliance_data_layer.Base.Objects.{Found, own, inherited, missing, member}
use compliance_data_layer.Base.Texts.{Text, codes, text_eq}
use compliance_data_layer.Schema.{DocType, invoice, credit_note, debit_note, self_billed}

pub record SpecIdentifiers : Type 0 where
  pub customization_id : Text
  pub profile_id : Text

pub data BillingProcess : Type 0 where
  billing selfbilling : BillingProcess

abbrev pub billing_process_for : DocType → BillingProcess
billing_process_for self_billed = selfbilling
billing_process_for invoice = billing
billing_process_for credit_note = billing
billing_process_for debit_note = billing

abbrev pub pint_ae : BillingProcess → SpecIdentifiers
pint_ae billing = record {
  customization_id = codes "urn:peppol:pint:billing-1@ae-1";
  profile_id = codes "urn:peppol:bis:billing";
}
pint_ae selfbilling = record {
  customization_id = codes "urn:peppol:pint:selfbilling-1@ae-1";
  profile_id = codes "urn:peppol:bis:selfbilling";
}

abbrev pub resolved : List (Text × (BillingProcess → SpecIdentifiers))
resolved = (codes "pint-ae", pint_ae) ∷ []

-- What `ublSpecIdentifiers` comes to: a pair, a throw, or the member of an inherited value, which is
-- `undefined`.
pub data Answer : Type 0 where
  identifiers : SpecIdentifiers → Answer
  unresolved : Answer
  undefined_pair : Answer

abbrev pub answer : Found (BillingProcess → SpecIdentifiers) → DocType → Answer
answer (own table) doc_type = identifiers (table (billing_process_for doc_type))
answer inherited doc_type = undefined_pair
answer missing doc_type = unresolved

unfoldable pub ubl_spec_identifiers : Text → DocType → Answer
ubl_spec_identifiers spec_id doc_type = answer (member resolved spec_id) doc_type

abbrev pub is_in : {A : Type 0} → Found A → Bool
is_in (own a) = true
is_in inherited = true
is_in missing = false

-- `specId in RESOLVED`
unfoldable pub has_spec_identifiers : Text → Bool
has_spec_identifiers spec_id = is_in (member resolved spec_id)
