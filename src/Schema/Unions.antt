-- ===== src/Schema/Unions.antt =====
-- packages/db/schema/_shared.ts and the unions of client-data.ts and corpus.ts.
use compliance_data_layer.Base.{ℕ, Option}
use compliance_data_layer.Base.Texts.{Text, codes}

pub data DocType : Type 0 where
  invoice credit_note debit_note self_billed : DocType

abbrev pub doc_type_text : DocType → Text
doc_type_text invoice = codes "invoice"
doc_type_text credit_note = codes "credit_note"
doc_type_text debit_note = codes "debit_note"
doc_type_text self_billed = codes "self_billed"

pub data Scenario : Type 0 where
  standard zero_rated exempt reverse_charge designated_zone export : Scenario

abbrev pub scenario_text : Scenario → Text
scenario_text standard = codes "standard"
scenario_text zero_rated = codes "zero_rated"
scenario_text exempt = codes "exempt"
scenario_text reverse_charge = codes "reverse_charge"
scenario_text designated_zone = codes "designated_zone"
scenario_text export = codes "export"

pub data DefectClass : Type 0 where
  trn_invalid trn_missing trn_unstructured duplicate_customer address_incomplete : DefectClass
  identifier_inconsistent unit_code_freetext tax_category_unmapped : DefectClass
  currency_inconsistent parse_error : DefectClass

abbrev pub defect_text : DefectClass → Text
defect_text trn_invalid = codes "trn_invalid"
defect_text trn_missing = codes "trn_missing"
defect_text trn_unstructured = codes "trn_unstructured"
defect_text duplicate_customer = codes "duplicate_customer"
defect_text address_incomplete = codes "address_incomplete"
defect_text identifier_inconsistent = codes "identifier_inconsistent"
defect_text unit_code_freetext = codes "unit_code_freetext"
defect_text tax_category_unmapped = codes "tax_category_unmapped"
defect_text currency_inconsistent = codes "currency_inconsistent"
defect_text parse_error = codes "parse_error"

pub data FailureClass : Type 0 where
  missing_mandatory invalid_code format_mismatch arithmetic_mismatch identifier_invalid :
      FailureClass
  cardinality cross_field_dependency encoding date_logic rounding : FailureClass

pub data Severity : Type 0 where
  fatal error warning : Severity

-- `OUTCOMES`
pub data Verdict : Type 0 where
  pass fail warn : Verdict

pub data FlowDirection : Type 0 where
  ar ap : FlowDirection

pub data RunStatus : Type 0 where
  received normalising mapping validating reporting complete failed : RunStatus

pub data ValidationStage : Type 0 where
  pre_map post_map pre_submit asp_response authority_response : ValidationStage

pub data Charset : Type 0 where
  numeric alpha alnum mixed empty : Charset

abbrev pub charset_text : Charset → Text
charset_text numeric = codes "numeric"
charset_text alpha = codes "alpha"
charset_text alnum = codes "alnum"
charset_text mixed = codes "mixed"
charset_text empty = codes "empty"

pub data LineCountBucket : Type 0 where
  one two_to_five six_to_twenty up_to_hundred over_hundred : LineCountBucket

pub record ValueShape : Type 0 where
  pub len : Option ℕ
  pub charset : Option Charset
  pub regex_class : Option Text
  pub expected : Option Text
