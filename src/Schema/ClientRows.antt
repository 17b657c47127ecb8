-- ===== src/Schema/ClientRows.antt =====
-- packages/db/schema/client-data.ts, and the access log and the payload of app.ts and apply.ts: the rows
-- of the clients' data.
use compliance_data_layer.Base.{ℕ, Bool, List, Option}
use compliance_data_layer.Base.Int.{ℤ}
use compliance_data_layer.Base.Texts.{Text}
use compliance_data_layer.Schema.Unions.{
  DocType, Scenario, DefectClass, FlowDirection, RunStatus, ValueShape,
}

pub record IngestionRun : Type 0 where
  pub run_id : Text
  pub tenant_id : Text
  pub entity_id : Text
  pub status : RunStatus
  pub checksum : Text
  pub storage_key : Text
  pub doc_count : Option ℕ
  pub readiness_score : Option ℕ
  pub expires_at : ℕ

pub record RawDocument : Type 0 where
  pub id : Text
  pub tenant_id : Text
  pub run_id : Text
  pub storage_key : Text
  pub checksum : Text
  pub mime_type : Text
  pub size_bytes : ℕ
  pub encrypted_data_key : Text
  pub iv : Text
  pub expires_at : ℕ

pub record MappingRule : Type 0 where
  pub path : Text
  pub transform : Option Text

pub record MappingProfile : Type 0 where
  pub id : Text
  pub tenant_id : Text
  pub entity_id : Option Text
  pub source_system : Text
  pub jurisdiction : Text
  pub version : ℕ
  pub mapping : List (Text × MappingRule)
  pub confirmed_by : Option Text
  pub confirmed_at : Option ℕ

pub record MasterDataDefect : Type 0 where
  pub tenant_id : Text
  pub entity_id : Text
  pub run_id : Text
  pub defect_class : DefectClass
  pub affected_count : ℕ
  pub effort_minutes : Option ℕ
  pub sample_shape : Option ValueShape
  pub expires_at : ℕ

pub record InvoiceLine : Type 0 where
  pub tenant_id : Text
  pub invoice_id : Text
  pub line_number : ℕ
  pub description : Option Text
  pub quantity : Option Text
  pub unit_code : Option Text
  pub net_amount_minor : Option ℤ
  pub tax_category_code : Option Text
  pub tax_rate : Option Text
  pub expires_at : ℕ

-- `present[term] ?? false`: a name that every object inherits finds a function there.
pub data Present : Type 0 where
  flag : Bool → Present
  inherited_member : Present

pub record TermSource : Type 0 where
  pub source : Text
  pub present : Present

pub record MappedPayload : Type 0 where
  pub profile_id : Text
  pub profile_version : ℕ
  pub terms : List (Text × TermSource)

pub record Invoice : Type 0 where
  pub id : Text
  pub tenant_id : Text
  pub entity_id : Text
  pub run_id : Text
  pub direction : FlowDirection
  pub counterparty_id : Option Text
  pub doc_hash : Text
  pub doc_type : DocType
  pub scenario : Scenario
  pub invoice_number : Text
  pub issue_date : Text
  pub currency : Text
  pub buyer_name : Option Text
  pub buyer_trn : Option Text
  pub seller_trn : Option Text
  pub predecessor_ref : Option Text
  pub line_extension_minor : Option ℤ
  pub tax_amount_minor : Option ℤ
  pub payable_minor : Option ℤ
  pub has_allowance_charge : Bool
  pub has_multi_tax_rate : Bool
  pub line_count : ℕ
  pub mapped_payload : Option MappedPayload
  pub expires_at : ℕ

-- `client_data` and the access log of `app`, as far as the pipeline writes them.
pub record AccessLog : Type 0 where
  pub tenant_id : Text
  pub actor_id : Text
  pub reason : Text
  pub trace_id : Option Text

pub record ClientData : Type 0 where
  pub runs : List IngestionRun
  pub raw_documents : List RawDocument
  pub invoices : List Invoice
  pub lines : List InvoiceLine
  pub profiles : List MappingProfile
  pub defects : List MasterDataDefect
  pub access_log : List AccessLog
