-- ===== src/Mapping/Apply/Tests.antt =====
-- apps/web/modules/mapping/apply.ts on a run of one invoice, beside an invoice of another tenant.
use compliance_data_layer.Base.{
  ◌≡◌, refl, true, false, [], ◌∷◌, map, filter, none, some, ok, err, All,
}
use compliance_data_layer.Base.Int.{pos}
use compliance_data_layer.Base.Objects.{member}
use compliance_data_layer.Base.Texts.{Text, codes, text_eq}
use compliance_data_layer.Schema.{
  ar, MappingProfile, Invoice, IngestionRun, ClientData, invoice, standard, mapping,
}
use compliance_data_layer.Tenancy.{log_access}
use compliance_data_layer.Mapping.Apply.{
  MappingDefinition, ApplyMappingInput, ApplyMappingResult, Enqueue, mandatory_business_terms,
  unmapped_mandatory_terms, find_profile, usable_profile, in_run, mapped, mapping_result,
  apply_mapping, access_of, is_confirmed, unconfirmed_mapping_profile,
}
use compliance_data_layer.Mapping.Apply.Gate.{apply_mapping-eq-ok}
use compliance_data_layer.Mapping.Apply.Rows.{
  others, other_runs, mapped-others, CarriesPayload, mapped-CarriesPayload,
}

abbrev full_mapping : MappingDefinition
full_mapping = map (λ t. (t, record { path = t; transform = none })) mandatory_business_terms

abbrev profile : MappingProfile
profile = record {
  id = codes "p1";
  tenant_id = codes "t1";
  entity_id = none;
  source_system = codes "tally";
  jurisdiction = codes "AE";
  version = 3;
  mapping = full_mapping;
  confirmed_by = some (codes "u1");
  confirmed_at = some 50;
}

abbrev invoice_of : Text → Invoice
invoice_of tenant = record {
  id = codes "i1";
  tenant_id = tenant;
  entity_id = codes "e1";
  run_id = codes "r1";
  direction = ar;
  counterparty_id = none;
  doc_hash = codes "d1";
  doc_type = invoice;
  scenario = standard;
  invoice_number = codes "INV-1";
  issue_date = codes "2026-01-31";
  currency = codes "AED";
  buyer_name = none;
  buyer_trn = none;
  seller_trn = none;
  predecessor_ref = none;
  line_extension_minor = some (pos 100);
  tax_amount_minor = none;
  payable_minor = some (pos 105);
  has_allowance_charge = false;
  has_multi_tax_rate = false;
  line_count = 1;
  mapped_payload = none;
  expires_at = 1000;
}

abbrev run_of : Text → IngestionRun
run_of tenant = record {
  run_id = codes "r1";
  tenant_id = tenant;
  entity_id = codes "e1";
  status = mapping;
  checksum = codes "c";
  storage_key = codes "k";
  doc_count = some 1;
  readiness_score = none;
  expires_at = 1000;
}

abbrev store : ClientData
store = record {
  runs = run_of (codes "t1") ∷ run_of (codes "t2") ∷ [];
  raw_documents = [];
  invoices = invoice_of (codes "t1") ∷ invoice_of (codes "t2") ∷ [];
  lines = [];
  profiles = profile ∷ [];
  defects = [];
  access_log = [];
}

abbrev input : ApplyMappingInput
input = record {
  run_id = codes "r1";
  tenant_id = codes "t1";
  actor_id = codes "u1";
  mapping_profile_id = codes "p1";
  trace_id = none;
}

abbrev keep : Enqueue
keep db result = ok db

abbrev result : ApplyMappingResult
result = mapping_result input profile store

abbrev final : ClientData
final = mapped input profile (log_access (access_of input) store)

accepted : apply_mapping input keep store ≡ ok (final, result)
unfolding apply_mapping find_profile usable_profile unmapped_mandatory_terms member text_eq
accepted = refl

unconfirmed :
    apply_mapping input keep
      (record store { profiles = record profile { confirmed_by = none } ∷ [] })
    ≡ err unconfirmed_mapping_profile
unfolding apply_mapping find_profile usable_profile text_eq
unconfirmed = refl

apply_mapping-eq-ok_example :
    (p : MappingProfile) × (find_profile (codes "p1") (codes "t1") store.profiles ≡ some p)
    × (p.id ≡ codes "p1")
    × (p.tenant_id ≡ codes "t1")
    × (is_confirmed p ≡ true)
    × (unmapped_mandatory_terms p.mapping ≡ [])
    × (result ≡ mapping_result input p store)
    × (keep (mapped input p (log_access (access_of input) store)) result ≡ ok final)
apply_mapping-eq-ok_example = apply_mapping-eq-ok input keep store final result accepted

mapped-others_example :
    (others (codes "t1") (mapped input profile store).invoices ≡ others (codes "t1") store.invoices)
    × (other_runs (codes "t1") (mapped input profile store).runs
        ≡ other_runs (codes "t1") store.runs)
mapped-others_example = mapped-others input profile store

mapped-CarriesPayload_example :
    All
      (CarriesPayload profile)
      (filter (in_run (codes "r1") (codes "t1")) (mapped input profile store).invoices)
mapped-CarriesPayload_example = mapped-CarriesPayload input profile store
