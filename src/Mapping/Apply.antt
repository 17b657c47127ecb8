-- ===== src/Mapping/Apply.antt =====
-- apps/web/modules/mapping/apply.ts: `map.apply`, which runs on a confirmed profile only.
pub mod Gate
pub mod Rows
mod Tests
use compliance_data_layer.Base.{
  ℕ, ◌≡◌, Bool, true, false, not, ◌&&◌, ◌||◌, List, [], ◌∷◌, ◌++◌, map, Option, none, some, Result,
  ok, err, ◌>>=◌, ◌>>◌, throw_if, any, filter, is_some, is_none, if◌then◌else◌,
}
use compliance_data_layer.Base.Objects.{Found, own, inherited, missing, member}
use compliance_data_layer.Base.Texts.{Text, codes, text_eq}
use compliance_data_layer.Schema.{
  MappingRule, MappingProfile, Invoice, InvoiceLine, IngestionRun, validating, Present, flag,
  inherited_member, TermSource, MappedPayload, ClientData,
}
use compliance_data_layer.Tenancy.{TenantAccess, with_tenant_access}

abbrev pub MappingDefinition : Type 0
MappingDefinition = List (Text × MappingRule)

abbrev pub mandatory_business_terms : List Text
mandatory_business_terms =
    codes "BT-1"
    ∷ codes "BT-2"
    ∷ codes "BT-5"
    ∷ codes "BT-31"
    ∷ codes "BT-44"
    ∷ codes "BT-48"
    ∷ codes "BT-106"
    ∷ codes "BT-112"
    ∷ []

abbrev pub is_missing {ℓ} : {A : Type ℓ} → Found A → Bool
is_missing missing = true
is_missing (own a) = false
is_missing inherited = false

unfoldable pub unmapped_mandatory_terms : MappingDefinition → List Text
unmapped_mandatory_terms mapping =
    filter (λ term. is_missing (member mapping term)) mandatory_business_terms

pub record ApplyMappingInput : Type 0 where
  pub run_id : Text
  pub tenant_id : Text
  pub actor_id : Text
  pub mapping_profile_id : Text
  pub trace_id : Option Text

pub record ApplyMappingResult : Type 0 where
  pub invoice_ids : List Text
  pub profile_version : ℕ
  pub unmapped_mandatory_terms : List Text

pub data ApplyError : Type 0 where
  unconfirmed_mapping_profile enqueue_failed : ApplyError

abbrev pub is_nonempty {ℓ} : {A : Type ℓ} → List A → Bool
is_nonempty [] = false
is_nonempty (_ ∷ _) = true

-- The object `present` of `projectTerms`.
abbrev pub present_terms : Invoice → List InvoiceLine → List (Text × Bool)
present_terms row lines =
    (codes "BT-1", is_nonempty row.invoice_number)
    ∷ (codes "BT-2", true)
    ∷ (codes "BT-5", is_nonempty row.currency)
    ∷ (codes "BT-25", is_some row.predecessor_ref)
    ∷ (codes "BT-31", is_some row.seller_trn)
    ∷ (codes "BT-44", is_some row.buyer_name)
    ∷ (codes "BT-48", is_some row.buyer_trn)
    ∷ (codes "BT-106", is_some row.line_extension_minor)
    ∷ (codes "BT-110", is_some row.tax_amount_minor)
    ∷ (codes "BT-112", is_some row.payable_minor)
    ∷ (codes "BT-130", any (λ (l : InvoiceLine). is_some l.unit_code) lines)
    ∷ (codes "BT-151", any (λ (l : InvoiceLine). is_some l.tax_category_code) lines)
    ∷ []

abbrev pub present_of : Found Bool → Present
present_of (own b) = flag b
present_of inherited = inherited_member
present_of missing = flag false

-- `Object.entries(mapping)` into `out`. The entries have distinct names; an assignment to `__proto__`
-- stores no entry.
unfoldable pub project_terms :
    MappingDefinition → Invoice → List InvoiceLine → List (Text × TermSource)
project_terms [] row lines = []
project_terms ((term, rule) ∷ mapping) row lines =
    let entry =
      (
        term,
        record { source = rule.path; present = present_of (member (present_terms row lines) term) },
      )
      ∷ project_terms mapping row lines in
    let rest = project_terms mapping row lines in
    if text_eq term (codes "__proto__") then rest else entry

-- The first row of `SELECT … WHERE id AND tenant_id`
unfoldable pub find_profile : Text → Text → List MappingProfile → Option MappingProfile
find_profile id tenant [] = none
find_profile id tenant (p ∷ ps) =
    if text_eq p.id id && text_eq p.tenant_id tenant then some p else find_profile id tenant ps

abbrev pub is_confirmed : MappingProfile → Bool
is_confirmed p = is_some p.confirmed_at && is_some p.confirmed_by

abbrev pub in_run : Text → Text → Invoice → Bool
in_run run tenant row = text_eq row.run_id run && text_eq row.tenant_id tenant

abbrev pub lines_of : Text → Text → List InvoiceLine → List InvoiceLine
lines_of id tenant lines = filter (λ l. text_eq l.invoice_id id && text_eq l.tenant_id tenant) lines

-- `UPDATE invoice SET mapped_payload WHERE id AND tenant_id`
unfoldable pub set_payload : Text → Text → MappedPayload → List Invoice → List Invoice
set_payload id tenant payload rows =
    map
      (λ (r : Invoice).
        if text_eq r.id id && text_eq r.tenant_id tenant
        then record r { mapped_payload = some payload }
        else r)
      rows

-- The loop over the selected rows.
unfoldable pub map_rows :
    MappingProfile → Text → List InvoiceLine → List Invoice → List Invoice → List Invoice
unfolding set_payload project_terms
map_rows profile tenant lines [] invoices = invoices
map_rows profile tenant lines (row ∷ rows) invoices = map_rows profile tenant lines rows (
    set_payload row.id tenant
      (record {
        profile_id = profile.id;
        profile_version = profile.version;
        terms = project_terms profile.mapping row (lines_of row.id tenant lines);
      })
      invoices)

unfoldable pub set_validating : Text → Text → List IngestionRun → List IngestionRun
set_validating run tenant rows =
    map
      (λ (r : IngestionRun).
        if text_eq r.run_id run && text_eq r.tenant_id tenant
        then record r { status = validating }
        else r)
      rows

-- The checks on the selected profile.
unfoldable pub usable_profile : Option MappingProfile → Result ApplyError MappingProfile
unfolding unmapped_mandatory_terms
usable_profile none = err unconfirmed_mapping_profile
usable_profile (some p) = do
  throw_if (is_none p.confirmed_at || is_none p.confirmed_by) unconfirmed_mapping_profile
  throw_if (is_nonempty (unmapped_mandatory_terms p.mapping)) unconfirmed_mapping_profile
  ok p

abbrev pub Enqueue : Type 0
Enqueue = ClientData → ApplyMappingResult → Result ApplyError ClientData

abbrev pub mapped : ApplyMappingInput → MappingProfile → ClientData → ClientData
mapped input profile db = record db {
  invoices =
      map_rows profile input.tenant_id db.lines
        (filter (in_run input.run_id input.tenant_id) db.invoices) db.invoices;
  runs = set_validating input.run_id input.tenant_id db.runs;
}

abbrev pub mapping_result : ApplyMappingInput → MappingProfile → ClientData → ApplyMappingResult
mapping_result input profile db = record {
  invoice_ids =
      map (λ (r : Invoice). r.id) (filter (in_run input.run_id input.tenant_id) db.invoices);
  profile_version = profile.version;
  unmapped_mandatory_terms = [];
}

abbrev pub map_run :
    ApplyMappingInput → Enqueue → ClientData → Result ApplyError (ClientData × ApplyMappingResult)
map_run input enqueue db = do
  profile ← usable_profile (find_profile input.mapping_profile_id input.tenant_id db.profiles)
  let result = mapping_result input profile db
  db' ← enqueue (mapped input profile db) result
  ok (db', result)

abbrev pub access_of : ApplyMappingInput → TenantAccess
access_of input = record {
  tenant_id = input.tenant_id;
  actor_id = input.actor_id;
  reason = codes "scheduled_job";
  trace_id = input.trace_id;
}

unfoldable pub apply_mapping :
    ApplyMappingInput → Enqueue → ClientData → Result ApplyError (ClientData × ApplyMappingResult)
unfolding find_profile map_rows set_validating usable_profile
apply_mapping input enqueue = with_tenant_access (access_of input) (map_run input enqueue)
