-- ===== src/Mapping/Profile.antt =====
-- apps/web/modules/mapping/profile.ts: versions of a mapping profile and their confirmation. The id of
-- an inserted row comes from the database and is an argument; the vendor of the source system is its text.
pub mod Versions
pub mod Confirmation
mod Tests
use compliance_data_layer.Base.{
  ℕ, ◌+◌, ◌≡◌, Bool, true, false, not, ◌&&◌, ◌||◌, List, [], ◌∷◌, ◌++◌, map, Option, none, some,
  Result, ok, err, ◌>>=◌, ◌>>◌, throw_if, filter, ltb, is_some, is_none, if◌then◌else◌,
}
use compliance_data_layer.Base.Texts.{Text, codes, text_eq}
use compliance_data_layer.Schema.{MappingProfile, ClientData}
use compliance_data_layer.Tenancy.{TenantAccess, with_tenant_access}
use compliance_data_layer.Mapping.Apply.{
  MappingDefinition, unmapped_mandatory_terms, find_profile, is_nonempty,
}

pub record ProfileSummary : Type 0 where
  pub id : Text
  pub version : ℕ
  pub source_system : Text
  pub jurisdiction : Text
  pub confirmed_at : Option ℕ
  pub confirmed_by : Option Text
  pub unmapped : List Text

pub record CreateProfileInput : Type 0 where
  pub tenant_id : Text
  pub actor_id : Text
  pub entity_id : Option Text
  pub source_system : Text
  pub jurisdiction : Text
  pub mapping : MappingDefinition

pub record ListProfilesInput : Type 0 where
  pub tenant_id : Text
  pub actor_id : Text
  pub entity_id : Option Text

pub record ConfirmProfileInput : Type 0 where
  pub tenant_id : Text
  pub actor_id : Text
  pub profile_id : Text
  pub confirmed_by : Text

pub data ProfileError : Type 0 where
  no_profile : ProfileError
  mandatory_terms_unmapped : List Text → ProfileError

abbrev pub support_access : Text → Text → TenantAccess
support_access tenant actor = record {
  tenant_id = tenant;
  actor_id = actor;
  reason = codes "client_support";
  trace_id = none;
}

abbrev pub summary : MappingProfile → ProfileSummary
summary r = record {
  id = r.id;
  version = r.version;
  source_system = r.source_system;
  jurisdiction = r.jurisdiction;
  confirmed_at = r.confirmed_at;
  confirmed_by = r.confirmed_by;
  unmapped = unmapped_mandatory_terms r.mapping;
}

-- `ORDER BY version DESC`
unfoldable pub insert_descending : MappingProfile → List MappingProfile → List MappingProfile
insert_descending p [] = p ∷ []
insert_descending p (q ∷ ps) =
    if ltb p.version q.version then q ∷ insert_descending p ps else p ∷ q ∷ ps

unfoldable pub order_by_version : List MappingProfile → List MappingProfile
order_by_version [] = []
order_by_version (p ∷ ps) = insert_descending p (order_by_version ps)

abbrev pub entity_is : Text → Option Text → Bool
entity_is wanted none = false
entity_is wanted (some e) = text_eq e wanted

abbrev pub of_entity : Option Text → MappingProfile → Bool
of_entity none r = true
of_entity (some wanted) r = entity_is wanted r.entity_id

unfoldable pub list_profiles :
    ListProfilesInput → ClientData → Result ProfileError (ClientData × List ProfileSummary)
list_profiles input = with_tenant_access (support_access input.tenant_id input.actor_id) (λ db. ok (
  db,
  map summary (
      filter (of_entity input.entity_id) (
        order_by_version
          (filter (λ (r : MappingProfile). text_eq r.tenant_id input.tenant_id) db.profiles))),
))

-- The rows whose versions a new profile continues.
abbrev pub in_series : Text → Text → Text → MappingProfile → Bool
in_series tenant system jurisdiction r =
    text_eq r.tenant_id tenant
    && text_eq r.source_system system
    && text_eq r.jurisdiction jurisdiction

abbrev pub version_of : List MappingProfile → ℕ
version_of [] = 0
version_of (p ∷ ps) = p.version

unfoldable pub next_version : Text → Text → Text → List MappingProfile → ℕ
unfolding order_by_version
next_version tenant system jurisdiction rows =
    version_of (order_by_version (filter (in_series tenant system jurisdiction) rows)) + 1

abbrev pub new_row : Text → CreateProfileInput → List MappingProfile → MappingProfile
new_row id input rows = record {
  id = id;
  tenant_id = input.tenant_id;
  entity_id = input.entity_id;
  source_system = input.source_system;
  jurisdiction = input.jurisdiction;
  version = next_version input.tenant_id input.source_system input.jurisdiction rows;
  mapping = input.mapping;
  confirmed_by = none;
  confirmed_at = none;
}

unfoldable pub create_profile :
    Text → CreateProfileInput → ClientData → Result ProfileError (ClientData × ProfileSummary)
create_profile id input = with_tenant_access (support_access input.tenant_id input.actor_id) (λ db.
    let row = new_row id input db.profiles in
    ok (record db { profiles = db.profiles ++ row ∷ [] }, summary row))

-- `UPDATE mapping_profile SET confirmed_by, confirmed_at WHERE id AND tenant_id`
unfoldable pub set_confirmed : Text → Text → Text → ℕ → List MappingProfile → List MappingProfile
set_confirmed id tenant by now rows =
    map
      (λ (r : MappingProfile).
        if text_eq r.id id && text_eq r.tenant_id tenant
        then record r { confirmed_by = some by; confirmed_at = some now }
        else r)
      rows

abbrev pub confirmable : Option MappingProfile → Result ProfileError MappingProfile
confirmable none = err no_profile
confirmable (some p) = do
  throw_if (is_nonempty (unmapped_mandatory_terms p.mapping))
      (mandatory_terms_unmapped (unmapped_mandatory_terms p.mapping))
  ok p

unfoldable pub confirm_profile :
    ConfirmProfileInput → ℕ → ClientData → Result ProfileError (ClientData × Unit {0})
unfolding find_profile set_confirmed
confirm_profile input now =
    with_tenant_access (support_access input.tenant_id input.actor_id) (λ db. do
      _ ← confirmable (find_profile input.profile_id input.tenant_id db.profiles)
      ok (
        record db {
          profiles =
              set_confirmed input.profile_id input.tenant_id input.confirmed_by now db.profiles;
        },
        tt,
      ))
