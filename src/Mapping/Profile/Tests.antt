-- ===== src/Mapping/Profile/Tests.antt =====
-- apps/web/modules/mapping/profile.ts on a store with one profile.
use compliance_data_layer.Base.{ℕ, ◌<◌, ◌≡◌, refl, [], ◌∷◌, ◌++◌, map, filter, none, ok, All}
use compliance_data_layer.Base.Texts.{Text, codes}
use compliance_data_layer.Schema.{MappingProfile, ClientData}
use compliance_data_layer.Tenancy.{log_access}
use compliance_data_layer.Mapping.Apply.{MappingDefinition, mandatory_business_terms}
use compliance_data_layer.Mapping.Profile.{
  CreateProfileInput, ConfirmProfileInput, support_access, summary, in_series, new_row,
  create_profile, set_confirmed,
}
use compliance_data_layer.Mapping.Profile.Versions.{create_profile-next}

abbrev full_mapping : MappingDefinition
full_mapping = map (λ t. (t, record { path = t; transform = none })) mandatory_business_terms

abbrev profile_of : Text → ℕ → MappingProfile
profile_of id version = record {
  id = id;
  tenant_id = codes "t1";
  entity_id = none;
  source_system = codes "tally";
  jurisdiction = codes "AE";
  version = version;
  mapping = full_mapping;
  confirmed_by = none;
  confirmed_at = none;
}

abbrev store : ClientData
store = record {
  runs = [];
  raw_documents = [];
  invoices = [];
  lines = [];
  profiles = profile_of (codes "p1") 1 ∷ profile_of (codes "p3") 3 ∷ [];
  defects = [];
  access_log = [];
}

abbrev creation : CreateProfileInput
creation = record {
  tenant_id = codes "t1";
  actor_id = codes "u1";
  entity_id = none;
  source_system = codes "tally";
  jurisdiction = codes "AE";
  mapping = full_mapping;
}

abbrev logged : ClientData
logged = log_access (support_access (codes "t1") (codes "u1")) store

abbrev created : ClientData
created = record logged {
  profiles = store.profiles ++ new_row (codes "p4") creation store.profiles ∷ [];
}

is_created :
    create_profile (codes "p4") creation store
    ≡ ok (created, summary (new_row (codes "p4") creation store.profiles))
unfolding create_profile
is_created = refl

create_profile-next_example :
    All
      (λ (r : MappingProfile). r.version < (new_row (codes "p4") creation store.profiles).version)
      (filter (in_series (codes "t1") (codes "tally") (codes "AE")) store.profiles)
    × ((summary (new_row (codes "p4") creation store.profiles)).confirmed_at ≡ none)
    × ((summary (new_row (codes "p4") creation store.profiles)).confirmed_by ≡ none)
    × (created.profiles ≡ store.profiles ++ new_row (codes "p4") creation store.profiles ∷ [])
    × (summary (new_row (codes "p4") creation store.profiles)
        ≡ summary (new_row (codes "p4") creation store.profiles))
create_profile-next_example =
    create_profile-next (codes "p4") creation store created
      (summary (new_row (codes "p4") creation store.profiles)) is_created

abbrev confirmation : ConfirmProfileInput
confirmation = record {
  tenant_id = codes "t1";
  actor_id = codes "u1";
  profile_id = codes "p3";
  confirmed_by = codes "u2";
}

abbrev confirmed : ClientData
confirmed = record logged {
  profiles = set_confirmed (codes "p3") (codes "t1") (codes "u2") 70 store.profiles;
}
