-- ===== src/Mapping/Profile/Versions.antt =====
-- apps/web/modules/mapping/profile.ts: the version that createProfile gives.
use compliance_data_layer.Base.{
  ◌≤◌, ◌<◌, ◌≡◌, sym, ap, List, [], ◌∷◌, ◌++◌, none, ok, ok_inj, subst, filter, All, All-imp, arith,
}
use compliance_data_layer.Base.Texts.{Text}
use compliance_data_layer.Schema.{MappingProfile, ClientData}
use compliance_data_layer.Mapping.Profile.{
  ProfileSummary, CreateProfileInput, summary, insert_descending, order_by_version, in_series,
  version_of, next_version, new_row, create_profile,
}

insert-tops :
    (p : MappingProfile) (ps : List MappingProfile)
    → (p.version ≤ version_of (insert_descending p ps))
      × (version_of ps ≤ version_of (insert_descending p ps))
unfolding insert_descending
insert-tops p [] = (omega arith, omega arith)
insert-tops p (q ∷ ps) = ground arith

order-tops :
    (rows : List MappingProfile) → All (λ r. r.version ≤ version_of (order_by_version rows)) rows
unfolding order_by_version
order-tops [] = tt
order-tops (p ∷ rows) =
    let (here, rest) = insert-tops p (order_by_version rows) in
    (here, All-imp _ _ (λ r h. omega (arith, h, rest)) rows (order-tops rows))

-- A profile that is created is unconfirmed, keeps every row that there was, and its version is above
-- every version of the same tenant, source system and jurisdiction.
pub create_profile-next :
    (id : Text) (input : CreateProfileInput) (db db' : ClientData) (s : ProfileSummary)
    → create_profile id input db ≡ ok (db', s)
    → All
        (λ (r : MappingProfile). r.version < s.version)
        (filter (in_series input.tenant_id input.source_system input.jurisdiction) db.profiles)
      × (s.confirmed_at ≡ none)
      × (s.confirmed_by ≡ none)
      × (db'.profiles ≡ db.profiles ++ new_row id input db.profiles ∷ [])
      × (s ≡ summary (new_row id input db.profiles))
unfolding create_profile next_version
create_profile-next id input db db' s h =
    let same = ap (λ (r : ClientData × ProfileSummary). r.1) (ok_inj h) in
    (
      All-imp _ _
          (λ r le. subst (λ (t : ProfileSummary). r.version < t.version) same (omega (arith, le))) _
          (order-tops (
            filter (in_series input.tenant_id input.source_system input.jurisdiction) db.profiles)),
      sym (ap (λ (t : ProfileSummary). t.confirmed_at) same),
      sym (ap (λ (t : ProfileSummary). t.confirmed_by) same),
      sym (ap (λ (r : ClientData × ProfileSummary). r.0.profiles) (ok_inj h)),
      sym same,
    )
