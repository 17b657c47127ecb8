-- ===== src/Mapping/Apply/Gate.antt =====
-- apps/web/modules/mapping/apply.ts: the checks behind an applyMapping that returns.
use compliance_data_layer.Base.{
  ◌≡◌, refl, sym, ◌∙◌, ap, subst, true, false, ◌||◌, List, [], ◌∷◌, Option, none, some, ok, ok_inj,
  is_none, arith, >>=-eq-ok, throw_if-eq-ok,
}
use compliance_data_layer.Base.Texts.{Text, text_eq_iff}
use compliance_data_layer.Schema.{MappingProfile, ClientData}
use compliance_data_layer.Tenancy.{log_access}
use compliance_data_layer.Mapping.Apply.{
  ApplyMappingInput, ApplyMappingResult, Enqueue, unmapped_mandatory_terms, find_profile,
  usable_profile, is_nonempty, unconfirmed_mapping_profile, mapped, mapping_result, apply_mapping,
  access_of, is_confirmed,
}

empty_of : {A : Type 0} (xs : List A) → is_nonempty xs ≡ false → xs ≡ []
empty_of [] h = refl
empty_of (_ ∷ _) h = cc

pub find_profile-eq-some :
    (id tenant : Text) (ps : List MappingProfile) (p : MappingProfile)
    → find_profile id tenant ps ≡ some p
    → (p.id ≡ id) × (p.tenant_id ≡ tenant)
unfolding find_profile
find_profile-eq-some id tenant [] p h = cc
find_profile-eq-some id tenant (q ∷ ps) p h = ground (
  arith,
  text_eq_iff q.id id,
  text_eq_iff q.tenant_id tenant,
  find_profile-eq-some id tenant ps p,
)

is_confirmed_of :
    (q : MappingProfile)
    → (is_none q.confirmed_at || is_none q.confirmed_by) ≡ false
    → is_confirmed q ≡ true
is_confirmed_of q h = ground arith

pub usable_profile-eq-ok :
    (found : Option MappingProfile) (p : MappingProfile)
    → usable_profile found ≡ ok p
    → (found ≡ some p) × (is_confirmed p ≡ true) × (unmapped_mandatory_terms p.mapping ≡ [])
unfolding usable_profile
usable_profile-eq-ok none p h = cc
usable_profile-eq-ok (some q) p h =
    let (signed, h₁) =
      throw_if-eq-ok (is_none q.confirmed_at || is_none q.confirmed_by) unconfirmed_mapping_profile
        _ h in
    let (whole, h₂) =
      throw_if-eq-ok (is_nonempty (unmapped_mandatory_terms q.mapping)) unconfirmed_mapping_profile
        _ h₁ in
    let same : q ≡ p = ok_inj h₂ in
    (
      ap some same,
      subst (λ (r : MappingProfile). is_confirmed r ≡ true) same (is_confirmed_of q signed),
      subst (λ (r : MappingProfile). unmapped_mandatory_terms r.mapping ≡ []) same
          (empty_of _ whole),
    )

-- `applyMapping` returns only under a profile of the caller's tenant with the requested id, that a person
-- has confirmed and that maps every mandatory term; what it hands to the enqueuer is the state after
-- `mapped`, with the access logged before.
pub apply_mapping-eq-ok :
    (input : ApplyMappingInput) (enqueue : Enqueue) (db db' : ClientData)
    (result : ApplyMappingResult)
    → apply_mapping input enqueue db ≡ ok (db', result)
    → (p : MappingProfile) × (find_profile input.mapping_profile_id input.tenant_id db.profiles
        ≡ some p)
      × (p.id ≡ input.mapping_profile_id)
      × (p.tenant_id ≡ input.tenant_id)
      × (is_confirmed p ≡ true)
      × (unmapped_mandatory_terms p.mapping ≡ [])
      × (result ≡ mapping_result input p db)
      × (enqueue (mapped input p (log_access (access_of input) db)) result ≡ ok db')
unfolding apply_mapping
apply_mapping-eq-ok input enqueue db db' result h =
    let (p, usable, h₁) =
      >>=-eq-ok (usable_profile (find_profile input.mapping_profile_id input.tenant_id db.profiles))
        _ h in
    let (found, signed, whole) =
      usable_profile-eq-ok (find_profile input.mapping_profile_id input.tenant_id db.profiles) p
        usable in
    let (same_id, same_tenant) =
      find_profile-eq-some input.mapping_profile_id input.tenant_id db.profiles p found in
    let (after, queued, h₂) =
      >>=-eq-ok
        (enqueue (mapped input p (log_access (access_of input) db)) (mapping_result input p db)) _
        h₁ in
    let same = ap (λ (r : ClientData × ApplyMappingResult). r.1) (ok_inj h₂) in
    (
      p,
      found,
      same_id,
      same_tenant,
      signed,
      whole,
      sym same,
      subst (λ r. enqueue (mapped input p (log_access (access_of input) db)) r ≡ ok db') same
          (queued ∙ ap ok (ap (λ (r : ClientData × ApplyMappingResult). r.0) (ok_inj h₂))),
    )
