-- ===== src/Mapping/SpecIdentifiers/Answers.antt =====
-- apps/web/modules/mapping/spec-identifiers.ts: for which names the tables answer.
use compliance_data_layer.Base.{
  ◌≡◌, ◌≢◌, ◌⊎◌, refl, sym, Bool, true, false, any, Bool-cases, inl, inr,
}
use compliance_data_layer.Base.Objects.{member, inherited_names}
use compliance_data_layer.Base.Texts.{Text, codes, text_eq, text_eq_iff}
use compliance_data_layer.Schema.{DocType}
use compliance_data_layer.Mapping.SpecIdentifiers.{
  identifiers, unresolved, undefined_pair, ubl_spec_identifiers, has_spec_identifiers, pint_ae,
  billing_process_for,
}

abbrev pub is_inherited : Text → Bool
is_inherited name = any (λ (n : Text). text_eq n name) inherited_names

-- `pint-ae` is the one published name: for it the pair of the document's billing process is returned. A
-- name that every object inherits, such as `constructor`, passes `hasSpecIdentifiers` and is answered
-- with `undefined`; every other name is refused by both.
pub ubl_spec_identifiers-cases :
    (spec_id : Text) (doc_type : DocType)
    → ((spec_id ≡ codes "pint-ae")
        × (has_spec_identifiers spec_id ≡ true)
        × (ubl_spec_identifiers spec_id doc_type
            ≡ identifiers (pint_ae (billing_process_for doc_type))))
      ⊎ ((spec_id ≢ codes "pint-ae")
          × (is_inherited spec_id ≡ true)
          × (has_spec_identifiers spec_id ≡ true)
          × (ubl_spec_identifiers spec_id doc_type ≡ undefined_pair))
      ⊎ ((spec_id ≢ codes "pint-ae")
          × (is_inherited spec_id ≡ false)
          × (has_spec_identifiers spec_id ≡ false)
          × (ubl_spec_identifiers spec_id doc_type ≡ unresolved))
unfolding ubl_spec_identifiers has_spec_identifiers member
ubl_spec_identifiers-cases spec_id doc_type =
    elim (Bool-cases (text_eq (codes "pint-ae") spec_id)) [
      | inl same ↦
          inl (sym ((text_eq_iff (codes "pint-ae") spec_id).0 same), rw same refl, rw same refl)
      | inr other ↦
          let differs : spec_id ≢ codes "pint-ae" =
            λ e. (let hit = (text_eq_iff (codes "pint-ae") spec_id).1 (sym e) in cc) in
          elim (Bool-cases (is_inherited spec_id)) [
            | inl has ↦ inr (inl (differs, has, rw (other, has) refl, rw (other, has) refl))
            | inr lacks ↦ inr (inr (differs, lacks, rw (other, lacks) refl, rw (other, lacks) refl))
          ]
    ]
