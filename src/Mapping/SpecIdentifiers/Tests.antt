-- ===== src/Mapping/SpecIdentifiers/Tests.antt =====
-- apps/web/modules/mapping/spec-identifiers.ts on names.
use compliance_data_layer.Base.{◌≡◌, ◌≢◌, ◌⊎◌, refl, true, false}
use compliance_data_layer.Base.Objects.{member}
use compliance_data_layer.Base.Texts.{codes, text_eq}
use compliance_data_layer.Schema.{self_billed, invoice}
use compliance_data_layer.Mapping.SpecIdentifiers.{
  identifiers, unresolved, undefined_pair, ubl_spec_identifiers, has_spec_identifiers, pint_ae,
  billing_process_for,
}
use compliance_data_layer.Mapping.SpecIdentifiers.Answers.{is_inherited, ubl_spec_identifiers-cases}

not_resolved : ubl_spec_identifiers (codes "en16931") invoice ≡ unresolved
unfolding ubl_spec_identifiers member text_eq
not_resolved = refl

inherited_name : ubl_spec_identifiers (codes "constructor") invoice ≡ undefined_pair
unfolding ubl_spec_identifiers member text_eq
inherited_name = refl

ubl_spec_identifiers-cases_example :
    ((codes "pint-ae" ≡ codes "pint-ae")
      × (has_spec_identifiers (codes "pint-ae") ≡ true)
      × (ubl_spec_identifiers (codes "pint-ae") self_billed
          ≡ identifiers (pint_ae (billing_process_for self_billed))))
    ⊎ ((codes "pint-ae" ≢ codes "pint-ae")
        × (is_inherited (codes "pint-ae") ≡ true)
        × (has_spec_identifiers (codes "pint-ae") ≡ true)
        × (ubl_spec_identifiers (codes "pint-ae") self_billed ≡ undefined_pair))
    ⊎ ((codes "pint-ae" ≢ codes "pint-ae")
        × (is_inherited (codes "pint-ae") ≡ false)
        × (has_spec_identifiers (codes "pint-ae") ≡ false)
        × (ubl_spec_identifiers (codes "pint-ae") self_billed ≡ unresolved))
ubl_spec_identifiers-cases_example = ubl_spec_identifiers-cases (codes "pint-ae") self_billed
