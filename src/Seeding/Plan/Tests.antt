-- ===== src/Seeding/Plan/Tests.antt =====
-- A registry of one live profile and one that is quarantined.
use compliance_data_layer.Base.{◌≡◌, refl, List, [], ◌∷◌, Option, none, some, ok, err}
use compliance_data_layer.Base.Texts.{Text, codes, text_eq, one_of}
use compliance_data_layer.Base.Texts.Strips.{trim}
use compliance_data_layer.Schema.{error, rounding}
use compliance_data_layer.Seeding.Extract.{
  Nodes, element, text, nil, cons, walk, walk_node, to_rule,
}
use compliance_data_layer.Seeding.Plan.{
  RegistryEntry, SeedPlan, duplicate_rule_ids, no_leading_directory, build_plan, plan_entries,
  plan_path,
}
use compliance_data_layer.Seeding.Plan.Keys.{HasKeys, build_plan-HasKeys}

abbrev same : Text → Text
same s = s

abbrev pub one_assertion : Text → Nodes
one_assertion path =
    cons
      (element (codes "assert")
        ((codes "id", codes "BR-06") ∷ (codes "failure-class", codes "rounding") ∷ [])
        (cons (text (codes "BT-27")) nil))
      nil

abbrev pub entry : Text → List Text → Option Text → RegistryEntry
entry id files reason = record {
  spec_id = id;
  jurisdiction = codes "EU";
  version = codes "1";
  schematron = files;
  unavailable = reason;
}

abbrev pub registry : List RegistryEntry
registry =
    entry (codes "en") (codes "en/A.sch" ∷ codes "en/A.sch" ∷ []) none
    ∷ entry (codes "ae") (codes "ae/B.sch" ∷ []) (some (codes "withdrawn"))
    ∷ []

abbrev pub planned : SeedPlan
planned = record {
  specifications =
      record {
        spec_id = codes "en";
        jurisdiction = codes "EU";
        name = codes "en";
        version = codes "1";
      }
      ∷ [];
  rules =
      record {
        spec_id = codes "en";
        extracted = record {
          rule_id = codes "BR-06";
          native_rule_code = codes "BR-06";
          severity = error;
          business_term = none;
          xpath_context = none;
          failure_class = rounding;
          assert_text = codes "BT-27";
          canonical_text_hash = codes "sha256:BT-27";
          source = codes "en/A.sch";
        };
      }
      ∷ [];
  skipped = (codes "ae", codes "withdrawn") ∷ [];
}

pub registry-planned : build_plan (λ s. s) one_assertion registry ≡ ok planned
unfolding build_plan plan_entries plan_path walk walk_node to_rule text_eq one_of trim
registry-planned = refl

two_files :
    build_plan
      (λ s. s)
      one_assertion
      (entry (codes "en") (codes "en/A" ∷ codes "en/B" ∷ []) none ∷ [])
    ≡ err duplicate_rule_ids
unfolding build_plan plan_entries plan_path walk walk_node to_rule text_eq one_of trim
two_files = refl

no_directory :
    build_plan (λ s. s) one_assertion (entry (codes "en") (codes "A" ∷ []) none ∷ [])
    ≡ err no_leading_directory
unfolding build_plan plan_entries plan_path
no_directory = refl

build_plan-HasKeys_example : HasKeys (λ s. s) one_assertion registry planned
build_plan-HasKeys_example =
    build_plan-HasKeys (λ s. s) one_assertion registry planned registry-planned
