-- ===== src/Seeding/Writing/Tests.antt =====
-- The plan of a registry of one live profile, written to an empty corpus.
use compliance_data_layer.Base.{◌≡◌, ◌≢◌, refl, [], map, Result, ok, err}
use compliance_data_layer.Base.Texts.{Text, codes, text_eq}
use compliance_data_layer.Corpus.Record.{Store, specification_key, rule_key}
use compliance_data_layer.Corpus.Record.Tables.{insert_new}
use compliance_data_layer.Seeding.Plan.Tests.{one_assertion, registry, planned, registry-planned}
use compliance_data_layer.Seeding.Writing.{
  SeedOutcome, apply_plan, seeded_rule, seeded_specification,
}
use compliance_data_layer.Seeding.Writing.Repeatable.{IsSeeded, apply_plan-repeatable}
use compliance_data_layer.Seeding.Writing.References.{IsReferring, apply_plan-IsReferring}

abbrev empty : Store
empty = record {
  specifications = [];
  rules = [];
  source_systems = [];
  tenants = [];
  entities = [];
  counterparties = [];
  documents = [];
  events = [];
}

-- A driver that refuses an insertion of no rows.
abbrev refused : Result Text (Unit {0})
refused = err (codes "values() must be called with at least one value")

some_rows : planned.specifications ≢ []
some_rows = λ e. cc

abbrev stored : Store
stored = record empty {
  specifications = map (seeded_specification 7) planned.specifications;
  rules = map seeded_rule planned.rules;
}

abbrev outcome : SeedOutcome
outcome = record { specifications_inserted = 1; rules_inserted = 1 }

first_run : apply_plan refused planned 7 empty ≡ ok (stored, outcome)
unfolding apply_plan insert_new text_eq
first_run = refl

apply_plan-repeatable_example :
    (s' : Store) × (o : SeedOutcome) × (apply_plan refused planned 7 empty ≡ ok (s', o))
    × IsSeeded specification_key
        (map (seeded_specification 7) planned.specifications)
        []
        s'.specifications
        o.specifications_inserted
    × IsSeeded rule_key (map seeded_rule planned.rules) [] s'.rules o.rules_inserted
    × (apply_plan refused planned 9 s'
        ≡ ok (s', record { specifications_inserted = 0; rules_inserted = 0 }))
apply_plan-repeatable_example = apply_plan-repeatable refused planned 7 9 empty some_rows

apply_plan-IsReferring_example : IsReferring stored
apply_plan-IsReferring_example =
    apply_plan-IsReferring refused (λ s. s) one_assertion registry planned 7 empty stored outcome
      registry-planned some_rows tt first_run
