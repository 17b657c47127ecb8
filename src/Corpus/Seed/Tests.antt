-- ===== src/Corpus/Seed/Tests.antt =====
-- seedSpecCatalogue on a catalogue of one rule.
use compliance_data_layer.Base.{◌≡◌, [], ◌∷◌, map, none, All}
use compliance_data_layer.Base.Texts.{Text, codes}
use compliance_data_layer.Schema.{fatal, missing_mandatory}
use compliance_data_layer.Corpus.Record.{Store}
use compliance_data_layer.Corpus.Record.Tables.{IsPrefix}
use compliance_data_layer.Corpus.Seed.{SeedSpecCatalogueInput, catalogue_row, seed_spec_catalogue}
use compliance_data_layer.Corpus.Seed.Known.{Known, seed_spec_catalogue-again}

abbrev store : Store
store = record {
  specifications = [];
  rules = [];
  source_systems = [];
  tenants = [];
  entities = [];
  counterparties = [];
  documents = [];
  events = [];
}

abbrev input : SeedSpecCatalogueInput
input = record {
  spec_id = codes "pint-ae";
  spec_name = codes "PINT AE";
  jurisdiction = codes "AE";
  version = codes "1";
  effective_from = 0;
  rules =
      record {
        rule_id = codes "BR-01";
        native_rule_code = codes "BR-01";
        severity = fatal;
        business_term = none;
        xpath_context = none;
        failure_class = missing_mandatory;
        assert_text = codes "must";
      }
      ∷ [];
}

-- The text itself in the place of its hash.
abbrev hash : Text → Text
hash t = t

seed_spec_catalogue-again_example :
    IsPrefix store.rules (seed_spec_catalogue hash input store).0.rules
    × All
        (Known (seed_spec_catalogue hash input store).0.rules)
        (map (catalogue_row hash input) input.rules)
    × (seed_spec_catalogue hash input (seed_spec_catalogue hash input store).0
        ≡ seed_spec_catalogue hash input store)
seed_spec_catalogue-again_example = seed_spec_catalogue-again hash input store
