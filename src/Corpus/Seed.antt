-- ===== src/Corpus/Seed.antt =====
-- apps/web/modules/corpus/record.ts, seedSpecCatalogue: the rules of a published specification. The hash
-- is a parameter.
pub mod Known
mod Tests
use compliance_data_layer.Base.{ℕ, List, [], ◌∷◌, ◌++◌, map, length, Option}
use compliance_data_layer.Base.Texts.{Text, codes}
use compliance_data_layer.Schema.{Rule, Specification, Severity, FailureClass}
use compliance_data_layer.Corpus.Record.{Store, specification_key, rule_key}
use compliance_data_layer.Corpus.Record.Tables.{insert_new}

pub record SpecCatalogueRule : Type 0 where
  pub rule_id : Text
  pub native_rule_code : Text
  pub severity : Severity
  pub business_term : Option Text
  pub xpath_context : Option Text
  pub failure_class : FailureClass
  pub assert_text : Text

pub record SeedSpecCatalogueInput : Type 0 where
  pub spec_id : Text
  pub spec_name : Text
  pub jurisdiction : Text
  pub version : Text
  pub effective_from : ℕ
  pub rules : List SpecCatalogueRule

-- One `INSERT … ON CONFLICT DO NOTHING` of several rows.
unfoldable pub insert_all : List Rule → List Rule → List Rule
insert_all [] rows = rows
insert_all (r ∷ rs) rows = insert_all rs (insert_new rule_key r rows)

module _ (sha256 : Text → Text) (input : SeedSpecCatalogueInput) where
  abbrev pub catalogue_row : SpecCatalogueRule → Rule
  catalogue_row r = record {
    rule_id = r.rule_id;
    spec_id = input.spec_id;
    native_rule_code = r.native_rule_code;
    severity = r.severity;
    business_term = r.business_term;
    xpath_context = r.xpath_context;
    failure_class = r.failure_class;
    assert_text = r.assert_text;
    canonical_text_hash = codes "sha256:" ++ sha256 r.assert_text;
  }

  abbrev pub specification_row : Specification
  specification_row = record {
    spec_id = input.spec_id;
    jurisdiction = input.jurisdiction;
    name = input.spec_name;
    version = input.version;
    effective_from = input.effective_from;
  }

  -- Without rules the second statement is not run, as an insertion of no rows.
  unfoldable pub seed_spec_catalogue : Store → Store × ℕ
  unfolding insert_all
  seed_spec_catalogue s = (
    record s {
      specifications = insert_new specification_key specification_row s.specifications;
      rules = insert_all (map catalogue_row input.rules) s.rules;
    },
    length input.rules,
  )
