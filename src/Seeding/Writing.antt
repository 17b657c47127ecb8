-- ===== src/Seeding/Writing.antt =====
-- packages/db/scripts/seed-rules.ts, applyPlan: the plan into the tables of the corpus. What the database
-- driver does with an insertion of no rows is a parameter.
pub mod Repeatable
pub mod References
mod Tests
use compliance_data_layer.Base.{
  ℕ, zero, suc, List, [], ◌∷◌, map, length, Result, ok, err, ◌>>=◌, if◌then◌else◌,
}
use compliance_data_layer.Base.Texts.{Text}
use compliance_data_layer.Schema.{Rule, Specification}
use compliance_data_layer.Corpus.Record.{Store, specification_key, rule_key}
use compliance_data_layer.Corpus.Record.Tables.{has, insert_new}
use compliance_data_layer.Seeding.Plan.{PlannedRule, PlannedSpecification, SeedPlan}

pub record SeedOutcome : Type 0 where
  pub specifications_inserted : ℕ
  pub rules_inserted : ℕ

-- One `INSERT … ON CONFLICT DO NOTHING` of several rows, with the number of rows it returns.
unfoldable pub insert_rows : {A : Type 0} → (A → Text) → List A → List A → List A × ℕ
insert_rows key [] rows = (rows, 0)
insert_rows key (r ∷ rs) rows =
    let (after, inserted) = insert_rows key rs (insert_new key r rows) in
    (after, if has key (key r) rows then inserted else suc inserted)

abbrev pub seeded_specification : ℕ → PlannedSpecification → Specification
seeded_specification effective_from s = record {
  spec_id = s.spec_id;
  jurisdiction = s.jurisdiction;
  name = s.name;
  version = s.version;
  effective_from = effective_from;
}

abbrev pub seeded_rule : PlannedRule → Rule
seeded_rule r = record {
  rule_id = r.extracted.rule_id;
  spec_id = r.spec_id;
  native_rule_code = r.extracted.native_rule_code;
  severity = r.extracted.severity;
  business_term = r.extracted.business_term;
  xpath_context = r.extracted.xpath_context;
  failure_class = r.extracted.failure_class;
  assert_text = r.extracted.assert_text;
  canonical_text_hash = r.extracted.canonical_text_hash;
}

module _ {E : Type 0} (insert_none : Result E (Unit {0})) where
  -- The statement as the program issues it.
  unfoldable pub insert : {A : Type 0} → (A → Text) → List A → List A → Result E (List A × ℕ)
  unfolding insert_rows
  insert key [] rows = do _ ← insert_none; ok (rows, 0)
  insert key (r ∷ rs) rows = ok (insert_rows key (r ∷ rs) rows)

  -- `if (plan.rules.length === 0)`
  abbrev pub insert_rules : List Rule → List Rule → Result E (List Rule × ℕ)
  insert_rules [] rows = ok (rows, 0)
  insert_rules (r ∷ rs) rows = insert rule_key (r ∷ rs) rows

  -- The transaction: an error leaves the store as it was.
  unfoldable pub apply_plan : SeedPlan → ℕ → Store → Result E (Store × SeedOutcome)
  unfolding insert
  apply_plan plan effective_from s = do
    (specifications, n) ←
        insert specification_key (map (seeded_specification effective_from) plan.specifications)
          s.specifications
    (rules, m) ← insert_rules (map seeded_rule plan.rules) s.rules
    ok (
      record s { specifications = specifications; rules = rules },
      record { specifications_inserted = n; rules_inserted = m },
    )
