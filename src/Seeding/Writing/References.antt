-- ===== src/Seeding/Writing/References.antt =====
-- packages/db/scripts/seed-rules.ts, buildPlan and applyPlan together: the foreign keys of the rules.
use compliance_data_layer.Base.{
  ℕ, ◌≡◌, ◌≢◌, sym, ◌∙◌, subst, true, List, [], ◌∷◌, map, Result, ok, ok_inj, arith, All, All-map,
  All-imp, Bool-cases, inl, inr,
}
use compliance_data_layer.Base.Texts.{Text, text_eq, text_eq_sound}
use compliance_data_layer.Schema.{Rule, Specification}
use compliance_data_layer.Corpus.Record.{Store, specification_key, rule_key}
use compliance_data_layer.Corpus.Record.Tables.{has}
use compliance_data_layer.Seeding.Extract.{Nodes}
use compliance_data_layer.Seeding.Plan.{
  RegistryEntry, PlannedRule, PlannedSpecification, SeedPlan, listed, build_plan,
}
use compliance_data_layer.Seeding.Plan.Keys.{spec_ids, build_plan-HasKeys}
use compliance_data_layer.Seeding.Writing.{
  SeedOutcome, insert_rows, seeded_specification, seeded_rule, apply_plan,
}
use compliance_data_layer.Seeding.Writing.Repeatable.{
  IsKnown, insert_rows-old, insert_rows-IsKnown, All-insert_rows, apply_plan-written,
}

-- The foreign key `corpus.rule.spec_id`.
abbrev pub IsReferring : Store → Type 0
IsReferring s = All (λ (r : Rule). has specification_key r.spec_id s.specifications ≡ true) s.rules

listed-has :
    (k : Text) (t : ℕ) (ss : List PlannedSpecification) (rows : List Specification)
    → All (IsKnown specification_key rows) (map (seeded_specification t) ss)
    → listed k (spec_ids ss) ≡ true
    → has specification_key k rows ≡ true
listed-has k t [] rows known l = cc
listed-has k t (s ∷ ss) rows (here, known) l = elim (Bool-cases (text_eq s.spec_id k)) [
  | inl same ↦
      subst (λ j. has specification_key j rows ≡ true) (text_eq_sound s.spec_id k same) here
  | inr other ↦ listed-has k t ss rows known (ground arith)
]

-- A plan that was built from a registry keeps the foreign key of the rules: where every stored rule names
-- a stored specification, it does so after the plan is written.
pub apply_plan-IsReferring :
    {E : Type 0} (insert_none : Result E (Unit {0})) (sha256 : Text → Text) (read : Text → Nodes)
    (entries : List RegistryEntry) (plan : SeedPlan) (t : ℕ) (s s' : Store) (o : SeedOutcome)
    → build_plan sha256 read entries ≡ ok plan
    → plan.specifications ≢ []
    → IsReferring s
    → apply_plan insert_none plan t s ≡ ok (s', o)
    → IsReferring s'
apply_plan-IsReferring insert_none sha256 read entries plan t s s' o built some_rows referring h =
    let rows = map (seeded_specification t) plan.specifications in
    let after = (insert_rows specification_key rows s.specifications).0 in
    let keys = build_plan-HasKeys sha256 read entries plan built in
    let known = insert_rows-IsKnown specification_key rows s.specifications in
    subst (λ (p : Store × SeedOutcome). IsReferring p.0)
      (ok_inj (sym (apply_plan-written insert_none plan t s some_rows) ∙ h))
      (All-insert_rows rule_key (λ (r : Rule). has specification_key r.spec_id after ≡ true)
        (map seeded_rule plan.rules) s.rules
        (All-map _ _ seeded_rule
          (λ (r : PlannedRule) l. listed-has r.spec_id t plan.specifications after known l)
          plan.rules keys.referenced)
        (All-imp _ _
          (λ (r : Rule) l. insert_rows-old specification_key r.spec_id rows s.specifications l)
          s.rules referring))
