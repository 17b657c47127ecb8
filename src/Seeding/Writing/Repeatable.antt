-- ===== src/Seeding/Writing/Repeatable.antt =====
-- packages/db/scripts/seed-rules.ts, applyPlan: the tables after one run and after a second one.
use compliance_data_layer.Base.{
  ℕ, suc, ◌+◌, ◌≡◌, ◌≢◌, refl, ap, ◌∙◌, true, List, [], ◌∷◌, map, length, length-append, Result, ok,
  if◌then◌else◌, Bool-cases, inl, inr, arith, All, All-append,
}
use compliance_data_layer.Base.Texts.{Text}
use compliance_data_layer.Schema.{Rule, Specification}
use compliance_data_layer.Corpus.Record.{Store, specification_key, rule_key}
use compliance_data_layer.Corpus.Record.Tables.{
  has, insert_new, has-insert_new, has-insert_new_old, IsPrefix, IsPrefix-refl, IsPrefix-trans,
  IsPrefix-insert_new,
}
use compliance_data_layer.Seeding.Plan.{PlannedSpecification, SeedPlan}
use compliance_data_layer.Seeding.Writing.{
  SeedOutcome, insert_rows, insert, insert_rules, seeded_specification, seeded_rule, apply_plan,
}

module _ {A : Type 0} (key : A → Text) where
  abbrev pub IsKnown : List A → A → Type 0
  IsKnown rows r = has key (key r) rows ≡ true

  insert_rows-IsPrefix : (rs rows : List A) → IsPrefix rows (insert_rows key rs rows).0
  unfolding insert_rows
  insert_rows-IsPrefix [] rows = IsPrefix-refl rows
  insert_rows-IsPrefix (r ∷ rs) rows =
      IsPrefix-trans rows (insert_new key r rows) (insert_rows key rs (insert_new key r rows)).0
        (IsPrefix-insert_new key r rows) (insert_rows-IsPrefix rs (insert_new key r rows))

  pub insert_rows-old :
      (k : Text) (rs rows : List A)
      → has key k rows ≡ true
      → has key k (insert_rows key rs rows).0 ≡ true
  unfolding insert_rows
  insert_rows-old k [] rows h = h
  insert_rows-old k (r ∷ rs) rows h = insert_rows-old k rs _ (has-insert_new_old key k r rows h)

  pub insert_rows-IsKnown : (rs rows : List A) → All (IsKnown (insert_rows key rs rows).0) rs
  unfolding insert_rows
  insert_rows-IsKnown [] rows = tt
  insert_rows-IsKnown (r ∷ rs) rows =
      (insert_rows-old (key r) rs _ (has-insert_new key r rows), insert_rows-IsKnown rs _)

  insert_new-has :
      (r : A) (rows : List A) → has key (key r) rows ≡ true → insert_new key r rows ≡ rows
  unfolding insert_new
  insert_new-has r rows h = rw h refl

  length-insert_new :
      (r : A) (rows : List A)
      → length (insert_new key r rows)
        ≡ (if has key (key r) rows then length rows else suc (length rows))
  unfolding insert_new
  length-insert_new r rows = elim (Bool-cases (has key (key r) rows)) [
    | inl old ↦ rw old refl
    | inr new ↦ rw new (omega (arith, length-append rows (r ∷ [])))
  ]

  length-insert_rows :
      (rs rows : List A)
      → length (insert_rows key rs rows).0 ≡ length rows + (insert_rows key rs rows).1
  unfolding insert_rows
  length-insert_rows [] rows = omega arith
  length-insert_rows (r ∷ rs) rows =
      ground (arith, length-insert_rows rs (insert_new key r rows), length-insert_new r rows)

  insert_rows-again :
      (rs rows : List A) → All (IsKnown rows) rs → insert_rows key rs rows ≡ (rows, 0)
  unfolding insert_rows
  insert_rows-again [] rows known = refl
  insert_rows-again (r ∷ rs) rows (here, known) =
      let same = insert_new-has r rows here in
      rw here (rw same (ap (λ (p : List A × ℕ). (p.0, p.1)) (insert_rows-again rs rows known)))

  All-insert_new :
      (P : A → Type 0) (r : A) (rows : List A) → P r → All P rows → All P (insert_new key r rows)
  unfolding insert_new
  All-insert_new P r rows p a = elim (Bool-cases (has key (key r) rows)) [
    | inl old ↦ rw old a
    | inr new ↦ rw new (All-append P rows (r ∷ []) a (p, tt))
  ]

  pub All-insert_rows :
      (P : A → Type 0) (rs rows : List A)
      → All P rs
      → All P rows
      → All P (insert_rows key rs rows).0
  unfolding insert_rows
  All-insert_rows P [] rows ps a = a
  All-insert_rows P (r ∷ rs) rows (p, ps) a =
      All-insert_rows P rs (insert_new key r rows) ps (All-insert_new P r rows p a)

  -- What a statement leaves of a table, and what the same statement then does.
  pub record IsSeeded (rs rows after : List A) (inserted : ℕ) : Type 0 where
    pub kept : IsPrefix rows after
    pub known : All (IsKnown after) rs
    pub counted : length after ≡ length rows + inserted
    pub settled : insert_rows key rs after ≡ (after, 0)

  insert_rows-IsSeeded :
      (rs rows : List A) → IsSeeded rs rows (insert_rows key rs rows).0 (insert_rows key rs rows).1
  insert_rows-IsSeeded rs rows = record {
    kept = insert_rows-IsPrefix rs rows;
    known = insert_rows-IsKnown rs rows;
    counted = length-insert_rows rs rows;
    settled = insert_rows-again rs (insert_rows key rs rows).0 (insert_rows-IsKnown rs rows);
  }

IsKnown-any_time :
    (t t' : ℕ) (ss : List PlannedSpecification) (rows : List Specification)
    → All (IsKnown specification_key rows) (map (seeded_specification t) ss)
    → All (IsKnown specification_key rows) (map (seeded_specification t') ss)
IsKnown-any_time t t' [] rows known = tt
IsKnown-any_time t t' (s ∷ ss) rows (here, known) = (here, IsKnown-any_time t t' ss rows known)

module _ {E : Type 0} (insert_none : Result E (Unit {0})) where
  insert-some :
      (t : ℕ) (ss : List PlannedSpecification) (rows : List Specification)
      → ss ≢ []
      → insert insert_none specification_key (map (seeded_specification t) ss) rows
        ≡ ok (insert_rows specification_key (map (seeded_specification t) ss) rows)
  unfolding insert
  insert-some t [] rows h = elim (h refl) [ ]
  insert-some t (s ∷ ss) rows h = refl

  insert_rules-any :
      (rs rows : List Rule) → insert_rules insert_none rs rows ≡ ok (insert_rows rule_key rs rows)
  unfolding insert insert_rows
  insert_rules-any [] rows = refl
  insert_rules-any (r ∷ rs) rows = refl

  -- The store and the outcome of a run that does not throw.
  abbrev written : SeedPlan → ℕ → Store → Store × SeedOutcome
  written plan t s =
      let ss =
        insert_rows specification_key (map (seeded_specification t) plan.specifications)
          s.specifications in
      let rs = insert_rows rule_key (map seeded_rule plan.rules) s.rules in
      (
        record s { specifications = ss.0; rules = rs.0 },
        record { specifications_inserted = ss.1; rules_inserted = rs.1 },
      )

  pub apply_plan-written :
      (plan : SeedPlan) (t : ℕ) (s : Store)
      → plan.specifications ≢ []
      → apply_plan insert_none plan t s ≡ ok (written plan t s)
  unfolding apply_plan
  apply_plan-written plan t s h =
      rw (insert-some t plan.specifications s.specifications h)
        (rw (insert_rules-any (map seeded_rule plan.rules) s.rules) refl)

  -- A plan with a specification is written: the rows that were there stay in front, every planned row is
  -- there by its key, each table grows by the number that the outcome reports, and a second run, at
  -- whatever time, inserts nothing and changes nothing.
  pub apply_plan-repeatable :
      (plan : SeedPlan) (t t' : ℕ) (s : Store)
      → plan.specifications ≢ []
      → (s' : Store) × (o : SeedOutcome) × (apply_plan insert_none plan t s ≡ ok (s', o))
        × IsSeeded specification_key
            (map (seeded_specification t) plan.specifications)
            s.specifications
            s'.specifications
            o.specifications_inserted
        × IsSeeded rule_key (map seeded_rule plan.rules) s.rules s'.rules o.rules_inserted
        × (apply_plan insert_none plan t' s'
            ≡ ok (s', record { specifications_inserted = 0; rules_inserted = 0 }))
  apply_plan-repeatable plan t t' s h =
      let (s', o) = written plan t s in
      let specified =
        insert_rows-IsSeeded specification_key (map (seeded_specification t) plan.specifications)
          s.specifications in
      let ruled = insert_rows-IsSeeded rule_key (map seeded_rule plan.rules) s.rules in
      let settled =
        insert_rows-again specification_key (map (seeded_specification t') plan.specifications)
          s'.specifications
          (IsKnown-any_time t t' plan.specifications s'.specifications specified.known) in
      (
        s',
        o,
        apply_plan-written plan t s h,
        specified,
        ruled,
        apply_plan-written plan t' s' h ∙ rw settled (rw ruled.settled refl),
      )
