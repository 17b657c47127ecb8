-- ===== src/Seeding/Plan/Keys.antt =====
-- packages/db/scripts/seed-rules.ts, buildPlan: the keys and references of the rows that are planned.
use compliance_data_layer.Base.{
  Distinct, ◌≡◌, ◌≢◌, refl, sym, ap, ◌∙◌, subst, true, false, ◌||◌, List, [], ◌∷◌, map, some,
  is_some, ok, >>=-eq-ok, throw_if-eq-ok, ok_inj, Bool-cases, inl, inr, arith, All, All-imp,
  some_inj,
}
use compliance_data_layer.Base.Texts.{Text, text_eq, text_eq_refl, text_lt}
use compliance_data_layer.Seeding.Extract.{Nodes, or_throw}
use compliance_data_layer.Seeding.Extract.Complete.{or_throw-eq-ok}
use compliance_data_layer.Seeding.Plan.{
  RegistryEntry, PlannedRule, PlannedSpecification, SeedPlan, no_registry_entry, duplicate_rule_ids,
  find_entry, listed, has_duplicates, insert_sorted, sort, rule_ids, start, plan_entries,
  plan_specifications, build_plan,
}
use compliance_data_layer.Seeding.Plan.Loop.{
  IsInDirectory, IsLive, unavailable_among, plan_entries-Keeps,
}

abbrev pub spec_ids : List PlannedSpecification → List Text
spec_ids ss = map (λ (s : PlannedSpecification). s.spec_id) ss

not_listed-ne : (k : Text) (ks : List Text) → listed k ks ≡ false → All (λ j. k ≢ j) ks
not_listed-ne k [] h = tt
not_listed-ne k (j ∷ ks) h = (different, not_listed-ne k ks (ground arith))
  where
    different : k ≢ j
    different e = ground (arith, text_eq_refl k, ap (λ t. text_eq t k) e)

has_duplicates-Distinct : (ks : List Text) → has_duplicates ks ≡ false → Distinct ks
unfolding has_duplicates
has_duplicates-Distinct [] h = tt
has_duplicates-Distinct (k ∷ ks) h =
    (not_listed-ne k ks (ground arith), has_duplicates-Distinct ks (ground arith))

listed-insert_sorted :
    (j k : Text) (ks : List Text) → listed j (insert_sorted k ks) ≡ text_eq k j || listed j ks
unfolding insert_sorted
listed-insert_sorted j k [] = refl
listed-insert_sorted j k (i ∷ ks) = ground (arith, listed-insert_sorted j k ks)

listed-sort : (j : Text) (ks : List Text) → listed j (sort ks) ≡ listed j ks
unfolding sort
listed-sort j [] = refl
listed-sort j (k ∷ ks) =
    listed-insert_sorted j k (sort ks) ∙ ap (λ b. text_eq k j || b) (listed-sort j ks)

module _ (P : Text → Type 0) where
  All-insert_sorted : (k : Text) (ks : List Text) → P k → All P ks → All P (insert_sorted k ks)
  unfolding insert_sorted
  All-insert_sorted k [] p a = (p, tt)
  All-insert_sorted k (j ∷ ks) p (q, a) = elim (Bool-cases (text_lt j k)) [
    | inl later ↦ rw later (q, All-insert_sorted k ks p a)
    | inr first ↦ rw first (p, (q, a))
  ]

  All-sort : (ks : List Text) → All P ks → All P (sort ks)
  unfolding sort
  All-sort [] a = tt
  All-sort (k ∷ ks) (p, a) = All-insert_sorted k (sort ks) p (All-sort ks a)

module _ (sha256 : Text → Text) (read : Text → Nodes) (entries : List RegistryEntry) where
  -- A planned specification is a live entry of the registry, with its jurisdiction and version.
  abbrev pub IsRegistered : PlannedSpecification → Type 0
  IsRegistered s =
      (e : RegistryEntry) × (find_entry s.spec_id entries ≡ some e)
      × (is_some e.unavailable ≡ false)
      × (s.jurisdiction ≡ e.jurisdiction)
      × (s.version ≡ e.version)

  pub record HasKeys (plan : SeedPlan) : Type 0 where
    pub distinct : Distinct (rule_ids plan.rules)
    pub placed : All IsInDirectory plan.rules
    pub referenced :
        All (λ (r : PlannedRule). listed r.spec_id (spec_ids plan.specifications) ≡ true) plan.rules
    pub registered : All IsRegistered plan.specifications
    pub accounted : plan.skipped ≡ unavailable_among entries

  plan_specifications-IsRegistered :
      (ids : List Text) (ss : List PlannedSpecification)
      → All (IsLive sha256 read entries) ids
      → plan_specifications sha256 read entries ids ≡ ok ss
      → (spec_ids ss ≡ ids) × All IsRegistered ss
  unfolding plan_specifications
  plan_specifications-IsRegistered [] ss live h =
      subst (λ ts. (spec_ids ts ≡ []) × All IsRegistered ts) (ok_inj h) (refl, tt)
  plan_specifications-IsRegistered (id ∷ ids) ss ((e, there, available), live) h =
      let (entry, found, h₁) = >>=-eq-ok (or_throw no_registry_entry (find_entry id entries)) _ h in
      let (rest, made, h₂) = >>=-eq-ok (plan_specifications sha256 read entries ids) _ h₁ in
      let (same, registered) = plan_specifications-IsRegistered ids rest live made in
      subst (λ ts. (spec_ids ts ≡ id ∷ ids) × All IsRegistered ts) (ok_inj h₂)
        (
          ap (λ ks. id ∷ ks) same,
          (
            (
              entry,
              or_throw-eq-ok no_registry_entry _ found,
              subst (λ (d : RegistryEntry). is_some d.unavailable ≡ false)
                  (some_inj (sym there ∙ or_throw-eq-ok no_registry_entry _ found)) available,
              refl,
              refl,
            ),
            registered,
          ),
        )

  -- A plan that is built can be written as it stands: no rule id occurs twice, every rule belongs to the
  -- specification whose directory holds its file, that specification is planned too, every planned
  -- specification is a registered entry that is not quarantined, with its jurisdiction and version, and
  -- what was skipped is exactly the quarantined entries, in order, with their reasons.
  pub build_plan-HasKeys :
      (plan : SeedPlan) → build_plan sha256 read entries ≡ ok plan → HasKeys plan
  unfolding build_plan
  build_plan-HasKeys plan h =
      let (st, planned, h₁) = >>=-eq-ok (plan_entries sha256 read entries entries start) _ h in
      let (unique, h₂) =
        throw_if-eq-ok (has_duplicates (rule_ids st.rules)) duplicate_rule_ids _ h₁ in
      let (specifications, found, h₃) =
        >>=-eq-ok (plan_specifications sha256 read entries (sort st.owners)) _ h₂ in
      let (kept, skipped) =
        plan_entries-Keeps sha256 read entries entries start st
          (record { referenced = tt; placed = tt; live = tt }) planned in
      let (same, registered) =
        plan_specifications-IsRegistered (sort st.owners) specifications
          (All-sort (IsLive sha256 read entries) st.owners kept.live) found in
      subst HasKeys (ok_inj h₃) (record {
        distinct = has_duplicates-Distinct (rule_ids st.rules) unique;
        placed = kept.placed;
        referenced =
            All-imp _ _
              (λ (r : PlannedRule) l.
                ap (λ ks. listed r.spec_id ks) same ∙ listed-sort r.spec_id st.owners ∙ l)
              st.rules kept.referenced;
        registered = registered;
        accounted = skipped;
      })
