-- ===== src/Corpus/Seed/Known.antt =====
-- apps/web/modules/corpus/record.ts: the rules that seedSpecCatalogue leaves.
use compliance_data_layer.Base.{◌≡◌, refl, ap, ◌∙◌, true, List, [], ◌∷◌, map, length, All}
use compliance_data_layer.Base.Texts.{Text}
use compliance_data_layer.Schema.{Rule, Specification}
use compliance_data_layer.Corpus.Record.{Store, specification_key, rule_key}
use compliance_data_layer.Corpus.Record.Tables.{
  has, insert_new, has-insert_new, has-insert_new_old, IsPrefix, IsPrefix-refl, IsPrefix-trans,
  IsPrefix-insert_new,
}
use compliance_data_layer.Corpus.Seed.{
  SeedSpecCatalogueInput, insert_all, catalogue_row, specification_row, seed_spec_catalogue,
}

abbrev pub Known : List Rule → Rule → Type 0
Known rows r = has rule_key r.rule_id rows ≡ true

insert_all-IsPrefix : (rs rows : List Rule) → IsPrefix rows (insert_all rs rows)
unfolding insert_all
insert_all-IsPrefix [] rows = IsPrefix-refl rows
insert_all-IsPrefix (r ∷ rs) rows =
    IsPrefix-trans rows (insert_new rule_key r rows) (insert_all rs (insert_new rule_key r rows))
      (IsPrefix-insert_new rule_key r rows) (insert_all-IsPrefix rs (insert_new rule_key r rows))

insert_all-old :
    (k : Text) (rs rows : List Rule)
    → has rule_key k rows ≡ true
    → has rule_key k (insert_all rs rows) ≡ true
unfolding insert_all
insert_all-old k [] rows h = h
insert_all-old k (r ∷ rs) rows h = insert_all-old k rs _ (has-insert_new_old rule_key k r rows h)

insert_all-Known : (rs rows : List Rule) → All (Known (insert_all rs rows)) rs
unfolding insert_all
insert_all-Known [] rows = tt
insert_all-Known (r ∷ rs) rows =
    (insert_all-old r.rule_id rs _ (has-insert_new rule_key r rows), insert_all-Known rs _)

insert_new-has :
    {A : Type 0} (key : A → Text) (row : A) (rows : List A)
    → has key (key row) rows ≡ true
    → insert_new key row rows ≡ rows
unfolding insert_new
insert_new-has key row rows h = rw h refl

insert_all-again : (rs rows : List Rule) → All (Known rows) rs → insert_all rs rows ≡ rows
unfolding insert_all
insert_all-again [] rows h = refl
insert_all-again (r ∷ rs) rows (h, hs) =
    ap (insert_all rs) (insert_new-has rule_key r rows h) ∙ insert_all-again rs rows hs

-- Seeding a catalogue only appends to the rules, makes every rule of the catalogue one that a recorded run
-- may cite, and seeding the same catalogue a second time changes neither table.
pub seed_spec_catalogue-again :
    (sha256 : Text → Text) (input : SeedSpecCatalogueInput) (s : Store)
    → IsPrefix s.rules (seed_spec_catalogue sha256 input s).0.rules
      × All
          (Known (seed_spec_catalogue sha256 input s).0.rules)
          (map (catalogue_row sha256 input) input.rules)
      × (seed_spec_catalogue sha256 input (seed_spec_catalogue sha256 input s).0
          ≡ seed_spec_catalogue sha256 input s)
unfolding seed_spec_catalogue
seed_spec_catalogue-again sha256 input s =
    let rs = map (catalogue_row sha256 input) input.rules in
    let t = (seed_spec_catalogue sha256 input s).0 in
    (
      insert_all-IsPrefix rs s.rules,
      insert_all-Known rs s.rules,
      ap
            (λ (r : List Specification). (
              record s { specifications = r; rules = insert_all rs (insert_all rs s.rules) },
              length input.rules,
            ))
            (insert_new-has specification_key (specification_row sha256 input) _
              (has-insert_new specification_key (specification_row sha256 input) s.specifications))
          ∙ ap (λ (r : List Rule). (record t { rules = r }, length input.rules))
              (insert_all-again rs (insert_all rs s.rules) (insert_all-Known rs s.rules)),
    )
