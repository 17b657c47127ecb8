-- ===== src/Corpus/Record/Integrity.antt =====
-- apps/web/modules/corpus/record.ts: the references of the events that a run records.
use compliance_data_layer.Base.{
  ℕ, ◌≡◌, sym, ok_inj, subst, ◌⊎◌, true, not, List, [], ◌∷◌, map, ok, throw_if-eq-ok, All, All-and,
  All-map, arith, inl, inr,
}
use compliance_data_layer.Base.Texts.{Text}
use compliance_data_layer.Schema.{ValidationEvent, Rule}
use compliance_data_layer.Corpus.Record.{
  CorpusDocumentInput, CorpusFindingInput, RecordCorpusInput, Store, catalogue_incomplete,
  unlisted_document, foreign_key_violation, breaks_foreign_key, check_listed, upsert_dimensions,
  document_row, document_key, entity_key, specification_key, insert_documents, assert_rules_known,
  is_known_rule, insert_events, event_row, record_corpus,
}
use compliance_data_layer.Corpus.Record.Tables.{
  insert_new, has, has-insert_new, has-insert_new_old, has-nil, has-cons,
}
use compliance_data_layer.Corpus.Record.AppendOnly.{record_corpus-Recorded, insert_documents-rest}

abbrev input_key : CorpusDocumentInput → Text
input_key d = d.doc_hash

-- The foreign keys of an event.
pub record IsAnchored (s : Store) (e : ValidationEvent) : Type 0 where
  pub document : has document_key e.doc_hash s.documents ≡ true
  pub entity : has entity_key e.entity_hash s.entities ≡ true
  pub specification : has specification_key e.spec_id s.specifications ≡ true
  pub rule : is_known_rule s.rules e.rule_id ≡ true

assert_rules_known-All :
    (rules : List Rule) (fs : List CorpusFindingInput)
    → assert_rules_known rules fs ≡ ok tt
    → All (λ (f : CorpusFindingInput). is_known_rule rules f.rule_id ≡ true) fs
unfolding assert_rules_known
assert_rules_known-All rules [] h = tt
assert_rules_known-All rules (f ∷ fs) h =
    let (known, rest) =
      throw_if-eq-ok (not (is_known_rule rules f.rule_id)) catalogue_incomplete _ h in
    (ground arith, assert_rules_known-All rules fs rest)

check_listed-All :
    (docs : List CorpusDocumentInput) (fs : List CorpusFindingInput)
    → check_listed docs fs ≡ ok tt
    → All (λ (f : CorpusFindingInput). has input_key f.doc_hash docs ≡ true) fs
unfolding check_listed
check_listed-All docs [] h = tt
check_listed-All docs (f ∷ fs) h =
    let (listed, rest) =
      throw_if-eq-ok (not (has input_key f.doc_hash docs)) unlisted_document _ h in
    (ground arith, check_listed-All docs fs rest)

module _ (sha256 : Text → Text) (now : ℕ) (input : RecordCorpusInput) where
  -- A document that is listed, or that was there, is there afterwards.
  insert_documents-has :
      (ds : List CorpusDocumentInput) (k : Text) (s t : Store)
      → insert_documents sha256 now input ds s ≡ ok t
      → (has input_key k ds ≡ true) ⊎ (has document_key k s.documents ≡ true)
      → has document_key k t.documents ≡ true
  unfolding insert_documents
  insert_documents-has [] k s t h (inl new) = absurd (has-nil input_key k new)
  insert_documents-has [] k s t h (inr old) =
      subst (λ (u : Store). has document_key k u.documents ≡ true) (ok_inj h) old
  insert_documents-has (d ∷ ds) k s t h there =
      let row = document_row sha256 now input d in
      let (fits, h') = throw_if-eq-ok (breaks_foreign_key s row) foreign_key_violation _ h in
      insert_documents-has ds k (record s { documents = insert_new document_key row s.documents }) t
        h' (moved there)
    where
      moved :
          (has input_key k (d ∷ ds) ≡ true) ⊎ (has document_key k s.documents ≡ true)
          → (has input_key k ds ≡ true)
            ⊎ (has document_key k
                  (insert_new document_key (document_row sha256 now input d) s.documents)
                ≡ true)
      moved (inr old) = inr (has-insert_new_old document_key k _ s.documents old)
      moved (inl new) = elim (has-cons input_key k d ds new) [
        | inl e ↦ inr (
            subst
              (λ t.
                has document_key t
                  (insert_new document_key (document_row sha256 now input d) s.documents)
                ≡ true)
              e (has-insert_new document_key _ s.documents))
        | inr later ↦ inl later
      ]

  upsert-entity :
      (s : Store)
      → has entity_key input.entity_hash (upsert_dimensions sha256 now input s).entities ≡ true
  unfolding upsert_dimensions
  upsert-entity s = has-insert_new entity_key _ s.entities

  upsert-specification :
      (s : Store)
      → has specification_key input.spec_id (upsert_dimensions sha256 now input s).specifications
        ≡ true
  unfolding upsert_dimensions
  upsert-specification s = has-insert_new specification_key _ s.specifications

  -- Every event that a recorded run writes names a document, an entity, a specification and a rule that
  -- are in the tables when it commits.
  pub record_corpus-IsAnchored :
      (s t : Store) (events documents : ℕ)
      → record_corpus sha256 now input s ≡ ok (t, events, documents)
      → All (IsAnchored t) (map (event_row sha256 now input) input.findings)
  record_corpus-IsAnchored s t events documents h =
      let r = record_corpus-Recorded sha256 now input s t events documents h in
      let u = upsert_dimensions sha256 now input s in
      let (rest, _) =
        insert_documents-rest sha256 now input input.documents u r.stored r.inserted in
      let facts =
        All-and _ _ input.findings (check_listed-All input.documents input.findings r.listed)
          (assert_rules_known-All r.stored.rules input.findings r.known) in
      subst (λ (v : Store). All (IsAnchored v) (map (event_row sha256 now input) input.findings))
        r.final
        (All-map _ (IsAnchored (insert_events sha256 now input r.stored))
          (event_row sha256 now input)
          (λ f (listed, known). record {
            document =
                insert_documents-has input.documents f.doc_hash u r.stored r.inserted (inl listed);
            entity =
                subst (λ (v : Store). has entity_key input.entity_hash v.entities ≡ true) (sym rest)
                  (upsert-entity s);
            specification =
                subst (λ (v : Store). has specification_key input.spec_id v.specifications ≡ true)
                  (sym rest) (upsert-specification s);
            rule = known;
          })
          input.findings facts)
