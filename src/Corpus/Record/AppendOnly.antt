-- ===== src/Corpus/Record/AppendOnly.antt =====
-- apps/web/modules/corpus/record.ts: the tables before and after a recorded run.
use compliance_data_layer.Base.{
  ℕ, ◌≡◌, refl, sym, ap, ◌∙◌, ok_inj, subst, List, [], ◌∷◌, ◌++◌, map, Option, none, some, ok,
  throw_if-eq-ok, >>=-eq-ok, length,
}
use compliance_data_layer.Base.Texts.{Text}
use compliance_data_layer.Corpus.Record.{
  CorpusDocumentInput, RecordCorpusInput, Store, check_redacted, check_listed, upsert_dimensions,
  document_row, document_key, insert_documents, insert_source_system, insert_counterparty,
  assert_rules_known, insert_events, event_row, record_corpus, breaks_foreign_key,
  foreign_key_violation,
}
use compliance_data_layer.Corpus.Record.Tables.{
  insert_new, IsPrefix, IsPrefix-refl, IsPrefix-trans, IsPrefix-insert_new,
}
use compliance_data_layer.Schema.{SourceSystem, CorpusCounterparty}

pub record IsExtension (s t : Store) : Type 0 where
  pub specifications : IsPrefix s.specifications t.specifications
  pub rules : s.rules ≡ t.rules
  pub source_systems : IsPrefix s.source_systems t.source_systems
  pub tenants : IsPrefix s.tenants t.tenants
  pub entities : IsPrefix s.entities t.entities
  pub counterparties : IsPrefix s.counterparties t.counterparties
  pub documents : IsPrefix s.documents t.documents

insert_source_system-IsPrefix :
    (sys : Option Text) (rows : List SourceSystem) → IsPrefix rows (insert_source_system sys rows)
insert_source_system-IsPrefix none rows = IsPrefix-refl rows
insert_source_system-IsPrefix (some sys) rows = IsPrefix-insert_new _ _ rows

insert_counterparty-IsPrefix :
    (jurisdiction : Text) (hash : Option Text) (rows : List CorpusCounterparty)
    → IsPrefix rows (insert_counterparty jurisdiction hash rows)
insert_counterparty-IsPrefix jurisdiction none rows = IsPrefix-refl rows
insert_counterparty-IsPrefix jurisdiction (some hash) rows = IsPrefix-insert_new _ _ rows

module _ (sha256 : Text → Text) (now : ℕ) (input : RecordCorpusInput) where
  -- An accepted list of documents changes the table of documents alone.
  pub insert_documents-rest :
      (ds : List CorpusDocumentInput) (s t : Store)
      → insert_documents sha256 now input ds s ≡ ok t
      → (t ≡ record s { documents = t.documents }) × IsPrefix s.documents t.documents
  unfolding insert_documents
  insert_documents-rest [] s t h = (
    cc,
    subst (λ (u : Store). IsPrefix s.documents u.documents) (ok_inj h) (IsPrefix-refl s.documents),
  )
  insert_documents-rest (d ∷ ds) s t h =
      let (fits, h') =
        throw_if-eq-ok (breaks_foreign_key s (document_row sha256 now input d))
          foreign_key_violation _ h in
      let row = document_row sha256 now input d in
      let (rest, grown) =
        insert_documents-rest ds (record s { documents = insert_new document_key row s.documents })
          t h' in
      (
        rest,
        IsPrefix-trans s.documents _ t.documents (IsPrefix-insert_new document_key row s.documents)
            grown,
      )

  upsert-IsExtension : (s : Store) → IsExtension s (upsert_dimensions sha256 now input s)
  unfolding upsert_dimensions
  upsert-IsExtension s = record {
    specifications = IsPrefix-insert_new _ _ s.specifications;
    rules = refl;
    source_systems = insert_source_system-IsPrefix input.sys_id s.source_systems;
    tenants = IsPrefix-insert_new _ _ s.tenants;
    entities = IsPrefix-insert_new _ _ s.entities;
    counterparties =
        insert_counterparty-IsPrefix input.jurisdiction input.counterparty_hash s.counterparties;
    documents = IsPrefix-refl s.documents;
  }

  -- The parts of a run that is recorded.
  pub record Recorded (s t : Store) (events documents : ℕ) : Type 0 where
    pub redacted : check_redacted input.findings ≡ ok tt
    pub listed : check_listed input.documents input.findings ≡ ok tt
    pub stored : Store
    pub inserted :
        insert_documents sha256 now input input.documents (upsert_dimensions sha256 now input s)
        ≡ ok stored
    pub known : assert_rules_known stored.rules input.findings ≡ ok tt
    pub final : insert_events sha256 now input stored ≡ t
    pub event_count : events ≡ length input.findings
    pub document_count : documents ≡ length input.documents

  pub record_corpus-Recorded :
      (s t : Store) (events documents : ℕ)
      → record_corpus sha256 now input s ≡ ok (t, events, documents)
      → Recorded s t events documents
  unfolding record_corpus
  record_corpus-Recorded s t events documents h =
      let (u, redacted, h₁) = >>=-eq-ok (check_redacted input.findings) _ h in
      let (v, listed, h₂) = >>=-eq-ok (check_listed input.documents input.findings) _ h₁ in
      let (stored, inserted, h₃) =
        >>=-eq-ok
          (insert_documents sha256 now input input.documents (upsert_dimensions sha256 now input s))
          _ h₂ in
      let (w, known, h₄) = >>=-eq-ok (assert_rules_known stored.rules input.findings) _ h₃ in
      record {
        redacted = redacted;
        listed = listed;
        stored = stored;
        inserted = inserted;
        known = known;
        final = ap (λ (r : Store × ℕ × ℕ). r.0) (ok_inj h₄);
        event_count = sym (ap (λ (r : Store × ℕ × ℕ). r.1) (ok_inj h₄));
        document_count = sym (ap (λ (r : Store × ℕ × ℕ). r.2) (ok_inj h₄));
      }

IsExtension-stored :
    (sha256 : Text → Text) (now : ℕ) (input : RecordCorpusInput) (s u stored : Store)
    → IsExtension s u
    → stored ≡ record u { documents = stored.documents }
    → IsPrefix u.documents stored.documents
    → IsExtension s (insert_events sha256 now input stored)
IsExtension-stored sha256 now input s u stored e rest grown =
    subst (λ (v : Store). IsExtension s (insert_events sha256 now input v)) (sym rest)
      (record {
        specifications = e.specifications;
        rules = e.rules;
        source_systems = e.source_systems;
        tenants = e.tenants;
        entities = e.entities;
        counterparties = e.counterparties;
        documents = IsPrefix-trans s.documents u.documents stored.documents e.documents grown;
      })

-- A recorded run takes no row away and changes none: each table begins with the rows that it had, the
-- rules are untouched, and the new events are one for each finding, in order, behind the old ones.
pub record_corpus-IsExtension :
    (sha256 : Text → Text) (now : ℕ) (input : RecordCorpusInput) (s t : Store)
    (events documents : ℕ)
    → record_corpus sha256 now input s ≡ ok (t, events, documents)
    → IsExtension s t
      × (t.events ≡ s.events ++ map (event_row sha256 now input) input.findings)
      × (events ≡ length input.findings)
unfolding upsert_dimensions
record_corpus-IsExtension sha256 now input s t events documents h =
    let r = record_corpus-Recorded sha256 now input s t events documents h in
    let u = upsert_dimensions sha256 now input s in
    let (rest, grown) =
      insert_documents-rest sha256 now input input.documents u r.stored r.inserted in
    let extended =
      IsExtension-stored sha256 now input s u r.stored (upsert-IsExtension sha256 now input s) rest
        grown in
    (
      subst (IsExtension s) r.final extended,
      sym (ap (λ (v : Store). v.events) r.final)
          ∙ ap (λ (v : Store). v.events ++ map (event_row sha256 now input) input.findings) rest,
      r.event_count,
    )
