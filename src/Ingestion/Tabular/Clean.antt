-- ===== src/Ingestion/Tabular/Clean.antt =====
-- apps/web/modules/ingestion/extractors/tabular.ts: the documents of a file of rows.
use compliance_data_layer.Base.{
  ℕ, ◌≡◌, ◌≢◌, sym, ◌∙◌, subst, true, List, [], ◌∷◌, ◌++◌, append-nil, append_assoc, map, Option,
  none, some, Bool-cases, inl, inr, All, Distinct,
}
use compliance_data_layer.Base.Int.{ℤ}
use compliance_data_layer.Base.Texts.{Text, codes}
use compliance_data_layer.Schema.{DocType}
use compliance_data_layer.Ingestion.Normalise.{CanonicalDoc, ExtractionResult}
use compliance_data_layer.Ingestion.Tabular.{is_iso_date, as_doc_type, build_header_map}
use compliance_data_layer.Ingestion.Tabular.Drafts.{Draft, cell, has_lines, add_rows}
use compliance_data_layer.Ingestion.Tabular.Documents.{
  document_of, finish_draft, finish_drafts, has_number_column, no_rows, extract_tabular,
}
use compliance_data_layer.Ingestion.Tabular.Kept.{IsLine, IsDraft, numbers, add_rows-IsKept}

abbrev pub invoice_numbers : List CanonicalDoc → List Text
invoice_numbers docs = map (λ (d : CanonicalDoc). d.invoice_number) docs

-- A document with an ISO date, at least one line, and no unit but a code.
abbrev pub IsClean : CanonicalDoc → Type 0
IsClean d = (is_iso_date d.issue_date ≡ true) × (has_lines d.lines ≡ true) × All IsLine d.lines

-- The documents that the loop over drafts adds.
record Finished (ds : List Draft) (before after docs : List CanonicalDoc) : Type 0 where
  extended : after ≡ before ++ docs
  clean : All IsClean docs
  distinct : Distinct (invoice_numbers docs)
  among : (k : Text) → All (λ j. k ≢ j) (numbers ds) → All (λ j. k ≢ j) (invoice_numbers docs)

module _ (add : ℤ → ℤ → ℤ) where
  document_of-IsClean : (d : Draft) (t : DocType) → IsDraft d → IsClean (document_of add d t)
  document_of-IsClean d t ((date, there, iso), lines, full) = (rw there iso, full, lines)

  finish_draft-Finished :
      (d : Draft) (ds : List Draft) (found : Option DocType) (r : ExtractionResult)
      (after docs : List CanonicalDoc)
      → IsDraft d
      → All (λ j. d.number ≢ j) (numbers ds)
      → Finished ds (finish_draft add d found r).documents after docs
      → (more : List CanonicalDoc) × Finished (d ∷ ds) r.documents after more
  finish_draft-Finished d ds none r after docs draft different f = (
    docs,
    record {
      extended = f.extended;
      clean = f.clean;
      distinct = f.distinct;
      among = λ k (_, a). f.among k a;
    },
  )
  finish_draft-Finished d ds (some t) r after docs draft different f = (
    document_of add d t ∷ docs,
    record {
      extended = f.extended ∙ append_assoc r.documents (document_of add d t ∷ []) docs;
      clean = (document_of-IsClean d t draft, f.clean);
      distinct = (f.among d.number different, f.distinct);
      among = λ k (h, a). (h, f.among k a);
    },
  )

  finish_drafts-Finished :
      (ds : List Draft) (r : ExtractionResult)
      → Distinct (numbers ds)
      → All IsDraft ds
      → (docs : List CanonicalDoc) × Finished ds r.documents (finish_drafts add ds r).documents docs
  unfolding finish_drafts
  finish_drafts-Finished [] r distinct drafts = (
    [],
    record {
      extended = sym (append-nil r.documents);
      clean = tt;
      distinct = tt;
      among = λ k a. tt;
    },
  )
  finish_drafts-Finished (d ∷ ds) r (different, distinct) (draft, drafts) =
      let t = as_doc_type (cell d.header (codes "docType")) in
      let (docs, f) = finish_drafts-Finished ds (finish_draft add d t r) distinct drafts in
      finish_draft-Finished d ds t r _ docs draft different f

  -- The documents of a file have distinct invoice numbers, and each has an ISO date, at least one line, and
  -- no unit of a line but two or three capitals and digits.
  pub extract_tabular-IsClean :
      (number_of : Text → ℕ) (rows : List (List (Text × Text))) (headers : List Text)
      (default_currency : Text)
      → Distinct
          (invoice_numbers (extract_tabular add number_of rows headers default_currency).documents)
        × All IsClean (extract_tabular add number_of rows headers default_currency).documents
  unfolding extract_tabular
  extract_tabular-IsClean number_of rows headers default_currency =
      let header_map = build_header_map headers in
      let st = add_rows number_of default_currency header_map 0 rows (no_rows add) in
      let kept =
        add_rows-IsKept number_of default_currency header_map 0 rows (no_rows add)
          (record { distinct = tt; drafts = tt }) in
      let (docs, f) =
        finish_drafts-Finished st.drafts (record { documents = []; defects = st.defects })
          kept.distinct kept.drafts in
      elim (Bool-cases (has_number_column add header_map)) [
        | inl there ↦ rw there (
            subst (λ ds. Distinct (invoice_numbers ds) × All IsClean ds) (sym f.extended)
              (f.distinct, f.clean))
        | inr missing ↦ rw missing (tt, tt)
      ]
