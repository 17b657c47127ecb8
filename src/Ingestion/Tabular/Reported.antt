-- ===== src/Ingestion/Tabular/Reported.antt =====
-- apps/web/modules/ingestion/extractors/tabular.ts: what the loop over the drafts leaves of each.
use compliance_data_layer.Base.{
  ◌≡◌, ◌⊎◌, refl, sym, ap, ◌∙◌, subst, true, List, [], ◌∷◌, ◌++◌, append-nil, append_assoc, Option,
  none, some, some_inj, Bool-cases, inl, inr,
}
use compliance_data_layer.Base.Int.{ℤ}
use compliance_data_layer.Base.Texts.{Text, codes, text_eq}
use compliance_data_layer.Schema.{DocType, parse_error}
use compliance_data_layer.Ingestion.Normalise.{CanonicalDoc, ExtractionResult}
use compliance_data_layer.Ingestion.Tabular.{as_doc_type}
use compliance_data_layer.Ingestion.Tabular.Drafts.{Draft, defect, find_draft, cell}
use compliance_data_layer.Ingestion.Tabular.Documents.{document_of, finish_draft, finish_drafts}
use compliance_data_layer.Ingestion.Tabular.Growth.{
  mentioned, mentioned-append_left, mentioned_last,
}

-- The document of a draft is in a result, with its number, its currency and its lines.
pub record IsDocumented (d : Draft) (docs : List CanonicalDoc) : Type 0 where
  pub before : List CanonicalDoc
  pub doc : CanonicalDoc
  pub after : List CanonicalDoc
  pub there : docs ≡ before ++ doc ∷ after
  pub same_number : doc.invoice_number ≡ d.number
  pub same_currency : doc.currency ≡ d.currency
  pub same_lines : doc.lines ≡ d.lines

-- A draft has its document, or was refused for its type and a defect names its first row.
abbrev pub Reported : Draft → ExtractionResult → Type 0
Reported d r =
    IsDocumented d r.documents
    ⊎ ((as_doc_type (cell d.header (codes "docType")) ≡ none)
        × (mentioned d.source_ref r.defects ≡ true))

module _ (add : ℤ → ℤ → ℤ) where
  pub record Grows (r r' : ExtractionResult) : Type 0 where
    pub more : List CanonicalDoc
    pub documents_kept : r'.documents ≡ r.documents ++ more
    pub defects_kept :
        (ref : Text) → mentioned ref r.defects ≡ true → mentioned ref r'.defects ≡ true

  Grows-refl : (r : ExtractionResult) → Grows r r
  Grows-refl r = record {
    more = [];
    documents_kept = sym (append-nil r.documents);
    defects_kept = λ ref h. h;
  }

  finish_draft-Grows :
      (d : Draft) (t : Option DocType) (r : ExtractionResult) → Grows r (finish_draft add d t r)
  finish_draft-Grows d none r = record {
    more = [];
    documents_kept = sym (append-nil r.documents);
    defects_kept = λ ref h. mentioned-append_left ref r.defects _ h;
  }
  finish_draft-Grows d (some t) r = record {
    more = document_of add d t ∷ [];
    documents_kept = refl;
    defects_kept = λ ref h. mentioned-append_left ref r.defects _ h;
  }

  pub finish_drafts-Grows :
      (ds : List Draft) (r : ExtractionResult) → Grows r (finish_drafts add ds r)
  unfolding finish_drafts
  finish_drafts-Grows [] r = Grows-refl r
  finish_drafts-Grows (d ∷ ds) r =
      let t = as_doc_type (cell d.header (codes "docType")) in
      let here = finish_draft-Grows d t r in
      let later = finish_drafts-Grows ds (finish_draft add d t r) in
      record {
        more = here.more ++ later.more;
        documents_kept =
            later.documents_kept
            ∙ ap (λ l. l ++ later.more) here.documents_kept
            ∙ append_assoc r.documents here.more later.more;
        defects_kept = λ ref h. later.defects_kept ref (here.defects_kept ref h);
      }

  finish_draft-Reported :
      (d : Draft) (t : Option DocType) (r s : ExtractionResult)
      → as_doc_type (cell d.header (codes "docType")) ≡ t
      → Grows (finish_draft add d t r) s
      → Reported d s
  finish_draft-Reported d none r s refused later = inr (
    refused,
    later.defects_kept d.source_ref
        (mentioned_last (defect parse_error d.source_ref none) r.defects),
  )
  finish_draft-Reported d (some t) r s typed later = inl (record {
    before = r.documents;
    doc = document_of add d t;
    after = later.more;
    there = later.documents_kept ∙ append_assoc r.documents _ later.more;
    same_number = refl;
    same_currency = refl;
    same_lines = refl;
  })

  pub finish_drafts-Reported :
      (k : Text) (ds : List Draft) (d : Draft) (r : ExtractionResult)
      → find_draft k ds ≡ some d
      → Reported d (finish_drafts add ds r)
  unfolding finish_drafts find_draft
  finish_drafts-Reported k [] d r h = cc
  finish_drafts-Reported k (e ∷ ds) d r h =
      let t = as_doc_type (cell e.header (codes "docType")) in
      let later = finish_drafts-Grows ds (finish_draft add e t r) in
      elim (Bool-cases (text_eq e.number k)) [
        | inl same ↦
            subst (λ (u : Draft). Reported u (finish_drafts add ds (finish_draft add e t r)))
              (some_inj (rw same at h)) (finish_draft-Reported e t r _ refl later)
        | inr other ↦ finish_drafts-Reported k ds d (finish_draft add e t r) (rw other at h)
      ]
