-- ===== src/Ingestion/Tabular/Rows.antt =====
-- apps/web/modules/ingestion/extractors/tabular.ts: every row of a file, in the defects or the documents.
use compliance_data_layer.Base.{ℕ, suc, ◌≡◌, ◌⊎◌, true, List, [], ◌∷◌, ◌++◌, Option, none, some}
use compliance_data_layer.Base.Int.{ℤ}
use compliance_data_layer.Base.Texts.{Text, codes}
use compliance_data_layer.Ingestion.Normalise.{CanonicalDoc, ExtractionResult}
use compliance_data_layer.Ingestion.Tabular.{Cells, ColumnKey, read_row, as_doc_type}
use compliance_data_layer.Ingestion.Tabular.Drafts.{Draft, RowState, find_draft, cell, row_ref}
use compliance_data_layer.Ingestion.Tabular.Growth.{mentioned}
use compliance_data_layer.Ingestion.Tabular.Accounted.{currency_of, HasRow, Placed}
use compliance_data_layer.Ingestion.Tabular.Reported.{Reported}

module _ (number_of : Text → ℕ) (default_currency : Text)
    (header_map : List (Text × ColumnKey)) where
  abbrev AllPlaced : ℕ → List (List (Text × Text)) → RowState → Type 0
  AllPlaced index [] st = Unit
  AllPlaced index (raw ∷ rows) st =
      Placed number_of default_currency header_map
        (row_ref number_of default_currency header_map index) (read_row raw header_map)
        (cell (read_row raw header_map) (codes "invoiceNumber")) st
      × AllPlaced (suc index) rows st

module _ (add : ℤ → ℤ → ℤ) (number_of : Text → ℕ) (default_currency : Text)
    (header_map : List (Text × ColumnKey)) where
  -- The row is in a document under its number and in its currency.
  pub record IsIn (k : Text) (row : Cells) (docs : List CanonicalDoc) : Type 0 where
    pub before : List CanonicalDoc
    pub doc : CanonicalDoc
    pub after : List CanonicalDoc
    pub there : docs ≡ before ++ doc ∷ after
    pub same_number : doc.invoice_number ≡ k
    pub same_currency : doc.currency ≡ currency_of number_of default_currency header_map row
    pub has_row : HasRow number_of default_currency header_map row doc.lines

  -- A row is named by a defect, is in a document, or belongs to a draft that was refused for its type, the
  -- first row of which is named by a defect.
  abbrev pub Accounted : Text → Cells → Option Text → List Draft → ExtractionResult → Type 0
  Accounted ref row number ds r =
      (mentioned ref r.defects ≡ true)
      ⊎ ((k : Text) × (number ≡ some k)
          × (IsIn k row r.documents
              ⊎ ((d : Draft) × (find_draft k ds ≡ some d)
                  × (as_doc_type (cell d.header (codes "docType")) ≡ none)
                  × (mentioned d.source_ref r.defects ≡ true))))

  abbrev pub AllAccounted : ℕ → List (List (Text × Text)) → List Draft → ExtractionResult → Type 0
  AllAccounted index [] ds r = Unit
  AllAccounted index (raw ∷ rows) ds r =
      Accounted (row_ref number_of default_currency header_map index) (read_row raw header_map)
        (cell (read_row raw header_map) (codes "invoiceNumber")) ds r
      × AllAccounted (suc index) rows ds r
