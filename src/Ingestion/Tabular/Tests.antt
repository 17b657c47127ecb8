-- ===== src/Ingestion/Tabular/Tests.antt =====
-- extractTabular on an invoice of two rows, and on a row that has no date.
use compliance_data_layer.Base.{ℕ, ◌≡◌, refl, List, [], ◌∷◌, Distinct, All}
use compliance_data_layer.Base.Int.{ℤ}
use compliance_data_layer.Base.Texts.{Text, codes, text_eq, one_of}
use compliance_data_layer.Base.Texts.Chars.{to_lower}
use compliance_data_layer.Base.Texts.Strips.{remove, trim}
use compliance_data_layer.Ingestion.Normalise.{ExtractionResult}
use compliance_data_layer.Ingestion.Tabular.{
  enter_headers, normalise_header, key_of_alias, read_cells,
}
use compliance_data_layer.Ingestion.Tabular.Drafts.{add_rows, add_row, find_draft}
use compliance_data_layer.Ingestion.Tabular.Documents.{extract_tabular, finish_drafts}
use compliance_data_layer.Ingestion.Tabular.Clean.{
  invoice_numbers, IsClean, extract_tabular-IsClean,
}

abbrev headers : List Text
headers = codes "Invoice No" ∷ codes "DATE" ∷ codes "Item-Name" ∷ codes "UOM" ∷ []

abbrev row : Text → Text → Text → Text → List (Text × Text)
row number date item unit =
    (codes "Invoice No", number)
    ∷ (codes "DATE", date)
    ∷ (codes "Item-Name", item)
    ∷ (codes "UOM", unit)
    ∷ []

abbrev rows : List (List (Text × Text))
rows =
    row (codes "A1") (codes "2026-01-31") (codes "Tea") (codes "EA")
    ∷ row (codes " A1 ") (codes "2026-01-31") (codes "Cup") (codes "box")
    ∷ row (codes "A2") (codes "31/01/2026") (codes "Pot") (codes "EA")
    ∷ []

abbrev first : ℤ → ℤ → ℤ
first a b = a

abbrev zero_of : Text → ℕ
zero_of s = 0

abbrev result : ExtractionResult
result = extract_tabular first zero_of rows headers (codes "AED")

one_document : invoice_numbers result.documents ≡ codes "A1" ∷ []
unfolding extract_tabular add_rows add_row finish_drafts find_draft enter_headers normalise_header
    key_of_alias read_cells one_of text_eq remove to_lower trim
one_document = refl

extract_tabular-IsClean_example :
    Distinct (invoice_numbers result.documents) × All IsClean result.documents
extract_tabular-IsClean_example = extract_tabular-IsClean first zero_of rows headers (codes "AED")
