-- ===== src/Ingestion/Tabular/Documents.antt =====
-- apps/web/modules/ingestion/extractors/tabular.ts, extractTabular: the loop over the drafts, and the whole.
use compliance_data_layer.Base.{
  ℕ, Bool, true, false, ◌&&◌, List, [], ◌∷◌, ◌++◌, any, all, Option, none, some, or_else, is_none,
  if◌then◌else◌,
}
use compliance_data_layer.Base.Int.{ℤ, pos}
use compliance_data_layer.Base.Texts.{Text, codes, text_eq}
use compliance_data_layer.Schema.{
  DocType, standard, parse_error, identifier_inconsistent, trn_missing, tax_category_unmapped,
}
use compliance_data_layer.Ingestion.Money.{try_to_minor}
use compliance_data_layer.Ingestion.Normalise.{
  CanonicalLine, CanonicalDoc, ExtractionDefect, ExtractionResult,
}
use compliance_data_layer.Ingestion.Shape.{value_shape}
use compliance_data_layer.Ingestion.Tabular.{
  ColumnKey, as_doc_type, as_scenario, build_header_map, enter_headers,
}
use compliance_data_layer.Ingestion.Tabular.Drafts.{
  Draft, RowState, defect, cell, minor_of, has_lines, add_rows,
}

abbrev pub scenario_defects : Draft → Option Text → List ExtractionDefect
scenario_defects d none = []
scenario_defects d (some raw) =
    if is_none (as_scenario (some raw))
    then defect identifier_inconsistent d.source_ref (some (value_shape (some raw) none)) ∷ []
    else []

abbrev pub trn_defects : Draft → List ExtractionDefect
trn_defects d =
    if is_none (cell d.header (codes "buyerTrn"))
    then defect trn_missing d.source_ref (some (value_shape none none)) ∷ []
    else []

abbrev pub category_defects : Draft → List ExtractionDefect
category_defects d =
    if has_lines d.lines && all (λ (l : CanonicalLine). is_none l.tax_category_code) d.lines
    then defect tax_category_unmapped d.source_ref (some (value_shape none none)) ∷ []
    else []

abbrev pub rate_cons : Option Text → List Text → List Text
rate_cons none rates = rates
rate_cons (some r) rates = if any (λ q. text_eq q r) rates then rates else r ∷ rates

-- `rates`, in another order
unfoldable pub distinct_rates : List CanonicalLine → List Text
distinct_rates [] = []
distinct_rates (l ∷ ls) = rate_cons l.tax_rate (distinct_rates ls)

abbrev pub has_several : List Text → Bool
has_several (_ ∷ _ ∷ _) = true
has_several _ = false

-- `x ?? y` on the result of tryToMinor
abbrev pub or_minor : Option ℤ → Option ℤ → Option ℤ
or_minor none d = d
or_minor (some m) d = some m

module _ (add : ℤ → ℤ → ℤ) where
  abbrev pub add_amount : Option ℤ → Option ℤ → Option ℤ
  add_amount (some sum) (some m) = some (add sum m)
  add_amount _ _ = none

  unfoldable pub line_sum : Option ℤ → List CanonicalLine → Option ℤ
  line_sum sum [] = sum
  line_sum sum (l ∷ ls) = line_sum (add_amount sum l.net_amount_minor) ls

  abbrev pub document_of : Draft → DocType → CanonicalDoc
  document_of d doc_type =
      let amount = λ (key : ColumnKey). minor_of (try_to_minor (cell d.header key) d.currency) in
      record {
        doc_type = doc_type;
        scenario = or_else (as_scenario (cell d.header (codes "scenario"))) standard;
        invoice_number = d.number;
        issue_date = or_else (cell d.header (codes "issueDate")) [];
        currency = d.currency;
        buyer_name = cell d.header (codes "buyerName");
        buyer_trn = cell d.header (codes "buyerTrn");
        seller_trn = cell d.header (codes "sellerTrn");
        predecessor_ref = cell d.header (codes "predecessorRef");
        line_extension_minor =
            or_minor (amount (codes "lineExtension")) (line_sum (some (pos 0)) d.lines);
        tax_amount_minor = amount (codes "taxAmount");
        payable_minor = amount (codes "payable");
        has_allowance_charge = false;
        has_multi_tax_rate = has_several (distinct_rates d.lines);
        lines = d.lines;
        source_ref = d.source_ref;
      }

  -- One round of the loop over the drafts.
  abbrev pub finish_draft : Draft → Option DocType → ExtractionResult → ExtractionResult
  finish_draft d none r = record r {
    defects = r.defects ++ defect parse_error d.source_ref none ∷ [];
  }
  finish_draft d (some t) r = record {
    documents = r.documents ++ document_of d t ∷ [];
    defects =
        r.defects
        ++ (scenario_defects d (cell d.header (codes "scenario"))
            ++ trn_defects d
            ++ category_defects d);
  }

  unfoldable pub finish_drafts : List Draft → ExtractionResult → ExtractionResult
  unfolding line_sum distinct_rates
  finish_drafts [] r = r
  finish_drafts (d ∷ ds) r =
      finish_drafts ds (finish_draft d (as_doc_type (cell d.header (codes "docType"))) r)

  abbrev pub has_number_column : List (Text × ColumnKey) → Bool
  has_number_column header_map =
      any (λ (h : Text × ColumnKey). text_eq h.1 (codes "invoiceNumber")) header_map

  abbrev pub no_rows : RowState
  no_rows = record { defects = []; drafts = [] }

  unfoldable pub extract_tabular :
      (Text → ℕ) → List (List (Text × Text)) → List Text → Text → ExtractionResult
  unfolding enter_headers add_rows finish_drafts
  extract_tabular number_of rows headers default_currency =
      let header_map = build_header_map headers in
      let st = add_rows number_of default_currency header_map 0 rows no_rows in
      if has_number_column header_map
      then finish_drafts st.drafts (record { documents = []; defects = st.defects })
      else record { documents = []; defects = defect parse_error (codes "header") none ∷ [] }
