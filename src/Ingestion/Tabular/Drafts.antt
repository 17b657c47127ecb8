-- ===== src/Ingestion/Tabular/Drafts.antt =====
-- apps/web/modules/ingestion/extractors/tabular.ts, extractTabular: the loop over the rows, which groups
-- lines under invoice numbers. `number_of` is `Number` of a line number, which is taken to be a whole
-- number from 0 on: a row whose line number is not, on which the insert of the line fails later, is not
-- covered.
use compliance_data_layer.Base.{
  ℕ, suc, ◌+◌, Bool, true, false, not, ◌&&◌, ◌||◌, List, [], ◌∷◌, ◌++◌, map, length, Option, none,
  some, or_else, is_some, if◌then◌else◌,
}
use compliance_data_layer.Base.Int.{ℤ}
use compliance_data_layer.Base.Texts.{Text, codes, text_eq, one_of}
use compliance_data_layer.Base.Texts.Decimals.{decimal}
use compliance_data_layer.Schema.{
  DefectClass, parse_error, currency_inconsistent, unit_code_freetext, ValueShape,
}
use compliance_data_layer.Ingestion.Money.{Attempt, minor, failed_unknown_currency, try_to_minor}
use compliance_data_layer.Ingestion.Normalise.{CanonicalLine, ExtractionDefect}
use compliance_data_layer.Ingestion.Shape.{value_shape}
use compliance_data_layer.Ingestion.Tabular.{Cells, ColumnKey, read_row, is_iso_date, is_unit_code}

-- The key of the map and the draft under it.
pub record Draft : Type 0 where
  pub number : Text
  pub header : Cells
  pub lines : List CanonicalLine
  pub source_ref : Text
  pub currency : Text

pub record RowState : Type 0 where
  pub defects : List ExtractionDefect
  pub drafts : List Draft

abbrev pub defect : DefectClass → Text → Option ValueShape → ExtractionDefect
defect c ref shape = record { defect_class = c; source_ref = ref; sample_shape = shape }

abbrev pub with_defect : ExtractionDefect → RowState → RowState
with_defect d st = record st { defects = st.defects ++ d ∷ [] }

-- `drafts.get`
unfoldable pub find_draft : Text → List Draft → Option Draft
find_draft number [] = none
find_draft number (d ∷ ds) = if text_eq d.number number then some d else find_draft number ds

-- `draft.lines.push` on the draft of the map
abbrev pub push_line : Text → CanonicalLine → Draft → Draft
push_line number line d = record d {
  lines = if text_eq d.number number then d.lines ++ line ∷ [] else d.lines;
}

abbrev pub cell : Cells → ColumnKey → Option Text
cell row key = one_of row key

abbrev pub has_line_data : Cells → Bool
has_line_data row =
    is_some (cell row (codes "lineNetAmount"))
    || is_some (cell row (codes "lineDescription"))
    || is_some (cell row (codes "lineQuantity"))

abbrev pub minor_of : Attempt → Option ℤ
minor_of (minor m) = some m
minor_of _ = none

abbrev pub amount_defects : Attempt → Text → Text → List ExtractionDefect
amount_defects failed_unknown_currency ref currency =
    defect currency_inconsistent ref (some (value_shape (some currency) none)) ∷ []
amount_defects _ ref currency = []

abbrev pub unit_defects : Option Text → Text → List ExtractionDefect
unit_defects none ref = []
unit_defects (some unit) ref =
    if is_unit_code unit
    then []
    else defect unit_code_freetext ref (some (value_shape (some unit) none)) ∷ []

abbrev pub usable_unit : Option Text → Option Text
usable_unit none = none
usable_unit (some unit) = if is_unit_code unit then some unit else none

abbrev pub has_lines : List CanonicalLine → Bool
has_lines [] = false
has_lines (_ ∷ _) = true

module _ (number_of : Text → ℕ) (default_currency : Text)
    (header_map : List (Text × ColumnKey)) where
  abbrev pub line_number_of : Option Text → ℕ → ℕ
  line_number_of none n = n + 1
  line_number_of (some s) n = number_of s

  abbrev pub line_of : Cells → Text → ℕ → CanonicalLine
  line_of row currency n = record {
    line_number = line_number_of (cell row (codes "lineNumber")) n;
    description = cell row (codes "lineDescription");
    quantity = cell row (codes "lineQuantity");
    unit_code = usable_unit (cell row (codes "lineUnitCode"));
    net_amount_minor = minor_of (try_to_minor (cell row (codes "lineNetAmount")) currency);
    tax_category_code = cell row (codes "lineTaxCategory");
    tax_rate = cell row (codes "lineTaxRate");
  }

  -- The rest of a round, for a draft that has n lines.
  abbrev pub add_line : Text → Text → Cells → Text → ℕ → RowState → RowState
  add_line ref number row currency n st = record {
    defects =
        st.defects
        ++ (amount_defects (try_to_minor (cell row (codes "lineNetAmount")) currency) ref currency
            ++ unit_defects (cell row (codes "lineUnitCode")) ref);
    drafts = map (push_line number (line_of row currency n)) st.drafts;
  }

  abbrev pub new_draft : Text → Text → Cells → Text → Draft
  new_draft ref number row currency = record {
    number = number;
    header = row;
    lines = [];
    source_ref = ref;
    currency = currency;
  }

  abbrev pub join_draft : Text → Text → Cells → Text → Option Draft → RowState → RowState
  join_draft ref number row currency none st =
      add_line ref number row currency 0
        (record st { drafts = st.drafts ++ new_draft ref number row currency ∷ [] })
  join_draft ref number row currency (some d) st =
      if not (text_eq d.currency currency)
      then with_defect (defect currency_inconsistent ref (some (value_shape (some currency) none)))
          st
      else if not (has_line_data row) && has_lines d.lines
      then st
      else add_line ref number row currency (length d.lines) st

  abbrev pub identified : Text → Cells → Option Text → Option Text → RowState → RowState
  identified ref row (some number) (some date) st =
      if is_iso_date date
      then join_draft ref number row (or_else (cell row (codes "currency")) default_currency)
          (find_draft number st.drafts) st
      else with_defect (defect parse_error ref none) st
  identified ref row _ _ st = with_defect (defect parse_error ref none) st

  abbrev pub row_ref : ℕ → Text
  row_ref index = codes "row[" ++ decimal (index + 2) ++ codes "]"

  -- One round of the loop over the rows.
  unfoldable pub add_row : ℕ → List (Text × Text) → RowState → RowState
  unfolding find_draft
  add_row index raw st =
      let row = read_row raw header_map in
      identified (row_ref index) row (cell row (codes "invoiceNumber"))
        (cell row (codes "issueDate")) st

  unfoldable pub add_rows : ℕ → List (List (Text × Text)) → RowState → RowState
  unfolding add_row
  add_rows index [] st = st
  add_rows index (raw ∷ rows) st = add_rows (suc index) rows (add_row index raw st)
