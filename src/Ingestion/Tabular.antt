-- ===== src/Ingestion/Tabular.antt =====
-- apps/web/modules/ingestion/extractors/tabular.ts: rows with headers as canonical documents. `Number` of a
-- line number and the sum of two amounts are parameters, as doubles round.
pub mod Drafts
pub mod Documents
pub mod Kept
pub mod Clean
pub mod Accounted
pub mod Growth
pub mod Reported
pub mod Rows
mod Tests
use compliance_data_layer.Base.{
  ℕ, zero, suc, ◌+◌, ◌≡◌, Bool, true, false, not, ◌&&◌, ◌||◌, List, [], ◌∷◌, ◌++◌, map, any, all,
  length, Option, none, some, or_else, is_some, is_none, ◌==◌, ltb, if◌then◌else◌,
}
use compliance_data_layer.Base.Int.{ℤ, pos}
use compliance_data_layer.Base.Texts.{Text, codes, text_eq, one_of, is_empty}
use compliance_data_layer.Base.Texts.Chars.{is_digit, is_upper, is_space, to_lower}
use compliance_data_layer.Base.Texts.Strips.{trim, remove}
use compliance_data_layer.Base.Texts.Decimals.{decimal}
use compliance_data_layer.Schema.{
  DocType, invoice, credit_note, debit_note, self_billed, Scenario, standard, zero_rated, exempt,
  reverse_charge, designated_zone, export, scenario_text, doc_type_text, DefectClass, parse_error,
  currency_inconsistent, unit_code_freetext, identifier_inconsistent, trn_missing,
  tax_category_unmapped, ValueShape,
}
use compliance_data_layer.Ingestion.Money.{
  Attempt, minor, failed_unknown_currency, failed_malformed, try_to_minor,
}
use compliance_data_layer.Ingestion.Normalise.{
  CanonicalLine, CanonicalDoc, ExtractionDefect, ExtractionResult,
}
use compliance_data_layer.Ingestion.Shape.{value_shape}

-- A key of `COLUMNS`, and the values of a row under such keys.
abbrev pub ColumnKey : Type 0
ColumnKey = Text

abbrev pub Cells : Type 0
Cells = List (ColumnKey × Text)

abbrev pub columns : List (ColumnKey × List Text)
columns =
    (
      codes "invoiceNumber",
      codes "invoicenumber"
          ∷ codes "invoiceno"
          ∷ codes "documentnumber"
          ∷ codes "voucherno"
          ∷ codes "bt1"
          ∷ [],
    )
    ∷ (codes "issueDate", codes "issuedate" ∷ codes "invoicedate" ∷ codes "date" ∷ codes "bt2" ∷ [])
    ∷ (codes "docType", codes "doctype" ∷ codes "documenttype" ∷ codes "type" ∷ [])
    ∷ (codes "scenario", codes "scenario" ∷ codes "supplytype" ∷ [])
    ∷ (codes "currency", codes "currency" ∷ codes "currencycode" ∷ codes "bt5" ∷ [])
    ∷ (
      codes "buyerName",
      codes "buyername" ∷ codes "customername" ∷ codes "partyname" ∷ codes "bt44" ∷ [],
    )
    ∷ (
      codes "buyerTrn",
      codes "buyertrn"
          ∷ codes "customertrn"
          ∷ codes "buyervatid"
          ∷ codes "customergstin"
          ∷ codes "bt48"
          ∷ [],
    )
    ∷ (
      codes "sellerTrn",
      codes "sellertrn"
          ∷ codes "suppliertrn"
          ∷ codes "companytrn"
          ∷ codes "companygstin"
          ∷ codes "bt31"
          ∷ [],
    )
    ∷ (
      codes "predecessorRef",
      codes "predecessorref"
          ∷ codes "originalinvoice"
          ∷ codes "referenceinvoice"
          ∷ codes "bt25"
          ∷ [],
    )
    ∷ (
      codes "lineExtension",
      codes "lineextensionamount" ∷ codes "netamount" ∷ codes "subtotal" ∷ codes "bt106" ∷ [],
    )
    ∷ (
      codes "taxAmount",
      codes "taxamount" ∷ codes "vatamount" ∷ codes "gstamount" ∷ codes "bt110" ∷ [],
    )
    ∷ (
      codes "payable",
      codes "payableamount"
          ∷ codes "grandtotal"
          ∷ codes "invoicetotal"
          ∷ codes "total"
          ∷ codes "bt115"
          ∷ [],
    )
    ∷ (codes "lineNumber", codes "linenumber" ∷ codes "lineno" ∷ codes "srno" ∷ [])
    ∷ (
      codes "lineDescription",
      codes "linedescription" ∷ codes "itemname" ∷ codes "description" ∷ codes "bt153" ∷ [],
    )
    ∷ (
      codes "lineQuantity",
      codes "linequantity" ∷ codes "quantity" ∷ codes "qty" ∷ codes "bt129" ∷ [],
    )
    ∷ (
      codes "lineUnitCode",
      codes "lineunitcode" ∷ codes "unitcode" ∷ codes "uom" ∷ codes "unit" ∷ codes "bt130" ∷ [],
    )
    ∷ (
      codes "lineNetAmount",
      codes "linenetamount" ∷ codes "lineamount" ∷ codes "linetotal" ∷ codes "bt131" ∷ [],
    )
    ∷ (
      codes "lineTaxCategory",
      codes "linetaxcategory" ∷ codes "taxcategory" ∷ codes "taxcategorycode" ∷ codes "bt151" ∷ [],
    )
    ∷ (
      codes "lineTaxRate",
      codes "linetaxrate"
          ∷ codes "taxrate"
          ∷ codes "vatrate"
          ∷ codes "gstrate"
          ∷ codes "bt152"
          ∷ [],
    )
    ∷ []

abbrev pub is_separator : ℕ → Bool
is_separator c = is_space c || c == b'_' || c == b'-' || c == b'.'

unfoldable pub normalise_header : Text → Text
normalise_header header = remove is_separator (to_lower header)

-- `byAlias.get`: of two keys with one alias the map keeps the last.
unfoldable pub key_of_alias : List (ColumnKey × List Text) → Text → Option ColumnKey
key_of_alias [] alias = none
key_of_alias ((key, aliases) ∷ rest) alias =
    let later = key_of_alias rest alias in
    if is_some later then later else if any (λ a. text_eq a alias) aliases then some key else none

-- A key of a header is entered once.
abbrev pub enter_header :
    Text → Option ColumnKey → List (Text × ColumnKey) → List (Text × ColumnKey)
enter_header header none entered = entered
enter_header header (some key) entered =
    if is_some (one_of entered header) then entered else entered ++ (header, key) ∷ []

unfoldable pub enter_headers : List Text → List (Text × ColumnKey) → List (Text × ColumnKey)
unfolding normalise_header key_of_alias
enter_headers [] entered = entered
enter_headers (header ∷ headers) entered =
    enter_headers headers
      (enter_header header (key_of_alias columns (normalise_header header)) entered)

abbrev pub build_header_map : List Text → List (Text × ColumnKey)
build_header_map headers = enter_headers headers []

-- `out[key] = raw.trim()`, where the cell holds more than white space; the newest value stands first.
abbrev pub enter_cell : ColumnKey → Option Text → Cells → Cells
enter_cell key none out = out
enter_cell key (some raw) out = if is_empty (trim raw) then out else (key, trim raw) ∷ out

unfoldable pub read_cells : List (Text × Text) → List (Text × ColumnKey) → Cells → Cells
read_cells row [] out = out
read_cells row ((header, key) ∷ header_map) out =
    read_cells row header_map (enter_cell key (one_of row header) out)

abbrev pub read_row : List (Text × Text) → List (Text × ColumnKey) → Cells
read_row row header_map = read_cells row header_map []

-- `ISO_DATE`
abbrev pub is_iso_date : Text → Bool
is_iso_date (a ∷ b ∷ c ∷ d ∷ e ∷ f ∷ g ∷ h ∷ i ∷ j ∷ []) =
    all is_digit (a ∷ b ∷ c ∷ d ∷ [])
    && e == b'-'
    && all is_digit (f ∷ g ∷ [])
    && h == b'-'
    && all is_digit (i ∷ j ∷ [])
is_iso_date _ = false

abbrev pub underscored : Text → Text
underscored s = map (λ c. if is_space c || c == b'-' then b'_' else c) (to_lower s)

abbrev pub doc_types : List (Text × DocType)
doc_types = map (λ t. (doc_type_text t, t)) (invoice ∷ credit_note ∷ debit_note ∷ self_billed ∷ [])

abbrev pub scenarios : List (Text × Scenario)
scenarios =
    map (λ t. (scenario_text t, t))
      (standard ∷ zero_rated ∷ exempt ∷ reverse_charge ∷ designated_zone ∷ export ∷ [])

abbrev pub as_doc_type : Option Text → Option DocType
as_doc_type none = some invoice
as_doc_type (some raw) = one_of doc_types (underscored raw)

abbrev pub as_scenario : Option Text → Option Scenario
as_scenario none = none
as_scenario (some raw) = one_of scenarios (underscored raw)

-- `/^[A-Z0-9]{2,3}$/`
abbrev pub is_unit_code : Text → Bool
is_unit_code s = all (λ c. is_upper c || is_digit c) s && (length s == 2 || length s == 3)
