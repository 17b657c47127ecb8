-- ===== src/Ingestion/Tabular/Kept.antt =====
-- apps/web/modules/ingestion/extractors/tabular.ts: what the loop over the rows keeps of the drafts.
use compliance_data_layer.Base.{
  ℕ, suc, ◌≡◌, ◌≢◌, ◌⊎◌, refl, sym, ap, subst, true, false, not, ◌&&◌, List, [], ◌∷◌, ◌++◌, map,
  length, Option, none, some, or_else, Bool-cases, inl, inr, arith, All, All-append, All-map,
  All-imp, Distinct,
}
use compliance_data_layer.Base.Texts.{Text, codes, text_eq, text_eq_refl}
use compliance_data_layer.Ingestion.Normalise.{CanonicalLine}
use compliance_data_layer.Ingestion.Tabular.{Cells, ColumnKey, read_row, is_iso_date, is_unit_code}
use compliance_data_layer.Ingestion.Tabular.Drafts.{
  Draft, RowState, find_draft, push_line, cell, has_line_data, has_lines, line_of, usable_unit,
  add_line, new_draft, join_draft, identified, row_ref, add_row, add_rows,
}

-- A unit code that a line has is one of two or three capitals and digits.
abbrev pub HasUnit : Option Text → Type 0
HasUnit none = Unit
HasUnit (some unit) = is_unit_code unit ≡ true

abbrev pub IsLine : CanonicalLine → Type 0
IsLine l = HasUnit l.unit_code

usable_unit-HasUnit : (o : Option Text) → HasUnit (usable_unit o)
usable_unit-HasUnit none = tt
usable_unit-HasUnit (some unit) = elim (Bool-cases (is_unit_code unit)) [
  | inl e ↦ rw e e
  | inr e ↦ rw e tt
]

abbrev pub IsDated : Cells → Type 0
IsDated header =
    (date : Text) × (cell header (codes "issueDate") ≡ some date) × (is_iso_date date ≡ true)

-- A draft, but that it may still be without a line if it has the number.
abbrev IsStarted : Text → Draft → Type 0
IsStarted number d =
    IsDated d.header
    × All IsLine d.lines
    × ((text_eq d.number number ≡ true) ⊎ (has_lines d.lines ≡ true))

abbrev pub IsDraft : Draft → Type 0
IsDraft d = IsDated d.header × All IsLine d.lines × (has_lines d.lines ≡ true)

has_lines-snoc : (ls : List CanonicalLine) (l : CanonicalLine) → has_lines (ls ++ l ∷ []) ≡ true
has_lines-snoc [] l = refl
has_lines-snoc (k ∷ ls) l = refl

push_line-IsDraft :
    (number : Text) (line : CanonicalLine)
    → IsLine line
    → (d : Draft) → IsStarted number d
    → IsDraft (push_line number line d)
push_line-IsDraft number line usable d (dated, lines, inl same) =
    rw same
      (dated, All-append IsLine d.lines (line ∷ []) lines (usable, tt), has_lines-snoc d.lines line)
push_line-IsDraft number line usable d (dated, lines, inr full) =
    elim (Bool-cases (text_eq d.number number)) [
      | inl same ↦ rw same (
        dated,
        All-append IsLine d.lines (line ∷ []) lines (usable, tt),
        has_lines-snoc d.lines line,
      )
      | inr other ↦ rw other (dated, lines, full)
    ]

abbrev pub numbers : List Draft → List Text
numbers ds = map (λ (d : Draft). d.number) ds

numbers-push_line :
    (number : Text) (line : CanonicalLine) (ds : List Draft)
    → numbers (map (push_line number line) ds) ≡ numbers ds
numbers-push_line number line [] = refl
numbers-push_line number line (d ∷ ds) = ap (λ ks. d.number ∷ ks) (numbers-push_line number line ds)

Distinct-snoc :
    (ds : List Draft) (d : Draft)
    → find_draft d.number ds ≡ none
    → Distinct (numbers ds)
    → Distinct (numbers (ds ++ d ∷ []))
unfolding find_draft
Distinct-snoc [] d new distinct = (tt, tt)
Distinct-snoc (e ∷ ds) d new (different, distinct) = elim (Bool-cases (text_eq e.number d.number)) [
  | inl same ↦ absurd (cc (new, same))
  | inr other ↦ (
    further ds d e.number (not_same other) different,
    Distinct-snoc ds d (later other new) distinct,
  )
]
  where
    not_same : text_eq e.number d.number ≡ false → e.number ≢ d.number
    not_same other same = ground (arith, text_eq_refl e.number, ap (text_eq e.number) same)

    later :
        text_eq e.number d.number ≡ false
        → find_draft d.number (e ∷ ds) ≡ none
        → find_draft d.number ds ≡ none
    later other h = ground (arith)

    further :
        (ds : List Draft) (d : Draft) (k : Text)
        → k ≢ d.number
        → All (λ j. k ≢ j) (numbers ds)
        → All (λ j. k ≢ j) (numbers (ds ++ d ∷ []))
    further [] d k h a = (h, tt)
    further (e ∷ ds) d k h (p, a) = (p, further ds d k h a)

pub record IsKept (st : RowState) : Type 0 where
  pub distinct : Distinct (numbers st.drafts)
  pub drafts : All IsDraft st.drafts

started : (number : Text) (ds : List Draft) → All IsDraft ds → All (IsStarted number) ds
started number ds a =
    All-imp IsDraft (IsStarted number) (λ d (dated, lines, full). (dated, lines, inr full)) ds a

module _ (number_of : Text → ℕ) (default_currency : Text)
    (header_map : List (Text × ColumnKey)) where
  add_line-IsKept :
      (ref number : Text) (row : Cells) (currency : Text) (n : ℕ) (st : RowState)
      → Distinct (numbers st.drafts)
      → All (IsStarted number) st.drafts
      → IsKept (add_line number_of default_currency header_map ref number row currency n st)
  add_line-IsKept ref number row currency n st distinct drafts =
      let line = line_of number_of default_currency header_map row currency n in
      record {
        distinct = subst Distinct (sym (numbers-push_line number line st.drafts)) distinct;
        drafts =
            All-map (IsStarted number) IsDraft (push_line number line)
              (push_line-IsDraft number line
                (usable_unit-HasUnit (cell row (codes "lineUnitCode"))))
              st.drafts drafts;
      }

  join_draft-IsKept :
      (ref number : Text) (row : Cells) (currency : Text) (found : Option Draft) (st : RowState)
      → find_draft number st.drafts ≡ found
      → IsDated row
      → IsKept st
      → IsKept (join_draft number_of default_currency header_map ref number row currency found st)
  join_draft-IsKept ref number row currency none st new dated kept =
      let fresh = new_draft number_of default_currency header_map ref number row currency in
      add_line-IsKept ref number row currency 0 (record st { drafts = st.drafts ++ fresh ∷ [] })
        (Distinct-snoc st.drafts fresh new kept.distinct)
        (All-append (IsStarted number) st.drafts (fresh ∷ []) (started number st.drafts kept.drafts)
          ((dated, tt, inl (text_eq_refl number)), tt))
  join_draft-IsKept ref number row currency (some d) st old dated kept =
      elim (Bool-cases (text_eq d.currency currency)) [
        | inr differs ↦ rw differs (record { distinct = kept.distinct; drafts = kept.drafts })
        | inl same ↦ elim (Bool-cases (not (has_line_data row) && has_lines d.lines)) [
          | inl repeated ↦ rw same (rw repeated kept)
          | inr more ↦ rw same (
              rw more (
                add_line-IsKept ref number row currency (length d.lines) st kept.distinct
                  (started number st.drafts kept.drafts)))
        ]
      ]

  identified-IsKept :
      (ref : Text) (row : Cells) (number date : Option Text) (st : RowState)
      → cell row (codes "issueDate") ≡ date
      → IsKept st
      → IsKept (identified number_of default_currency header_map ref row number date st)
  identified-IsKept ref row none date st h kept = record {
    distinct = kept.distinct;
    drafts = kept.drafts;
  }
  identified-IsKept ref row (some number) none st h kept = record {
    distinct = kept.distinct;
    drafts = kept.drafts;
  }
  identified-IsKept ref row (some number) (some date) st h kept =
      elim (Bool-cases (is_iso_date date)) [
        | inl iso ↦ rw iso (
            join_draft-IsKept ref number row
              (or_else (cell row (codes "currency")) default_currency) (find_draft number st.drafts)
              st refl (date, h, iso) kept)
        | inr other ↦ rw other (record { distinct = kept.distinct; drafts = kept.drafts })
      ]

  add_row-IsKept :
      (index : ℕ) (raw : List (Text × Text)) (st : RowState)
      → IsKept st
      → IsKept (add_row number_of default_currency header_map index raw st)
  unfolding add_row
  add_row-IsKept index raw st kept =
      let row = read_row raw header_map in
      identified-IsKept (row_ref number_of default_currency header_map index) row
        (cell row (codes "invoiceNumber")) (cell row (codes "issueDate")) st refl kept

  pub add_rows-IsKept :
      (index : ℕ) (rows : List (List (Text × Text))) (st : RowState)
      → IsKept st
      → IsKept (add_rows number_of default_currency header_map index rows st)
  unfolding add_rows
  add_rows-IsKept index [] st kept = kept
  add_rows-IsKept index (raw ∷ rows) st kept =
      add_rows-IsKept (suc index) rows _ (add_row-IsKept index raw st kept)
