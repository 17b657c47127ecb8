-- ===== src/Ingestion/Tabular/Accounted.antt =====
-- apps/web/modules/ingestion/extractors/tabular.ts: where each row of a file is found in the result.
use compliance_data_layer.Base.{
  ℕ, ◌≡◌, ◌⊎◌, refl, ap, ◌∙◌, true, false, not, ◌&&◌, List, [], ◌∷◌, ◌++◌, append_assoc, length,
  Option, none, some, or_else, Bool-cases, inl, inr, arith, if◌then◌else◌,
}
use compliance_data_layer.Base.Texts.{Text, codes, text_eq, text_eq_sound}
use compliance_data_layer.Schema.{parse_error, currency_inconsistent}
use compliance_data_layer.Ingestion.Normalise.{CanonicalLine, ExtractionDefect}
use compliance_data_layer.Ingestion.Shape.{value_shape}
use compliance_data_layer.Ingestion.Tabular.{Cells, ColumnKey, is_iso_date}
use compliance_data_layer.Ingestion.Tabular.Drafts.{
  Draft, RowState, with_defect, defect, find_draft, push_line, cell, has_line_data, has_lines,
  line_of, add_line, new_draft, join_draft, identified,
}
use compliance_data_layer.Ingestion.Tabular.Growth.{
  mentioned, mentioned-append_left, mentioned_last, Grown-refl, push_line-Grown,
  find_draft-append_left, find_draft-new, find_draft-push_line, find_draft-number, Extends,
  Extends-refl, Extends-trans,
}

module _ (number_of : Text → ℕ) (default_currency : Text)
    (header_map : List (Text × ColumnKey)) where
  abbrev pub currency_of : Cells → Text
  currency_of row = or_else (cell row (codes "currency")) default_currency

  -- The line of a row stands among lines, at the place that gives it its number, or the row has no line.
  abbrev pub HasRow : Cells → List CanonicalLine → Type 0
  HasRow row lines =
      ((before : List CanonicalLine) × (after : List CanonicalLine) × (lines
          ≡ before
            ++ line_of number_of default_currency header_map row (currency_of row) (length before)
              ∷ after))
      ⊎ (has_line_data row ≡ false)

  HasRow-append :
      (row : Cells) (lines more lines' : List CanonicalLine)
      → lines' ≡ lines ++ more
      → HasRow row lines
      → HasRow row lines'
  HasRow-append row lines more lines' e (inl (before, after, f)) =
      inl (before, after ++ more, e ∙ ap (λ t. t ++ more) f ∙ append_assoc before _ more)
  HasRow-append row lines more lines' e (inr header) = inr header

  -- A row is named by a defect, or it is in the draft of its invoice number, in the currency of the row.
  abbrev pub Placed : Text → Cells → Option Text → RowState → Type 0
  Placed ref row number st =
      (mentioned ref st.defects ≡ true)
      ⊎ ((k : Text) × (d : Draft) × (number ≡ some k)
          × (find_draft k st.drafts ≡ some d)
          × (d.currency ≡ currency_of row)
          × HasRow row d.lines)

  pub Placed-Extends :
      (ref : Text) (row : Cells) (number : Option Text) (s t : RowState)
      → Extends s t
      → Placed ref row number s
      → Placed ref row number t
  Placed-Extends ref row number s t e (inl h) = inl (e.defects_kept ref h)
  Placed-Extends ref row number s t e (inr (k, d, there, found, same, has)) =
      let (d', found', grown) = e.drafts_kept k d found in
      inr (
        k,
        d',
        there,
        found',
        grown.same_currency ∙ same,
        HasRow-append row d.lines grown.more d'.lines grown.grown has,
      )

  -- One round: it extends the state, and places its row.
  abbrev pub Places : Text → Cells → Option Text → RowState → RowState → Type 0
  Places ref row number st st' = Extends st st' × Placed ref row number st'

  with_defect-Places :
      (d : ExtractionDefect) (row : Cells) (number : Option Text) (st : RowState)
      → Places d.source_ref row number st (with_defect d st)
  with_defect-Places d row number st = (
    record {
      defects_kept = λ ref h. mentioned-append_left ref st.defects (d ∷ []) h;
      drafts_kept = λ k e h. (e, h, Grown-refl e);
    },
    inl (mentioned_last d st.defects),
  )

  add_line-Places :
      (ref number : Text) (row : Cells) (d : Draft) (st : RowState)
      → find_draft number st.drafts ≡ some d
      → d.currency ≡ currency_of row
      → Places ref row (some number) st (
          add_line number_of default_currency header_map ref number row
            (currency_of row)
            (length d.lines)
            st)
  add_line-Places ref number row d st there same =
      let line =
        line_of number_of default_currency header_map row (currency_of row) (length d.lines) in
      let own = find_draft-number number st.drafts d there in
      (
        record {
          defects_kept = λ r h. mentioned-append_left r st.defects _ h;
          drafts_kept = λ k e h. (
            push_line number line e,
            find_draft-push_line k number line st.drafts e h,
            push_line-Grown number line e,
          );
        },
        inr (
          number,
          push_line number line d,
          refl,
          find_draft-push_line number number line st.drafts d there,
          same,
          inl (d.lines, [], ap (λ b. if b then d.lines ++ line ∷ [] else d.lines) own),
        ),
      )

  join_draft-Places :
      (ref number : Text) (row : Cells) (found : Option Draft) (st : RowState)
      → find_draft number st.drafts ≡ found
      → Places ref row (some number) st (
          join_draft number_of default_currency header_map ref number row
            (currency_of row)
            found
            st)
  join_draft-Places ref number row none st new =
      let fresh =
        new_draft number_of default_currency header_map ref number row (currency_of row) in
      let st' : RowState = record st { drafts = st.drafts ++ fresh ∷ [] } in
      let (extends, placed) =
        add_line-Places ref number row fresh st' (find_draft-new fresh st.drafts new) refl in
      (
        Extends-trans st st' _
            (record {
              defects_kept = λ r h. h;
              drafts_kept =
                  λ k e h. (e, find_draft-append_left k st.drafts (fresh ∷ []) e h, Grown-refl e);
            })
            extends,
        placed,
      )
  join_draft-Places ref number row (some d) st old =
      elim (Bool-cases (text_eq d.currency (currency_of row))) [
        | inr differs ↦ rw differs (
            with_defect-Places
              (defect currency_inconsistent ref (some (value_shape (some (currency_of row)) none)))
              row (some number) st)
        | inl same ↦ elim (Bool-cases (not (has_line_data row) && has_lines d.lines)) [
          | inl repeated ↦ rw same (
              rw repeated (
                Extends-refl st,
                inr (
                  number,
                  d,
                  refl,
                  old,
                  text_eq_sound d.currency (currency_of row) same,
                  inr (ground (arith, repeated)),
                ),
              ))
          | inr more ↦ rw same (
              rw more (
                add_line-Places ref number row d st old
                  (text_eq_sound d.currency (currency_of row) same)))
        ]
      ]

  pub identified-Places :
      (ref : Text) (row : Cells) (number date : Option Text) (st : RowState)
      → Places ref row number st
          (identified number_of default_currency header_map ref row number date st)
  identified-Places ref row none date st =
      with_defect-Places (defect parse_error ref none) row none st
  identified-Places ref row (some number) none st =
      with_defect-Places (defect parse_error ref none) row (some number) st
  identified-Places ref row (some number) (some date) st = elim (Bool-cases (is_iso_date date)) [
    | inl iso ↦ rw iso (join_draft-Places ref number row (find_draft number st.drafts) st refl)
    | inr other ↦ rw other (with_defect-Places (defect parse_error ref none) row (some number) st)
  ]
