-- ===== src/Mapping/Ubl/Reading.antt =====
-- apps/web/modules/mapping/ubl.ts, toUbl: the text of a document, read back.
use compliance_data_layer.Base.{
  ◌≡◌, ◌≢◌, refl, sym, ap, ◌∙◌, subst, true, false, [], ◌∷◌, ◌++◌, concat, some, ok, Bool-cases,
  inl, inr,
}
use mathlib.Core.List as Lists
use compliance_data_layer.Base.Texts.{Text, codes, text_eq, is_empty}
use compliance_data_layer.Base.Texts.Strips.{trim}
use compliance_data_layer.Ingestion.Money.{is_known_currency}
use compliance_data_layer.Ingestion.Normalise.{CanonicalDoc}
use compliance_data_layer.Ingestion.Money.Known.{printed_in, minor_to_decimal-known}
use compliance_data_layer.Mapping.Ubl.{UblContext, tax_total, legal_monetary_total, is_credit_note}
use compliance_data_layer.Mapping.Ubl.Document.{
  to_ubl, leading_elements, missing_identifiers, root_name, prolog, namespaces,
}
use compliance_data_layer.Mapping.Ubl.Tree.{ubl_tree, tax_tree, totals_tree, root_attributes}
use compliance_data_layer.Mapping.Ubl.Xml.{
  Elements, element, nil, cons, Frame, opened, with_children, content, Reader, run, run-append,
  read, finished,
}
use compliance_data_layer.Mapping.Ubl.Pieces.Writes.{
  Writes, Writes-append, run-around, WritesAll-append, GivesAll-try_present,
}
use compliance_data_layer.Mapping.Ubl.Pieces.Amounts.{Prints, tax_total-Gives, two_amounts-GivesAll}
use compliance_data_layer.Mapping.Ubl.Pieces.Lines.{
  legal_monetary_total-WritesAll, lines_text-GivesAll, leading_elements-WritesAll,
}

-- What is open where a text begins, and behind the prolog.
abbrev beginning : Reader
beginning = (content, opened [] [] ∷ [])

abbrev behind_prolog : Frame
behind_prolog = record (opened [] []) { content = codes "\n" }

root-start :
    (doc : CanonicalDoc)
    → run
        (prolog ++ codes "<" ++ root_name doc ++ namespaces (root_name doc) ++ codes ">")
        beginning
      ≡ (content, opened (root_name doc) (root_attributes doc) ∷ behind_prolog ∷ [])
unfolding run text_eq
root-start doc = elim (Bool-cases (is_credit_note doc)) [ inl e ↦ rw e refl | inr e ↦ rw e refl ]

root-end :
    (doc : CanonicalDoc) (es : Elements)
    → finished (
        run (codes ">") (
          run (root_name doc) (
            run (codes "</") (
              content,
              with_children es (opened (root_name doc) (root_attributes doc)) ∷ behind_prolog ∷ [],
            ))))
      ≡ some (cons (element (root_name doc) (root_attributes doc) [] es) nil)
unfolding run text_eq
root-end doc es = elim (Bool-cases (is_credit_note doc)) [ inl e ↦ rw e refl | inr e ↦ rw e refl ]

-- The whole text around the elements in the root.
read-document :
    (doc : CanonicalDoc) (s : Text) (es : Elements)
    → Writes s es
    → read (
        prolog
        ++ codes "<"
        ++ root_name doc
        ++ namespaces (root_name doc)
        ++ codes ">"
        ++ s
        ++ codes "</"
        ++ root_name doc
        ++ codes ">")
      ≡ some (cons (element (root_name doc) (root_attributes doc) [] es) nil)
unfolding read
read-document doc s es p =
    let start = prolog ++ codes "<" ++ root_name doc ++ namespaces (root_name doc) ++ codes ">" in
    let root = opened (root_name doc) (root_attributes doc) in
    ap finished (
      run-append (start ++ s ++ codes "</" ++ root_name doc) (codes ">") beginning
      ∙ ap (run (codes ">")) (
          run-append (start ++ s ++ codes "</") (root_name doc) beginning
          ∙ ap (run (root_name doc)) (
              run-around start s (codes "</") es root (behind_prolog ∷ []) beginning _ p
                (root-start doc) refl)))
    ∙ root-end doc es

not_empty : (s : Text) → s ≢ [] → is_empty s ≡ false
not_empty [] h = absurd (h refl)
not_empty (c ∷ s) h = refl

given :
    (ctx : UblContext)
    → trim ctx.customization_id ≢ []
    → trim ctx.profile_id ≢ []
    → missing_identifiers ctx ≡ []
given ctx customized profiled =
    rw (not_empty (trim ctx.customization_id) customized)
      (rw (not_empty (trim ctx.profile_id) profiled) refl)

-- A document in a known currency, with both identifiers given, is written, and a reader that undoes the
-- references and matches every tag finds in the text exactly the elements of `ubl_tree`, with their texts
-- and attributes as the document has them; there an optional term has an element only where it is present.
pub to_ubl-read :
    (doc : CanonicalDoc) (ctx : UblContext)
    → is_known_currency doc.currency ≡ true
    → trim ctx.customization_id ≢ []
    → trim ctx.profile_id ≢ []
    → (s : Text) × (to_ubl doc ctx ≡ ok s)
      × (read s ≡ some (cons (ubl_tree (printed_in doc.currency) doc ctx) nil))
unfolding to_ubl ubl_tree
to_ubl-read doc ctx known customized profiled =
    let printed = printed_in doc.currency in
    let prints : Prints printed doc = λ m. minor_to_decimal-known doc.currency m known in
    let (tax, e₁, p₁) =
      GivesAll-try_present doc.tax_amount_minor (tax_total doc) (tax_tree printed doc)
        (λ m. tax_total-Gives printed doc m prints) in
    let (net, e₂, p₂) =
      two_amounts-GivesAll printed doc (codes "cbc:LineExtensionAmount")
        (codes "cbc:TaxExclusiveAmount") doc.line_extension_minor prints refl refl in
    let (gross, e₃, p₃) =
      two_amounts-GivesAll printed doc (codes "cbc:TaxInclusiveAmount") (codes "cbc:PayableAmount")
        doc.payable_minor prints refl refl in
    let (lines, e₄, p₄) = lines_text-GivesAll printed doc doc.lines prints in
    let totals = legal_monetary_total (net ++ gross) in
    let head =
      WritesAll-append (leading_elements doc ctx ++ tax) totals _ _
        (WritesAll-append (leading_elements doc ctx) tax _ _
          (leading_elements-WritesAll printed doc ctx) p₁)
        (legal_monetary_total-WritesAll (net ++ gross) (totals_tree printed doc)
          (WritesAll-append net gross _ _ p₂ p₃)) in
    let body = concat (leading_elements doc ctx ++ tax ++ totals) in
    let start = prolog ++ codes "<" ++ root_name doc ++ namespaces (root_name doc) ++ codes ">" in
    (
      start ++ body ++ concat lines ++ codes "</" ++ root_name doc ++ codes ">",
      rw (given ctx customized profiled) (rw e₁ (rw e₂ (rw e₃ (rw e₄ refl)))),
      subst
          (λ t.
            read (t ++ codes "</" ++ root_name doc ++ codes ">")
            ≡ some (cons (ubl_tree printed doc ctx) nil))
          (sym (Lists.append_assoc start body (concat lines)))
          (read-document doc (body ++ concat lines) _
            (Writes-append body (concat lines) _ _ head.0 p₄.0)),
    )
