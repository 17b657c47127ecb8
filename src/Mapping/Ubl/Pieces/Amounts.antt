-- ===== src/Mapping/Ubl/Pieces/Amounts.antt =====
-- apps/web/modules/mapping/ubl.ts: the parts of a document that hold amounts, each with its elements.
use compliance_data_layer.Base.{
  ◌≡◌, refl, true, List, [], ◌∷◌, ◌++◌, concat, Option, none, some, ok,
}
use compliance_data_layer.Base.Int.{ℤ}
use compliance_data_layer.Base.Texts.{Text, codes}
use compliance_data_layer.Ingestion.Money.{minor_to_decimal}
use compliance_data_layer.Ingestion.Normalise.{CanonicalDoc}
use compliance_data_layer.Mapping.Ubl.{
  attribute, amount, of_first, tax_subtotal, tax_total, two_amounts,
}
use compliance_data_layer.Mapping.Ubl.Tree.{
  node, optional, unless_empty, money_tree, subtotal_tree, tax_tree, twice,
}
use compliance_data_layer.Mapping.Ubl.Xml.{Elements, nil, cons}
use compliance_data_layer.Mapping.Ubl.Pieces.Tags.{is_name, one_attribute}
use compliance_data_layer.Mapping.Ubl.Pieces.Writes.{
  Writes-append, el-Writes, tagged-Writes, WritesAll, WritesAll-nil, WritesAll-cons, WritesAll-one,
  Gives, GivesAll, GivesAll-try_present,
}
use compliance_data_layer.Mapping.Ubl.Pieces.Terms.{tax_category-Writes}

-- An element around what there is.
pub wrapped-Writes :
    (name before after : Text) (around : List Text → List Text) (ss : List Text) (es : Elements)
    → is_name name ≡ true
    → before ≡ codes "<" ++ name ++ codes ">"
    → after ≡ codes "</" ++ name ++ codes ">"
    → around [] ≡ []
    → ((t : Text) (ts : List Text) → around (t ∷ ts) ≡ (before ++ concat (t ∷ ts) ++ after) ∷ [])
    → WritesAll ss es
    → WritesAll (around ss) (unless_empty name es)
wrapped-Writes name before after around [] nil named p q empty full w = rw empty WritesAll-nil
wrapped-Writes name before after around [] (cons e es) named p q empty full (w, e') = cc
wrapped-Writes name before after around (t ∷ ts) nil named p q empty full (w, e') = cc
wrapped-Writes name before after around (t ∷ ts) (cons e es) named p q empty full (w, _) =
    rw (full t ts) (
      WritesAll-one _ (node name (cons e es))
        (tagged-Writes name before after (concat (t ∷ ts)) (cons e es) named p q w, refl))

module _ (printed : ℤ → Text) (doc : CanonicalDoc) where
  -- Every amount of the document can be printed.
  abbrev pub Prints : Type 0
  Prints = (minor : ℤ) → minor_to_decimal minor doc.currency ≡ ok (printed minor)

  pub amount-Gives :
      (name : Text) (minor : ℤ)
      → Prints
      → is_name name ≡ true
      → Gives (amount name minor doc.currency) (money_tree printed doc name minor)
  unfolding amount
  amount-Gives name minor prints named = (
    _,
    rw (prints minor) refl,
    (
      el-Writes name (printed minor) (attribute (codes "currencyID") doc.currency)
          ((codes "currencyID", doc.currency) ∷ []) named
          (one_attribute (codes "currencyID") doc.currency refl),
      refl,
    ),
  )

  tax_subtotal-Gives :
      (tax line_extension : ℤ)
      → Prints
      → Gives (tax_subtotal doc tax line_extension) (subtotal_tree printed doc tax line_extension)
  unfolding tax_subtotal
  tax_subtotal-Gives tax line_extension prints =
      let (taxable, e₁, (p₁, _)) =
        amount-Gives (codes "cbc:TaxableAmount") line_extension prints refl in
      let (due, e₂, (p₂, _)) = amount-Gives (codes "cbc:TaxAmount") tax prints refl in
      (
        _,
        rw e₁ (rw e₂ refl),
        (
          tagged-Writes (codes "cac:TaxSubtotal") (codes "<cac:TaxSubtotal>")
              (codes "</cac:TaxSubtotal>") _ _ refl refl refl
              (Writes-append _ _ _ _ (Writes-append taxable due _ _ p₁ p₂)
                (tax_category-Writes (codes "cac:TaxCategory")
                  (of_first (λ l. l.tax_category_code) doc.lines)
                  (of_first (λ l. l.tax_rate) doc.lines) refl).0),
          refl,
        ),
      )

  pub tax_total-Gives : (tax : ℤ) → Prints → Gives (tax_total doc tax) (tax_tree printed doc tax)
  unfolding tax_total
  tax_total-Gives tax prints =
      let (subtotal, e₁, (p₁, _)) =
        GivesAll-try_present doc.line_extension_minor (tax_subtotal doc tax)
          (subtotal_tree printed doc tax) (λ m. tax_subtotal-Gives tax m prints) in
      let (due, e₂, (p₂, _)) = amount-Gives (codes "cbc:TaxAmount") tax prints refl in
      (
        _,
        rw e₁ (rw e₂ refl),
        (
          tagged-Writes (codes "cac:TaxTotal") (codes "<cac:TaxTotal>") (codes "</cac:TaxTotal>") _
              _ refl refl refl (Writes-append due (concat subtotal) _ _ p₂ p₁),
          refl,
        ),
      )

  pub two_amounts-GivesAll :
      (first second : Text) (o : Option ℤ)
      → Prints
      → is_name first ≡ true
      → is_name second ≡ true
      → GivesAll
          (two_amounts first second doc.currency o)
          (optional o (twice printed doc first second))
  two_amounts-GivesAll first second none prints named₁ named₂ = ([], refl, WritesAll-nil)
  two_amounts-GivesAll first second (some minor) prints named₁ named₂ =
      let (a, e₁, p₁) = amount-Gives first minor prints named₁ in
      let (b, e₂, p₂) = amount-Gives second minor prints named₂ in
      (a ∷ b ∷ [], rw e₁ (rw e₂ refl), WritesAll-cons a (b ∷ []) _ _ p₁ (WritesAll-one b _ p₂))
