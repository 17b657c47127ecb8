-- ===== src/Ingestion/Money/Form.antt =====
-- apps/web/modules/ingestion/money.ts, toMinor: the texts that its pattern matches, and what it captures.
use compliance_data_layer.Base.{
  ◌≡◌, refl, sym, ap, ◌∙◌, subst, Bool, true, false, ◌&&◌, [], ◌∷◌, ◌++◌, Option, none, some,
  some_inj, all, or_else, ◌==◌, Bool-cases, inl, inr, arith,
}
use compliance_data_layer.Base.Texts.{Text}
use compliance_data_layer.Base.Texts.Chars.{is_digit}
use compliance_data_layer.Base.Texts.Strips.{span, span-split}
use compliance_data_layer.Ingestion.Money.{Parts, take_sign, take_fraction, exec}

-- The sign in front: a minus sign, a plus sign or nothing.
pub data IsSign : Bool → Text → Type 0 where
  a_minus : IsSign true (b'-' ∷ [])
  a_plus : IsSign false (b'+' ∷ [])
  unsigned : IsSign false []

abbrev pub point_text : Option Text → Text
point_text none = []
point_text (some digits) = b'.' ∷ digits

-- A text is a sign, digits and, where there is one, a point with digits: those of the parts.
pub record IsForm (s : Text) (p : Parts) : Type 0 where
  pub sign : Text
  pub has_sign : IsSign p.minus sign
  pub text : s ≡ sign ++ (p.whole ++ point_text p.fraction)
  pub whole_digits : all is_digit p.whole ≡ true
  pub fraction_digits : all is_digit (or_else p.fraction []) ≡ true

take_sign-IsSign :
    (s : Text) → (sign : Text) × IsSign (take_sign s).0 sign × (s ≡ sign ++ (take_sign s).1)
take_sign-IsSign [] = ([], unsigned, refl)
take_sign-IsSign (c ∷ s) = elim (Bool-cases (c == b'-')) [
  | inl minus ↦
      rw minus (b'-' ∷ [], a_minus, ap (λ d. d ∷ s) {x = c} {y = b'-'} (ground (arith, minus)))
  | inr other ↦ elim (Bool-cases (c == b'+')) [
    | inl plus ↦
        rw other
          (rw plus (b'+' ∷ [], a_plus, ap (λ d. d ∷ s) {x = c} {y = b'+'} (ground (arith, plus))))
    | inr none_there ↦ rw other (rw none_there ([], unsigned, refl))
  ]
]

record IsCaptured (minus : Bool) (whole more : Text) (p : Parts) : Type 0 where
  same_minus : minus ≡ p.minus
  same_whole : whole ≡ p.whole
  same_rest : more ≡ point_text p.fraction
  digits : all is_digit (or_else p.fraction []) ≡ true

take_fraction-IsCaptured :
    (minus : Bool) (whole more : Text) (p : Parts)
    → take_fraction minus whole more ≡ some p
    → IsCaptured minus whole more p
take_fraction-IsCaptured minus whole [] p h =
    subst (IsCaptured minus whole []) (some_inj h)
      (record { same_minus = refl; same_whole = refl; same_rest = refl; digits = refl })
take_fraction-IsCaptured minus whole (c ∷ s) p h = elim (Bool-cases (c == b'.' && all is_digit s)) [
  | inl pointed ↦ subst (IsCaptured minus whole (c ∷ s)) (some_inj (rw pointed at h)) (record {
    same_minus = refl;
    same_whole = refl;
    same_rest = ap (λ d. d ∷ s) {x = c} {y = b'.'} (ground (arith, pointed));
    digits = ground (arith, pointed);
  })
  | inr other ↦ absurd (cc (rw other at h))
]

pub exec-IsForm : (s : Text) (p : Parts) → exec s ≡ some p → IsForm s p
unfolding exec
exec-IsForm s p h =
    let (sign, signed, at_sign) = take_sign-IsSign s in
    let (joined, digits) = span-split is_digit (take_sign s).1 in
    let captured = take_fraction-IsCaptured _ _ _ p h in
    record {
      sign = sign;
      has_sign = subst (λ b. IsSign b sign) captured.same_minus signed;
      text =
          at_sign
          ∙ ap (λ t. sign ++ t)
              (sym joined
                ∙ ap (λ t. t ++ (span is_digit (take_sign s).1).1) captured.same_whole
                ∙ ap (λ t. p.whole ++ t) captured.same_rest);
      whole_digits = subst (λ t. all is_digit t ≡ true) captured.same_whole digits;
      fraction_digits = captured.digits;
    }
