-- ===== src/Corpus/Redaction/Detects.antt =====
-- apps/web/modules/corpus/assert-redacted.ts: the scan of a message with a tax number.
use compliance_data_layer.Base.{
  ℕ, suc, ◌≡◌, refl, true, false, ◌&&◌, [], ◌∷◌, ◌++◌, Option, none, some, err, arith, length,
  Bool-cases, inl, inr,
}
use mathlib.Core.Bool.{and-eq-true_iff}
use compliance_data_layer.Base.Texts.{Text}
use compliance_data_layer.Base.Texts.Chars.{is_digit}
use compliance_data_layer.Base.Texts.Decimals.{IsDigits}
use compliance_data_layer.Schema.{ValueShape}
use compliance_data_layer.Corpus.Patterns.{
  match_here, match_repeat_exact, last_of, first, word_at, is_boundary, test-append,
}
use compliance_data_layer.Corpus.Redaction.{
  trn_pattern, scan, assert_redacted, raw_value_detected, shape_probe,
}

last-IsDigits :
    (c : ℕ) (s : Text)
    → IsDigits (c ∷ s)
    → (prev : Option ℕ) → word_at (last_of prev (c ∷ s)) ≡ true
last-IsDigits c [] (p, _) prev = ground arith
last-IsDigits c (d ∷ s) (_, a) prev = last-IsDigits d s a (some c)

digit_boundary :
    (prev : Option ℕ) (s rest : Text) (n : ℕ)
    → length s ≡ suc n
    → IsDigits s
    → word_at prev ≡ false
    → is_boundary prev (s ++ rest) ≡ true
digit_boundary prev [] rest n len a h = absurd (omega arith)
digit_boundary prev (c ∷ s) rest n len (p, a) h = ground arith

end_boundary :
    (prev : Option ℕ) (s rest : Text) (n : ℕ)
    → length s ≡ suc n
    → IsDigits s
    → word_at (first rest) ≡ false
    → is_boundary (last_of prev s) rest ≡ true
end_boundary prev [] rest n len a h = absurd (omega arith)
end_boundary prev (c ∷ s) rest n len a h = rw (last-IsDigits c s a prev, h) refl

match-trn :
    (prev : Option ℕ) (trn post : Text)
    → length trn ≡ 15
    → IsDigits trn
    → word_at prev ≡ false
    → word_at (first post) ≡ false
    → match_here trn_pattern prev (trn ++ post) ≡ true
unfolding match_here
match-trn prev trn post len a before after =
    let opens = digit_boundary prev trn post 14 len a before in
    let closes = end_boundary prev trn post 14 len a after in
    let run =
      match_repeat_exact (λ p s. is_boundary p s && true) is_digit trn post 15 prev len a
        (rw closes refl) in
    (and-eq-true_iff _ _).1 (opens, run)

scan-trn :
    (pre trn post : Text)
    → length trn ≡ 15
    → IsDigits trn
    → word_at (last_of none pre) ≡ false
    → word_at (first post) ≡ false
    → scan (pre ++ (trn ++ post)) ≡ true
unfolding scan
scan-trn pre trn post len a before after = rw (
    test-append trn_pattern pre (trn ++ post)
      (match-trn (last_of none pre) trn post len a before after))

-- A message that holds fifteen digits with no word character on either side is refused, whatever
-- stands around them and whatever the shape is, a missing one included.
pub assert_redacted-trn :
    (shape : Option ValueShape) (pre trn post : Text)
    → length trn ≡ 15
    → IsDigits trn
    → word_at (last_of none pre) ≡ false
    → word_at (first post) ≡ false
    → assert_redacted shape (some (pre ++ (trn ++ post))) ≡ err raw_value_detected
unfolding assert_redacted
assert_redacted-trn shape pre trn post len a before after =
    let found = scan-trn pre trn post len a before after in
    elim (Bool-cases (scan (shape_probe shape))) [ inl e ↦ rw e refl | inr e ↦ rw (e, found) refl ]
