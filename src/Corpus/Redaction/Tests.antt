-- ===== src/Corpus/Redaction/Tests.antt =====
-- apps/web/modules/corpus/assert-redacted.ts on payloads.
use compliance_data_layer.Base.{◌≡◌, refl, ◌++◌, none, some, ok, err, all→All}
use compliance_data_layer.Base.Texts.{codes}
use compliance_data_layer.Base.Texts.Chars.{is_digit}
use compliance_data_layer.Base.Texts.Decimals.{decimal}
use compliance_data_layer.Schema.{ValueShape, mixed}
use compliance_data_layer.Corpus.Patterns.{test, match_here}
use compliance_data_layer.Corpus.Redaction.{
  scan, assert_redacted, raw_value_detected, json_shape, json_string,
}
use compliance_data_layer.Corpus.Redaction.Detects.{assert_redacted-trn}

abbrev shape : ValueShape
shape = record { len = some 4; charset = some mixed; regex_class = none; expected = none }

clean : assert_redacted (some shape) (some (codes "too short")) ≡ ok tt
unfolding assert_redacted scan test match_here json_shape json_string decimal
clean = refl

email_refused : assert_redacted none (some (codes "mail a.b@c.ae")) ≡ err raw_value_detected
unfolding assert_redacted scan test match_here
email_refused = refl

assert_redacted-trn_example :
    assert_redacted none (some (codes "TRN " ++ (codes "100200300400500" ++ codes ".")))
    ≡ err raw_value_detected
assert_redacted-trn_example =
    assert_redacted-trn none (codes "TRN ") (codes "100200300400500") (codes ".") refl
      (all→All is_digit (codes "100200300400500") refl) refl refl
