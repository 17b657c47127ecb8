-- ===== src/Ingestion/Money/Tests.antt =====
-- apps/web/modules/ingestion/money.ts on amounts.
use compliance_data_layer.Base.{ℕ, ◌≡◌, ◌↔◌, refl, ok, err, some, ◌>>=◌, arith, false, ◌==◌}
use compliance_data_layer.Base.Int.{negsuc}
use compliance_data_layer.Base.Texts.{Text, codes, text_eq}
use compliance_data_layer.Base.Texts.Chars.{to_upper}
use compliance_data_layer.Base.Texts.Strips.{span, strip_end, remove, trim, pad_start, pad_end}
use compliance_data_layer.Base.Texts.Decimals.{decimal, value_from}
use compliance_data_layer.Ingestion.Money.{
  Parts, to_minor, minor_to_decimal, minor_unit_exponent, exponent_in, exec, scale,
  malformed_amount, too_many_digits, try_to_minor, failed_unknown_currency, is_known_currency,
  is_empty,
}
use compliance_data_layer.Ingestion.Money.Printing.{to_minor-minor_to_decimal}
use compliance_data_layer.Ingestion.Money.Form.{IsForm}
use compliance_data_layer.Ingestion.Money.Exact.{
  IsExact, to_minor-IsExact, try_to_minor-unknown_iff,
}

commas : to_minor (codes " -1,234.5 ") (codes "bhd") ≡ ok (negsuc 1234499)
unfolding to_minor minor_unit_exponent exponent_in exec scale to_upper text_eq trim remove span
    strip_end pad_end value_from
commas = refl

printed : minor_to_decimal (negsuc 6) (codes "AED") ≡ ok (codes "-0.07")
unfolding minor_to_decimal minor_unit_exponent exponent_in to_upper text_eq pad_start decimal
printed = refl

too_many : to_minor (codes "1.005") (codes "AED") ≡ err (malformed_amount too_many_digits)
unfolding to_minor minor_unit_exponent exponent_in exec scale to_upper text_eq trim remove span
    strip_end pad_end value_from
too_many = refl

dirham_exponent : minor_unit_exponent (codes "AED") ≡ ok 2
unfolding minor_unit_exponent exponent_in to_upper text_eq
dirham_exponent = refl

to_minor-minor_to_decimal_example :
    (minor_to_decimal (negsuc 6) (codes "AED") >>= λ t. to_minor t (codes "AED")) ≡ ok (negsuc 6)
to_minor-minor_to_decimal_example =
    to_minor-minor_to_decimal (negsuc 6) (codes "AED") 2 dirham_exponent (omega arith)

to_minor-IsExact_example :
    (e : ℕ) × (p : Parts) × (minor_unit_exponent (codes "bhd") ≡ ok e)
    × IsForm (remove (λ c. c == b',') (trim (codes " -1,234.5 "))) p
    × IsExact e p (negsuc 1234499)
to_minor-IsExact_example =
    to_minor-IsExact (codes " -1,234.5 ") (codes "bhd") (negsuc 1234499) commas

try_to_minor-unknown_iff_example :
    (try_to_minor (some (codes "12.00")) (codes "XYZ") ≡ failed_unknown_currency) ↔ (
      (is_known_currency (codes "XYZ") ≡ false)
      × ((s : Text) × (some (codes "12.00") ≡ some s) × (is_empty (trim s) ≡ false)))
try_to_minor-unknown_iff_example = try_to_minor-unknown_iff (some (codes "12.00")) (codes "XYZ")
