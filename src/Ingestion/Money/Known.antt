-- ===== src/Ingestion/Money/Known.antt =====
-- apps/web/modules/ingestion/money.ts: amounts in a currency of the table.
use compliance_data_layer.Base.{◌≡◌, refl, true, [], Option, none, some, is_some, ok, ok_or}
use compliance_data_layer.Base.Int.{ℤ}
use compliance_data_layer.Base.Texts.{Text, codes, text_eq}
use compliance_data_layer.Base.Texts.Chars.{to_upper}
use compliance_data_layer.Ingestion.Money.{
  minor_to_decimal, minor_unit_exponent, is_known_currency, exponent_in, minor_unit_exponent_table,
  unknown_currency, or_throw,
}

-- The decimal text of an amount in a known currency.
abbrev pub printed_in : Text → ℤ → Text
printed_in currency m = ok_or (minor_to_decimal m currency) []

or_throw-is_some :
    {E A : Type 0} (o : Option A) (e : E) → is_some o ≡ true → (a : A) × (or_throw o e ≡ ok a)
or_throw-is_some none e h = cc
or_throw-is_some (some a) e h = (a, refl)

pub minor_to_decimal-known :
    (currency : Text) (m : ℤ)
    → is_known_currency currency ≡ true
    → minor_to_decimal m currency ≡ ok (printed_in currency m)
unfolding minor_to_decimal minor_unit_exponent is_known_currency
minor_to_decimal-known currency m known =
    let (exponent, e) =
      or_throw-is_some (exponent_in (to_upper currency) minor_unit_exponent_table)
        (unknown_currency currency) known in
    rw e refl

pub dirham-known : is_known_currency (codes "AED") ≡ true
unfolding is_known_currency exponent_in to_upper text_eq
dirham-known = refl
