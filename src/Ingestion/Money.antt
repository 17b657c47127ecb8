-- ===== src/Ingestion/Money.antt =====
-- apps/web/modules/ingestion/money.ts: decimal texts and minor units. A thrown error is `err`.
-- `Number(padded)` and `Number.isSafeInteger` are read as the exact number and its comparison with
-- 2^53 - 1: rounding takes no number past that bound below it.
pub mod Printing
pub mod Form
pub mod Exact
pub mod Known
mod Tests
use compliance_data_layer.Base.{
  ℕ, zero, suc, ◌+◌, ◌-◌, ◌≡◌, Bool, true, false, ◌&&◌, List, [], ◌∷◌, ◌++◌, Option, none, some,
  length, take, drop, all, is_some, or_else, Result, ok, err, ◌>>=◌, ◌>>◌, throw_if, ltb, ◌==◌,
  if◌then◌else◌,
}
use compliance_data_layer.Base.Int.{ℤ, pos, neg, abs, is_neg}
use compliance_data_layer.Base.Texts.{Text, codes, text_eq}
use compliance_data_layer.Base.Texts.Chars.{is_digit, to_upper}
use compliance_data_layer.Base.Texts.Strips.{span, strip_end, remove, trim, pad_start, pad_end}
use compliance_data_layer.Base.Texts.Decimals.{decimal, value}

abbrev pub minor_unit_exponent_table : List (Text × ℕ)
minor_unit_exponent_table =
    (codes "AED", 2)
    ∷ (codes "BHD", 3)
    ∷ (codes "EUR", 2)
    ∷ (codes "GBP", 2)
    ∷ (codes "INR", 2)
    ∷ (codes "OMR", 3)
    ∷ (codes "PLN", 2)
    ∷ (codes "SAR", 2)
    ∷ (codes "USD", 2)
    ∷ []

pub data Malformed : Type 0 where
  not_decimal too_many_digits unsafe_integer : Malformed

pub data MoneyError : Type 0 where
  unknown_currency : Text → MoneyError
  malformed_amount : Malformed → MoneyError

exponent_in : Text → List (Text × ℕ) → Option ℕ
exponent_in c [] = none
exponent_in c ((k, e) ∷ t) = if text_eq k c then some e else exponent_in c t

pub is_known_currency : Text → Bool
is_known_currency currency = is_some (exponent_in (to_upper currency) minor_unit_exponent_table)

abbrev pub or_throw {ℓ κ} : {E : Type ℓ} {A : Type κ} → Option A → E → Result E A
or_throw none e = err e
or_throw (some a) e = ok a

pub minor_unit_exponent : Text → Result MoneyError ℕ
minor_unit_exponent currency =
    or_throw (exponent_in (to_upper currency) minor_unit_exponent_table) (unknown_currency currency)

-- What the regular expression of `toMinor` captures.
pub record Parts : Type 0 where
  pub minus : Bool
  pub whole : Text
  pub fraction : Option Text

-- `([+-]?)`
abbrev pub take_sign : Text → Bool × Text
take_sign [] = (false, [])
take_sign (c ∷ s) =
    if c == b'-' then (true, s) else if c == b'+' then (false, s) else (false, c ∷ s)

-- `(?:\.(\d*))?$` behind the sign and the whole digits
abbrev pub take_fraction : Bool → Text → Text → Option Parts
take_fraction minus whole [] = some (record { minus = minus; whole = whole; fraction = none })
take_fraction minus whole (c ∷ s) =
    if c == b'.' && all is_digit s
    then some (record { minus = minus; whole = whole; fraction = some s })
    else none

-- The classes of neighbouring groups are disjoint, so the greedy match is the only one.
pub exec : Text → Option Parts
exec s =
    let (minus, rest) = take_sign s in
    let (whole, more) = span is_digit rest in take_fraction minus whole more

abbrev pub is_empty : Text → Bool
is_empty [] = true
is_empty (_ ∷ _) = false

abbrev pub max_safe : ℕ
max_safe = 9007199254740991

abbrev pub or_zero : Text → Text
or_zero [] = b'0' ∷ []
or_zero (c ∷ s) = c ∷ s

abbrev pub is_zero_digit : ℕ → Bool
is_zero_digit c = c == b'0'

-- `toMinor` below the match.
pub scale : ℕ → Parts → Result MoneyError ℤ
scale exponent p = do
  let fraction = or_else p.fraction []
  throw_if (is_empty p.whole && is_empty fraction) (malformed_amount not_decimal)
  throw_if (ltb exponent (length (strip_end is_zero_digit fraction)))
      (malformed_amount too_many_digits)
  let padded = or_zero (p.whole ++ take exponent (pad_end exponent b'0' fraction))
  throw_if (ltb max_safe (value padded)) (malformed_amount unsafe_integer)
  ok (if p.minus then neg (value padded) else pos (value padded))

pub to_minor : Text → Text → Result MoneyError ℤ
to_minor decimal_text currency = do
  exponent ← minor_unit_exponent currency
  let trimmed = remove (λ c. c == b',') (trim decimal_text)
  parts ← or_throw (exec trimmed) (malformed_amount not_decimal)
  scale exponent parts

pub data Attempt : Type 0 where
  minor : ℤ → Attempt
  failed_unknown_currency failed_malformed : Attempt

abbrev pub attempt : Result MoneyError ℤ → Attempt
attempt (ok m) = minor m
attempt (err (unknown_currency c)) = failed_unknown_currency
attempt (err (malformed_amount m)) = failed_malformed

pub try_to_minor : Option Text → Text → Attempt
try_to_minor none currency = failed_malformed
try_to_minor (some s) currency =
    if is_empty (trim s) then failed_malformed else attempt (to_minor s currency)

-- `slice(0, -e)`, the point and `slice(-e)`
abbrev pub with_point : ℕ → Text → Text
with_point e ds = take (length ds - e) ds ++ b'.' ∷ drop (length ds - e) ds

abbrev pub minus_sign : ℤ → Text
minus_sign m = if is_neg m then b'-' ∷ [] else []

pub minor_to_decimal : ℤ → Text → Result MoneyError Text
minor_to_decimal m currency = do
  exponent ← minor_unit_exponent currency
  let ds = pad_start (exponent + 1) b'0' (decimal (abs m))
  ok (if exponent == 0 then minus_sign m ++ ds else minus_sign m ++ with_point exponent ds)
