-- ===== src/Corpus/Redaction.antt =====
-- apps/web/modules/corpus/assert-redacted.ts: the scan for raw values, over the JSON of the shape and
-- over the message.
pub mod Detects
mod Tests
use compliance_data_layer.Base.{
  ℕ, ◌+◌, ◌/◌, ◌%◌, ◌≡◌, Bool, true, false, ◌&&◌, ◌||◌, List, [], ◌∷◌, ◌++◌, Option, none, some,
  Result, ok, err, throw_if, any, or_else, ltb, leb, ◌==◌, if◌then◌else◌,
}
use compliance_data_layer.Base.Texts.{Text, codes}
use compliance_data_layer.Base.Texts.Chars.{between, is_digit, is_upper, is_word}
use compliance_data_layer.Base.Texts.Decimals.{decimal}
use compliance_data_layer.Schema.{ValueShape, charset_text}
use compliance_data_layer.Corpus.Patterns.{Piece, boundary, repeat, test}

-- `/\b\d{15}\b/`
abbrev pub trn_pattern : List Piece
trn_pattern = boundary ∷ repeat is_digit 15 (some 15) ∷ boundary ∷ []

abbrev is_upper_digit : ℕ → Bool
is_upper_digit c = is_upper c || is_digit c

-- `/[A-Z]{2}\d{2}[A-Z0-9]{11,30}/`
abbrev pub iban_pattern : List Piece
iban_pattern =
    repeat is_upper 2 (some 2)
    ∷ repeat is_digit 2 (some 2)
    ∷ repeat is_upper_digit 11 (some 30)
    ∷ []

abbrev is_local : ℕ → Bool
is_local c = is_word c || (c == b'.' || (c == b'+' || c == b'-'))

-- `/\b[\w.+-]+@[\w-]+\.[\w.]+\b/`
abbrev pub email_pattern : List Piece
email_pattern =
    boundary
    ∷ repeat is_local 1 none
    ∷ repeat (λ c. c == b'@') 1 (some 1)
    ∷ repeat (λ c. is_word c || c == b'-') 1 none
    ∷ repeat (λ c. c == b'.') 1 (some 1)
    ∷ repeat (λ c. is_word c || c == b'.') 1 none
    ∷ boundary
    ∷ []

abbrev pub raw_value_patterns : List (List Piece)
raw_value_patterns = trn_pattern ∷ iban_pattern ∷ email_pattern ∷ []

unfoldable pub scan : Text → Bool
scan probe = any (λ p. test p probe) raw_value_patterns

-- `JSON.stringify` of a string: quotes, backslashes and control characters are escaped, and so is a
-- surrogate that stands alone.
abbrev hex : ℕ → ℕ
hex n = if ltb n 10 then b'0' + n else 87 + n

abbrev unicode_escape : ℕ → Text
unicode_escape c =
    b'\\' ∷ b'u' ∷ hex (c / 4096 % 16) ∷ hex (c / 256 % 16) ∷ hex (c / 16 % 16) ∷ hex (c % 16) ∷ []

abbrev json_unit : ℕ → Text
json_unit c =
    if c == b'"'
    then codes "\\\""
    else if c == b'\\'
    then codes "\\\\"
    else if c == 8
    then codes "\\b"
    else if c == 9
    then codes "\\t"
    else if c == 10
    then codes "\\n"
    else if c == 12
    then codes "\\f"
    else if c == 13
    then codes "\\r"
    else if ltb c 32 || between 0xd800 0xdfff c
    then unicode_escape c
    else c ∷ []

json_chars : Text → Text
json_chars [] = []
json_chars (c ∷ []) = json_unit c
json_chars (c ∷ d ∷ s) =
    let pair = c ∷ d ∷ json_chars s in
    let single = json_unit c ++ json_chars (d ∷ s) in
    if between 0xd800 0xdbff c && between 0xdc00 0xdfff d then pair else single

unfoldable pub json_string : Text → Text
unfolding json_chars
json_string s = b'"' ∷ json_chars s ++ b'"' ∷ []

abbrev json_or_null {ℓ} : {A : Type ℓ} → (A → Text) → Option A → Text
json_or_null f none = codes "null"
json_or_null f (some a) = f a

-- `JSON.stringify(value_shape)`, the members in the order in which the shape is built.
unfoldable pub json_shape : ValueShape → Text
unfolding json_string
json_shape v =
    codes "{\"len\":"
    ++ json_or_null decimal v.len
    ++ codes ",\"charset\":"
    ++ json_or_null (λ c. json_string (charset_text c)) v.charset
    ++ codes ",\"regexClass\":"
    ++ json_or_null json_string v.regex_class
    ++ codes ",\"expected\":"
    ++ json_or_null json_string v.expected
    ++ codes "}"

pub data RedactionFailure : Type 0 where
  raw_value_detected : RedactionFailure

abbrev pub shape_probe : Option ValueShape → Text
shape_probe none = []
shape_probe (some v) = json_shape v

unfoldable pub assert_redacted :
    Option ValueShape → Option Text → Result RedactionFailure (Unit {0})
assert_redacted shape message =
    throw_if (scan (shape_probe shape) || scan (or_else message [])) raw_value_detected
