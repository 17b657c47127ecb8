-- ===== src/Ingestion/Shape.antt =====
-- apps/web/modules/ingestion/shape.ts: the shape of a client's value, its length, charset and
-- signature.
pub mod Structure
pub mod Guarded
pub mod Echo
mod Tests
use compliance_data_layer.Base.{
  ℕ, ◌+◌, ◌-◌, ◌*◌, ◌≡◌, Bool, true, false, ◌&&◌, ◌||◌, List, [], ◌∷◌, ◌++◌, map, Option, none,
  some, length, all, concat, ltb, if◌then◌else◌,
}
use compliance_data_layer.Base.Texts.{Text, codes, text_eq}
use compliance_data_layer.Base.Texts.Chars.{between, is_digit, is_upper, is_lower, is_space}
use compliance_data_layer.Base.Texts.Decimals.{decimal}
use compliance_data_layer.Schema.{
  ValueShape, Charset, numeric, alpha, alnum, mixed, empty, charset_text,
}

abbrev pub max_runs : ℕ
max_runs = 32

abbrev pub is_letter : ℕ → Bool
is_letter c = is_upper c || is_lower c

abbrev pub is_letter_digit : ℕ → Bool
is_letter_digit c = is_letter c || is_digit c

unfoldable pub classify : Text → Charset
classify [] = empty
classify (c ∷ s) =
    if all is_digit (c ∷ s)
    then numeric
    else if all is_letter (c ∷ s)
    then alpha
    else if all is_letter_digit (c ∷ s)
    then alnum
    else mixed

pub data CharClass : Type 0 where
  digit_class upper_class lower_class space_class other_class : CharClass

abbrev pub class_text : CharClass → Text
class_text digit_class = codes "[0-9]"
class_text upper_class = codes "[A-Z]"
class_text lower_class = codes "[a-z]"
class_text space_class = codes "[\\s]"
class_text other_class = codes "[^A-Za-z0-9]"

abbrev pub char_class : ℕ → CharClass
char_class c =
    if is_digit c
    then digit_class
    else if is_upper c
    then upper_class
    else if is_lower c
    then lower_class
    else if is_space c
    then space_class
    else other_class

abbrev pub same_class : CharClass → CharClass → Bool
same_class a b = text_eq (class_text a) (class_text b)

-- `for (const char of value)`: a pair of surrogates is one code point.
unfoldable pub points : Text → List ℕ
points [] = []
points (c ∷ []) = c ∷ []
points (c ∷ d ∷ s) =
    let pair = (0x10000 + (c - 0xd800) * 0x400 + (d - 0xdc00)) ∷ points s in
    let single = c ∷ points (d ∷ s) in
    if between 0xd800 0xdbff c && between 0xdc00 0xdfff d then pair else single

abbrev pub Run : Type 0
Run = CharClass × ℕ

-- The runs with the last one first.
abbrev pub push_run : CharClass → List Run → List Run
push_run cls [] = (cls, 1) ∷ []
push_run cls ((last, n) ∷ runs) =
    if same_class last cls then (last, n + 1) ∷ runs else (cls, 1) ∷ (last, n) ∷ runs

-- The loop over the characters: `none` where there are more runs than `MAX_RUNS`.
unfoldable pub collect_runs : List ℕ → List Run → Option (List Run)
collect_runs [] runs = some runs
collect_runs (c ∷ cs) runs =
    let grown = push_run (char_class c) runs in
    let rest = collect_runs cs grown in if ltb max_runs (length grown) then none else rest

unfoldable pub print_runs : List Run → Text
print_runs [] = []
print_runs ((cls, n) ∷ runs) =
    print_runs runs ++ (class_text cls ++ codes "{" ++ decimal n ++ codes "}")

abbrev pub signature : ℕ → Option (List Run) → Text
signature len none = codes "[\\s\\S]{" ++ decimal len ++ codes "}"
signature len (some runs) = print_runs runs

unfoldable pub regex_class : Text → Option Text
unfolding points collect_runs print_runs
regex_class [] = none
regex_class (c ∷ s) = some (signature (length (c ∷ s)) (collect_runs (points (c ∷ s)) []))

-- `field === raw ? null : field`, with the text that a field compares as.
abbrev pub unless_equal {ℓ} : {A : Type ℓ} → (A → Text) → Text → Option A → Option A
unless_equal f raw none = none
unless_equal f raw (some a) = if text_eq (f a) raw then none else some a

abbrev pub id_text : Text → Text
id_text t = t

unfoldable pub enforce_no_echo : ValueShape → Text → ValueShape
enforce_no_echo shape raw = record {
  len = unless_equal decimal raw shape.len;
  charset = unless_equal charset_text raw shape.charset;
  regex_class = unless_equal id_text raw shape.regex_class;
  expected = unless_equal id_text raw shape.expected;
}

unfoldable pub shape_of : Text → Option Text → ValueShape
unfolding classify regex_class
shape_of raw expected = record {
  len = some (length raw);
  charset = some (classify raw);
  regex_class = regex_class raw;
  expected = expected;
}

unfoldable pub value_shape : Option Text → Option Text → ValueShape
unfolding enforce_no_echo shape_of
value_shape none expected = record {
  len = none;
  charset = none;
  regex_class = none;
  expected = expected;
}
value_shape (some raw) expected = enforce_no_echo (shape_of raw expected) raw
