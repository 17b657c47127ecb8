-- ===== src/Ingestion/Shape/Echo.antt =====
-- apps/web/modules/ingestion/shape.ts: enforceNoEcho and the value itself.
use compliance_data_layer.Base.{◌≡◌, ◌≢◌, false, Option, none, some, Bool-cases, inl, inr}
use compliance_data_layer.Base.Texts.{Text, text_eq, text_eq_refl}
use compliance_data_layer.Base.Texts.Decimals.{decimal}
use compliance_data_layer.Schema.{ValueShape, charset_text}
use compliance_data_layer.Ingestion.Shape.{
  unless_equal, id_text, enforce_no_echo, shape_of, value_shape,
}

-- The field is absent, or its text is another one than the value.
abbrev pub Differs : {A : Type 0} → (A → Text) → Text → Option A → Type 0
Differs f raw none = Unit
Differs f raw (some a) = f a ≢ raw

unless_equal-Differs :
    {A : Type 0} (f : A → Text) (raw : Text) (field : Option A)
    → Differs f raw (unless_equal f raw field)
unless_equal-Differs f raw none = tt
unless_equal-Differs f raw (some a) = elim (Bool-cases (text_eq (f a) raw)) [
  | inl same ↦ rw same tt
  | inr other ↦ rw other (λ e. differs e other)
]
  where
    differs : f a ≡ raw → text_eq (f a) raw ≢ false
    differs e = rw (e, text_eq_refl raw) (λ h. cc)

pub record HasNoEcho (raw : Text) (shape : ValueShape) : Type 0 where
  pub len : Differs decimal raw shape.len
  pub charset : Differs charset_text raw shape.charset
  pub regex_class : Differs id_text raw shape.regex_class
  pub expected : Differs id_text raw shape.expected

-- Whatever the value and the expectation are, no field of the shape, written out as text, is the value.
pub value_shape-HasNoEcho :
    (raw : Text) (expected : Option Text) → HasNoEcho raw (value_shape (some raw) expected)
unfolding value_shape enforce_no_echo shape_of
value_shape-HasNoEcho raw expected = record {
  len = unless_equal-Differs decimal raw (shape_of raw expected).len;
  charset = unless_equal-Differs charset_text raw (shape_of raw expected).charset;
  regex_class = unless_equal-Differs id_text raw (shape_of raw expected).regex_class;
  expected = unless_equal-Differs id_text raw expected;
}
