-- ===== src/Ingestion/Shape/Guarded.antt =====
-- apps/web/modules/ingestion/shape.ts: what enforceNoEcho leaves of the shapes of values with the same
-- structure.
use compliance_data_layer.Base.{◌≡◌, ◌⊎◌, Option, none, some}
use compliance_data_layer.Base.Texts.{Text}
use compliance_data_layer.Base.Texts.Decimals.{decimal}
use compliance_data_layer.Schema.{ValueShape, charset_text}
use compliance_data_layer.Ingestion.Shape.{id_text}

-- A field is kept, or it is left out and its text is the value.
abbrev pub IsKeptOrEcho : {A : Type 0} → (A → Text) → Text → Option A → Option A → Type 0
IsKeptOrEcho {A} text raw before after =
    (after ≡ before) ⊎ ((after ≡ none) × ((a : A) × (before ≡ some a) × (text a ≡ raw)))

pub record IsGuarded (shape : ValueShape) (raw : Text) (guarded : ValueShape) : Type 0 where
  pub len_kept : IsKeptOrEcho decimal raw shape.len guarded.len
  pub charset_kept : IsKeptOrEcho charset_text raw shape.charset guarded.charset
  pub regex_class_kept : IsKeptOrEcho id_text raw shape.regex_class guarded.regex_class
  pub expected_kept : IsKeptOrEcho id_text raw shape.expected guarded.expected
