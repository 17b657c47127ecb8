-- ===== src/Ingestion/Shape/Tests.antt =====
-- apps/web/modules/ingestion/shape.ts on values.
use compliance_data_layer.Base.{◌≡◌, refl, none, some}
use compliance_data_layer.Base.Texts.{codes, text_eq}
use compliance_data_layer.Base.Texts.Decimals.{decimal}
use compliance_data_layer.Schema.{mixed, numeric}
use compliance_data_layer.Ingestion.Shape.{
  points, collect_runs, print_runs, classify, regex_class, enforce_no_echo, shape_of, value_shape,
}
use compliance_data_layer.Ingestion.Shape.Echo.{HasNoEcho, value_shape-HasNoEcho}

coded : value_shape (some (codes "AE-12345")) none ≡ record {
  len = some 8;
  charset = some mixed;
  regex_class = some (codes "[A-Z]{2}[^A-Za-z0-9]{1}[0-9]{5}");
  expected = none;
}
unfolding value_shape enforce_no_echo shape_of classify regex_class points collect_runs print_runs
    decimal text_eq
coded = refl

one_digit : value_shape (some (codes "1")) none ≡ record {
  len = none;
  charset = some numeric;
  regex_class = some (codes "[0-9]{1}");
  expected = none;
}
unfolding value_shape enforce_no_echo shape_of classify regex_class points collect_runs print_runs
    decimal text_eq
one_digit = refl

value_shape-HasNoEcho_example :
    HasNoEcho (codes "1") (value_shape (some (codes "1")) (some (codes "1")))
value_shape-HasNoEcho_example = value_shape-HasNoEcho (codes "1") (some (codes "1"))
