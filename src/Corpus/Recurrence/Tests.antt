-- ===== src/Corpus/Recurrence/Tests.antt =====
-- apps/web/modules/corpus/recurrence.ts on one fact.
use compliance_data_layer.Base.{◌≡◌, arith, refl, [], none, some, or_else}
use compliance_data_layer.Base.Texts.{Text, codes}
use compliance_data_layer.Schema.{ValueShape, numeric}
use compliance_data_layer.Corpus.Recurrence.{recurrence_text, canonicalise_shape, join}
use compliance_data_layer.Corpus.Recurrence.Injective.{
  IsClean, SameShape, recurrence_text_injective,
}

abbrev shape : ValueShape
shape = record { len = some 14; charset = some numeric; regex_class = none; expected = none }

clean : IsClean (codes "e1") (some (codes "BR-01")) none (some shape)
clean = record {
  entity_clean = ground arith;
  rule_clean = ground arith;
  xpath_clean = tt;
  shape_clean = (tt, tt);
}

IsClean-unset : IsClean (codes "e1") (some (codes "BR-01")) (some []) (some shape)
IsClean-unset = record {
  entity_clean = ground arith;
  rule_clean = ground arith;
  xpath_clean = tt;
  shape_clean = (tt, tt);
}

same_text :
    recurrence_text (codes "e1") (some (codes "BR-01")) none (some shape)
    ≡ recurrence_text (codes "e1") (some (codes "BR-01")) (some []) (some shape)
unfolding recurrence_text canonicalise_shape join
same_text = refl

recurrence_text_injective_example :
    (codes "e1" ≡ codes "e1")
    × (codes "BR-01" ≡ codes "BR-01")
    × (or_else {A = Text} none [] ≡ or_else {A = Text} (some []) [])
    × SameShape (some shape) (some shape)
recurrence_text_injective_example =
    recurrence_text_injective (codes "e1") (codes "e1") (some (codes "BR-01"))
      (some (codes "BR-01")) none (some []) (some shape) (some shape) clean IsClean-unset same_text
