-- ===== src/Corpus/Recurrence.antt =====
-- apps/web/modules/corpus/recurrence.ts: the text that the recurrence key hashes, and the bucket of a
-- line count. The hash itself is a parameter.
pub mod Injective
mod Tests
use compliance_data_layer.Base.{
  ℕ, ◌≡◌, Bool, List, [], ◌∷◌, ◌++◌, Option, none, some, or_else, leb, if◌then◌else◌,
}
use compliance_data_layer.Base.Texts.{Text, codes}
use compliance_data_layer.Base.Texts.Decimals.{decimal}
use compliance_data_layer.Schema.{
  ValueShape, Charset, charset_text, LineCountBucket, one, two_to_five, six_to_twenty,
  up_to_hundred, over_hundred,
}

abbrev pub sep : ℕ
sep = 0x1f

-- `parts.join(sep)`
unfoldable pub join : List Text → Text
join [] = []
join (p ∷ []) = p
join (p ∷ q ∷ ps) = p ++ sep ∷ join (q ∷ ps)

abbrev pub text_or_empty {ℓ} : {A : Type ℓ} → (A → Text) → Option A → Text
text_or_empty f none = []
text_or_empty f (some a) = f a

abbrev pub shape_fields : ValueShape → List Text
shape_fields v =
    codes "shape"
    ∷ text_or_empty decimal v.len
    ∷ text_or_empty charset_text v.charset
    ∷ or_else v.regex_class []
    ∷ or_else v.expected []
    ∷ []

unfoldable pub canonicalise_shape : Option ValueShape → Text
unfolding join
canonicalise_shape none = codes "no-shape"
canonicalise_shape (some v) = join (shape_fields v)

unfoldable pub recurrence_text : Text → Option Text → Option Text → Option ValueShape → Text
unfolding join canonicalise_shape
recurrence_text entity_hash rule_id xpath shape =
    join (entity_hash ∷ or_else rule_id [] ∷ or_else xpath [] ∷ canonicalise_shape shape ∷ [])

unfoldable pub recurrence_key :
    (Text → Text) → Text → Option Text → Option Text → Option ValueShape → Text
recurrence_key sha256 entity_hash rule_id xpath shape =
    sha256 (recurrence_text entity_hash rule_id xpath shape)

unfoldable pub line_count_bucket : ℕ → LineCountBucket
line_count_bucket n =
    if leb n 1
    then one
    else if leb n 5
    then two_to_five
    else if leb n 20
    then six_to_twenty
    else if leb n 100
    then up_to_hundred
    else over_hundred
