-- ===== src/Corpus/Recurrence/Injective.antt =====
-- apps/web/modules/corpus/recurrence.ts: the fields of a key and the separator between them.
use compliance_data_layer.Base.{
  ℕ, zero, suc, ◌≡◌, ◌≢◌, ◌∙◌, sym, ap, refl, List, [], ◌∷◌, ◌++◌, append-nil, append_assoc, Option,
  none, some, or_else, arith, All, ◌==◌, if◌then◌else◌,
}
use compliance_data_layer.Base.Texts.{Text, codes}
use compliance_data_layer.Base.Texts.Decimals.{
  decimal, decimal-ne-nil, value, value-decimal, IsDigits, decimal-IsDigits,
}
use compliance_data_layer.Schema.{
  ValueShape, Charset, charset_text, numeric, alpha, alnum, mixed, empty,
}
use compliance_data_layer.Corpus.Recurrence.{
  sep, join, shape_fields, recurrence_text, text_or_empty,
}

abbrev pub HasNoSep : Text → Type 0
HasNoSep = All (λ c. c ≢ sep)

-- The parts of a text between separators; the first part is read behind `cur`.
parts_from : Text → Text → List Text
parts_from cur [] = cur ∷ []
parts_from cur (c ∷ s) =
    let closed = cur ∷ parts_from [] s in
    let longer = parts_from (cur ++ c ∷ []) s in if c == sep then closed else longer

parts_from-append :
    (p cur rest : Text) → HasNoSep p → parts_from cur (p ++ rest) ≡ parts_from (cur ++ p) rest
unfolding parts_from
parts_from-append [] cur rest h = rw append-nil
parts_from-append (c ∷ p) cur rest (h, k) =
    ground (arith, parts_from-append p (cur ++ c ∷ []) rest k, append_assoc cur (c ∷ []) p)

parts_from-sep : (cur s : Text) → parts_from cur (sep ∷ s) ≡ cur ∷ parts_from [] s
unfolding parts_from
parts_from-sep cur s = refl

parts_from-nil : (cur : Text) → parts_from cur [] ≡ cur ∷ []
unfolding parts_from
parts_from-nil cur = refl

parts_from-join :
    (p : Text) (ps : List Text) → All HasNoSep (p ∷ ps) → parts_from [] (join (p ∷ ps)) ≡ p ∷ ps
unfolding join
parts_from-join p [] (h, _) =
    ap (parts_from []) (sym (append-nil p)) ∙ parts_from-append p [] [] h ∙ parts_from-nil p
parts_from-join p (q ∷ ps) (h, k) =
    parts_from-append p [] (sep ∷ join (q ∷ ps)) h
    ∙ parts_from-sep p (join (q ∷ ps))
    ∙ ap (λ t. p ∷ t) (parts_from-join q ps k)

abbrev shape_key : Option ValueShape → List Text
shape_key none = codes "no-shape" ∷ []
shape_key (some v) = shape_fields v

abbrev key_fields : Text → Option Text → Option Text → Option ValueShape → List Text
key_fields entity rule_id xpath shape =
    entity ∷ or_else rule_id [] ∷ or_else xpath [] ∷ shape_key shape

recurrence_text-join :
    (entity : Text) (rule_id xpath : Option Text) (shape : Option ValueShape)
    → recurrence_text entity rule_id xpath shape ≡ join (key_fields entity rule_id xpath shape)
unfolding recurrence_text
recurrence_text-join entity rule_id xpath none = refl
recurrence_text-join entity rule_id xpath (some v) = refl

-- No field of a fact holds the separator.
abbrev HasCleanShape : Option ValueShape → Type 0
HasCleanShape none = Unit
HasCleanShape (some v) = HasNoSep (or_else v.regex_class []) × HasNoSep (or_else v.expected [])

pub record IsClean (entity : Text) (rule_id xpath : Option Text) (shape : Option ValueShape)
    : Type 0 where
  pub entity_clean : HasNoSep entity
  pub rule_clean : HasNoSep (or_else rule_id [])
  pub xpath_clean : HasNoSep (or_else xpath [])
  pub shape_clean : HasCleanShape shape

-- Two shapes with equal fields, where an absent text and an empty one are not told apart.
abbrev pub SameShape : Option ValueShape → Option ValueShape → Type 0
SameShape none none = Unit
SameShape none (some w) = ⊥
SameShape (some v) none = ⊥
SameShape (some v) (some w) =
    (v.len ≡ w.len)
    × (v.charset ≡ w.charset)
    × (or_else v.regex_class [] ≡ or_else w.regex_class [])
    × (or_else v.expected [] ≡ or_else w.expected [])

digits-HasNoSep : (s : Text) → IsDigits s → HasNoSep s
digits-HasNoSep [] h = tt
digits-HasNoSep (c ∷ s) (h, k) = (ground arith, digits-HasNoSep s k)

len-HasNoSep : (len : Option ℕ) → HasNoSep (text_or_empty decimal len)
len-HasNoSep none = tt
len-HasNoSep (some n) = digits-HasNoSep _ (decimal-IsDigits n)

charset-HasNoSep : (c : Option Charset) → HasNoSep (text_or_empty charset_text c)
charset-HasNoSep none = tt
charset-HasNoSep (some numeric) = omega arith
charset-HasNoSep (some alpha) = omega arith
charset-HasNoSep (some alnum) = omega arith
charset-HasNoSep (some mixed) = omega arith
charset-HasNoSep (some empty) = omega arith

shape_key-HasNoSep :
    (shape : Option ValueShape) → HasCleanShape shape → All HasNoSep (shape_key shape)
shape_key-HasNoSep none h = omega arith
shape_key-HasNoSep (some v) (r, e) =
    (omega arith, (len-HasNoSep v.len, (charset-HasNoSep v.charset, (r, (e, tt)))))

len_injective : (a b : Option ℕ) → text_or_empty decimal a ≡ text_or_empty decimal b → a ≡ b
len_injective none none h = refl
len_injective none (some n) h = absurd (decimal-ne-nil n (sym h))
len_injective (some m) none h = absurd (decimal-ne-nil m h)
len_injective (some m) (some n) h = ap some (sym (value-decimal m) ∙ ap value h ∙ value-decimal n)

-- The spelling of a character set determines it.
abbrev charset_of : Text → Option Charset
charset_of [] = none
charset_of (a ∷ []) = none
charset_of (a ∷ b ∷ []) = none
charset_of (a ∷ b ∷ c ∷ s) =
    if c == b'm'
    then some numeric
    else if c == b'n'
    then some alnum
    else if c == b'x'
    then some mixed
    else if b == b'l'
    then some alpha
    else some empty

charset_of-text : (c : Option Charset) → charset_of (text_or_empty charset_text c) ≡ c
charset_of-text none = refl
charset_of-text (some numeric) = refl
charset_of-text (some alpha) = refl
charset_of-text (some alnum) = refl
charset_of-text (some mixed) = refl
charset_of-text (some empty) = refl

charset_injective :
    (a b : Option Charset) → text_or_empty charset_text a ≡ text_or_empty charset_text b → a ≡ b
charset_injective a b h = sym (charset_of-text a) ∙ ap charset_of h ∙ charset_of-text b

IsClean-fields :
    {e : Text} {r x : Option Text} {s : Option ValueShape}
    → IsClean e r x s
    → All HasNoSep (key_fields e r x s)
IsClean-fields {s} c =
    (c.entity_clean, (c.rule_clean, (c.xpath_clean, shape_key-HasNoSep s c.shape_clean)))

abbrev nth : ℕ → List Text → Text
nth n [] = []
nth zero (p ∷ ps) = p
nth (suc n) (p ∷ ps) = nth n ps

abbrev tail_of : List Text → List Text
tail_of [] = []
tail_of (p ∷ ps) = ps

shape_key-SameShape : (s t : Option ValueShape) → shape_key s ≡ shape_key t → SameShape s t
shape_key-SameShape none none h = tt
shape_key-SameShape none (some w) h = cc
shape_key-SameShape (some v) none h = cc
shape_key-SameShape (some v) (some w) h = (
  len_injective v.len w.len (ap (nth 1) h),
  charset_injective v.charset w.charset (ap (nth 2) h),
  ap (nth 3) h,
  ap (nth 4) h,
)

-- The text that is hashed determines the fact: two facts with the same text, neither of which has the
-- separator U+001F in a field, have the same entity, rule, path and shape, up to an absent and an empty
-- text.
pub recurrence_text_injective :
    (e e' : Text) (r r' x x' : Option Text) (s s' : Option ValueShape)
    → IsClean e r x s
    → IsClean e' r' x' s'
    → recurrence_text e r x s ≡ recurrence_text e' r' x' s'
    → (e ≡ e') × (or_else r [] ≡ or_else r' []) × (or_else x [] ≡ or_else x' []) × SameShape s s'
recurrence_text_injective e e' r r' x x' s s' c c' h =
    let fields : key_fields e r x s ≡ key_fields e' r' x' s' =
      sym (parts_from-join e _ (IsClean-fields c))
      ∙ ap (parts_from [])
          (sym (recurrence_text-join e r x s) ∙ h ∙ recurrence_text-join e' r' x' s')
      ∙ parts_from-join e' _ (IsClean-fields c') in
    (
      ap (nth 0) fields,
      ap (nth 1) fields,
      ap (nth 2) fields,
      shape_key-SameShape s s' (ap (λ l. tail_of (tail_of (tail_of l))) fields),
    )
