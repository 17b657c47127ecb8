-- ===== src/Base/Objects.antt =====
-- Member access of a JavaScript object literal by a computed name: what the literal does not have is
-- looked for among the members that every object inherits.
use compliance_data_layer.Base.{List, [], ◌∷◌, any, if◌then◌else◌}
use compliance_data_layer.Base.Texts.{Text, codes, text_eq}

pub data Found {ℓ} (A : Type ℓ) : Type ℓ where
  own : A → Found A
  inherited : Found A
  missing : Found A

-- `Object.prototype`
abbrev pub inherited_names : List Text
inherited_names =
    codes "constructor"
    ∷ codes "__proto__"
    ∷ codes "hasOwnProperty"
    ∷ codes "isPrototypeOf"
    ∷ codes "propertyIsEnumerable"
    ∷ codes "toString"
    ∷ codes "toLocaleString"
    ∷ codes "valueOf"
    ∷ codes "__defineGetter__"
    ∷ codes "__defineSetter__"
    ∷ codes "__lookupGetter__"
    ∷ codes "__lookupSetter__"
    ∷ []

unfoldable pub member {ℓ} : {A : Type ℓ} → List (Text × A) → Text → Found A
member [] k = if any (λ n. text_eq n k) inherited_names then inherited else missing
member ((j, a) ∷ m) k = if text_eq j k then own a else member m k
