-- ===== src/Mapping/Ubl/Escaping.antt =====
-- apps/web/modules/mapping/ubl.ts, escapeXml: what the reader makes of escaped text, and of tags.
use compliance_data_layer.Base.{
  ℕ, ◌≡◌, refl, sym, ap, ◌∙◌, subst, true, false, List, [], ◌∷◌, ◌++◌, append-nil, append_assoc,
  ◌==◌, ==_iff, if◌then◌else◌, Bool-cases, inl, inr,
}
use compliance_data_layer.Base.Texts.{Text, codes, text_eq, one_of}
use compliance_data_layer.Mapping.Ubl.{escape_xml}
use compliance_data_layer.Mapping.Ubl.Xml.{
  Frame, with_text, content, attribute_value, run, run-append,
}

-- What one character is written as.
abbrev pub escaped : ℕ → Text
escaped c =
    if c == b'&'
    then codes "&amp;"
    else if c == b'<'
    then codes "&lt;"
    else if c == b'>'
    then codes "&gt;"
    else if c == b'"'
    then codes "&quot;"
    else if c == b'\''
    then codes "&apos;"
    else c ∷ []

-- The five replacements in turn write each character once.
pub escape_xml-cons : (c : ℕ) (s : Text) → escape_xml (c ∷ s) ≡ escaped c ++ escape_xml s
unfolding escape_xml
escape_xml-cons c s = elim (Bool-cases (c == b'&')) [
  | inl e ↦ rw e refl
  | inr n₁ ↦ elim (Bool-cases (c == b'<')) [
    | inl e ↦ rw n₁ (rw e refl)
    | inr n₂ ↦ elim (Bool-cases (c == b'>')) [
      | inl e ↦ rw n₁ (rw n₂ (rw e refl))
      | inr n₃ ↦ elim (Bool-cases (c == b'"')) [
        | inl e ↦ rw n₁ (rw n₂ (rw n₃ (rw e refl)))
        | inr n₄ ↦ elim (Bool-cases (c == b'\'')) [
          | inl e ↦ rw n₁ (rw n₂ (rw n₃ (rw n₄ (rw e refl))))
          | inr n₅ ↦ rw n₁ (rw n₂ (rw n₃ (rw n₄ (rw n₅ refl))))
        ]
      ]
    ]
  ]
]

pub escape_xml-nil : escape_xml [] ≡ []
unfolding escape_xml
escape_xml-nil = refl

-- The characters that are written as themselves.
abbrev IsPlain : ℕ → Type 0
IsPlain c =
    ((c == b'&') ≡ false)
    × ((c == b'<') ≡ false)
    × ((c == b'>') ≡ false)
    × ((c == b'"') ≡ false)
    × ((c == b'\'') ≡ false)

by_character :
    (P : ℕ → Type 0)
    → P b'&'
    → P b'<'
    → P b'>'
    → P b'"'
    → P b'\''
    → ((c : ℕ) → IsPlain c → P c)
    → (c : ℕ) → P c
by_character P amp lt gt quot apos plain c = elim (Bool-cases (c == b'&')) [
  | inl e ↦ here b'&' e amp
  | inr n₁ ↦ elim (Bool-cases (c == b'<')) [
    | inl e ↦ here b'<' e lt
    | inr n₂ ↦ elim (Bool-cases (c == b'>')) [
      | inl e ↦ here b'>' e gt
      | inr n₃ ↦ elim (Bool-cases (c == b'"')) [
        | inl e ↦ here b'"' e quot
        | inr n₄ ↦ elim (Bool-cases (c == b'\'')) [
          | inl e ↦ here b'\'' e apos
          | inr n₅ ↦ plain c (n₁, n₂, n₃, n₄, n₅)
        ]
      ]
    ]
  ]
]
  where
    here : (d : ℕ) → (c == d) ≡ true → P d → P c
    here d e p = subst P (sym ((==_iff c d).0 e)) p

run-escaped :
    (f : Frame) (fs : List Frame) (c : ℕ)
    → run (escaped c) (content, f ∷ fs) ≡ (content, with_text c f ∷ fs)
unfolding run text_eq one_of
run-escaped f fs =
    by_character (λ c. run (escaped c) (content, f ∷ fs) ≡ (content, with_text c f ∷ fs)) refl refl
      refl refl refl
      (λ c (n₁, n₂, n₃, n₄, n₅). rw n₁ (rw n₂ (rw n₃ (rw n₄ (rw n₅ (rw n₁ (rw n₂ refl)))))))

run-escaped_value :
    (name : Text) (attributes : List (Text × Text)) (a v : Text) (fs : List Frame) (c : ℕ)
    → run (escaped c) (attribute_value name attributes a v, fs)
      ≡ (attribute_value name attributes a (v ++ c ∷ []), fs)
unfolding run text_eq one_of
run-escaped_value name attributes a v fs =
    by_character
      (λ c.
        run (escaped c) (attribute_value name attributes a v, fs)
        ≡ (attribute_value name attributes a (v ++ c ∷ []), fs))
      refl refl refl refl refl
      (λ c (n₁, n₂, n₃, n₄, n₅). rw n₁ (rw n₂ (rw n₃ (rw n₄ (rw n₅ (rw n₁ (rw n₂ (rw n₄ refl))))))))

-- Escaped text is read back as it was.
pub run-escape_xml :
    (s : Text) (f : Frame) (fs : List Frame)
    → run (escape_xml s) (content, f ∷ fs) ≡ (content, record f { content = f.content ++ s } ∷ fs)
unfolding run
run-escape_xml [] f fs =
    rw escape_xml-nil
      (ap (λ t. (content, record f { content = t } ∷ fs)) (sym (append-nil f.content)))
run-escape_xml (c ∷ s) f fs = rw (escape_xml-cons c s) (
    run-append (escaped c) (escape_xml s) (content, f ∷ fs)
    ∙ ap (run (escape_xml s)) (run-escaped f fs c)
    ∙ run-escape_xml s (with_text c f) fs
    ∙ ap (λ t. (content, record f { content = t } ∷ fs)) (append_assoc f.content (c ∷ []) s))

pub run-escape_xml_value :
    (s name : Text) (attributes : List (Text × Text)) (a v : Text) (fs : List Frame)
    → run (escape_xml s) (attribute_value name attributes a v, fs)
      ≡ (attribute_value name attributes a (v ++ s), fs)
unfolding run
run-escape_xml_value [] name attributes a v fs =
    rw escape_xml-nil (ap (λ t. (attribute_value name attributes a t, fs)) (sym (append-nil v)))
run-escape_xml_value (c ∷ s) name attributes a v fs = rw (escape_xml-cons c s) (
    run-append (escaped c) (escape_xml s) (attribute_value name attributes a v, fs)
    ∙ ap (run (escape_xml s)) (run-escaped_value name attributes a v fs c)
    ∙ run-escape_xml_value s name attributes a (v ++ c ∷ []) fs
    ∙ ap (λ t. (attribute_value name attributes a t, fs)) (append_assoc v (c ∷ []) s))
