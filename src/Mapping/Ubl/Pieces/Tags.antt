-- ===== src/Mapping/Ubl/Pieces/Tags.antt =====
-- apps/web/modules/mapping/ubl.ts: texts that are whole elements, one behind the other or one in another.
use compliance_data_layer.Base.{
  ℕ, ◌≡◌, sym, ap, ◌∙◌, Bool, true, false, not, ◌&&◌, ◌||◌, List, [], ◌∷◌, ◌++◌, append-nil, all,
  ◌==◌, arith,
}
use mathlib.Core.List as Lists
use mathlib.Core.Bool.{and-eq-true_iff}
use compliance_data_layer.Base.Texts.{Text, codes}
use compliance_data_layer.Mapping.Ubl.{escape_xml, attribute}
use compliance_data_layer.Mapping.Ubl.Xml.{
  Frame, opened, Place, content, start_tag, end_tag, attribute_name, Reader, step, open_tag, run,
  run-append,
}
use compliance_data_layer.Mapping.Ubl.Escaping.{run-escape_xml_value}

abbrev pub is_name_char : ℕ → Bool
is_name_char c = not (c == b'>' || c == b' ' || c == b'/' || c == b'=')

-- A name that a tag can have.
abbrev pub is_name : Text → Bool
is_name [] = false
is_name (c ∷ name) = not (c == b'?') && all is_name_char (c ∷ name)

-- The places in which the characters of a name are collected.
pub data Collects : (Text → Place) → Type 0 where
  starts : Collects start_tag
  ends : Collects end_tag
  attributes_of :
      (name : Text) (attributes : List (Text × Text)) → Collects (attribute_name name attributes)

step-Collects :
    (place : Text → Place) (c : ℕ) (read : Text) (fs : List Frame)
    → Collects place
    → is_name_char c ≡ true
    → step c (place read) fs ≡ (place (read ++ c ∷ []), fs)
step-Collects place c read fs starts h = ground arith
step-Collects place c read fs ends h = ground arith
step-Collects place c read fs (attributes_of name attributes) h = ground arith

pub run-Collects :
    (place : Text → Place) (name read : Text) (fs : List Frame)
    → Collects place
    → all is_name_char name ≡ true
    → run name (place read, fs) ≡ (place (read ++ name), fs)
unfolding run
run-Collects place [] read fs k h = ap (λ t. (place t, fs)) (sym (append-nil read))
run-Collects place (c ∷ name) read fs k h =
    let (here, later) = (and-eq-true_iff (is_name_char c) (all is_name_char name)).0 h in
    ap (run name) (step-Collects place c read fs k here)
    ∙ run-Collects place name (read ++ c ∷ []) fs k later
    ∙ ap (λ t. (place t, fs)) (Lists.append_assoc read (c ∷ []) name)

pub is_name-all : (name : Text) → is_name name ≡ true → all is_name_char name ≡ true
is_name-all [] h = cc
is_name-all (c ∷ name) h = ((and-eq-true_iff _ _).0 h).1

open_tag-is_name :
    (name : Text) (attributes : List (Text × Text)) (fs : List Frame)
    → is_name name ≡ true
    → open_tag name attributes fs ≡ (content, opened name attributes ∷ fs)
open_tag-is_name [] attributes fs h = cc
open_tag-is_name (c ∷ name) attributes fs h = ground arith

-- The text of the attributes of a start tag, up to its end.
abbrev pub ReadsAttributes : Text → List (Text × Text) → Type 0
ReadsAttributes s attributes =
    (name : Text) (fs : List Frame)
    → is_name name ≡ true
    → run (codes ">") (run s (start_tag name, fs)) ≡ (content, opened name attributes ∷ fs)

pub no_attributes : ReadsAttributes [] []
unfolding run
no_attributes name fs h = open_tag-is_name name [] fs h

pub one_attribute :
    (a v : Text) → all is_name_char a ≡ true → ReadsAttributes (attribute a v) ((a, v) ∷ [])
unfolding run
one_attribute a v named name fs h =
    let start : Reader = (attribute_name name [] [], fs) in
    ap (run (codes ">")) (
      run-append (codes " " ++ a ++ codes "=\"" ++ escape_xml v) (codes "\"") (start_tag name, fs)
      ∙ ap (run (codes "\"")) (
          run-append (codes " " ++ a ++ codes "=\"") (escape_xml v) (start_tag name, fs)
          ∙ ap (run (escape_xml v)) (
              run-append (codes " " ++ a) (codes "=\"") (start_tag name, fs)
              ∙ ap (run (codes "=\""))
                  (run-Collects (attribute_name name []) a [] fs (attributes_of name []) named))
          ∙ run-escape_xml_value v name [] a [] fs))
    ∙ open_tag-is_name name ((a, v) ∷ []) fs h
