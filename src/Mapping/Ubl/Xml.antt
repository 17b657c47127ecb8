-- ===== src/Mapping/Ubl/Xml.antt =====
-- apps/web/modules/mapping/ubl.ts: XML elements, and a reader of the texts of the serialiser that runs
-- over their characters and keeps the elements that are open.
use compliance_data_layer.Base.{
  ℕ, ◌≡◌, refl, ap, List, [], ◌∷◌, ◌++◌, Option, none, some, ◌==◌, if◌then◌else◌,
}
use compliance_data_layer.Base.Texts.{Text, codes, one_of, text_eq}

-- An element: its name, its attributes, the text that stands in it and the elements in it.
mutual
  pub data Element : Type 0 where
    element : Text → List (Text × Text) → Text → Elements → Element

  pub data Elements : Type 0 where
    nil : Elements
    cons : Element → Elements → Elements

abbrev pub append : Elements → Elements → Elements
append nil fs = fs
append (cons e es) fs = cons e (append es fs)

pub append-nil : (es : Elements) → append es nil ≡ es
append-nil nil = refl
append-nil (cons e es) = ap (cons e) (append-nil es)

pub append_assoc : (es fs gs : Elements) → append (append es fs) gs ≡ append es (append fs gs)
append_assoc nil fs gs = refl
append_assoc (cons e es) fs gs = ap (cons e) (append_assoc es fs gs)

-- An element that is open, with what was read in it.
pub record Frame : Type 0 where
  pub name : Text
  pub attributes : List (Text × Text)
  pub content : Text
  pub children : Elements

abbrev pub opened : Text → List (Text × Text) → Frame
opened name attributes = record {
  name = name;
  attributes = attributes;
  content = [];
  children = nil;
}

abbrev pub with_text : ℕ → Frame → Frame
with_text c f = record f { content = f.content ++ c ∷ [] }

abbrev pub with_children : Elements → Frame → Frame
with_children es f = record f { children = append f.children es }

abbrev pub closed : Frame → Elements
closed f = cons (element f.name f.attributes f.content f.children) nil

-- Where the next character stands, with what was read of it.
pub data Place : Type 0 where
  content failed : Place
  reference : Text → Place
  start_tag end_tag : Text → Place
  attribute_name : Text → List (Text × Text) → Text → Place
  before_value : Text → List (Text × Text) → Text → Place
  attribute_value : Text → List (Text × Text) → Text → Text → Place
  value_reference : Text → List (Text × Text) → Text → Text → Text → Place
  after_value : Text → List (Text × Text) → Place

-- The place and the open elements, the innermost first.
abbrev pub Reader : Type 0
Reader = Place × List Frame

-- The entities of XML.
abbrev pub entities : List (Text × ℕ)
entities =
    (codes "amp", b'&')
    ∷ (codes "lt", b'<')
    ∷ (codes "gt", b'>')
    ∷ (codes "quot", b'"')
    ∷ (codes "apos", b'\'')
    ∷ []

abbrev pub add_text : Option ℕ → List Frame → Reader
add_text (some c) (f ∷ fs) = (content, with_text c f ∷ fs)
add_text _ fs = (failed, fs)

-- A start tag has ended: a processing instruction leaves no element open.
abbrev pub open_tag : Text → List (Text × Text) → List Frame → Reader
open_tag [] attributes fs = (failed, fs)
open_tag (c ∷ name) attributes fs =
    if c == b'?' then (content, fs) else (content, opened (c ∷ name) attributes ∷ fs)

-- An end tag must name the innermost open element.
abbrev pub close_tag : Text → List Frame → Reader
close_tag name (f ∷ g ∷ fs) =
    if text_eq name f.name then (content, with_children (closed f) g ∷ fs) else (failed, f ∷ g ∷ fs)
close_tag name fs = (failed, fs)

abbrev pub value_entity : Text → List (Text × Text) → Text → Text → Option ℕ → List Frame → Reader
value_entity name attributes a v (some c) fs = (attribute_value name attributes a (v ++ c ∷ []), fs)
value_entity name attributes a v none fs = (failed, fs)

abbrev pub step : ℕ → Place → List Frame → Reader
step c failed fs = (failed, fs)
step c content fs =
    if c == b'<'
    then (start_tag [], fs)
    else if c == b'&'
    then (reference [], fs)
    else add_text (some c) fs
step c (reference r) fs =
    if c == b';' then add_text (one_of entities r) fs else (reference (r ++ c ∷ []), fs)
step c (start_tag name) fs =
    if c == b'>'
    then open_tag name [] fs
    else if c == b' '
    then (attribute_name name [] [], fs)
    else if c == b'/'
    then (end_tag [], fs)
    else (start_tag (name ++ c ∷ []), fs)
step c (end_tag name) fs = if c == b'>' then close_tag name fs else (end_tag (name ++ c ∷ []), fs)
step c (attribute_name name attributes a) fs =
    if c == b'='
    then (before_value name attributes a, fs)
    else (attribute_name name attributes (a ++ c ∷ []), fs)
step c (before_value name attributes a) fs =
    if c == b'"' then (attribute_value name attributes a [], fs) else (failed, fs)
step c (attribute_value name attributes a v) fs =
    if c == b'"'
    then (after_value name (attributes ++ (a, v) ∷ []), fs)
    else if c == b'&'
    then (value_reference name attributes a v [], fs)
    else if c == b'<'
    then (failed, fs)
    else (attribute_value name attributes a (v ++ c ∷ []), fs)
step c (value_reference name attributes a v r) fs =
    if c == b';'
    then value_entity name attributes a v (one_of entities r) fs
    else (value_reference name attributes a v (r ++ c ∷ []), fs)
step c (after_value name attributes) fs =
    if c == b'>'
    then open_tag name attributes fs
    else if c == b' '
    then (attribute_name name attributes [], fs)
    else if c == b'?'
    then (after_value name attributes, fs)
    else (failed, fs)

unfoldable pub run : Text → Reader → Reader
unfolding text_eq one_of
run [] r = r
run (c ∷ s) (place, fs) = run s (step c place fs)

pub run-append : (s t : Text) (r : Reader) → run (s ++ t) r ≡ run t (run s r)
unfolding run
run-append [] t r = refl
run-append (c ∷ s) t (place, fs) = run-append s t (step c place fs)

abbrev pub finished : Reader → Option Elements
finished (content, root ∷ []) = some root.children
finished _ = none

-- The elements of a text: every character is read, and every element that was opened is closed.
unfoldable pub read : Text → Option Elements
unfolding run
read s = finished (run s (content, opened [] [] ∷ []))
