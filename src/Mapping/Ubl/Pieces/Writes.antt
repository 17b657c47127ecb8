-- ===== src/Mapping/Ubl/Pieces/Writes.antt =====
-- apps/web/modules/mapping/ubl.ts: texts that are whole elements, one behind the other or one in another,
-- and results that are such texts.
use compliance_data_layer.Base.{
  ◌≡◌, refl, sym, ap, ◌∙◌, subst, Bool, true, false, List, [], ◌∷◌, ◌++◌, append-nil, concat,
  Option, none, some, Result, ok,
}
use mathlib.Core.List as Lists
use compliance_data_layer.Base.Texts.{Text, codes, text_eq_refl}
use compliance_data_layer.Mapping.Ubl.{UblError, escape_xml, el, has_any, present, try_present}
use compliance_data_layer.Mapping.Ubl.Tree.{leaf, node, optional}
use compliance_data_layer.Mapping.Ubl.Xml.{
  Element, Elements, element, nil, cons, append, append_assoc, Frame, opened, with_children, closed,
  Place, content, start_tag, end_tag, Reader, close_tag, run, run-append,
}
use compliance_data_layer.Mapping.Ubl.Xml as Xml
use compliance_data_layer.Mapping.Ubl.Escaping.{run-escape_xml}
use compliance_data_layer.Mapping.Ubl.Pieces.Tags.{
  is_name, is_name-all, run-Collects, starts, ends, ReadsAttributes, no_attributes,
}

-- The reader finds the elements in the text, and nothing more, wherever the text stands.
abbrev pub Writes : Text → Elements → Type 0
Writes s es =
    (f : Frame) (fs : List Frame) → run s (content, f ∷ fs) ≡ (content, with_children es f ∷ fs)

pub Writes-nil : Writes [] nil
unfolding run
Writes-nil f fs =
    ap (λ es. (content, record f { children = es } ∷ fs)) (sym (Xml.append-nil f.children))

pub Writes-append :
    (s t : Text) (es gs : Elements) → Writes s es → Writes t gs → Writes (s ++ t) (append es gs)
Writes-append s t es gs p q f fs =
    run-append s t (content, f ∷ fs)
    ∙ ap (run t) (p f fs)
    ∙ q (with_children es f) fs
    ∙ ap (λ hs. (content, record f { children = hs } ∷ fs)) (append_assoc f.children es gs)

-- A text with elements in its middle.
pub run-around :
    (before s after : Text) (es : Elements) (g : Frame) (gs : List Frame) (r r' : Reader)
    → Writes s es
    → run before r ≡ (content, g ∷ gs)
    → run after (content, with_children es g ∷ gs) ≡ r'
    → run (before ++ s ++ after) r ≡ r'
run-around before s after es g gs r r' p opens closes =
    run-append (before ++ s) after r
    ∙ ap (run after) (run-append before s r ∙ ap (run s) opens ∙ p g gs)
    ∙ closes

run-start :
    (name attribute_text : Text) (attributes : List (Text × Text)) (f : Frame) (fs : List Frame)
    → is_name name ≡ true
    → ReadsAttributes attribute_text attributes
    → run (codes "<" ++ name ++ attribute_text ++ codes ">") (content, f ∷ fs)
      ≡ (content, opened name attributes ∷ f ∷ fs)
unfolding run
run-start name attribute_text attributes f fs named reads =
    run-append (codes "<" ++ name ++ attribute_text) (codes ">") (content, f ∷ fs)
    ∙ ap (run (codes ">")) (
        run-append (codes "<" ++ name) attribute_text (content, f ∷ fs)
        ∙ ap (run attribute_text)
            (run-Collects start_tag name [] (f ∷ fs) starts (is_name-all name named)))
    ∙ reads name (f ∷ fs) named

run-end :
    (g f : Frame) (fs : List Frame)
    → is_name g.name ≡ true
    → run (codes ">") (run g.name (run (codes "</") (content, g ∷ f ∷ fs)))
      ≡ (content, with_children (closed g) f ∷ fs)
unfolding run
run-end g f fs named =
    ap (run (codes ">"))
      (run-Collects end_tag g.name [] (g ∷ f ∷ fs) ends (is_name-all g.name named))
    ∙ rw (text_eq_refl g.name) refl

-- `<name …>s</name>`
run-element :
    (name attribute_text s : Text) (attributes : List (Text × Text)) (g f : Frame) (fs : List Frame)
    → is_name name ≡ true
    → g.name ≡ name
    → ReadsAttributes attribute_text attributes
    → run s (content, opened name attributes ∷ f ∷ fs) ≡ (content, g ∷ f ∷ fs)
    → run
        (codes "<" ++ name ++ attribute_text ++ codes ">" ++ s ++ codes "</" ++ name ++ codes ">")
        (content, f ∷ fs)
      ≡ (content, with_children (closed g) f ∷ fs)
run-element name attribute_text s attributes g f fs named same reads inside =
    let start = codes "<" ++ name ++ attribute_text ++ codes ">" in
    run-append (start ++ s ++ codes "</" ++ name) (codes ">") (content, f ∷ fs)
    ∙ ap (run (codes ">")) (
        run-append (start ++ s ++ codes "</") name (content, f ∷ fs)
        ∙ ap (run name) (
            run-append (start ++ s) (codes "</") (content, f ∷ fs)
            ∙ ap (run (codes "</")) (
                run-append start s (content, f ∷ fs)
                ∙ ap (run s) (run-start name attribute_text attributes f fs named reads)
                ∙ inside)))
    ∙ subst
        (λ n.
          run (codes ">") (run n (run (codes "</") (content, g ∷ f ∷ fs)))
          ≡ (content, with_children (closed g) f ∷ fs))
        same (run-end g f fs (subst (λ n. is_name n ≡ true) (sym same) named))

pub el-Writes :
    (name value attribute_text : Text) (attributes : List (Text × Text))
    → is_name name ≡ true
    → ReadsAttributes attribute_text attributes
    → Writes (el name value attribute_text) (leaf name attributes value)
unfolding el
el-Writes name value attribute_text attributes named reads f fs =
    run-element name attribute_text (escape_xml value) attributes
      (record (opened name attributes) { content = value }) f fs named refl reads
      (run-escape_xml value (opened name attributes) (f ∷ fs))

pub node-Writes :
    (name attribute_text s : Text) (attributes : List (Text × Text)) (es : Elements)
    → is_name name ≡ true
    → ReadsAttributes attribute_text attributes
    → Writes s es
    → Writes
        (codes "<" ++ name ++ attribute_text ++ codes ">" ++ s ++ codes "</" ++ name ++ codes ">")
        (cons (element name attributes [] es) nil)
node-Writes name attribute_text s attributes es named reads inside f fs =
    run-element name attribute_text s attributes (with_children es (opened name attributes)) f fs
      named refl reads (inside (opened name attributes) (f ∷ fs))

pub plain_node-Writes :
    (name s : Text) (es : Elements)
    → is_name name ≡ true
    → Writes s es
    → Writes (codes "<" ++ name ++ codes ">" ++ s ++ codes "</" ++ name ++ codes ">") (node name es)
plain_node-Writes name s es named inside =
    subst (λ t. Writes (t ++ codes ">" ++ s ++ codes "</" ++ name ++ codes ">") (node name es))
      (append-nil (codes "<" ++ name)) (node-Writes name [] s [] es named no_attributes inside)

-- The same with tags that are written out.
pub tagged-Writes :
    (name before after s : Text) (es : Elements)
    → is_name name ≡ true
    → before ≡ codes "<" ++ name ++ codes ">"
    → after ≡ codes "</" ++ name ++ codes ">"
    → Writes s es
    → Writes (before ++ s ++ after) (node name es)
tagged-Writes name before after s es named p q inside =
    subst (λ t. Writes t (node name es))
      (Lists.append_assoc (codes "<" ++ name ++ codes ">" ++ s ++ codes "</") name (codes ">")
        ∙ Lists.append_assoc (codes "<" ++ name ++ codes ">" ++ s) (codes "</") (name ++ codes ">")
        ∙ ap (λ t. codes "<" ++ name ++ codes ">" ++ s ++ t) (sym q)
        ∙ ap (λ t. t ++ s ++ after) (sym p))
      (plain_node-Writes name s es named inside)

-- One text that is at least one element, and a list of such texts.
abbrev pub any_element : Elements → Bool
any_element nil = false
any_element (cons e es) = true

abbrev pub WritesOne : Text → Elements → Type 0
WritesOne s es = Writes s es × (any_element es ≡ true)

abbrev pub WritesAll : List Text → Elements → Type 0
WritesAll ss es = Writes (concat ss) es × (has_any ss ≡ any_element es)

pub WritesAll-nil : WritesAll [] nil
WritesAll-nil = (Writes-nil, refl)

any_element-append : (es gs : Elements) → any_element es ≡ true → any_element (append es gs) ≡ true
any_element-append nil gs h = cc
any_element-append (cons e es) gs h = refl

pub WritesAll-cons :
    (s : Text) (ss : List Text) (es gs : Elements)
    → WritesOne s es
    → WritesAll ss gs
    → WritesAll (s ∷ ss) (append es gs)
WritesAll-cons s ss es gs (p, some_element) (q, _) =
    (Writes-append s (concat ss) es gs p q, sym (any_element-append es gs some_element))

pub WritesAll-one : (s : Text) (es : Elements) → WritesOne s es → WritesAll (s ∷ []) es
WritesAll-one s es p =
    subst (WritesAll (s ∷ [])) (Xml.append-nil es) (WritesAll-cons s [] es nil p WritesAll-nil)

concat-append : (ss ts : List Text) → concat (ss ++ ts) ≡ concat ss ++ concat ts
concat-append [] ts = refl
concat-append (s ∷ ss) ts =
    ap (λ t. s ++ t) (concat-append ss ts) ∙ sym (Lists.append_assoc s (concat ss) (concat ts))

has_any-append :
    (ss ts : List Text) (es gs : Elements)
    → has_any ss ≡ any_element es
    → has_any ts ≡ any_element gs
    → has_any (ss ++ ts) ≡ any_element (append es gs)
has_any-append [] ts nil gs p q = q
has_any-append [] ts (cons e es) gs p q = cc
has_any-append (s ∷ ss) ts nil gs p q = cc
has_any-append (s ∷ ss) ts (cons e es) gs p q = refl

pub WritesAll-append :
    (ss ts : List Text) (es gs : Elements)
    → WritesAll ss es
    → WritesAll ts gs
    → WritesAll (ss ++ ts) (append es gs)
WritesAll-append ss ts es gs (p, e) (q, f) = (
  subst (λ t. Writes t (append es gs)) (sym (concat-append ss ts))
      (Writes-append (concat ss) (concat ts) es gs p q),
  has_any-append ss ts es gs e f,
)

-- A term that the document may not have.
pub WritesAll-present :
    {A : Type 0} (o : Option A) (f : A → Text) (g : A → Elements)
    → ((a : A) → WritesOne (f a) (g a))
    → WritesAll (present o f) (optional o g)
WritesAll-present none f g h = WritesAll-nil
WritesAll-present (some a) f g h = WritesAll-one (f a) (g a) (h a)

-- Results that come, and are such texts.
abbrev pub Gives : Result UblError Text → Elements → Type 0
Gives r es = (s : Text) × (r ≡ ok s) × WritesOne s es

abbrev pub GivesAll : Result UblError (List Text) → Elements → Type 0
GivesAll r es = (ss : List Text) × (r ≡ ok ss) × WritesAll ss es

pub GivesAll-try_present :
    {A : Type 0} (o : Option A) (f : A → Result UblError Text) (g : A → Elements)
    → ((a : A) → Gives (f a) (g a))
    → GivesAll (try_present o f) (optional o g)
GivesAll-try_present none f g h = ([], refl, WritesAll-nil)
GivesAll-try_present (some a) f g h =
    let (s, e, p) = h a in (s ∷ [], rw e refl, WritesAll-one s (g a) p)
