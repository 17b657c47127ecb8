-- ===== src/Seeding/Extract.antt =====
-- packages/db/scripts/seed-rules.ts, extractRules: the assertions of one Schematron file. The parser of
-- XML is a package: a file is the list of nodes that it returns, and the hash is a parameter.
pub mod Complete
mod Tests
use compliance_data_layer.Base.{
  ℕ, ◌≡◌, Bool, true, false, not, ◌||◌, List, [], ◌∷◌, ◌++◌, Option, none, some, or_else, or_option,
  Result, ok, err, ◌>>=◌, ◌>>◌, throw_if, if◌then◌else◌,
}
use compliance_data_layer.Base.Texts.{Text, codes, text_eq, one_of, is_empty}
use compliance_data_layer.Base.Texts.Strips.{trim}
use compliance_data_layer.Schema.{
  Severity, fatal, error, warning, FailureClass, missing_mandatory, invalid_code, format_mismatch,
  arithmetic_mismatch, identifier_invalid, cardinality, cross_field_dependency, encoding,
  date_logic, rounding,
}

-- `OrderedNode`: an element with its tag, attributes and children, or a text. Namespace prefixes are off.
mutual
  pub data Node : Type 0 where
    element : Text → List (Text × Text) → Nodes → Node
    text : Text → Node

  pub data Nodes : Type 0 where
    nil : Nodes
    cons : Node → Nodes → Nodes

pub record ExtractedRule : Type 0 where
  pub rule_id : Text
  pub native_rule_code : Text
  pub severity : Severity
  pub business_term : Option Text
  pub xpath_context : Option Text
  pub failure_class : FailureClass
  pub assert_text : Text
  pub canonical_text_hash : Text
  pub source : Text

pub data UnseedableRule : Type 0 where
  no_id unknown_flag no_failure_class unknown_failure_class no_assert_text : UnseedableRule

abbrev pub severities : List (Text × Severity)
severities = (codes "fatal", fatal) ∷ (codes "error", error) ∷ (codes "warning", warning) ∷ []

abbrev pub failure_classes : List (Text × FailureClass)
failure_classes =
    (codes "missing_mandatory", missing_mandatory)
    ∷ (codes "invalid_code", invalid_code)
    ∷ (codes "format_mismatch", format_mismatch)
    ∷ (codes "arithmetic_mismatch", arithmetic_mismatch)
    ∷ (codes "identifier_invalid", identifier_invalid)
    ∷ (codes "cardinality", cardinality)
    ∷ (codes "cross_field_dependency", cross_field_dependency)
    ∷ (codes "encoding", encoding)
    ∷ (codes "date_logic", date_logic)
    ∷ (codes "rounding", rounding)
    ∷ []

abbrev pub non_empty : Option Text → Option Text
non_empty none = none
non_empty (some []) = none
non_empty (some (c ∷ s)) = some (c ∷ s)

-- `attr`
unfoldable pub attr : List (Text × Text) → Text → Option Text
attr attributes name = non_empty (one_of attributes name)

abbrev pub or_throw {ℓ κ} : {E : Type ℓ} {A : Type κ} → E → Option A → Result E A
or_throw e none = err e
or_throw e (some a) = ok a

unfoldable mutual
  -- `textOf`
  pub text_of : Node → Text
  text_of (element tag attributes children) = text_of_all children
  text_of (text s) = s

  pub text_of_all : Nodes → Text
  text_of_all nil = []
  text_of_all (cons node nodes) = text_of node ++ text_of_all nodes

abbrev pub is_assertion : Text → Bool
is_assertion tag = text_eq tag (codes "assert") || text_eq tag (codes "report")

abbrev pub next_context : Text → List (Text × Text) → Option Text → Option Text
next_context tag attributes context =
    if text_eq tag (codes "rule")
    then or_option (attr attributes (codes "context")) context
    else context

module _ (sha256 : Text → Text) (source : Text) where
  -- `toRule`
  unfoldable pub to_rule :
      List (Text × Text) → Nodes → Option Text → Result UnseedableRule ExtractedRule
  unfolding attr text_of
  to_rule attributes children context = do
    rule_id ← or_throw no_id (attr attributes (codes "id"))
    severity ←
        or_throw unknown_flag
          (one_of severities (or_else (attr attributes (codes "flag")) (codes "error")))
    class ← or_throw no_failure_class (attr attributes (codes "failure-class"))
    failure_class ← or_throw unknown_failure_class (one_of failure_classes class)
    let assert_text = trim (text_of_all children)
    throw_if (is_empty assert_text) no_assert_text
    ok (record {
      rule_id = rule_id;
      native_rule_code = or_else (attr attributes (codes "native-code")) rule_id;
      severity = severity;
      business_term = attr attributes (codes "business-term");
      xpath_context = context;
      failure_class = failure_class;
      assert_text = assert_text;
      canonical_text_hash = codes "sha256:" ++ sha256 assert_text;
      source = source;
    })

  -- The rule of an element that is an assertion.
  abbrev pub own_rule :
      Text → List (Text × Text) → Nodes → Option Text → Result UnseedableRule (List ExtractedRule)
  own_rule tag attributes children context =
      if is_assertion tag then (do r ← to_rule attributes children context; ok (r ∷ [])) else ok []

  unfoldable mutual
    -- One round of the loop of `walk`, and the loop.
    pub walk_node : Node → Option Text → Result UnseedableRule (List ExtractedRule)
    walk_node (text s) context = ok []
    walk_node (element tag attributes children) context = do
      let inside = next_context tag attributes context
      own ← own_rule tag attributes children inside
      below ← walk children inside
      ok (own ++ below)

    pub walk : Nodes → Option Text → Result UnseedableRule (List ExtractedRule)
    walk nil context = ok []
    walk (cons node nodes) context = do
      first ← walk_node node context
      rest ← walk nodes context
      ok (first ++ rest)

  -- `extractRules` on a parsed file
  abbrev pub extract_rules : Nodes → Result UnseedableRule (List ExtractedRule)
  extract_rules nodes = walk nodes none
