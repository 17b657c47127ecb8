-- ===== src/Seeding/Extract/Tests.antt =====
-- A Schematron file with an assertion inside a rule, and another one deeper.
use compliance_data_layer.Base.{◌≡◌, refl, [], ◌∷◌, none, some, ok, err, length, All}
use compliance_data_layer.Base.Texts.{Text, codes, text_eq, one_of}
use compliance_data_layer.Base.Texts.Strips.{trim}
use compliance_data_layer.Schema.{fatal, missing_mandatory}
use compliance_data_layer.Seeding.Extract.{
  Nodes, element, text, nil, cons, ExtractedRule, no_id, extract_rules, walk, walk_node, to_rule,
}
use compliance_data_layer.Seeding.Extract.Complete.{assertions, IsSeedable, extract_rules_complete}

abbrev same : Text → Text
same s = s

abbrev pub schematron : Nodes
schematron =
    cons
      (element (codes "rule") ((codes "context", codes "Invoice") ∷ []) (
        cons
          (element (codes "assert")
            ((codes "id", codes "BR-06")
              ∷ (codes "flag", codes "fatal")
              ∷ (codes "failure-class", codes "missing_mandatory")
              ∷ [])
            (cons (text (codes " An Invoice shall have a "))
              (cons (text (codes "Seller name. ")) nil)))
          nil))
      nil

abbrev pub br_06 : ExtractedRule
br_06 = record {
  rule_id = codes "BR-06";
  native_rule_code = codes "BR-06";
  severity = fatal;
  business_term = none;
  xpath_context = some (codes "Invoice");
  failure_class = missing_mandatory;
  assert_text = codes "An Invoice shall have a Seller name.";
  canonical_text_hash = codes "sha256:An Invoice shall have a Seller name.";
  source = codes "en16931/EN.sch";
}

schematron-rules : extract_rules same (codes "en16931/EN.sch") schematron ≡ ok (br_06 ∷ [])
unfolding walk walk_node to_rule text_eq one_of trim
schematron-rules = refl

unnamed : extract_rules same [] (cons (element (codes "report") [] nil) nil) ≡ err no_id
unfolding walk walk_node to_rule text_eq one_of trim
unnamed = refl

extract_rules_complete_example :
    (length (br_06 ∷ []) ≡ assertions schematron)
    × All (IsSeedable same (codes "en16931/EN.sch")) (br_06 ∷ [])
extract_rules_complete_example =
    extract_rules_complete same (codes "en16931/EN.sch") schematron (br_06 ∷ []) schematron-rules
