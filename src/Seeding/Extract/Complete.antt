-- ===== src/Seeding/Extract/Complete.antt =====
-- packages/db/scripts/seed-rules.ts: the assertions of a file and the rules that are extracted from it.
use compliance_data_layer.Base.{
  ℕ, ◌+◌, ◌≡◌, ◌≢◌, refl, ap, subst, Bool, true, false, List, [], ◌∷◌, ◌++◌, Option, none, some,
  or_else, ok, ◌>>=◌, >>=-eq-ok, throw_if-eq-ok, ok_inj, length, length-append, if◌then◌else◌,
  arith, All, All-append,
}
use compliance_data_layer.Base.Texts.{Text, codes, one_of, is_empty}
use compliance_data_layer.Base.Texts.Strips.{trim}
use compliance_data_layer.Seeding.Extract.{
  Node, Nodes, element, text, nil, cons, ExtractedRule, no_id, unknown_flag, no_failure_class,
  unknown_failure_class, no_assert_text, attr, severities, failure_classes, text_of_all,
  is_assertion, next_context, or_throw, own_rule, non_empty, to_rule, walk, walk_node,
  extract_rules,
}

-- The assertions of a tree, wherever they stand.
mutual
  pub assertions_in : Node → ℕ
  assertions_in (text s) = 0
  assertions_in (element tag attributes children) =
      (if is_assertion tag then 1 else 0) + assertions children

  pub assertions : Nodes → ℕ
  assertions nil = 0
  assertions (cons node nodes) = assertions_in node + assertions nodes

-- What the corpus needs of a rule: a name, a text without white space around it, its hash, and its file.
pub record IsSeedable (sha256 : Text → Text) (source : Text) (r : ExtractedRule) : Type 0 where
  pub named : r.rule_id ≢ []
  pub worded : r.assert_text ≢ []
  pub hashed : r.canonical_text_hash ≡ codes "sha256:" ++ sha256 r.assert_text
  pub from : r.source ≡ source

pub or_throw-eq-ok :
    {E A : Type 0} (e : E) (o : Option A) {a : A} → or_throw e o ≡ ok a → o ≡ some a
or_throw-eq-ok e none h = cc
or_throw-eq-ok e (some a) h = ap some (ok_inj h)

non_empty-ne-nil : (o : Option Text) (s : Text) → non_empty o ≡ some s → s ≢ []
non_empty-ne-nil none s h = cc
non_empty-ne-nil (some []) s h = cc
non_empty-ne-nil (some (c ∷ t)) s h = λ e. cc

ne_nil : (s : Text) → is_empty s ≡ false → s ≢ []
ne_nil [] h = cc
ne_nil (c ∷ s) h = λ e. cc

attr-ne-nil :
    (attributes : List (Text × Text)) (name s : Text) → attr attributes name ≡ some s → s ≢ []
unfolding attr
attr-ne-nil attributes name s h = non_empty-ne-nil (one_of attributes name) s h

module _ (sha256 : Text → Text) (source : Text) where
  to_rule-IsSeedable :
      (attributes : List (Text × Text)) (children : Nodes) (context : Option Text)
      (r : ExtractedRule)
      → to_rule sha256 source attributes children context ≡ ok r
      → IsSeedable sha256 source r
  unfolding to_rule
  to_rule-IsSeedable attributes children context r h =
      let (rule_id, named, h₁) = >>=-eq-ok (or_throw no_id (attr attributes (codes "id"))) _ h in
      let (severity, flagged, h₂) =
        >>=-eq-ok
          (or_throw unknown_flag
            (one_of severities (or_else (attr attributes (codes "flag")) (codes "error"))))
          _ h₁ in
      let (class, classed, h₃) =
        >>=-eq-ok (or_throw no_failure_class (attr attributes (codes "failure-class"))) _ h₂ in
      let (failure_class, known, h₄) =
        >>=-eq-ok (or_throw unknown_failure_class (one_of failure_classes class)) _ h₃ in
      let (worded, h₅) =
        throw_if-eq-ok (is_empty (trim (text_of_all children))) no_assert_text _ h₄ in
      subst (IsSeedable sha256 source) (ok_inj h₅) (record {
        named = attr-ne-nil attributes (codes "id") rule_id (or_throw-eq-ok no_id _ named);
        worded = ne_nil _ worded;
        hashed = refl;
        from = refl;
      })

  -- The rules of a part of the tree, of which there are n.
  abbrev Collected : ℕ → List ExtractedRule → Type 0
  Collected n rs = (length rs ≡ n) × All (IsSeedable sha256 source) rs

  Collected-append :
      (m n : ℕ) (rs ss : List ExtractedRule)
      → Collected m rs
      → Collected n ss
      → Collected (m + n) (rs ++ ss)
  Collected-append m n rs ss (p, a) (q, b) =
      (omega (arith, length-append rs ss, p, q), All-append (IsSeedable sha256 source) rs ss a b)

  own_rule-Collected :
      (tag : Text) (attributes : List (Text × Text)) (children : Nodes) (context : Option Text)
      (rs : List ExtractedRule)
      → own_rule sha256 source tag attributes children context ≡ ok rs
      → Collected (if is_assertion tag then 1 else 0) rs
  own_rule-Collected tag attributes children context rs h = own (is_assertion tag) h
    where
      own :
          (b : Bool)
          → (if b
              then (do r ← to_rule sha256 source attributes children context; ok (r ∷ []))
              else ok [])
            ≡ ok rs
          → Collected (if b then 1 else 0) rs
      own false k = subst (Collected 0) (ok_inj k) (refl, tt)
      own true k =
          let (r, made, k₁) = >>=-eq-ok (to_rule sha256 source attributes children context) _ k in
          subst (Collected 1) (ok_inj k₁)
            (refl, (to_rule-IsSeedable attributes children context r made, tt))

  mutual
    unfolding walk_node assertions

    walk_node-Collected :
        (node : Node) (context : Option Text) (rs : List ExtractedRule)
        → walk_node sha256 source node context ≡ ok rs
        → Collected (assertions_in node) rs
    walk_node-Collected (text s) context rs h = subst (Collected 0) (ok_inj h) (refl, tt)
    walk_node-Collected (element tag attributes children) context rs h =
        let inside = next_context tag attributes context in
        let (own, at_node, h₁) =
          >>=-eq-ok (own_rule sha256 source tag attributes children inside) _ h in
        let (below, at_children, h₂) = >>=-eq-ok (walk sha256 source children inside) _ h₁ in
        subst (Collected _) (ok_inj h₂) (
          Collected-append _ _ own below
            (own_rule-Collected tag attributes children inside own at_node)
            (walk-Collected children inside below at_children))

    walk-Collected :
        (nodes : Nodes) (context : Option Text) (rs : List ExtractedRule)
        → walk sha256 source nodes context ≡ ok rs
        → Collected (assertions nodes) rs
    walk-Collected nil context rs h = subst (Collected 0) (ok_inj h) (refl, tt)
    walk-Collected (cons node nodes) context rs h =
        let (first, at_node, h₁) = >>=-eq-ok (walk_node sha256 source node context) _ h in
        let (rest, at_nodes, h₂) = >>=-eq-ok (walk sha256 source nodes context) _ h₁ in
        subst (Collected _) (ok_inj h₂) (
          Collected-append _ _ first rest (walk_node-Collected node context first at_node)
            (walk-Collected nodes context rest at_nodes))

-- A file that is extracted gives one rule for every `assert` and `report` in it, at whatever depth, and
-- each of them is named, has a text, carries the hash of that text, and names the file.
pub extract_rules_complete :
    (sha256 : Text → Text) (source : Text) (nodes : Nodes) (rs : List ExtractedRule)
    → extract_rules sha256 source nodes ≡ ok rs
    → (length rs ≡ assertions nodes) × All (IsSeedable sha256 source) rs
extract_rules_complete sha256 source nodes rs h = walk-Collected sha256 source nodes none rs h
