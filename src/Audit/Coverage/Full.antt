-- ===== src/Audit/Coverage/Full.antt =====
-- apps/web/modules/audit/coverage.ts: the ratio, against the sample itself.
use compliance_data_layer.Base.{
  ℕ, ◌+◌, ◌≤◌, ◌≡◌, ◌≢◌, ◌↔◌, refl, sym, ap, ◌∙◌, Bool, false, not, ◌||◌, List, [], ◌∷◌, any,
  filter, length, Bool-cases, inl, inr, arith,
}
use compliance_data_layer.Base.Texts.{Text, text_eq, text_eq_iff}
use compliance_data_layer.Schema.{Scenario, scenario_text}
use compliance_data_layer.Audit.Coverage.{
  Declared, known, inherited_value, declared_of, same_scenario, distinct, is_observed, ratio_of,
  scenario_coverage,
}

any-without :
    (s t : Scenario) (ss : List Scenario)
    → same_scenario s t ≡ false
    → any (λ u. same_scenario u t) (filter (λ u. not (same_scenario s u)) ss)
      ≡ any (λ u. same_scenario u t) ss
any-without s t [] h = refl
any-without s t (u ∷ ss) h = elim (Bool-cases (same_scenario s u)) [
  | inl same ↦
      let apart : same_scenario u t ≡ false =
        ap (λ x. text_eq x (scenario_text t))
          (sym ((text_eq_iff (scenario_text s) (scenario_text u)).0 same))
        ∙ h in
      rw (same, apart) (any-without s t ss h)
  | inr other ↦ rw other (ap (λ b. same_scenario u t || b) (any-without s t ss h))
]

any-distinct :
    (t : Scenario) (ss : List Scenario)
    → any (λ u. same_scenario u t) (distinct ss) ≡ any (λ u. same_scenario u t) ss
unfolding distinct
any-distinct t [] = refl
any-distinct t (s ∷ ss) = elim (Bool-cases (same_scenario s t)) [
  | inl same ↦ rw same refl
  | inr other ↦ rw other (any-without s t (distinct ss) other ∙ any-distinct t ss)
]

is_observed-distinct :
    (ss : List Scenario) (d : Declared) → is_observed (distinct ss) d ≡ is_observed ss d
is_observed-distinct ss (known s) = any-distinct s ss
is_observed-distinct ss (inherited_value key) = refl

split-count :
    (ss : List Scenario) (ds : List Declared)
    → length (filter (is_observed ss) ds)
        + length (filter (λ d. not (is_observed (distinct ss) d)) ds)
      ≡ length ds
split-count ss [] = refl
split-count ss (d ∷ ds) = elim (Bool-cases (is_observed ss d)) [
  | inl seen ↦ rw (seen, is_observed-distinct ss d ∙ seen) (omega (arith, split-count ss ds))
  | inr unseen ↦ rw (unseen, is_observed-distinct ss d ∙ unseen) (omega (arith, split-count ss ds))
]

-- The ratio is full where all that is declared is observed, and something is declared.
abbrev pub IsFull : List Declared → List Declared → Type 0
IsFull ds unseen = (unseen ≡ []) × (ds ≢ [])

ratio_of-cases :
    (ds unseen : List Declared) (seen : ℕ)
    → seen + length unseen ≡ length ds
    → ((ratio_of (length ds) (length unseen)).numerator ≡ seen)
      × ((ratio_of (length ds) (length unseen)).numerator
          ≤ (ratio_of (length ds) (length unseen)).denominator)
      × (((ratio_of (length ds) (length unseen)).numerator
            ≡ (ratio_of (length ds) (length unseen)).denominator)
          ↔ IsFull ds unseen)
ratio_of-cases [] unseen seen h =
    (omega (arith, h), omega arith, (λ e. absurd (omega (arith, e)), λ (a, b). absurd (b refl)))
ratio_of-cases (d ∷ ds) [] seen h =
    (ground arith, ground arith, (λ e. (refl, λ e. cc), λ _. ground arith))
ratio_of-cases (d ∷ ds) (u ∷ unseen) seen h = (
  ground arith,
  ground arith,
  (λ e. absurd (ground arith), λ (a, b). absurd (let no : (u ∷ unseen) ≡ [] = a in cc)),
)

-- The numerator counts the declared scenarios that the sample itself shows, the ratio is at most one, and
-- it is one exactly where no declared scenario is unobserved and something is declared.
pub scenario_coverage-ratio :
    (profile : List (Text × Bool)) (observed : List Scenario)
    → ((scenario_coverage profile observed).ratio.numerator
        ≡ length (filter (is_observed observed) (declared_of profile)))
      × ((scenario_coverage profile observed).ratio.numerator
          ≤ (scenario_coverage profile observed).ratio.denominator)
      × (((scenario_coverage profile observed).ratio.numerator
            ≡ (scenario_coverage profile observed).ratio.denominator)
          ↔ IsFull (declared_of profile) (scenario_coverage profile observed).unobserved)
unfolding scenario_coverage
scenario_coverage-ratio profile observed =
    ratio_of-cases (declared_of profile) _
      (length (filter (is_observed observed) (declared_of profile)))
      (split-count observed (declared_of profile))
