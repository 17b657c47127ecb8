-- ===== src/Audit/Coverage.antt =====
-- apps/web/modules/audit/coverage.ts: declared and observed scenarios. The table is an object literal that
-- is read by a computed name, so that a name that every object inherits is declared as what it finds there.
-- The quotient is a pair of numbers.
pub mod Full
mod Tests
use compliance_data_layer.Base.{
  ℕ, ◌-◌, Bool, true, false, not, List, [], ◌∷◌, any, filter, length, ◌==◌, if◌then◌else◌,
}
use compliance_data_layer.Base.Objects.{Found, own, inherited, missing, member}
use compliance_data_layer.Base.Texts.{Text, codes, text_eq}
use compliance_data_layer.Schema.{
  Scenario, scenario_text, standard, zero_rated, exempt, reverse_charge, designated_zone, export,
}

abbrev pub profile_key_to_scenario : List (Text × Scenario)
profile_key_to_scenario =
    (codes "standard", standard)
    ∷ (codes "zeroRated", zero_rated)
    ∷ (codes "exempt", exempt)
    ∷ (codes "reverseCharge", reverse_charge)
    ∷ (codes "designatedZone", designated_zone)
    ∷ (codes "export", export)
    ∷ []

pub data Declared : Type 0 where
  known : Scenario → Declared
  inherited_value : Text → Declared

pub record Ratio : Type 0 where
  pub numerator : ℕ
  pub denominator : ℕ

pub record ScenarioCoverage : Type 0 where
  pub declared : List Declared
  pub observed : List Scenario
  pub unobserved : List Declared
  pub undeclared : List Scenario
  pub ratio : Ratio

abbrev pub push_found : Found Scenario → Text → List Declared → List Declared
push_found (own s) key rest = known s ∷ rest
push_found inherited key rest = inherited_value key ∷ rest
push_found missing key rest = rest

-- The loop over `Object.entries(scenarioProfile)`
unfoldable pub declared_of : List (Text × Bool) → List Declared
declared_of [] = []
declared_of ((key, enabled) ∷ entries) =
    let rest = declared_of entries in
    if enabled then push_found (member profile_key_to_scenario key) key rest else rest

abbrev pub same_scenario : Scenario → Scenario → Bool
same_scenario s t = text_eq (scenario_text s) (scenario_text t)

-- `[...new Set(observedScenarios)]`: the first occurrences, in order.
unfoldable pub distinct : List Scenario → List Scenario
distinct [] = []
distinct (s ∷ ss) = s ∷ filter (λ t. not (same_scenario s t)) (distinct ss)

abbrev pub is_observed : List Scenario → Declared → Bool
is_observed observed (known s) = any (λ t. same_scenario t s) observed
is_observed observed (inherited_value key) = false

abbrev pub declares : Scenario → Declared → Bool
declares s (known t) = same_scenario t s
declares s (inherited_value key) = false

abbrev pub ratio_of : ℕ → ℕ → Ratio
ratio_of declared unobserved =
    if declared == 0
    then record { numerator = 0; denominator = 1 }
    else record { numerator = declared - unobserved; denominator = declared }

abbrev pub coverage_of : List Declared → List Scenario → ScenarioCoverage
coverage_of declared observed =
    let unobserved = filter (λ d. not (is_observed observed d)) declared in
    record {
      declared = declared;
      observed = observed;
      unobserved = unobserved;
      undeclared = filter (λ s. not (any (declares s) declared)) observed;
      ratio = ratio_of (length declared) (length unobserved);
    }

unfoldable pub scenario_coverage : List (Text × Bool) → List Scenario → ScenarioCoverage
unfolding declared_of distinct
scenario_coverage profile observed = coverage_of (declared_of profile) (distinct observed)
