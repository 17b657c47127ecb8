-- ===== src/Audit/Coverage/Tests.antt =====
-- apps/web/modules/audit/coverage.ts on a profile with one scenario that the sample does not show.
use compliance_data_layer.Base.{
  ◌≤◌, ◌≡◌, ◌↔◌, refl, Bool, true, false, List, [], ◌∷◌, filter, length,
}
use compliance_data_layer.Base.Objects.{member}
use compliance_data_layer.Base.Texts.{Text, codes, text_eq}
use compliance_data_layer.Schema.{Scenario, standard, export, exempt}
use compliance_data_layer.Audit.Coverage.{
  known, declared_of, distinct, is_observed, scenario_coverage,
}
use compliance_data_layer.Audit.Coverage.Full.{IsFull, scenario_coverage-ratio}

abbrev profile : List (Text × Bool)
profile =
    (codes "standard", true)
    ∷ (codes "export", true)
    ∷ (codes "exempt", false)
    ∷ (codes "selfBilled", true)
    ∷ []

abbrev sample : List Scenario
sample = standard ∷ exempt ∷ standard ∷ []

gap : (scenario_coverage profile sample).unobserved ≡ known export ∷ []
unfolding scenario_coverage declared_of distinct member text_eq
gap = refl

scenario_coverage-ratio_example :
    ((scenario_coverage profile sample).ratio.numerator
      ≡ length (filter (is_observed sample) (declared_of profile)))
    × ((scenario_coverage profile sample).ratio.numerator
        ≤ (scenario_coverage profile sample).ratio.denominator)
    × (((scenario_coverage profile sample).ratio.numerator
          ≡ (scenario_coverage profile sample).ratio.denominator)
        ↔ IsFull (declared_of profile) (scenario_coverage profile sample).unobserved)
scenario_coverage-ratio_example = scenario_coverage-ratio profile sample
