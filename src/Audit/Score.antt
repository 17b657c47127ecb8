-- ===== src/Audit/Score.antt =====
-- apps/web/modules/audit/score.ts: the readiness score. Doubles are a parameter: a record of the operations
-- that the code uses and of what it relies on.
pub mod Bounds
mod Tests
use compliance_data_layer.Base.{
  ℕ, ◌+◌, ◌≤◌, ◌≡◌, Bool, true, false, not, List, [], ◌∷◌, map, Result, ok, err, ◌>>=◌, ◌>>◌,
  throw_if, ltb, if◌then◌else◌,
}
use compliance_data_layer.Base.Int.{ℤ, pos, negsuc}

-- The laws are those of IEEE 754: `<` and `<=` agree on finite numbers, whole numbers up to 2^53 - 1 are
-- exact and finite, and operations are monotone as rounding is. A comparison with a NaN is false.
pub record Doubles : Type 1 where
  pub D : Type 0
  pub lt : D → D → Bool
  pub le : D → D → Bool
  pub is_finite : D → Bool
  pub of : ℕ → D
  pub add : D → D → D
  pub sub : D → D → D
  pub mul : D → D → D
  pub round : D → ℤ
  pub le_trans : (a b c : D) → le a b ≡ true → le b c ≡ true → le a c ≡ true
  pub lt_le : (a b : D) → lt a b ≡ true → le a b ≡ true
  pub not_lt : (a b : D) → is_finite a ≡ true → is_finite b ≡ true → lt a b ≡ false → le b a ≡ true
  pub lt_irrefl : (a : D) → lt a a ≡ false
  pub lt_trans : (a b c : D) → lt a b ≡ true → lt b c ≡ true → lt a c ≡ true
  pub of_finite : (n : ℕ) → n ≤ 9007199254740991 → is_finite (of n) ≡ true
  pub of_mono : (m n : ℕ) → m ≤ n → le (of m) (of n) ≡ true
  pub mul_unit :
      (w : ℕ) (r : D)
      → w ≤ 9007199254740991
      → le (of 0) r ≡ true
      → le r (of 1) ≡ true
      → (le (of 0) (mul (of w) r) ≡ true) × (le (mul (of w) r) (of w) ≡ true)
  pub add_mono :
      (a b c d : D)
      → le (of 0) a ≡ true
      → le (of 0) c ≡ true
      → le a b ≡ true
      → le c d ≡ true
      → le (add a c) (add b d) ≡ true
  pub add_of : (m n : ℕ) → m + n ≤ 9007199254740991 → add (of m) (of n) ≡ of (m + n)
  pub round_between :
      (x : D) (m n : ℕ)
      → n ≤ 9007199254740991
      → le (of m) x ≡ true
      → le x (of n) ≡ true
      → (k : ℕ) × (round x ≡ pos k) × (m ≤ k) × (k ≤ n)

pub data ScoreComponent : Type 0 where
  mandatory_field_coverage master_data_quality scenario_coverage rule_failure_rate : ScoreComponent
  lifecycle_readiness : ScoreComponent

-- `WEIGHTS`, and `Object.keys` of it
abbrev pub weight_of : ScoreComponent → ℕ
weight_of mandatory_field_coverage = 30
weight_of master_data_quality = 25
weight_of scenario_coverage = 20
weight_of rule_failure_rate = 15
weight_of lifecycle_readiness = 10

abbrev pub components : List ScoreComponent
components =
    mandatory_field_coverage ∷ master_data_quality ∷ scenario_coverage ∷ rule_failure_rate
    ∷ lifecycle_readiness ∷ []

pub data ReadinessBand : Type 0 where
  not_ready at_risk nearly_ready ready : ReadinessBand

pub data ScoreError : Type 0 where
  not_finite no_components : ScoreError

abbrev pub below : ℤ → ℕ → Bool
below (pos s) n = ltb s n
below (negsuc s) n = true

unfoldable pub band : ℤ → ReadinessBand
band score =
    if below score 40
    then not_ready
    else if below score 70
    then at_risk
    else if below score 90
    then nearly_ready
    else ready

module _ (f : Doubles) where
  abbrev pub Double : Type 0
  Double = f.D

  pub record ScoreContribution : Type 0 where
    pub component : ScoreComponent
    pub weight : Double
    pub ratio : Double
    pub points : Double

  pub record ReadinessScore : Type 0 where
    pub score : ℤ
    pub score_band : ReadinessBand
    pub contributions : List ScoreContribution
    pub largest_gap : ScoreComponent

  -- `Math.min(1, Math.max(0, value))`
  abbrev pub larger : Double → Double → Double
  larger a b = if f.lt a b then b else a

  abbrev pub smaller : Double → Double → Double
  smaller a b = if f.lt b a then b else a

  abbrev pub clamp_01 : Double → Result ScoreError Double
  clamp_01 value = do
    throw_if (not (f.is_finite value)) not_finite
    ok (smaller (f.of 1) (larger (f.of 0) value))

  abbrev pub contribution_of : ScoreComponent → Double → ScoreContribution
  contribution_of c ratio = record {
    component = c;
    weight = f.of (weight_of c);
    ratio = ratio;
    points = f.mul (f.of (weight_of c)) ratio;
  }

  unfoldable pub contributions_of :
      (ScoreComponent → Double) → List ScoreComponent → Result ScoreError (List ScoreContribution)
  contributions_of inputs [] = ok []
  contributions_of inputs (c ∷ cs) = do
    ratio ← clamp_01 (inputs c)
    rest ← contributions_of inputs cs
    ok (contribution_of c ratio ∷ rest)

  unfoldable pub sum_points : Double → List ScoreContribution → Double
  sum_points sum [] = sum
  sum_points sum (c ∷ cs) = sum_points (f.add sum c.points) cs

  abbrev pub gap : ScoreContribution → Double
  gap c = f.sub c.weight c.points

  unfoldable pub largest_of : ScoreContribution → List ScoreContribution → ScoreContribution
  largest_of best [] = best
  largest_of best (c ∷ cs) = largest_of (if f.lt (gap best) (gap c) then c else best) cs

  abbrev pub largest_or_throw : List ScoreContribution → Result ScoreError ScoreContribution
  largest_or_throw [] = err no_components
  largest_or_throw (c ∷ cs) = ok (largest_of c (c ∷ cs))

  unfoldable pub readiness_score : (ScoreComponent → Double) → Result ScoreError ReadinessScore
  unfolding contributions_of sum_points largest_of band
  readiness_score inputs = do
    contributions ← contributions_of inputs components
    let score = f.round (sum_points (f.of 0) contributions)
    largest ← largest_or_throw contributions
    ok (record {
      score = score;
      score_band = band score;
      contributions = contributions;
      largest_gap = largest.component;
    })
