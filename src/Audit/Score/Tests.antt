-- ===== src/Audit/Score/Tests.antt =====
-- readinessScore over whole numbers, which satisfy the laws, where every input but one is met.
use compliance_data_layer.Base.{
  ℕ, zero, suc, ◌+◌, ◌-◌, ◌*◌, ◌≤◌, ◌≡◌, refl, true, false, Result, ok, err, ltb, leb, leb→le,
  le→leb, arith,
}
use compliance_data_layer.Base.Int.{ℤ, pos}
use compliance_data_layer.Audit.Score.{
  Doubles, ScoreComponent, mandatory_field_coverage, master_data_quality, scenario_coverage,
  rule_failure_rate, lifecycle_readiness, ReadinessScore, ScoreContribution, nearly_ready,
  ScoreError, band, readiness_score,
}
use compliance_data_layer.Audit.Score.Bounds.{IsLargest, Among, readiness_score-bounds}

leb_trans : (a b c : ℕ) → leb a b ≡ true → leb b c ≡ true → leb a c ≡ true
leb_trans a b c p q = ground arith

ltb-leb : (a b : ℕ) → ltb a b ≡ true → leb a b ≡ true
ltb-leb a b h = ground arith

not_ltb : (a b : ℕ) → true ≡ true → true ≡ true → ltb a b ≡ false → leb b a ≡ true
not_ltb a b p q h = ground arith

ltb_irrefl : (a : ℕ) → ltb a a ≡ false
ltb_irrefl a = ground arith

ltb_trans : (a b c : ℕ) → ltb a b ≡ true → ltb b c ≡ true → ltb a c ≡ true
ltb_trans a b c p q = ground arith

mul_unit :
    (w r : ℕ)
    → w ≤ 9007199254740991
    → leb 0 r ≡ true
    → leb r 1 ≡ true
    → (leb 0 (w * r) ≡ true) × (leb (w * r) w ≡ true)
mul_unit w zero b p q = (ground arith, ground arith)
mul_unit w (suc zero) b p q = (ground arith, ground arith)
mul_unit w (suc (suc r)) b p q = ground arith

add_mono :
    (a b c d : ℕ)
    → leb 0 a ≡ true
    → leb 0 c ≡ true
    → leb a b ≡ true
    → leb c d ≡ true
    → leb (a + c) (b + d) ≡ true
add_mono a b c d p q r s = ground arith

round_between :
    (x m n : ℕ)
    → n ≤ 9007199254740991
    → leb m x ≡ true
    → leb x n ≡ true
    → (k : ℕ) × (pos x ≡ pos k) × (m ≤ k) × (k ≤ n)
round_between x m n s p q = (x, refl, leb→le m x p, leb→le x n q)

abbrev whole_numbers : Doubles
whole_numbers = record {
  D = ℕ;
  lt = ltb;
  le = leb;
  is_finite = λ n. true;
  of = λ n. n;
  add = λ m n. m + n;
  sub = λ m n. m - n;
  mul = λ m n. m * n;
  round = pos;
  le_trans = leb_trans;
  lt_le = ltb-leb;
  not_lt = not_ltb;
  lt_irrefl = ltb_irrefl;
  lt_trans = ltb_trans;
  of_finite = λ n h. refl;
  of_mono = le→leb;
  mul_unit = mul_unit;
  add_mono = add_mono;
  add_of = λ m n h. refl;
  round_between = round_between;
}

abbrev inputs : ScoreComponent → ℕ
inputs mandatory_field_coverage = 1
inputs master_data_quality = 1
inputs scenario_coverage = 0
inputs rule_failure_rate = 1
inputs lifecycle_readiness = 7

abbrev score_of : Result ScoreError (ReadinessScore whole_numbers) → ℤ
score_of (ok r) = r.score
score_of (err e) = pos 999

eighty : score_of (readiness_score whole_numbers inputs) ≡ pos 80
unfolding readiness_score
eighty = refl

eighty-band : band (pos 80) ≡ nearly_ready
unfolding band
eighty-band = refl

readiness_score-bounds_example :
    (r : ReadinessScore whole_numbers) × (readiness_score whole_numbers inputs ≡ ok r)
    × ((n : ℕ) × (r.score ≡ pos n) × (n ≤ 100) × (r.score_band ≡ band (pos n)))
    × ((best : ScoreContribution whole_numbers) × (best.component ≡ r.largest_gap)
        × Among whole_numbers best r.contributions
        × IsLargest whole_numbers best r.contributions)
readiness_score-bounds_example = readiness_score-bounds whole_numbers inputs (λ c. refl)
