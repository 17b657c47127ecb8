-- ===== src/Audit/Score/Bounds.antt =====
-- apps/web/modules/audit/score.ts, readinessScore: the range of the score and the choice of the gap.
use compliance_data_layer.Base.{
  ℕ, ◌+◌, ◌≤◌, ◌≡◌, refl, sym, ap, subst, true, false, List, [], ◌∷◌, map, ok, if◌then◌else◌,
  Bool-cases, inl, inr, arith, All, All-imp, All-append, append-nil, append_assoc, ◌⊎◌, ◌++◌,
}
use compliance_data_layer.Base.Int.{pos}
use compliance_data_layer.Audit.Score.{
  Doubles, ScoreComponent, weight_of, mandatory_field_coverage, components, band, ScoreContribution,
  ReadinessScore, larger, smaller, clamp_01, contribution_of, contributions_of, sum_points, gap,
  largest_of, readiness_score,
}

module _ (f : Doubles) where
  abbrev Le : f.D → f.D → Type 0
  Le a b = f.le a b ≡ true

  -- A ratio that lies between 0 and 1.
  abbrev pub IsUnit : f.D → Type 0
  IsUnit r = Le (f.of 0) r × Le r (f.of 1)

  abbrev clamped : f.D → f.D
  clamped v = smaller f (f.of 1) (larger f (f.of 0) v)

  larger-finite : (v : f.D) → f.is_finite v ≡ true → f.is_finite (larger f (f.of 0) v) ≡ true
  larger-finite v h = elim (Bool-cases (f.lt (f.of 0) v)) [
    | inl above ↦ rw above h
    | inr other ↦ rw other (f.of_finite 0 (omega arith))
  ]

  larger-Le : (v : f.D) → Le (f.of 0) (larger f (f.of 0) v)
  larger-Le v = elim (Bool-cases (f.lt (f.of 0) v)) [
    | inl above ↦ rw above (f.lt_le (f.of 0) v above)
    | inr other ↦ rw other (f.of_mono 0 0 (omega arith))
  ]

  smaller-IsUnit : (m : f.D) → f.is_finite m ≡ true → Le (f.of 0) m → IsUnit (smaller f (f.of 1) m)
  smaller-IsUnit m finite above = elim (Bool-cases (f.lt m (f.of 1))) [
    | inl below ↦ rw below (above, f.lt_le m (f.of 1) below)
    | inr other ↦ rw other (f.of_mono 0 1 (omega arith), f.of_mono 1 1 (omega arith))
  ]

  clamped-IsUnit : (v : f.D) → f.is_finite v ≡ true → IsUnit (clamped v)
  clamped-IsUnit v h = smaller-IsUnit (larger f (f.of 0) v) (larger-finite v h) (larger-Le v)

  clamp_01-finite : (v : f.D) → f.is_finite v ≡ true → clamp_01 f v ≡ ok (clamped v)
  clamp_01-finite v h = rw h refl

  abbrev contributions : (ScoreComponent → f.D) → List ScoreComponent → List (ScoreContribution f)
  contributions inputs cs = map (λ c. contribution_of f c (clamped (inputs c))) cs

  contributions_of-finite :
      (inputs : ScoreComponent → f.D) (cs : List ScoreComponent)
      → ((c : ScoreComponent) → f.is_finite (inputs c) ≡ true)
      → contributions_of f inputs cs ≡ ok (contributions inputs cs)
  unfolding contributions_of
  contributions_of-finite inputs [] h = refl
  contributions_of-finite inputs (c ∷ cs) h =
      rw (clamp_01-finite (inputs c) (h c)) (rw (contributions_of-finite inputs cs h) refl)

  abbrev weights : List ScoreComponent → ℕ
  weights [] = 0
  weights (c ∷ cs) = weight_of c + weights cs

  -- A sum of points that lies between 0 and m ends between 0 and m and the weights that follow.
  sum_points-Le :
      (inputs : ScoreComponent → f.D) (cs : List ScoreComponent) (sum : f.D) (m : ℕ)
      → ((c : ScoreComponent) → f.is_finite (inputs c) ≡ true)
      → m + weights cs ≤ 100
      → Le (f.of 0) sum
      → Le sum (f.of m)
      → Le (f.of 0) (sum_points f sum (contributions inputs cs))
        × Le (sum_points f sum (contributions inputs cs)) (f.of (m + weights cs))
  unfolding sum_points
  sum_points-Le inputs [] sum m h small low high =
      (low, f.le_trans sum (f.of m) (f.of (m + 0)) high (f.of_mono m (m + 0) (omega arith)))
  sum_points-Le inputs (c ∷ cs) sum m h small low high =
      let w = weight_of c in
      let p = f.mul (f.of w) (clamped (inputs c)) in
      let (least, most) = clamped-IsUnit (inputs c) (h c) in
      let (p_low, p_high) = f.mul_unit w (clamped (inputs c)) (omega (arith, small)) least most in
      let grown =
        subst (λ t. Le (f.add sum p) t) (f.add_of m w (omega (arith, small)))
          (f.add_mono sum (f.of m) p (f.of w) low p_low high p_high) in
      let stays =
        f.le_trans (f.of 0) (f.add (f.of 0) (f.of 0)) (f.add sum p)
          (subst (λ t. Le (f.of 0) t) (sym (f.add_of 0 0 (omega arith)))
            (f.of_mono 0 0 (omega arith)))
          (f.add_mono (f.of 0) sum (f.of 0) p (f.of_mono 0 0 (omega arith))
            (f.of_mono 0 0 (omega arith)) low p_low) in
      let (l, u) =
        sum_points-Le inputs cs (f.add sum p) (m + w) h (omega (arith, small)) stays grown in
      (
        l,
        subst (λ n. Le (sum_points f (f.add sum p) (contributions inputs cs)) (f.of n))
            (omega arith) u,
      )

  -- No contribution has a larger gap.
  abbrev pub IsLargest : ScoreContribution f → List (ScoreContribution f) → Type 0
  IsLargest best cs = All (λ (c : ScoreContribution f). f.lt (gap f best) (gap f c) ≡ false) cs

  not_above :
      (best c e : ScoreContribution f)
      → f.lt (gap f best) (gap f c) ≡ true
      → f.lt (gap f best) (gap f e) ≡ false
      → f.lt (gap f c) (gap f e) ≡ false
  not_above best c e up old = elim (Bool-cases (f.lt (gap f c) (gap f e))) [
    | inl above ↦ absurd (cc (f.lt_trans (gap f best) (gap f c) (gap f e) up above, old))
    | inr fine ↦ fine
  ]

  abbrev pub Among : ScoreContribution f → List (ScoreContribution f) → Type 0
  Among x [] = ⊥
  Among x (c ∷ cs) = (x ≡ c) ⊎ Among x cs

  All-Among : (cs : List (ScoreContribution f)) → All (λ (c : ScoreContribution f). Among c cs) cs
  All-Among [] = tt
  All-Among (c ∷ cs) = (
    inl refl,
    All-imp (λ (x : ScoreContribution f). Among x cs)
        (λ (x : ScoreContribution f). Among x (c ∷ cs)) (λ x a. inr a) cs (All-Among cs),
  )

  largest_of-Among :
      (best : ScoreContribution f) (cs all : List (ScoreContribution f))
      → Among best all
      → All (λ (c : ScoreContribution f). Among c all) cs
      → Among (largest_of f best cs) all
  unfolding largest_of
  largest_of-Among best [] all a as' = a
  largest_of-Among best (c ∷ cs) all a (b, bs) =
      largest_of-Among (if f.lt (gap f best) (gap f c) then c else best) cs all chosen bs
    where
      chosen : Among (if f.lt (gap f best) (gap f c) then c else best) all
      chosen = elim (Bool-cases (f.lt (gap f best) (gap f c))) [
        | inl up ↦ rw up b
        | inr down ↦ rw down a
      ]

  largest_of-IsLargest :
      (best : ScoreContribution f) (cs seen : List (ScoreContribution f))
      → IsLargest best seen
      → IsLargest (largest_of f best cs) (seen ++ cs)
  unfolding largest_of
  largest_of-IsLargest best [] seen a = subst (IsLargest best) (sym (append-nil seen)) a
  largest_of-IsLargest best (c ∷ cs) seen a =
      subst (IsLargest (largest_of f (if f.lt (gap f best) (gap f c) then c else best) cs))
        (append_assoc seen (c ∷ []) cs)
        (largest_of-IsLargest (if f.lt (gap f best) (gap f c) then c else best) cs (seen ++ c ∷ [])
          next)
    where
      next : IsLargest (if f.lt (gap f best) (gap f c) then c else best) (seen ++ c ∷ [])
      next = elim (Bool-cases (f.lt (gap f best) (gap f c))) [
        | inl up ↦ rw up (
            All-append _ seen (c ∷ [])
              (All-imp _ _ (λ (e : ScoreContribution f) old. not_above best c e up old) seen a)
              (f.lt_irrefl (gap f c), tt))
        | inr down ↦ rw down (All-append _ seen (c ∷ []) a (down, tt))
      ]

  -- With finite inputs the score is computed; it is a whole number from 0 to 100, the band is that of the
  -- score, and the component that is reported as the largest gap is one of the contributions, none of which
  -- is further from its weight.
  pub readiness_score-bounds :
      (inputs : ScoreComponent → f.D)
      → ((c : ScoreComponent) → f.is_finite (inputs c) ≡ true)
      → (r : ReadinessScore f) × (readiness_score f inputs ≡ ok r)
        × ((n : ℕ) × (r.score ≡ pos n) × (n ≤ 100) × (r.score_band ≡ band (pos n)))
        × ((best : ScoreContribution f) × (best.component ≡ r.largest_gap)
            × Among best r.contributions
            × IsLargest best r.contributions)
  unfolding readiness_score
  readiness_score-bounds inputs finite =
      let cs = contributions inputs components in
      let first =
        contribution_of f mandatory_field_coverage (clamped (inputs mandatory_field_coverage)) in
      let (low, high) =
        sum_points-Le inputs components (f.of 0) 0 finite (omega arith)
          (f.of_mono 0 0 (omega arith)) (f.of_mono 0 0 (omega arith)) in
      let (n, rounded, _, most) =
        f.round_between (sum_points f (f.of 0) cs) 0 100 (omega arith) low high in
      let best = largest_of f first cs in
      let score = f.round (sum_points f (f.of 0) cs) in
      (
        record {
          score = score;
          score_band = band score;
          contributions = cs;
          largest_gap = best.component;
        },
        rw (contributions_of-finite inputs components finite) refl,
        (n, rounded, most, ap band rounded),
        (
          best,
          refl,
          largest_of-Among first cs cs (inl refl) (All-Among cs),
          largest_of-IsLargest first cs [] tt,
        ),
      )
