-- ===== src/Base/Texts/Strips.antt =====
-- `trim`, the removal of characters and the longest run of a class, with their laws.
use compliance_data_layer.Base.{
  ℕ, suc, ◌-◌, ◌≤◌, ◌≡◌, refl, Bool, true, false, not, List, [], ◌∷◌, ◌++◌, arith, length, filter,
  replicate, All, all, if◌then◌else◌,
}
use compliance_data_layer.Base.Texts.Chars.{is_space}

module _ (p : ℕ → Bool) where
  unfoldable pub strip_start : List ℕ → List ℕ
  strip_start [] = []
  strip_start (c ∷ s) = if p c then strip_start s else c ∷ s

  abbrev pub put_back : ℕ → List ℕ → List ℕ
  put_back c [] = if p c then [] else c ∷ []
  put_back c (d ∷ r) = c ∷ d ∷ r

  unfoldable pub strip_end : List ℕ → List ℕ
  strip_end [] = []
  strip_end (c ∷ s) = put_back c (strip_end s)

  abbrev pub cons_run : ℕ → List ℕ → (List ℕ × List ℕ) → List ℕ × List ℕ
  cons_run c s (a, r) = if p c then (c ∷ a, r) else ([], c ∷ s)

  -- The longest prefix of the class, and the rest.
  unfoldable pub span : List ℕ → List ℕ × List ℕ
  span [] = ([], [])
  span (c ∷ s) = cons_run c s (span s)

  pub strip_start_none : (s : List ℕ) → All (λ c. p c ≡ false) s → strip_start s ≡ s
  unfolding strip_start
  strip_start_none [] h = refl
  strip_start_none (c ∷ s) (h, _) = ground arith

  pub strip_end_none : (s : List ℕ) → All (λ c. p c ≡ false) s → strip_end s ≡ s
  unfolding strip_end
  strip_end_none [] h = refl
  strip_end_none (c ∷ []) (h, _) = ground arith
  strip_end_none (c ∷ d ∷ s) (h, k) = rw (strip_end_none (d ∷ s) k)

  length-put_back : (c : ℕ) (s : List ℕ) → length (put_back c s) ≤ suc (length s)
  length-put_back c [] = ground arith
  length-put_back c (d ∷ s) = omega arith

  pub length-strip_end : (s : List ℕ) → length (strip_end s) ≤ length s
  unfolding strip_end
  length-strip_end [] = omega arith
  length-strip_end (c ∷ s) = omega (arith, length-put_back c (strip_end s), length-strip_end s)

  unfoldable pub remove : List ℕ → List ℕ
  remove s = filter (λ c. not (p c)) s

  pub remove_none : (s : List ℕ) → All (λ c. p c ≡ false) s → remove s ≡ s
  unfolding remove
  remove_none [] h = refl
  remove_none (c ∷ s) (h, k) = ground (arith, remove_none s k)

  pub span-split : (s : List ℕ) → ((span s).0 ++ (span s).1 ≡ s) × (all p (span s).0 ≡ true)
  unfolding span
  span-split [] = (refl, refl)
  span-split (c ∷ s) = ground (arith, span-split s)

  -- The run ends where the class does.
  pub span-append :
      (s r : List ℕ) (c : ℕ)
      → All (λ d. p d ≡ true) s
      → p c ≡ false
      → span (s ++ c ∷ r) ≡ (s, c ∷ r)
  unfolding span
  span-append [] r c h k = ground arith
  span-append (d ∷ s) r c (h, hs) k = ground (arith, span-append s r c hs k)

  pub span-All : (s : List ℕ) → All (λ d. p d ≡ true) s → span s ≡ (s, [])
  unfolding span
  span-All [] h = refl
  span-All (d ∷ s) (h, hs) = ground (arith, span-All s hs)

unfoldable pub trim : List ℕ → List ℕ
unfolding strip_start strip_end
trim s = strip_end is_space (strip_start is_space s)

pub trim_none : (s : List ℕ) → All (λ c. is_space c ≡ false) s → trim s ≡ s
unfolding trim
trim_none s h = rw (strip_start_none is_space s h) (strip_end_none is_space s h)

-- `padStart` and `padEnd`
unfoldable pub pad_start : ℕ → ℕ → List ℕ → List ℕ
pad_start n c s = replicate (n - length s) c ++ s

unfoldable pub pad_end : ℕ → ℕ → List ℕ → List ℕ
pad_end n c s = s ++ replicate (n - length s) c
