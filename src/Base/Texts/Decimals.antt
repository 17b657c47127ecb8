-- ===== src/Base/Texts/Decimals.antt =====
-- `String(n)` and `Number(s)` on whole numbers.
use mathlib.Core.List.{concat-ne-nil}
use compliance_data_layer.Base.{
  ℕ, zero, suc, ◌+◌, ◌-◌, ◌*◌, ◌/◌, ◌%◌, ◌<◌, ◌≡◌, refl, true, List, [], ◌∷◌, ◌++◌, arith,
  replicate, All, All-append, ltb, if◌then◌else◌, ◌≢◌, Bool-cases, inl, inr,
}
use compliance_data_layer.Base.Texts.Chars.{is_digit}

-- The digits of `n`, most significant first; the fuel `n + 1` is enough, since each round divides.
digits : ℕ → ℕ → List ℕ
digits zero n = []
digits (suc f) n =
    let more = digits f (n / 10) ++ (b'0' + n % 10) ∷ [] in
    if ltb n 10 then (b'0' + n) ∷ [] else more

unfoldable pub decimal : ℕ → List ℕ
unfolding digits
decimal n = digits (suc n) n

-- The number that digits spell behind `acc`.
unfoldable pub value_from : ℕ → List ℕ → ℕ
value_from acc [] = acc
value_from acc (c ∷ s) = value_from (acc * 10 + (c - b'0')) s

abbrev pub value : List ℕ → ℕ
value s = value_from 0 s

pub value_from-append :
    (acc : ℕ) (s t : List ℕ) → value_from acc (s ++ t) ≡ value_from (value_from acc s) t
unfolding value_from
value_from-append acc [] t = refl
value_from-append acc (c ∷ s) t = value_from-append (acc * 10 + (c - b'0')) s t

pub value_zeros : (k : ℕ) (s : List ℕ) → value (replicate k b'0' ++ s) ≡ value s
unfolding value_from
value_zeros zero s = refl
value_zeros (suc k) s = value_zeros k s

value-digits : (f n : ℕ) → n < f → value (digits f n) ≡ n
unfolding digits value_from
value-digits zero n h = absurd (omega arith)
value-digits (suc f) n h = elim (Bool-cases (ltb n 10)) [
  | inl small ↦ rw small (omega arith)
  | inr large ↦ rw large (
      rw (value_from-append 0 (digits f (n / 10)) ((b'0' + n % 10) ∷ []))
        (rw (value-digits f (n / 10) (ground arith)) (omega arith)))
]

pub value-decimal : (n : ℕ) → value (decimal n) ≡ n
unfolding decimal
value-decimal n = value-digits (suc n) n (omega arith)

abbrev pub IsDigits : List ℕ → Type 0
IsDigits = All (λ c. is_digit c ≡ true)

digits-IsDigits : (f n : ℕ) → IsDigits (digits f n)
unfolding digits
digits-IsDigits zero n = tt
digits-IsDigits (suc f) n = elim (Bool-cases (ltb n 10)) [
  | inl small ↦ rw small (ground arith, tt)
  | inr large ↦
      rw large (All-append _ (digits f (n / 10)) _ (digits-IsDigits f (n / 10)) (ground arith, tt))
]

pub decimal-IsDigits : (n : ℕ) → IsDigits (decimal n)
unfolding decimal
decimal-IsDigits n = digits-IsDigits (suc n) n

pub zeros-IsDigits : (k : ℕ) → IsDigits (replicate k b'0')
zeros-IsDigits zero = tt
zeros-IsDigits (suc k) = (refl, zeros-IsDigits k)

decimal_runs : decimal 90210 ≡ b'9' ∷ b'0' ∷ b'2' ∷ b'1' ∷ b'0' ∷ []
unfolding decimal
decimal_runs = refl

pub decimal-ne-nil : (n : ℕ) → decimal n ≢ []
unfolding decimal
decimal-ne-nil n = elim (Bool-cases (ltb n 10)) [
  | inl small ↦ rw small (λ e. cc)
  | inr large ↦ rw large (concat-ne-nil (b'0' + n % 10) (digits n (n / 10)))
]
