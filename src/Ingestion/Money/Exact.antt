-- ===== src/Ingestion/Money/Exact.antt =====
-- apps/web/modules/ingestion/money.ts: the amounts that toMinor accepts.
use compliance_data_layer.Base.{
  length-append, length-replicate, append_assoc, ◌≢◌, ℕ, zero, suc, ◌+◌, ◌-◌, ◌*◌, ◌^◌, ◌≤◌, ◌≡◌,
  refl, ap, sym, ◌∙◌, Bool, true, ◌&&◌, Option-cases, false, [], ◌∷◌, ◌++◌, some, none, Option,
  arith, length, take, replicate, or_else, ok, ltb, ◌==◌, if◌then◌else◌, Bool-cases, inl, inr,
  subst, ◌↔◌, >>=-eq-ok,
}
use native.Mathlib.Nat.{pow-suc, mul_assoc}
use compliance_data_layer.Base.Int.{ℤ, pos, neg, abs}
use compliance_data_layer.Base.Texts.{Text}
use compliance_data_layer.Base.Texts.Chars.{to_upper}
use compliance_data_layer.Base.Texts.Strips.{strip_end, remove, trim, pad_end, put_back}
use compliance_data_layer.Base.Texts.Decimals.{value, value_from, value_from-append}
use compliance_data_layer.Ingestion.Money.Form.{IsForm, exec-IsForm}
use compliance_data_layer.Ingestion.Money.{
  Parts, exponent_in, minor_unit_exponent_table, or_throw, not_decimal, malformed_amount, exec,
  scale, to_minor, minor_unit_exponent, max_safe, or_zero, is_empty, is_zero_digit,
  is_known_currency, try_to_minor, attempt, failed_unknown_currency,
}

abs-sign : (minus : Bool) (n : ℕ) → abs (if minus then neg n else pos n) ≡ n
abs-sign true zero = refl
abs-sign true (suc n) = refl
abs-sign false n = refl

value-or_zero : (s : Text) → value (or_zero s) ≡ value s
unfolding value_from
value-or_zero [] = refl
value-or_zero (c ∷ s) = refl

abbrev zeros : ℕ → Text
zeros k = replicate k b'0'

-- Zeros behind the digits scale the value.
value_from-zeros : (k acc : ℕ) → value_from acc (zeros k) ≡ acc * 10 ^ k
unfolding value_from
value_from-zeros zero acc = omega arith
value_from-zeros (suc k) acc =
    value_from-zeros k (acc * 10 + 0) ∙ grind (arith, ap (λ (t : ℕ). acc * t) (pow-suc 10 k))

pow_add : (a b : ℕ) → 10 ^ (a + b) ≡ 10 ^ a * 10 ^ b
pow_add zero b = let e : 0 + b ≡ b = omega arith in rw e (omega arith)
pow_add (suc a) b =
    let e : suc a + b ≡ suc (a + b) = omega arith in
    rw (e, pow-suc, pow_add a b, pow-suc) (grind arith)

append-zeros : (j k : ℕ) → zeros j ++ zeros k ≡ zeros (j + k)
append-zeros zero k = ap zeros (omega arith)
append-zeros (suc j) k =
    let e : suc j + k ≡ suc (j + k) = omega arith in rw e (ap (λ t. b'0' ∷ t) (append-zeros j k))

take-zeros : (d j : ℕ) → d ≤ j → take d (zeros j) ≡ zeros d
take-zeros zero j h = refl
take-zeros (suc d) zero h = absurd (omega arith)
take-zeros (suc d) (suc j) h = ap (λ t. b'0' ∷ t) (take-zeros d j (omega arith))

take-append_zeros : (s : Text) (d j : ℕ) → d ≤ j → take (length s + d) (s ++ zeros j) ≡ s ++ zeros d
take-append_zeros [] d j h = let e : 0 + d ≡ d = omega arith in rw e (take-zeros d j h)
take-append_zeros (c ∷ s) d j h =
    let e : suc (length s) + d ≡ suc (length s + d) = omega arith in
    rw e (ap (λ t. c ∷ t) (take-append_zeros s d j h))

put_back-zeros :
    (c : ℕ) (f r : Text) (k : ℕ)
    → f ≡ r ++ zeros k
    → (j : ℕ) × (c ∷ f ≡ put_back is_zero_digit c r ++ zeros j)
put_back-zeros c f (d ∷ r) k e = (k, ap (λ t. c ∷ t) e)
put_back-zeros c f [] k e = elim (Bool-cases (is_zero_digit c)) [
  | inl h ↦ (suc k, ground arith)
  | inr h ↦ (k, ground arith)
]

-- What the pattern /0+$/ takes off is zeros.
strip_end-zeros : (f : Text) → (k : ℕ) × (f ≡ strip_end is_zero_digit f ++ zeros k)
unfolding strip_end
strip_end-zeros [] = (0, refl)
strip_end-zeros (c ∷ f) =
    let (k, e) = strip_end-zeros f in put_back-zeros c f (strip_end is_zero_digit f) k e

-- A stripped fraction with zeros behind, cut or padded to `e` digits.
take-pad_end-zeros :
    (e : ℕ) (s : Text) (k : ℕ)
    → length s ≤ e
    → take e (pad_end e b'0' (s ++ zeros k)) ≡ s ++ zeros (e - length s)
unfolding pad_end
take-pad_end-zeros e s k h =
    let len : length (s ++ zeros k) ≡ length s + k =
      omega (arith, length-append s (zeros k), length-replicate {A = ℕ} k b'0') in
    let split : length s + (e - length s) ≡ e = omega arith in
    rw (append_assoc, append-zeros, len)
      (subst (λ n. take n (s ++ zeros (k + (e - (length s + k)))) ≡ s ++ zeros (e - length s)) split
        (take-append_zeros s (e - length s) (k + (e - (length s + k))) (omega arith)))

value-append_zeros : (w s : Text) (k : ℕ) → value (w ++ (s ++ zeros k)) ≡ value (w ++ s) * 10 ^ k
value-append_zeros w s k =
    ap value (sym (append_assoc w s (zeros k)))
    ∙ value_from-append 0 (w ++ s) (zeros k)
    ∙ value_from-zeros k (value (w ++ s))

length-append_zeros : (s : Text) (k : ℕ) → length (s ++ zeros k) ≡ length s + k
length-append_zeros s k = omega (arith, length-append s (zeros k), length-replicate {A = ℕ} k b'0')

-- Cutting off zeros and padding with zeros leaves the value that the text denotes.
value_stripped :
    (e : ℕ) (w s : Text) (k : ℕ)
    → length s ≤ e
    → value (w ++ take e (pad_end e b'0' (s ++ zeros k))) * 10 ^ length (s ++ zeros k)
      ≡ value (w ++ (s ++ zeros k)) * 10 ^ e
value_stripped e w s k h =
    rw
      (
        take-pad_end-zeros e s k h,
        value-append_zeros w s (e - length s),
        value-append_zeros w s k,
        length-append_zeros s k,
      )
      (mul_assoc (value (w ++ s)) (10 ^ (e - length s)) (10 ^ (length s + k))
        ∙ ap (λ t. value (w ++ s) * t)
            (sym (pow_add (e - length s) (length s + k))
              ∙ ap (λ t. 10 ^ t) {x = e - length s + (length s + k)} {y = k + e} (omega arith)
              ∙ pow_add k e)
        ∙ sym (mul_assoc (value (w ++ s)) (10 ^ k) (10 ^ e)))

value_scaled :
    (e : ℕ) (w f : Text)
    → length (strip_end is_zero_digit f) ≤ e
    → value (w ++ take e (pad_end e b'0' f)) * 10 ^ length f ≡ value (w ++ f) * 10 ^ e
value_scaled e w f h =
    let (k, eq) = strip_end-zeros f in
    subst (λ t. value (w ++ take e (pad_end e b'0' t)) * 10 ^ length t ≡ value (w ++ t) * 10 ^ e)
      (sym eq) (value_stripped e w (strip_end is_zero_digit f) k h)

or_throw-eq-ok {ℓ κ} :
    {E : Type ℓ} {A : Type κ} (o : Option A) (e : E) {a : A} → or_throw o e ≡ ok a → o ≡ some a
or_throw-eq-ok none e h = cc
or_throw-eq-ok (some a) e h = cc

-- An accepted amount, without the code that computes it.
pub record IsExact (e : ℕ) (p : Parts) (v : ℤ) : Type 0 where
  pub exact :
      abs v * 10 ^ length (or_else p.fraction [])
      ≡ value (p.whole ++ or_else p.fraction []) * 10 ^ e
  pub safe : abs v ≤ max_safe
  pub signed : v ≡ (if p.minus then neg (abs v) else pos (abs v))
  pub has_digit : p.whole ++ or_else p.fraction [] ≢ []

append_ne : (w f : Text) → (is_empty w && is_empty f) ≡ false → w ++ f ≢ []
append_ne [] [] h = cc
append_ne [] (c ∷ f) h = cc
append_ne (c ∷ w) f h = cc

module _ (e : ℕ) (p : Parts) (v : ℤ) where
  abbrev fraction : Text
  fraction = or_else p.fraction []

  abbrev cut : Text
  cut = p.whole ++ take e (pad_end e b'0' fraction)

  -- The guards of `toMinor` that a result has passed.
  record Passed : Type 0 where
    some_digit : (is_empty p.whole && is_empty fraction) ≡ false
    few_digits : ltb e (length (strip_end is_zero_digit fraction)) ≡ false
    is_safe : ltb max_safe (value (or_zero cut)) ≡ false
    result : (if p.minus then neg (value (or_zero cut)) else pos (value (or_zero cut))) ≡ v

  scale-Passed : scale e p ≡ ok v → Passed
  unfolding scale
  scale-Passed h = ground arith

  scale-IsExact : scale e p ≡ ok v → IsExact e p v
  scale-IsExact h =
      let passed = scale-Passed h in
      let size : abs v ≡ value cut =
        ap abs (sym passed.result) ∙ abs-sign p.minus _ ∙ value-or_zero cut in
      record {
        exact = rw size (value_scaled e p.whole fraction (ground (arith, passed.few_digits)));
        safe = ground (arith, passed.is_safe, size, value-or_zero cut);
        signed =
            sym passed.result
            ∙ ap (λ n. if p.minus then neg n else pos n)
                (sym (ap abs (sym passed.result) ∙ abs-sign p.minus _));
        has_digit = append_ne p.whole fraction passed.some_digit;
      }

-- Every accepted amount is the exact value of its text at the exponent of its currency: the text,
-- trimmed and without commas, is a sign or none, digits and, where it has a point, the point and digits,
-- with one digit at least; no digit is rounded away; the result is a safe integer; and it has the sign of
-- the text, minus exactly where the text begins with a minus sign.
pub to_minor-IsExact :
    (decimal_text currency : Text) (v : ℤ)
    → to_minor decimal_text currency ≡ ok v
    → (e : ℕ) × (p : Parts) × (minor_unit_exponent currency ≡ ok e)
      × IsForm (remove (λ c. c == b',') (trim decimal_text)) p
      × IsExact e p v
unfolding to_minor
to_minor-IsExact decimal_text currency v h =
    let (e, known, h') = >>=-eq-ok (minor_unit_exponent currency) _ h in
    let (p, matched, h'') =
      >>=-eq-ok
        (or_throw (exec (remove (λ c. c == b',') (trim decimal_text)))
          (malformed_amount not_decimal))
        _ h' in
    (e, p, known, exec-IsForm _ p (or_throw-eq-ok _ _ matched), scale-IsExact e p v h'')

attempt-scale : (e : ℕ) (p : Parts) → attempt (scale e p) ≢ failed_unknown_currency
unfolding scale
attempt-scale e p = ground arith

attempt-to_minor :
    (s currency : Text)
    → (attempt (to_minor s currency) ≡ failed_unknown_currency)
      ↔ (is_known_currency currency ≡ false)
unfolding to_minor minor_unit_exponent is_known_currency
attempt-to_minor s currency =
    elim (Option-cases (exponent_in (to_upper currency) minor_unit_exponent_table)) [
      | inl missing ↦ rw missing (λ _. refl, λ _. refl)
      | inr (e, found) ↦ elim (Option-cases (exec (remove (λ c. c == b',') (trim s)))) [
        | inl bad ↦ rw (found, bad) (λ h. cc, λ h. cc)
        | inr (p, good) ↦ rw (found, good) (λ h. absurd (attempt-scale e p h), λ h. cc)
      ]
    ]

-- `tryToMinor` blames the currency exactly when a text that is not blank comes with a currency
-- outside the table.
pub try_to_minor-unknown_iff :
    (decimal_text : Option Text) (currency : Text)
    → (try_to_minor decimal_text currency ≡ failed_unknown_currency) ↔ (
        (is_known_currency currency ≡ false)
        × ((s : Text) × (decimal_text ≡ some s) × (is_empty (trim s) ≡ false)))
unfolding try_to_minor
try_to_minor-unknown_iff none currency = (λ h. cc, λ (k, (s, e, b)). cc)
try_to_minor-unknown_iff (some s) currency = elim (Bool-cases (is_empty (trim s))) [
  | inl blank ↦ ground (arith, blank)
  | inr full ↦ rw full (
    λ h. ((attempt-to_minor s currency).0 h, (s, refl, full)),
    λ h. (attempt-to_minor s currency).1 h.0,
  )
]
