-- ===== src/Ingestion/Money/Printing.antt =====
-- apps/web/modules/ingestion/money.ts: printing minor units and reading them back.
use compliance_data_layer.Base.{
  ℕ, ◌+◌, ◌-◌, ◌≤◌, ◌<◌, ◌≡◌, ◌≢◌, refl, ap, sym, ◌∙◌, Bool, true, false, List, [], ◌∷◌, ◌++◌, some,
  arith, length, length-append, length-replicate, length-drop, take, drop, replicate,
  take-append-drop, All, All-append, All-append_left, All-append_right, All→all, ok, ◌>>=◌, ltb,
  ◌==◌, if◌then◌else◌, Bool-cases, inl, inr, subst,
}
use compliance_data_layer.Base.Int.{ℤ, pos, negsuc, neg, abs, is_neg}
use compliance_data_layer.Base.Texts.{Text}
use compliance_data_layer.Base.Texts.Chars.{is_digit, is_space, to_upper}
use compliance_data_layer.Base.Texts.Strips.{
  strip_end, remove, trim, pad_start, pad_end, span-append, trim_none, remove_none,
  length-strip_end,
}
use compliance_data_layer.Base.Texts.Decimals.{
  decimal, value, value_zeros, value-decimal, IsDigits, decimal-IsDigits, zeros-IsDigits,
}
use compliance_data_layer.Ingestion.Money.{
  exec, scale, to_minor, minor_to_decimal, minor_unit_exponent, with_point, minus_sign, max_safe,
  or_zero, is_empty, is_zero_digit, exponent_in, minor_unit_exponent_table,
}

-- The characters of a printed amount.
abbrev is_amount : ℕ → Bool
is_amount c = if is_digit c then true else if c == b'.' then true else c == b'-'

abbrev IsAmount : Text → Type 0
IsAmount = All (λ c. is_amount c ≡ true)

IsAmount-plain :
    (s : Text) → IsAmount s → All (λ c. is_space c ≡ false) s × All (λ c. (c == b',') ≡ false) s
IsAmount-plain [] h = (tt, tt)
IsAmount-plain (c ∷ s) (h, k) =
    let (a, b) = IsAmount-plain s k in ((ground arith, a), (ground arith, b))

IsDigits-IsAmount : (s : Text) → IsDigits s → IsAmount s
IsDigits-IsAmount [] h = tt
IsDigits-IsAmount (c ∷ s) (h, k) = (ground arith, IsDigits-IsAmount s k)

-- A sign, digits, a point and digits are captured as they stand.
exec_digits :
    (m : ℤ) (w f : Text)
    → IsDigits w
    → w ≢ []
    → IsDigits f
    → exec (minus_sign m ++ (w ++ b'.' ∷ f))
      ≡ some (record { minus = is_neg m; whole = w; fraction = some f })
unfolding exec
exec_digits m [] f hw ne hf = absurd (ne refl)
exec_digits (pos n) (c ∷ w) f hw ne hf =
    ground (arith, span-append is_digit (c ∷ w) f b'.' hw refl, All→all is_digit f hf)
exec_digits (negsuc n) (c ∷ w) f hw ne hf =
    ground (arith, span-append is_digit (c ∷ w) f b'.' hw refl, All→all is_digit f hf)

abbrev padded : ℕ → ℤ → Text
padded e m = pad_start (e + 1) b'0' (decimal (abs m))

padded-IsDigits : (e : ℕ) (m : ℤ) → IsDigits (padded e m)
unfolding pad_start
padded-IsDigits e m = All-append _ _ _ (zeros-IsDigits _) (decimal-IsDigits (abs m))

value-padded : (e : ℕ) (m : ℤ) → value (padded e m) ≡ abs m
unfolding pad_start
value-padded e m = value_zeros _ (decimal (abs m)) ∙ value-decimal (abs m)

length-padded : (e : ℕ) (m : ℤ) → e < length (padded e m)
unfolding pad_start
length-padded e m =
    let zeros : Text = replicate (e + 1 - length (decimal (abs m))) b'0' in
    omega (
      arith,
      length-append zeros (decimal (abs m)),
      length-replicate {A = ℕ} (e + 1 - length (decimal (abs m))) b'0',
    )

take-append : (s t : Text) → take (length s) (s ++ t) ≡ s
take-append [] t = refl
take-append (c ∷ s) t = ap (λ r. c ∷ r) (take-append s t)

take-pad_end : (n : ℕ) (s : Text) → length s ≡ n → take n (pad_end n b'0' s) ≡ s
unfolding pad_end
take-pad_end n s h =
    subst (λ k. take k (s ++ replicate (n - length s) b'0') ≡ s) h (take-append s _)

neg-abs : (m : ℤ) → (if is_neg m then neg (abs m) else pos (abs m)) ≡ m
neg-abs (pos n) = refl
neg-abs (negsuc n) = refl

or_zero_ne : (s : Text) → s ≢ [] → or_zero s ≡ s
or_zero_ne [] h = absurd (h refl)
or_zero_ne (c ∷ s) h = refl

is_empty_ne : (s : Text) → s ≢ [] → is_empty s ≡ false
is_empty_ne [] h = absurd (h refl)
is_empty_ne (c ∷ s) h = refl

ne_of_length : (s : Text) → 0 < length s → s ≢ []
ne_of_length [] h = absurd (omega arith)
ne_of_length (c ∷ s) h = cc

append_ne : (s t : Text) → s ≢ [] → s ++ t ≢ []
append_ne [] t h = absurd (h refl)
append_ne (c ∷ s) t h = cc

-- Digits with as many behind the point as the currency has are read with no rounding.
scale_exact :
    (e : ℕ) (minus : Bool) (w f : Text)
    → w ≢ []
    → length f ≡ e
    → value (w ++ f) ≤ max_safe
    → scale e (record { minus = minus; whole = w; fraction = some f })
      ≡ ok (if minus then neg (value (w ++ f)) else pos (value (w ++ f)))
unfolding scale
scale_exact e minus w f ne len safe =
    rw (take-pad_end e f len, is_empty_ne w ne, or_zero_ne (w ++ f) (append_ne w f ne))
      (let small : ltb e (length (strip_end is_zero_digit f)) ≡ false =
          ground (arith, length-strip_end is_zero_digit f) in
        let fits : ltb max_safe (value (w ++ f)) ≡ false = ground arith in rw (small, fits) refl)

length-take_part : (e : ℕ) (s : Text) → e < length s → take (length s - e) s ≢ []
length-take_part e s h = ne_of_length _ (
    omega (
      arith,
      ap length (take-append-drop (length s - e) s),
      length-append (take (length s - e) s) (drop (length s - e) s),
      length-drop (length s - e) s,
    ))

module _ (e : ℕ) (m : ℤ) where
  abbrev front : Text
  front = take (length (padded e m) - e) (padded e m)

  abbrev back : Text
  back = drop (length (padded e m) - e) (padded e m)

  front-IsDigits : IsDigits front
  front-IsDigits =
      All-append_left _ front back
        (subst IsDigits (sym (take-append-drop _ (padded e m))) (padded-IsDigits e m))

  back-IsDigits : IsDigits back
  back-IsDigits =
      All-append_right _ front back
        (subst IsDigits (sym (take-append-drop _ (padded e m))) (padded-IsDigits e m))

  length-back : length back ≡ e
  length-back = omega (arith, length-drop (length (padded e m) - e) (padded e m), length-padded e m)

  value-front-back : value (front ++ back) ≡ abs m
  value-front-back = rw (take-append-drop (length (padded e m) - e) (padded e m)) (value-padded e m)

  minus_sign-IsAmount : IsAmount (minus_sign m)
  minus_sign-IsAmount = elim (Bool-cases (is_neg m)) [ inl h ↦ rw h (refl, tt) | inr h ↦ rw h tt ]

  printed-IsAmount : IsAmount (minus_sign m ++ with_point e (padded e m))
  printed-IsAmount = All-append _ (minus_sign m) _ minus_sign-IsAmount (
      All-append _ front (b'.' ∷ back) (IsDigits-IsAmount front front-IsDigits)
        (refl, IsDigits-IsAmount back back-IsDigits))

  scale_printed :
      abs m ≤ max_safe
      → scale e (record { minus = is_neg m; whole = front; fraction = some back }) ≡ ok m
  scale_printed safe =
      scale_exact e (is_neg m) front back (length-take_part e (padded e m) (length-padded e m))
        length-back (rw value-front-back safe)
      ∙ rw value-front-back (ap ok (neg-abs m))

  clean_printed :
      remove (λ c. c == b',') (trim (minus_sign m ++ with_point e (padded e m)))
      ≡ minus_sign m ++ with_point e (padded e m)
  clean_printed =
      let (no_space, no_comma) = IsAmount-plain _ printed-IsAmount in
      rw (trim_none _ no_space) (remove_none (λ c. c == b',') _ no_comma)

exponent_in-pos :
    (c : Text) (t : List (Text × ℕ)) {e : ℕ}
    → All (λ r. 0 < r.1) t
    → exponent_in c t ≡ some e
    → 0 < e
unfolding exponent_in
exponent_in-pos c [] {e} a h = cc
exponent_in-pos c ((k, n) ∷ t) {e} (p, a) h = ground (arith, exponent_in-pos c t {e = e} a)

exponent-pos : (c : Text) {e : ℕ} → minor_unit_exponent c ≡ ok e → 0 < e
unfolding minor_unit_exponent
exponent-pos c {e} h =
    ground (arith, exponent_in-pos (to_upper c) minor_unit_exponent_table {e = e} (omega arith))

-- In a currency of the table every safe whole number of minor units is printed, and `toMinor` reads
-- the print back as that number.
pub to_minor-minor_to_decimal :
    (m : ℤ) (currency : Text) (e : ℕ)
    → minor_unit_exponent currency ≡ ok e
    → abs m ≤ max_safe
    → (minor_to_decimal m currency >>= λ t. to_minor t currency) ≡ ok m
unfolding minor_to_decimal to_minor
to_minor-minor_to_decimal m currency e known safe =
    let pos_e : (e == 0) ≡ false = ground (arith, exponent-pos currency known) in
    rw
      (
        known,
        pos_e,
        clean_printed e m,
        exec_digits m (front e m) (back e m) (front-IsDigits e m)
            (length-take_part e (padded e m) (length-padded e m)) (back-IsDigits e m),
      )
      (scale_printed e m safe)
