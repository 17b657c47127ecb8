-- ===== src/Base/Results.antt =====
-- Results of code that may throw: the error is a value.
use mathlib.Core.Path.{◌≡◌, refl, ap}
use mathlib.Core.Bool.{Bool, true, false}

pub data Result {ℓ κ} (E : Type ℓ) (A : Type κ) : Type (ℓ ⊔ κ) where
  ok : A → Result E A
  err : E → Result E A

-- The rest of a block is run on a result alone.
infixl 5 ◌>>=◌
abbrev pub ◌>>=◌ {κ ℓ μ} :
    {E : Type κ} {A : Type ℓ} {B : Type μ} (first : Result E A) (rest : A → Result E B) → Result E B
err thrown >>= rest = err thrown
ok result >>= rest = rest result

-- `if (bad) throw e;`
abbrev pub throw_if {ℓ} : {E : Type ℓ} → Bool → E → Result E (Unit {0})
throw_if true e = err e
throw_if false e = ok tt

-- A statement without a result, and the statements behind it.
infixl 5 ◌>>◌
abbrev pub ◌>>◌ {κ ℓ} :
    {E : Type κ} {A : Type ℓ} (check : Result E (Unit {0})) (rest : Result E A) → Result E A
check >> rest = check >>= (λ _. rest)

-- A block that came to a result has passed its first statement.
pub >>=-eq-ok {κ ℓ μ} :
    {E : Type κ} {A : Type ℓ} {B : Type μ} (first : Result E A) (rest : A → Result E B) {final : B}
    → (first >>= rest) ≡ ok final
    → (between : A) × (first ≡ ok between) × (rest between ≡ ok final)
>>=-eq-ok (err thrown) rest h = cc
>>=-eq-ok (ok between) rest h = (between, refl, h)

abbrev pub ok_or {ℓ κ} : {E : Type ℓ} {A : Type κ} → Result E A → A → A
ok_or (ok a) d = a
ok_or (err e) d = d

pub ok_inj {ℓ κ} : {E : Type ℓ} {A : Type κ} {a b : A} → ◌≡◌ {A = Result E A} (ok a) (ok b) → a ≡ b
ok_inj {a} h = ap (λ r. ok_or r a) h

-- The code behind a guard that did not throw.
pub throw_if-eq-ok {ℓ κ} :
    {E : Type ℓ} {A : Type κ} (b : Bool) (e : E) (k : Result E A) {a : A}
    → (throw_if b e >> k) ≡ ok a
    → (b ≡ false) × (k ≡ ok a)
throw_if-eq-ok true e k h = cc
throw_if-eq-ok false e k h = (refl, h)
