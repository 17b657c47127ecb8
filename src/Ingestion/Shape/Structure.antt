-- ===== src/Ingestion/Shape/Structure.antt =====
-- apps/web/modules/ingestion/shape.ts: the shape and the classes of the characters.
use compliance_data_layer.Base.{
  ℕ, ◌≡◌, refl, sym, ap, ◌∙◌, Bool, true, false, ◌||◌, List, [], ◌∷◌, map, Option, none, some,
  length, length-map, all, ltb, if◌then◌else◌, arith,
}
use compliance_data_layer.Base.Texts.{Text}
use compliance_data_layer.Base.Texts.Chars.{is_digit, is_upper, is_lower, is_space}
use compliance_data_layer.Schema.{Charset, numeric, alpha, alnum, mixed, empty}
use compliance_data_layer.Ingestion.Shape.{
  CharClass, digit_class, upper_class, lower_class, space_class, other_class, char_class, max_runs,
  Run, push_run, points, collect_runs, signature, classify, regex_class, shape_of, is_letter,
  is_letter_digit,
}

abbrev digit_of : CharClass → Bool
digit_of digit_class = true
digit_of upper_class = false
digit_of lower_class = false
digit_of space_class = false
digit_of other_class = false

abbrev letter_of : CharClass → Bool
letter_of digit_class = false
letter_of upper_class = true
letter_of lower_class = true
letter_of space_class = false
letter_of other_class = false

class_if : ℕ → Bool → CharClass
class_if c blank =
    if is_digit c
    then digit_class
    else if is_upper c
    then upper_class
    else if is_lower c
    then lower_class
    else if blank
    then space_class
    else other_class

digit-class_if : (c : ℕ) (blank : Bool) → is_digit c ≡ digit_of (class_if c blank)
unfolding class_if
digit-class_if c true = ground arith
digit-class_if c false = ground arith

letter-class_if : (c : ℕ) (blank : Bool) → is_letter c ≡ letter_of (class_if c blank)
unfolding class_if
letter-class_if c true = ground arith
letter-class_if c false = ground arith

digit-class : (c : ℕ) → is_digit c ≡ digit_of (char_class c)
unfolding class_if
digit-class c = digit-class_if c (is_space c)

letter-class : (c : ℕ) → is_letter c ≡ letter_of (char_class c)
unfolding class_if
letter-class c = letter-class_if c (is_space c)

letter_digit-class :
    (c : ℕ) → is_letter_digit c ≡ (letter_of (char_class c) || digit_of (char_class c))
letter_digit-class c =
    ap (λ b. b || is_digit c) (letter-class c)
    ∙ ap (λ b. letter_of (char_class c) || b) (digit-class c)

all-map :
    {A B : Type 0} (p : A → Bool) (q : B → Bool) (f : A → B)
    → ((a : A) → p a ≡ q (f a))
    → (xs : List A) → all p xs ≡ all q (map f xs)
all-map p q f h [] = refl
all-map p q f h (x ∷ xs) = rw (h x, all-map p q f h xs) refl

runs_of : List CharClass → List Run → Option (List Run)
runs_of [] runs = some runs
runs_of (c ∷ cs) runs =
    let rest = runs_of cs (push_run c runs) in
    if ltb max_runs (length (push_run c runs)) then none else rest

collect_runs-class :
    (cs : List ℕ) (runs : List Run) → collect_runs cs runs ≡ runs_of (map char_class cs) runs
unfolding collect_runs runs_of
collect_runs-class [] runs = refl
collect_runs-class (c ∷ cs) runs = rw (collect_runs-class cs (push_run (char_class c) runs)) refl

abbrev charset_from : List CharClass → Charset
charset_from [] = empty
charset_from (c ∷ cs) =
    if all digit_of (c ∷ cs)
    then numeric
    else if all letter_of (c ∷ cs)
    then alpha
    else if all (λ k. letter_of k || digit_of k) (c ∷ cs)
    then alnum
    else mixed

classify-class : (s : Text) → classify s ≡ charset_from (map char_class s)
unfolding classify
classify-class [] = refl
classify-class (c ∷ s) =
    rw
      (
        all-map is_digit digit_of char_class digit-class (c ∷ s),
        all-map is_letter letter_of char_class letter-class (c ∷ s),
        all-map is_letter_digit (λ k. letter_of k || digit_of k) char_class letter_digit-class
            (c ∷ s),
      )
      refl

signature-class :
    (m n : ℕ) (cs ds : List ℕ)
    → m ≡ n
    → map char_class cs ≡ map char_class ds
    → signature m (collect_runs cs []) ≡ signature n (collect_runs ds [])
signature-class m n cs ds same_len same =
    ap (λ k. signature k (collect_runs cs [])) same_len
    ∙ ap (signature n)
        (collect_runs-class cs [] ∙ ap (λ l. runs_of l []) same ∙ sym (collect_runs-class ds []))

length-class : (s t : Text) → map char_class s ≡ map char_class t → length s ≡ length t
length-class s t h = sym (length-map char_class s) ∙ ap length h ∙ length-map char_class t

regex_class-class :
    (s t : Text)
    → map char_class s ≡ map char_class t
    → map char_class (points s) ≡ map char_class (points t)
    → regex_class s ≡ regex_class t
unfolding regex_class
regex_class-class [] [] h hp = refl
regex_class-class [] (_ ∷ _) h hp = cc
regex_class-class (_ ∷ _) [] h hp = cc
regex_class-class (c ∷ s) (d ∷ t) h hp = ap some (
    signature-class (length (c ∷ s)) (length (d ∷ t)) (points (c ∷ s)) (points (d ∷ t))
      (length-class (c ∷ s) (d ∷ t) h) hp)

-- Structure and not content: two values whose characters have the same classes, both by code units and
-- by code points, have the same shape from `shape_of`, which is the shape of `value_shape` before a field
-- that echoes the value is taken out.
pub shape_of-class :
    (s t : Text) (expected : Option Text)
    → map char_class s ≡ map char_class t
    → map char_class (points s) ≡ map char_class (points t)
    → shape_of s expected ≡ shape_of t expected
unfolding shape_of
shape_of-class s t expected h hp =
    let same_len = length-class s t h in
    let same_charset = classify-class s ∙ ap charset_from h ∙ sym (classify-class t) in
    let same_runs = regex_class-class s t h hp in
    ap
      (λ n. record {
        len = some n;
        charset = some (classify s);
        regex_class = regex_class s;
        expected = expected;
      })
      same_len
    ∙ ap
        (λ k. record {
          len = some (length t);
          charset = some k;
          regex_class = regex_class s;
          expected = expected;
        })
        same_charset
    ∙ ap
        (λ r. record {
          len = some (length t);
          charset = some (classify t);
          regex_class = r;
          expected = expected;
        })
        same_runs
