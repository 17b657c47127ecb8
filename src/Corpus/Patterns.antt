-- ===== src/Corpus/Patterns.antt =====
-- The regular expressions that the program searches for: sequences of repeated character classes and
-- word boundaries, matched with backtracking.
use compliance_data_layer.Base.{
  ℕ, zero, suc, ◌-◌, ◌≡◌, refl, Bool, true, false, not, ◌&&◌, ◌||◌, List, [], ◌∷◌, ◌++◌, Option,
  none, some, arith, ◌==◌, length, All, if◌then◌else◌,
}
use compliance_data_layer.Base.Texts.{Text}
use compliance_data_layer.Base.Texts.Chars.{is_word}

-- `most` of a repetition, where it has one.
pub data Piece : Type 0 where
  boundary : Piece
  repeat : (ℕ → Bool) → ℕ → Option ℕ → Piece

abbrev pub word_at : Option ℕ → Bool
word_at none = false
word_at (some c) = is_word c

abbrev pub first : Text → Option ℕ
first [] = none
first (c ∷ s) = some c

-- `\b`: a word character on one side only.
abbrev pub is_boundary : Option ℕ → Text → Bool
is_boundary prev s = if word_at prev then not (word_at (first s)) else word_at (first s)

abbrev pub room : Option ℕ → Bool
room none = true
room (some zero) = false
room (some (suc n)) = true

abbrev pub less : Option ℕ → Option ℕ
less none = none
less (some n) = some (n - 1)

-- At least `least` and at most `most` characters of the class, and then what `k` accepts.
unfoldable pub match_repeat :
    (Option ℕ → Text → Bool) → (ℕ → Bool) → ℕ → Option ℕ → Option ℕ → Text → Bool
match_repeat k class least most prev [] = least == 0 && k prev []
match_repeat k class least most prev (c ∷ s) =
    (least == 0 && k prev (c ∷ s))
    || (room most && (class c && match_repeat k class (least - 1) (less most) (some c) s))

-- A match that begins here, behind the character `prev`.
unfoldable pub match_here : List Piece → Option ℕ → Text → Bool
unfolding match_repeat
match_here [] prev s = true
match_here (boundary ∷ ps) prev s = is_boundary prev s && match_here ps prev s
match_here (repeat class least most ∷ ps) prev s =
    match_repeat (match_here ps) class least most prev s

-- `pattern.test(s)`: a match that begins anywhere.
unfoldable pub test_from : List Piece → Option ℕ → Text → Bool
unfolding match_here
test_from ps prev [] = match_here ps prev []
test_from ps prev (c ∷ s) = match_here ps prev (c ∷ s) || test_from ps (some c) s

unfoldable pub test : List Piece → Text → Bool
unfolding test_from
test ps s = test_from ps none s

-- The last character of a text, or what stood before it.
abbrev pub last_of : Option ℕ → Text → Option ℕ
last_of prev [] = prev
last_of prev (c ∷ s) = last_of (some c) s

-- A match behind any prefix is found.
pub test_from-append :
    (ps : List Piece) (pre s : Text) (prev : Option ℕ)
    → match_here ps (last_of prev pre) s ≡ true
    → test_from ps prev (pre ++ s) ≡ true
unfolding test_from
test_from-append ps [] [] prev h = h
test_from-append ps [] (c ∷ s) prev h = rw h refl
test_from-append ps (c ∷ pre) s prev h =
    let rest = test_from-append ps pre s (some c) h in ground (arith, rest)

pub test-append :
    (ps : List Piece) (pre s : Text)
    → match_here ps (last_of none pre) s ≡ true
    → test ps (pre ++ s) ≡ true
unfolding test
test-append ps pre s h = test_from-append ps pre s none h

-- Exactly as many characters of the class, and what follows.
pub match_repeat_exact :
    (k : Option ℕ → Text → Bool) (class : ℕ → Bool) (run rest : Text) (n : ℕ) (prev : Option ℕ)
    → length run ≡ n
    → All (λ c. class c ≡ true) run
    → k (last_of prev run) rest ≡ true
    → match_repeat k class n (some n) prev (run ++ rest) ≡ true
unfolding match_repeat
match_repeat_exact k class [] [] zero prev len a h = rw h refl
match_repeat_exact k class [] (c ∷ s) zero prev len a h = rw h refl
match_repeat_exact k class [] rest (suc n) prev len a h = absurd (omega arith)
match_repeat_exact k class (c ∷ run) rest zero prev len a h = absurd (omega arith)
match_repeat_exact k class (c ∷ run) rest (suc n) prev len (p, a) h =
    let e : suc n - 1 ≡ n = omega arith in
    let more = match_repeat_exact k class run rest n (some c) (omega arith) a h in
    rw (p, e, more) (ground arith)
