-- ===== src/Corpus/Record/Tables.antt =====
-- Tables with a primary key, and `INSERT … ON CONFLICT DO NOTHING`.
use compliance_data_layer.Base.{
  ◌≡◌, ◌≢◌, ◌⊎◌, refl, sym, ◌∙◌, ap, Bool, true, List, [], ◌∷◌, ◌++◌, append-nil, append_assoc, any,
  if◌then◌else◌, arith, Bool-cases, inl, inr,
}
use compliance_data_layer.Base.Texts.{Text, text_eq, text_eq_refl, text_eq_iff}

module _ {A : Type 0} (key : A → Text) where
  unfoldable pub has : Text → List A → Bool
  has k rows = any (λ r. text_eq (key r) k) rows

  unfoldable pub insert_new : A → List A → List A
  unfolding has
  insert_new row rows = if has (key row) rows then rows else rows ++ row ∷ []

  has-append : (k : Text) (xs ys : List A) → has k xs ≡ true → has k (xs ++ ys) ≡ true
  unfolding has
  has-append k [] ys h = cc
  has-append k (x ∷ xs) ys h = ground (arith, has-append k xs ys)

  has_last :
      (k : Text) (xs : List A) (r : A) → text_eq (key r) k ≡ true → has k (xs ++ r ∷ []) ≡ true
  unfolding has
  has_last k [] r h = rw h refl
  has_last k (x ∷ xs) r h = ground (arith, has_last k xs r h)

  pub has-nil : (k : Text) → has k [] ≢ true
  unfolding has
  has-nil k = λ e. cc

  pub has-cons :
      (k : Text) (r : A) (rows : List A)
      → has k (r ∷ rows) ≡ true
      → (key r ≡ k) ⊎ (has k rows ≡ true)
  unfolding has
  has-cons k r rows h = ground (arith, text_eq_iff (key r) k)

  pub has-insert_new : (row : A) (rows : List A) → has (key row) (insert_new row rows) ≡ true
  unfolding insert_new
  has-insert_new row rows = elim (Bool-cases (has (key row) rows)) [
    | inl old ↦ rw old old
    | inr new ↦ rw new (has_last (key row) rows row (text_eq_refl (key row)))
  ]

  pub has-insert_new_old :
      (k : Text) (row : A) (rows : List A) → has k rows ≡ true → has k (insert_new row rows) ≡ true
  unfolding insert_new
  has-insert_new_old k row rows h = elim (Bool-cases (has (key row) rows)) [
    | inl old ↦ rw old h
    | inr new ↦ rw new (has-append k rows (row ∷ []) h)
  ]

-- The rows of a table that only grows stay where they are.
abbrev pub IsPrefix : {A : Type 0} → List A → List A → Type 0
IsPrefix {A} xs ys = (more : List A) × (ys ≡ xs ++ more)

pub IsPrefix-refl : {A : Type 0} (xs : List A) → IsPrefix xs xs
IsPrefix-refl xs = ([], sym (append-nil xs))

pub IsPrefix-trans :
    {A : Type 0} (xs ys zs : List A) → IsPrefix xs ys → IsPrefix ys zs → IsPrefix xs zs
IsPrefix-trans xs ys zs (m, e) (n, f) = (m ++ n, f ∙ ap (λ t. t ++ n) e ∙ append_assoc xs m n)

pub IsPrefix-insert_new :
    {A : Type 0} (key : A → Text) (row : A) (rows : List A)
    → IsPrefix rows (insert_new key row rows)
unfolding insert_new
IsPrefix-insert_new key row rows = elim (Bool-cases (has key (key row) rows)) [
  | inl old ↦ rw old (IsPrefix-refl rows)
  | inr new ↦ rw new (row ∷ [], refl)
]
