-- ===== src/Ingestion/Normalise/Defects.antt =====
-- apps/web/modules/ingestion/normalise.ts: the register of defects that writeDefects leaves.
use compliance_data_layer.Base.{
  ℕ, ◌+◌, ◌≤◌, ◌≡◌, refl, sym, ap, ◌∙◌, subst, true, false, List, [], ◌∷◌, ◌++◌, map, if◌then◌else◌,
  Bool-cases, inl, inr, arith,
}
use compliance_data_layer.Base.Texts.{Text, text_eq, text_eq_iff}
use compliance_data_layer.Schema.{DefectClass, defect_text, MasterDataDefect, ClientData}
use compliance_data_layer.Ingestion.Normalise.{
  ExtractionDefect, CanonicalDoc, NormaliseInput, same_class, count_defect, by_class, defect_row,
  write_defects,
}

-- The occurrences of a class among the defects of an extraction.
abbrev pub occurrences : DefectClass → List ExtractionDefect → ℕ
occurrences c [] = 0
occurrences c (d ∷ ds) =
    let rest = occurrences c ds in if same_class d.defect_class c then 1 + rest else rest

-- The affected documents that the rows of a class count together, and the number of those rows.
abbrev pub affected : DefectClass → List MasterDataDefect → ℕ
affected c [] = 0
affected c (r ∷ rs) =
    let rest = affected c rs in
    if same_class r.defect_class c then r.affected_count + rest else rest

abbrev pub rows_of : DefectClass → List MasterDataDefect → ℕ
rows_of c [] = 0
rows_of c (r ∷ rs) =
    let rest = rows_of c rs in if same_class r.defect_class c then 1 + rest else rest

same_class_trans : (a b c : DefectClass) → same_class a b ≡ true → same_class a c ≡ same_class b c
same_class_trans a b c h =
    ap (λ t. text_eq t (defect_text c)) ((text_eq_iff (defect_text a) (defect_text b)).0 h)

same_class_join :
    (a b c : DefectClass) → same_class a c ≡ true → same_class b c ≡ true → same_class a b ≡ true
same_class_join a b c h k = (text_eq_iff (defect_text a) (defect_text b)).1 (
    (text_eq_iff (defect_text a) (defect_text c)).0 h
    ∙ sym ((text_eq_iff (defect_text b) (defect_text c)).0 k))

module _ (doc_hash : CanonicalDoc → Text) (expires_at : ℕ) (input : NormaliseInput)
    (c : DefectClass) where
  abbrev rows : List (ExtractionDefect × ℕ) → List MasterDataDefect
  rows seen = map (defect_row doc_hash expires_at input) seen

  abbrev hit : ExtractionDefect → ℕ
  hit d = if same_class d.defect_class c then 1 else 0

  affected-count_defect :
      (d : ExtractionDefect) (seen : List (ExtractionDefect × ℕ))
      → affected c (rows (count_defect d seen)) ≡ hit d + affected c (rows seen)
  unfolding count_defect
  affected-count_defect d [] = ground arith
  affected-count_defect d ((e, n) ∷ seen) =
      elim (Bool-cases (same_class e.defect_class d.defect_class)) [
        | inl same ↦
            rw same
              (let moved = same_class_trans e.defect_class d.defect_class c same in ground arith)
        | inr other ↦ rw other (let rest = affected-count_defect d seen in ground arith)
      ]

  -- A row is added to the class of the defect alone.
  rows_of-other :
      (d : ExtractionDefect) (seen : List (ExtractionDefect × ℕ))
      → same_class d.defect_class c ≡ false
      → rows_of c (rows (count_defect d seen)) ≡ rows_of c (rows seen)
  unfolding count_defect
  rows_of-other d [] h = rw h refl
  rows_of-other d ((e, n) ∷ seen) h = elim (Bool-cases (same_class e.defect_class d.defect_class)) [
    | inl same ↦ rw same refl
    | inr other ↦ rw (other, rows_of-other d seen h) refl
  ]

  rows_of-count_defect :
      (d : ExtractionDefect) (seen : List (ExtractionDefect × ℕ))
      → rows_of c (rows seen) ≤ 1
      → rows_of c (rows (count_defect d seen)) ≤ 1
  unfolding count_defect
  rows_of-count_defect d [] h = ground arith
  rows_of-count_defect d ((e, n) ∷ seen) h =
      elim (Bool-cases (same_class e.defect_class d.defect_class)) [
        | inl same ↦ rw same h
        | inr other ↦ rw other (elim (Bool-cases (same_class e.defect_class c)) [
          | inl here ↦ elim (Bool-cases (same_class d.defect_class c)) [
            | inl too ↦
                (let joined = same_class_join e.defect_class d.defect_class c here too in cc)
            | inr apart ↦ (let kept = rows_of-other d seen apart in ground arith)
          ]
          | inr away ↦
              (let rest = rows_of-count_defect d seen (
                  subst (λ b. (if b then 1 + rows_of c (rows seen) else rows_of c (rows seen)) ≤ 1)
                    away h) in
                rw away rest)
        ])
      ]

  by_class-counts :
      (ds : List ExtractionDefect) (seen : List (ExtractionDefect × ℕ))
      → rows_of c (rows seen) ≤ 1
      → (affected c (rows (by_class ds seen)) ≡ occurrences c ds + affected c (rows seen))
        × (rows_of c (rows (by_class ds seen)) ≤ 1)
  unfolding by_class
  by_class-counts [] seen h = (omega arith, h)
  by_class-counts (d ∷ ds) seen h =
      let (counts, single) =
        by_class-counts ds (count_defect d seen) (rows_of-count_defect d seen h) in
      let here = affected-count_defect d seen in (ground arith, single)

-- The register that a run leaves behind the rows that were there counts every occurrence of a defect in
-- the extraction once, under its class, and has at most one row for a class. A document with several
-- defects of a class is counted several times.
pub write_defects-counts :
    (doc_hash : CanonicalDoc → Text) (expires_at : ℕ) (input : NormaliseInput)
    (ds : List ExtractionDefect) (db : ClientData) (c : DefectClass)
    → (new : List MasterDataDefect) × ((write_defects doc_hash expires_at input ds db).defects
        ≡ db.defects ++ new)
      × (affected c new ≡ occurrences c ds)
      × (rows_of c new ≤ 1)
unfolding write_defects
write_defects-counts doc_hash expires_at input ds db c =
    let (counts, single) = by_class-counts doc_hash expires_at input c ds [] (omega arith) in
    (
      map (defect_row doc_hash expires_at input) (by_class ds []),
      refl,
      omega (arith, counts),
      single,
    )
