-- ===== src/Ingestion/Tabular/Growth.antt =====
-- apps/web/modules/ingestion/extractors/tabular.ts: what the rounds of the loop over the rows leave alone.
use compliance_data_layer.Base.{
  ◌≡◌, refl, sym, ap, ◌∙◌, subst, Bool, true, List, [], ◌∷◌, ◌++◌, append-nil, append_assoc, map,
  any, none, some, some_inj, Bool-cases, inl, inr, arith,
}
use compliance_data_layer.Base.Texts.{Text, text_eq, text_eq_refl}
use compliance_data_layer.Ingestion.Normalise.{CanonicalLine, ExtractionDefect}
use compliance_data_layer.Ingestion.Tabular.Drafts.{Draft, RowState, find_draft, push_line}

-- A defect names a place of the file.
abbrev pub mentioned : Text → List ExtractionDefect → Bool
mentioned ref ds = any (λ (d : ExtractionDefect). text_eq d.source_ref ref) ds

pub mentioned-append_left :
    (ref : Text) (ds es : List ExtractionDefect)
    → mentioned ref ds ≡ true
    → mentioned ref (ds ++ es) ≡ true
mentioned-append_left ref [] es h = cc
mentioned-append_left ref (d ∷ ds) es h = ground (arith, mentioned-append_left ref ds es)

pub mentioned_last :
    (d : ExtractionDefect) (ds : List ExtractionDefect)
    → mentioned d.source_ref (ds ++ d ∷ []) ≡ true
mentioned_last d [] = ground (arith, text_eq_refl d.source_ref)
mentioned_last d (e ∷ ds) = ground (arith, mentioned_last d ds)

-- A later form of a draft: its currency is the same, and lines are added behind.
pub record Grown (d d' : Draft) : Type 0 where
  pub same_currency : d'.currency ≡ d.currency
  pub more : List CanonicalLine
  pub grown : d'.lines ≡ d.lines ++ more

pub Grown-refl : (d : Draft) → Grown d d
Grown-refl d = record { same_currency = refl; more = []; grown = sym (append-nil d.lines) }

Grown-trans : (d e f : Draft) → Grown d e → Grown e f → Grown d f
Grown-trans d e f p q = record {
  same_currency = q.same_currency ∙ p.same_currency;
  more = p.more ++ q.more;
  grown = q.grown ∙ ap (λ t. t ++ q.more) p.grown ∙ append_assoc d.lines p.more q.more;
}

pub push_line-Grown :
    (number : Text) (line : CanonicalLine) (d : Draft) → Grown d (push_line number line d)
push_line-Grown number line d =
    let (more, grown) = pushed in record { same_currency = refl; more = more; grown = grown }
  where
    pushed : (more : List CanonicalLine) × ((push_line number line d).lines ≡ d.lines ++ more)
    pushed = elim (Bool-cases (text_eq d.number number)) [
      | inl same ↦ rw same (line ∷ [], refl)
      | inr other ↦ rw other ([], sym (append-nil d.lines))
    ]

pub find_draft-append_left :
    (k : Text) (ds es : List Draft) (d : Draft)
    → find_draft k ds ≡ some d
    → find_draft k (ds ++ es) ≡ some d
unfolding find_draft
find_draft-append_left k [] es d h = cc
find_draft-append_left k (e ∷ ds) es d h = elim (Bool-cases (text_eq e.number k)) [
  | inl same ↦ rw same (rw same at h)
  | inr other ↦ rw other (find_draft-append_left k ds es d (rw other at h))
]

pub find_draft-new :
    (d : Draft) (ds : List Draft)
    → find_draft d.number ds ≡ none
    → find_draft d.number (ds ++ d ∷ []) ≡ some d
unfolding find_draft
find_draft-new d [] h = rw (text_eq_refl d.number) refl
find_draft-new d (e ∷ ds) h = elim (Bool-cases (text_eq e.number d.number)) [
  | inl same ↦ absurd (cc (rw same at h))
  | inr other ↦ rw other (find_draft-new d ds (rw other at h))
]

pub find_draft-push_line :
    (k number : Text) (line : CanonicalLine) (ds : List Draft) (d : Draft)
    → find_draft k ds ≡ some d
    → find_draft k (map (push_line number line) ds) ≡ some (push_line number line d)
unfolding find_draft
find_draft-push_line k number line [] d h = cc
find_draft-push_line k number line (e ∷ ds) d h = elim (Bool-cases (text_eq e.number k)) [
  | inl same ↦ rw same (ap (λ t. some (push_line number line t)) (some_inj (rw same at h)))
  | inr other ↦ rw other (find_draft-push_line k number line ds d (rw other at h))
]

pub find_draft-number :
    (k : Text) (ds : List Draft) (d : Draft) → find_draft k ds ≡ some d → text_eq d.number k ≡ true
unfolding find_draft
find_draft-number k [] d h = cc
find_draft-number k (e ∷ ds) d h = elim (Bool-cases (text_eq e.number k)) [
  | inl same ↦ subst (λ (t : Draft). text_eq t.number k ≡ true) (some_inj (rw same at h)) same
  | inr other ↦ find_draft-number k ds d (rw other at h)
]

-- What a round leaves is not taken back by later ones.
pub record Extends (st st' : RowState) : Type 0 where
  pub defects_kept :
      (ref : Text) → mentioned ref st.defects ≡ true → mentioned ref st'.defects ≡ true
  pub drafts_kept :
      (k : Text) (d : Draft)
      → find_draft k st.drafts ≡ some d
      → (d' : Draft) × (find_draft k st'.drafts ≡ some d') × Grown d d'

pub Extends-refl : (st : RowState) → Extends st st
Extends-refl st = record { defects_kept = λ ref h. h; drafts_kept = λ k d h. (d, h, Grown-refl d) }

pub Extends-trans : (s t u : RowState) → Extends s t → Extends t u → Extends s u
Extends-trans s t u p q = record {
  defects_kept = λ ref h. q.defects_kept ref (p.defects_kept ref h);
  drafts_kept = λ k d h.
      (let (e, found, grown) = p.drafts_kept k d h in
        let (f, again, more) = q.drafts_kept k e found in (f, again, Grown-trans d e f grown more));
}
