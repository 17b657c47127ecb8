-- ===== src/Mapping/Apply/Rows.antt =====
-- apps/web/modules/mapping/apply.ts: the rows that applyMapping writes.
use compliance_data_layer.Base.{
  ◌≡◌, refl, ◌⊎◌, ◌∙◌, ap, Bool, true, not, ◌&&◌, List, [], ◌∷◌, some, any, filter, if◌then◌else◌,
  All, All-map, All-imp, All-filter, arith, Bool-cases, inl, inr,
}
use compliance_data_layer.Base.Texts.{Text, text_eq, text_eq_refl}
use compliance_data_layer.Schema.{
  MappingProfile, Invoice, InvoiceLine, MappedPayload, ClientData, IngestionRun,
}
use compliance_data_layer.Mapping.Apply.{
  ApplyMappingInput, set_payload, map_rows, set_validating, in_run, mapped,
}

abbrev pub others : Text → List Invoice → List Invoice
others tenant rows = filter (λ (r : Invoice). not (text_eq r.tenant_id tenant)) rows

abbrev pub other_runs : Text → List IngestionRun → List IngestionRun
other_runs tenant rows = filter (λ (r : IngestionRun). not (text_eq r.tenant_id tenant)) rows

set_payload-others :
    (id tenant : Text) (payload : MappedPayload) (rows : List Invoice)
    → others tenant (set_payload id tenant payload rows) ≡ others tenant rows
unfolding set_payload
set_payload-others id tenant payload [] = refl
set_payload-others id tenant payload (r ∷ rows) = elim (Bool-cases (text_eq r.tenant_id tenant)) [
  | inl own ↦ elim (Bool-cases (text_eq r.id id)) [
    | inl hit ↦ rw (own, hit, own) (set_payload-others id tenant payload rows)
    | inr miss ↦ rw (own, miss, own) (set_payload-others id tenant payload rows)
  ]
  | inr other ↦ elim (Bool-cases (text_eq r.id id)) [
    | inl hit ↦ rw (other, hit, other) (ap (λ t. r ∷ t) (set_payload-others id tenant payload rows))
    | inr miss ↦
        rw (other, miss, other) (ap (λ t. r ∷ t) (set_payload-others id tenant payload rows))
  ]
]

map_rows-others :
    (p : MappingProfile) (tenant : Text) (lines : List InvoiceLine) (rows invoices : List Invoice)
    → others tenant (map_rows p tenant lines rows invoices) ≡ others tenant invoices
unfolding map_rows
map_rows-others p tenant lines [] invoices = refl
map_rows-others p tenant lines (row ∷ rows) invoices =
    map_rows-others p tenant lines rows _ ∙ set_payload-others row.id tenant _ invoices

set_validating-others :
    (run tenant : Text) (rows : List IngestionRun)
    → other_runs tenant (set_validating run tenant rows) ≡ other_runs tenant rows
unfolding set_validating
set_validating-others run tenant [] = refl
set_validating-others run tenant (r ∷ rows) = elim (Bool-cases (text_eq r.tenant_id tenant)) [
  | inl own ↦ elim (Bool-cases (text_eq r.run_id run)) [
    | inl hit ↦ rw (own, hit, own) (set_validating-others run tenant rows)
    | inr miss ↦ rw (own, miss, own) (set_validating-others run tenant rows)
  ]
  | inr other ↦ elim (Bool-cases (text_eq r.run_id run)) [
    | inl hit ↦ rw (other, hit, other) (ap (λ t. r ∷ t) (set_validating-others run tenant rows))
    | inr miss ↦ rw (other, miss, other) (ap (λ t. r ∷ t) (set_validating-others run tenant rows))
  ]
]

-- Mapping a run writes no other tenant's rows: their invoices and their runs are the same before and
-- after, in the same order, whatever the run and the profile.
pub mapped-others :
    (input : ApplyMappingInput) (p : MappingProfile) (db : ClientData)
    → (others input.tenant_id (mapped input p db).invoices ≡ others input.tenant_id db.invoices)
      × (other_runs input.tenant_id (mapped input p db).runs ≡ other_runs input.tenant_id db.runs)
mapped-others input p db = (
  map_rows-others p input.tenant_id db.lines _ db.invoices,
  set_validating-others input.run_id input.tenant_id db.runs,
)

-- The row carries a payload of the profile in its version.
abbrev pub CarriesPayload : MappingProfile → Invoice → Type 0
CarriesPayload p r =
    (m : MappedPayload) × (r.mapped_payload ≡ some m)
    × (m.profile_id ≡ p.id)
    × (m.profile_version ≡ p.version)

abbrev NamesRow : Invoice → List Invoice → Type 0
NamesRow r rows = any (λ (x : Invoice). text_eq r.id x.id) rows ≡ true

-- A row of the tenant and the run that still has to get a payload is among those to come.
abbrev IsAwaited : MappingProfile → Text → Text → List Invoice → Invoice → Type 0
IsAwaited p run tenant rows r = in_run run tenant r ≡ true → NamesRow r rows ⊎ CarriesPayload p r

IsAwaited-after :
    (p : MappingProfile) (run tenant : Text) (row : Invoice) (rows : List Invoice)
    (m : MappedPayload)
    → m.profile_id ≡ p.id
    → m.profile_version ≡ p.version
    → (r : Invoice) → IsAwaited p run tenant (row ∷ rows) r
    → IsAwaited p run tenant rows (
        if text_eq r.id row.id && text_eq r.tenant_id tenant
        then record r { mapped_payload = some m }
        else r)
IsAwaited-after p run tenant row rows m same_id same_version r h =
    elim (Bool-cases (text_eq r.id row.id && text_eq r.tenant_id tenant)) [
      | inl hit ↦ rw hit (λ _. inr (m, refl, same_id, same_version))
      | inr miss ↦
          rw miss (λ inside. elim (h inside) [
            | inl named ↦ inl (ground arith)
            | inr carried ↦ inr carried
          ])
    ]

map_rows-IsAwaited :
    (p : MappingProfile) (run tenant : Text) (lines : List InvoiceLine)
    (rows invoices : List Invoice)
    → All (IsAwaited p run tenant rows) invoices
    → All (IsAwaited p run tenant []) (map_rows p tenant lines rows invoices)
unfolding map_rows set_payload
map_rows-IsAwaited p run tenant lines [] invoices h = h
map_rows-IsAwaited p run tenant lines (row ∷ rows) invoices h =
    map_rows-IsAwaited p run tenant lines rows _ (
      All-map (IsAwaited p run tenant (row ∷ rows)) (IsAwaited p run tenant rows) _
        (IsAwaited-after p run tenant row rows _ refl refl) invoices h)

-- Every row of the run is among the rows that the loop selects.
NamesRow-later :
    (p : Invoice → Bool) (r x : Invoice) (rows : List Invoice)
    → NamesRow r (filter p rows)
    → NamesRow r (filter p (x ∷ rows))
NamesRow-later p r x rows h = ground arith

selected :
    (p : MappingProfile) (run tenant : Text) (rows : List Invoice)
    → All (λ r. (in_run run tenant r ≡ true) → NamesRow r (filter (in_run run tenant) rows)) rows
selected p run tenant [] = tt
selected p run tenant (x ∷ rows) = (
  (λ inside. rw (inside, text_eq_refl x.id) refl),
  All-imp _ _ (λ r f inside. NamesRow-later (in_run run tenant) r x rows (f inside)) rows
      (selected p run tenant rows),
)

-- Mapping a run leaves no invoice of it behind: every row of the tenant and the run carries a payload
-- with the id and the version of the profile.
pub mapped-CarriesPayload :
    (input : ApplyMappingInput) (p : MappingProfile) (db : ClientData)
    → All
        (CarriesPayload p)
        (filter (in_run input.run_id input.tenant_id) (mapped input p db).invoices)
mapped-CarriesPayload input p db =
    All-filter (in_run input.run_id input.tenant_id) (CarriesPayload p) (mapped input p db).invoices
      (All-imp _ _ (λ r f inside. elim (f inside) [ inl named ↦ cc | inr carried ↦ carried ]) _
        (map_rows-IsAwaited p input.run_id input.tenant_id db.lines
          (filter (in_run input.run_id input.tenant_id) db.invoices) db.invoices
          (All-imp _ _ (λ r f inside. inl (f inside)) db.invoices
            (selected p input.run_id input.tenant_id db.invoices))))
