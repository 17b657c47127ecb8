-- ===== src/Audit/Validate/Expected.antt =====
-- apps/web/modules/audit/validate.ts, runValidation: what a run should leave, document by document and
-- without the tables that it writes.
use compliance_data_layer.Base.{
  ℕ, ◌+◌, List, [], ◌∷◌, ◌++◌, length, Option, none, some, Result, ok, err,
}
use compliance_data_layer.Base.Texts.{Text}
use compliance_data_layer.Schema.{Invoice, InvoiceLine}
use compliance_data_layer.Mapping.Ubl.{UblError}
use compliance_data_layer.Mapping.Ubl.Document.{to_ubl}
use compliance_data_layer.Mapping.SpecIdentifiers.{SpecIdentifiers}
use compliance_data_layer.Audit.Validate.{
  ValidateRequest, Reply, answered, parse_failed, failed, ValidateRunInput, PersistedFinding,
  ValidateRunResult, rows_of,
}
use compliance_data_layer.Audit.Validate.Loading.{LoadedInvoice, load_canonical}
use compliance_data_layer.Audit.Validate.Running.{
  ValidateError, unwritable, sidecar_failed, identifiers_for, ubl_context, request,
}

-- The findings of documents up to the first that throws, and the error of that one.
abbrev pub Expected : Type 0
Expected = List PersistedFinding × Option ValidateError

abbrev pub nothing_expected : Expected
nothing_expected = ([], none)

-- Nothing follows a document that throws.
abbrev pub followed_by : Expected → Expected → Expected
followed_by (rows, some e) later = (rows, some e)
followed_by (rows, none) (more, end) = (rows ++ more, end)

module _ (sidecar : ValidateRequest → Reply) (enqueue : ValidateRunResult → Result Text (Unit {0}))
    (sha256 : Text → Text) (expires_at : ℕ) (input : ValidateRunInput) where
  abbrev pub of_reply : LoadedInvoice → Reply → Expected
  of_reply l (answered r) = (rows_of l.doc_hash r.outcome r.findings, none)
  of_reply l parse_failed = nothing_expected
  of_reply l (failed e) = ([], some (sidecar_failed e))

  abbrev pub of_text : LoadedInvoice → Result UblError Text → Expected
  of_text l (err e) = ([], some (unwritable e))
  of_text l (ok ubl) = of_reply l (sidecar (request sidecar enqueue sha256 expires_at input ubl))

  abbrev pub of_identifiers : LoadedInvoice → Result ValidateError SpecIdentifiers → Expected
  of_identifiers l (err e) = ([], some e)
  of_identifiers l (ok pair) =
      of_text l (to_ubl l.doc (ubl_context sidecar enqueue sha256 expires_at input pair))

  abbrev pub of_document : LoadedInvoice → Expected
  of_document l =
      of_identifiers l (
        identifiers_for sidecar enqueue sha256 expires_at input input.ubl_identifiers
          l.doc.doc_type)

  abbrev pub of_documents : List LoadedInvoice → Expected
  of_documents [] = nothing_expected
  of_documents (l ∷ ls) = followed_by (of_document l) (of_documents ls)

  -- What the chunks load from given tables.
  abbrev pub of_chunks : List (List Text) → List Invoice → List InvoiceLine → Expected
  of_chunks [] invoices lines = nothing_expected
  of_chunks (ids ∷ rest) invoices lines =
      followed_by (of_documents (load_canonical input.tenant_id ids invoices lines))
        (of_chunks rest invoices lines)

  abbrev pub loaded : List (List Text) → List Invoice → List InvoiceLine → ℕ
  loaded [] invoices lines = 0
  loaded (ids ∷ rest) invoices lines =
      length (load_canonical input.tenant_id ids invoices lines) + loaded rest invoices lines
