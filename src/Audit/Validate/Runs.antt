-- ===== src/Audit/Validate/Runs.antt =====
-- apps/web/modules/audit/validate.ts, runValidation: the whole run, whether it ends or throws.
use compliance_data_layer.Base.{
  ℕ, ◌+◌, ◌≡◌, refl, sym, subst, List, [], ◌∷◌, append-nil, length, concat, Result, ok, err, arith,
  none, ◌⊎◌, inl, inr, some,
}
use compliance_data_layer.Base.Texts.{Text}
use compliance_data_layer.Audit.Validate.Expected.{
  Expected, of_text, of_identifiers, of_document, of_documents, of_chunks, loaded,
}
use compliance_data_layer.Mapping.Ubl.{UblError}
use compliance_data_layer.Mapping.SpecIdentifiers.{SpecIdentifiers}
use compliance_data_layer.Audit.Validate.{
  FindingStore, ValidateRequest, Reply, ValidateRunInput, ValidateRunResult,
}
use compliance_data_layer.Audit.Validate.Loading.{LoadedInvoice}
use compliance_data_layer.Audit.Validate.Running.{
  chunks, ValidateError, enqueue_failed, Progress, Outcome, and_then, initial, with_access, send,
  identify, validate_document, validate_documents, load, validate_chunks, result_of, finish,
  run_validation,
}
use compliance_data_layer.Audit.Validate.Writes.{
  chunks-concat, Kept, Recorded, Holds, nothing-Kept, and_then-Holds, record_reply-Holds,
}

module _ (sidecar : ValidateRequest → Reply) (enqueue : ValidateRunResult → Result Text (Unit {0}))
    (sha256 : Text → Text) (expires_at : ℕ) (input : ValidateRunInput) where
  abbrev Keeps : FindingStore → Progress → ℕ → Expected → Outcome Progress → Type 0
  Keeps s p n e o = Holds sidecar enqueue sha256 expires_at input s p n e o

  send-Holds :
      (l : LoadedInvoice) (ubl : Result UblError Text) (p : Progress) (s : FindingStore)
      → Keeps s p 1
          (of_text sidecar enqueue sha256 expires_at input l ubl)
          (send sidecar enqueue sha256 expires_at input l ubl p s)
  send-Holds l (err e) p s = (nothing-Kept sidecar enqueue sha256 expires_at input s, refl)
  send-Holds l (ok ubl) p s = record_reply-Holds sidecar enqueue sha256 expires_at input l _ p s

  identify-Holds :
      (l : LoadedInvoice) (pair : Result ValidateError SpecIdentifiers) (p : Progress)
      (s : FindingStore)
      → Keeps s p 1
          (of_identifiers sidecar enqueue sha256 expires_at input l pair)
          (identify sidecar enqueue sha256 expires_at input l pair p s)
  identify-Holds l (err e) p s = (nothing-Kept sidecar enqueue sha256 expires_at input s, refl)
  identify-Holds l (ok pair) p s = send-Holds l _ p s

  validate_document-Holds :
      (l : LoadedInvoice) (p : Progress) (s : FindingStore)
      → Keeps s p 1
          (of_document sidecar enqueue sha256 expires_at input l)
          (validate_document sidecar enqueue sha256 expires_at input l p s)
  unfolding validate_document
  validate_document-Holds l p s = identify-Holds l _ p s

  nothing-Recorded :
      (s : FindingStore) (p : Progress)
      → Recorded sidecar enqueue sha256 expires_at input s p 0 [] s p
  nothing-Recorded s p = record {
    written = nothing-Kept sidecar enqueue sha256 expires_at input s;
    reported = sym (append-nil p.persisted);
    counted = omega arith;
    invoices_same = refl;
    lines_same = refl;
  }

  validate_documents-Holds :
      (ls : List LoadedInvoice) (p : Progress) (s : FindingStore)
      → Keeps s p
          (length ls)
          (of_documents sidecar enqueue sha256 expires_at input ls)
          (validate_documents sidecar enqueue sha256 expires_at input ls p s)
  unfolding validate_documents
  validate_documents-Holds [] p s = (nothing-Recorded s p, refl)
  validate_documents-Holds (l ∷ ls) p s =
      subst
        (λ n.
          Keeps s p n (of_documents sidecar enqueue sha256 expires_at input (l ∷ ls))
            (validate_documents sidecar enqueue sha256 expires_at input (l ∷ ls) p s))
        {x = 1 + length ls} (omega arith)
        (and_then-Holds sidecar enqueue sha256 expires_at input s p 1 (length ls)
          (of_document sidecar enqueue sha256 expires_at input l)
          (of_documents sidecar enqueue sha256 expires_at input ls)
          (validate_documents sidecar enqueue sha256 expires_at input ls)
          (validate_document sidecar enqueue sha256 expires_at input l p s)
          (validate_document-Holds l p s) (λ q t r. validate_documents-Holds ls q t))

  abbrev pub all_loaded : List (List Text) → FindingStore → ℕ
  all_loaded cs s =
      loaded sidecar enqueue sha256 expires_at input cs s.client_data.invoices s.client_data.lines

  abbrev pub all_expected : List (List Text) → FindingStore → Expected
  all_expected cs s =
      of_chunks sidecar enqueue sha256 expires_at input cs s.client_data.invoices
        s.client_data.lines

  validate_chunks-Holds :
      (cs : List (List Text)) (p : Progress) (s : FindingStore)
      → Keeps s p
          (all_loaded cs s)
          (all_expected cs s)
          (validate_chunks sidecar enqueue sha256 expires_at input cs p s)
  unfolding validate_chunks
  validate_chunks-Holds [] p s = (nothing-Recorded s p, refl)
  validate_chunks-Holds (ids ∷ rest) p s =
      let s₁ = with_access sidecar enqueue sha256 expires_at input s in
      let ls = load sidecar enqueue sha256 expires_at input ids s.client_data in
      let first = of_documents sidecar enqueue sha256 expires_at input ls in
      and_then-Holds sidecar enqueue sha256 expires_at input s p (length ls) (all_loaded rest s)
        first (all_expected rest s) (validate_chunks sidecar enqueue sha256 expires_at input rest)
        (validate_documents sidecar enqueue sha256 expires_at input ls p s₁)
        (logged s p (length ls) first _ (validate_documents-Holds ls p s₁))
        (λ q t r. same t q _ r.invoices_same r.lines_same (validate_chunks-Holds rest q t))
    where
      logged :
          (s : FindingStore) (p : Progress) (n : ℕ) (e : Expected) (o : Outcome Progress)
          → Keeps (with_access sidecar enqueue sha256 expires_at input s) p n e o
          → Keeps s p n e o
      logged s p n (rows, end) (t, err e) (h, last) =
          (record { new = h.new; kept = h.kept; stored = h.stored; own = h.own }, last)
      logged s p n (rows, end) (t, ok q) (h, last) = (
        record {
          written = record {
            new = h.written.new;
            kept = h.written.kept;
            stored = h.written.stored;
            own = h.written.own;
          };
          reported = h.reported;
          counted = h.counted;
          invoices_same = h.invoices_same;
          lines_same = h.lines_same;
        },
        last,
      )

      same :
          (t : FindingStore) (q : Progress) (o : Outcome Progress)
          → t.client_data.invoices ≡ s.client_data.invoices
          → t.client_data.lines ≡ s.client_data.lines
          → Keeps t q (all_loaded rest t) (all_expected rest t) o
          → Keeps t q (all_loaded rest s) (all_expected rest s) o
      same t q o e f h =
          subst
            (λ i.
              Keeps t q (loaded sidecar enqueue sha256 expires_at input rest i s.client_data.lines)
                (of_chunks sidecar enqueue sha256 expires_at input rest i s.client_data.lines) o)
            e
            (subst
              (λ l.
                Keeps t q
                  (loaded sidecar enqueue sha256 expires_at input rest t.client_data.invoices l)
                  (of_chunks sidecar enqueue sha256 expires_at input rest t.client_data.invoices l)
                  o)
              f h)

  abbrev pub run_chunks : List (List Text)
  run_chunks = chunks (length input.invoice_ids) input.invoice_ids

  -- What a run has done when it ends, and when it throws.
  abbrev pub HasWritten : FindingStore → Outcome ValidateRunResult → Type 0
  HasWritten s (s', err e) =
      Kept sidecar enqueue sha256 expires_at input s s' (all_expected run_chunks s).0
      × (((all_expected run_chunks s).1 ≡ some e)
          ⊎ (((all_expected run_chunks s).1 ≡ none) × ((x : Text) × (e ≡ enqueue_failed x))))
  HasWritten s (s', ok r) =
      Kept sidecar enqueue sha256 expires_at input s s' (all_expected run_chunks s).0
      × ((all_expected run_chunks s).1 ≡ none)
      × (r.findings ≡ (all_expected run_chunks s).0)
      × (length r.documents + r.parse_errors ≡ all_loaded run_chunks s)

  finish-HasWritten :
      (s : FindingStore) (o : Outcome Progress)
      → Keeps s initial (all_loaded run_chunks s) (all_expected run_chunks s) o
      → HasWritten s (
          and_then
            (λ p t.
              finish sidecar enqueue sha256 expires_at input
                (result_of sidecar enqueue sha256 expires_at input p)
                (enqueue (result_of sidecar enqueue sha256 expires_at input p))
                t)
            o)
  finish-HasWritten s (t, err e) (h, last) = (h, inl last)
  finish-HasWritten s (t, ok p) (h, last) =
      sent (enqueue (result_of sidecar enqueue sha256 expires_at input p))
    where
      sent :
          (e : Result Text (Unit {0}))
          → HasWritten s (
              finish sidecar enqueue sha256 expires_at input
                (result_of sidecar enqueue sha256 expires_at input p)
                e
                t)
      sent (err e) = (h.written, inr (last, (e, refl)))
      sent (ok u) = (
        record {
          new = h.written.new;
          kept = h.written.kept;
          stored = h.written.stored;
          own = h.written.own;
        },
        last,
        h.reported,
        omega (arith, h.counted),
      )

  -- The chunks of a run are the ids, each once and in order. Whether a run ends or throws, the findings
  -- that were there stay, and the new ones are, in order, the rows of the answers of the sidecar on the
  -- loaded documents up to the first document that throws, each of the run's tenant and run and under the
  -- recurrence key of its finding: a run that throws keeps what it committed. A run throws the error of that
  -- document, or that of the enqueuer where no document throws. A run that ends reports those rows, and as
  -- many validated documents and parse errors together as documents were loaded.
  pub run_validation-HasWritten :
      (s : FindingStore)
      → (concat run_chunks ≡ input.invoice_ids)
        × HasWritten s (run_validation sidecar enqueue sha256 expires_at input s)
  unfolding run_validation
  run_validation-HasWritten s = (
    chunks-concat (length input.invoice_ids) input.invoice_ids (omega arith),
    finish-HasWritten s _ (validate_chunks-Holds run_chunks initial s),
  )
