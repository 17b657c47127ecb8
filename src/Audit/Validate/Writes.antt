-- ===== src/Audit/Validate/Writes.antt =====
-- apps/web/modules/audit/validate.ts, runValidation: the rows that a run has written when it ends.
use compliance_data_layer.Base.{
  ℕ, zero, suc, ◌+◌, ◌≤◌, ◌≡◌, refl, sym, ap, ◌∙◌, List, [], ◌∷◌, ◌++◌, append-nil, append_assoc,
  map, length, length-append, length-drop, take, drop, take-append-drop, concat, none, some, Result,
  ok, err, arith, All, All-append,
}
use compliance_data_layer.Base.Texts.{Text}
use compliance_data_layer.Schema.{Verdict}
use compliance_data_layer.Corpus.Recurrence.{recurrence_key}
use compliance_data_layer.Audit.Validate.{
  Finding, FindingStore, ContractFinding, ValidateRequest, Reply, answered, parse_failed, failed,
  ValidateRunInput, PersistedFinding, ValidateRunResult, finding_row, rows_of, stored_finding,
  write_findings,
}
use compliance_data_layer.Audit.Validate.Loading.{LoadedInvoice}
use compliance_data_layer.Audit.Validate.Expected.{Expected, followed_by, of_reply}
use compliance_data_layer.Audit.Validate.Running.{
  chunks, validate_batch_size, Progress, Outcome, and_then, record_reply,
}

-- What a stored row says of its finding.
abbrev pub persisted_of : Finding → PersistedFinding
persisted_of f = record {
  doc_hash = f.doc_hash;
  stage = f.stage;
  outcome = f.outcome;
  rule_id = f.rule_id;
  business_term = f.business_term;
  xpath = f.xpath;
  failure_class = f.failure_class;
  value_shape = f.value_shape;
  message = f.message;
}

-- Every id stands in one chunk, in order: the fuel is enough.
pub chunks-concat :
    (fuel : ℕ) (ids : List Text) → length ids ≤ fuel → concat (chunks fuel ids) ≡ ids
unfolding chunks
chunks-concat zero [] h = refl
chunks-concat zero (id ∷ ids) h = absurd (omega arith)
chunks-concat (suc fuel) [] h = refl
chunks-concat (suc fuel) (id ∷ ids) h =
    ap (λ t. take validate_batch_size (id ∷ ids) ++ t)
      (chunks-concat fuel (drop validate_batch_size (id ∷ ids))
        (omega (arith, length-drop validate_batch_size (id ∷ ids), h)))
    ∙ take-append-drop validate_batch_size (id ∷ ids)

module _ (sidecar : ValidateRequest → Reply) (enqueue : ValidateRunResult → Result Text (Unit {0}))
    (sha256 : Text → Text) (expires_at : ℕ) (input : ValidateRunInput) where
  -- A row of the run, with the key of its finding.
  abbrev pub IsOwn : Finding → Type 0
  IsOwn f =
      (f.tenant_id ≡ input.tenant_id)
      × (f.run_id ≡ input.run_id)
      × (f.recurrence_key ≡ recurrence_key sha256 input.entity_hash f.rule_id f.xpath f.value_shape)

  -- What is in the findings is still there, and what is new is the rows that were expected.
  pub record Kept (s s' : FindingStore) (rows : List PersistedFinding) : Type 0 where
    pub new : List Finding
    pub kept : s'.findings ≡ s.findings ++ new
    pub stored : map persisted_of new ≡ rows
    pub own : All IsOwn new

  -- A part of the loop that went through n documents.
  pub record Recorded (s : FindingStore) (p : Progress) (n : ℕ) (rows : List PersistedFinding)
      (s' : FindingStore) (p' : Progress) : Type 0 where
    pub written : Kept s s' rows
    pub reported : p'.persisted ≡ p.persisted ++ rows
    pub counted : length p'.documents + p'.parse_errors ≡ length p.documents + p.parse_errors + n
    pub invoices_same : s'.client_data.invoices ≡ s.client_data.invoices
    pub lines_same : s'.client_data.lines ≡ s.client_data.lines

  abbrev pub Holds : FindingStore → Progress → ℕ → Expected → Outcome Progress → Type 0
  Holds s p n (rows, end) (s', ok p') = Recorded s p n rows s' p' × (end ≡ none)
  Holds s p n (rows, end) (s', err e) = Kept s s' rows × (end ≡ some e)

  pub nothing-Kept : (s : FindingStore) → Kept s s []
  nothing-Kept s = record { new = []; kept = sym (append-nil s.findings); stored = refl; own = tt }

  map-append :
      (xs ys : List Finding)
      → map persisted_of (xs ++ ys) ≡ map persisted_of xs ++ map persisted_of ys
  map-append [] ys = refl
  map-append (x ∷ xs) ys = ap (λ t. persisted_of x ∷ t) (map-append xs ys)

  Kept-trans :
      (s t u : FindingStore) (rows more : List PersistedFinding)
      → Kept s t rows
      → Kept t u more
      → Kept s u (rows ++ more)
  Kept-trans s t u rows more a b = record {
    new = a.new ++ b.new;
    kept = b.kept ∙ ap (λ x. x ++ b.new) a.kept ∙ append_assoc s.findings a.new b.new;
    stored =
        map-append a.new b.new
        ∙ ap (λ x. x ++ map persisted_of b.new) a.stored
        ∙ ap (λ x. rows ++ x) b.stored;
    own = All-append IsOwn a.new b.new a.own b.own;
  }

  Recorded-trans :
      (s t u : FindingStore) (p q r : Progress) (m n : ℕ) (rows more : List PersistedFinding)
      → Recorded s p m rows t q
      → Recorded t q n more u r
      → Recorded s p (m + n) (rows ++ more) u r
  Recorded-trans s t u p q r m n rows more a b = record {
    written = Kept-trans s t u rows more a.written b.written;
    reported = b.reported ∙ ap (λ x. x ++ more) a.reported ∙ append_assoc p.persisted rows more;
    counted = omega (arith, a.counted, b.counted);
    invoices_same = b.invoices_same ∙ a.invoices_same;
    lines_same = b.lines_same ∙ a.lines_same;
  }

  pub and_then-Holds :
      (s : FindingStore) (p : Progress) (m n : ℕ) (before after : Expected)
      (k : Progress → FindingStore → Outcome Progress) (o : Outcome Progress)
      → Holds s p m before o
      → ((q : Progress) (t : FindingStore)
          → Recorded s p m before.0 t q
          → Holds t q n after (k q t))
      → Holds s p (m + n) (followed_by before after) (and_then k o)
  and_then-Holds s p m n (rows, none) after k (t, err e) (kept, end) f = cc
  and_then-Holds s p m n (rows, some x) after k (t, err e) h f = h
  and_then-Holds s p m n (rows, some x) after k (t, ok q) (kept, end) f = cc
  and_then-Holds s p m n (rows, none) (more, end) k (t, ok q) (h, done_here) f =
      joined (k q t) (f q t h)
    where
      joined :
          (o : Outcome Progress)
          → Holds t q n (more, end) o
          → Holds s p (m + n) (rows ++ more, end) o
      joined (u, err e) (g, last) = (Kept-trans s t u rows more h.written g, last)
      joined (u, ok r) (g, last) = (Recorded-trans s t u p q r m n rows more h g, last)

  map-stored :
      (invoice_id doc_hash spec_version ruleset_hash : Text) (o : Verdict)
      (fs : List ContractFinding)
      → map persisted_of (
          map
            (stored_finding sha256 expires_at input invoice_id doc_hash spec_version ruleset_hash)
            (map (finding_row doc_hash o) fs))
        ≡ map (finding_row doc_hash o) fs
  map-stored i d v h o [] = refl
  map-stored i d v h o (f ∷ fs) = ap (λ t. finding_row d o f ∷ t) (map-stored i d v h o fs)

  stored-rows_of :
      (invoice_id doc_hash spec_version ruleset_hash : Text) (o : Verdict)
      (fs : List ContractFinding)
      → map persisted_of (
          map
            (stored_finding sha256 expires_at input invoice_id doc_hash spec_version ruleset_hash)
            (rows_of doc_hash o fs))
        ≡ rows_of doc_hash o fs
  stored-rows_of i d v h o [] = refl
  stored-rows_of i d v h o (f ∷ fs) = map-stored i d v h o (f ∷ fs)

  stored-IsOwn :
      (invoice_id doc_hash spec_version ruleset_hash : Text) (rows : List PersistedFinding)
      → All IsOwn (
          map
            (stored_finding sha256 expires_at input invoice_id doc_hash spec_version ruleset_hash)
            rows)
  stored-IsOwn i d v h [] = tt
  stored-IsOwn i d v h (r ∷ rows) = ((refl, refl, refl), stored-IsOwn i d v h rows)

  pub record_reply-Holds :
      (l : LoadedInvoice) (reply : Reply) (p : Progress) (s : FindingStore)
      → Holds s p 1
          (of_reply sidecar enqueue sha256 expires_at input l reply)
          (record_reply sidecar enqueue sha256 expires_at input l reply p s)
  unfolding write_findings
  record_reply-Holds l (failed e) p s = (nothing-Kept s, refl)
  record_reply-Holds l parse_failed p s = (
    record {
      written = record { new = []; kept = sym (append-nil s.findings); stored = refl; own = tt };
      reported = sym (append-nil p.persisted);
      counted = omega arith;
      invoices_same = refl;
      lines_same = refl;
    },
    refl,
  )
  record_reply-Holds l (answered response) p s = (
    record {
      written = record {
        new =
            map
              (stored_finding sha256 expires_at input l.invoice_id l.doc_hash response.spec_version
                response.ruleset_hash)
              (rows_of l.doc_hash response.outcome response.findings);
        kept = refl;
        stored =
            stored-rows_of l.invoice_id l.doc_hash response.spec_version response.ruleset_hash
              response.outcome response.findings;
        own = stored-IsOwn l.invoice_id l.doc_hash response.spec_version response.ruleset_hash _;
      };
      reported = refl;
      counted = omega (arith, length-append p.documents (_ ∷ []));
      invoices_same = refl;
      lines_same = refl;
    },
    refl,
  )
