-- ===== src/Ingestion/Normalise/Documents.antt =====
-- apps/web/modules/ingestion/normalise.ts: the rows that writeDocuments leaves.
use compliance_data_layer.Base.{ℕ, ◌+◌, ◌≡◌, List, [], ◌∷◌, ◌++◌, length, none}
use compliance_data_layer.Base.Texts.{Text, codes}
use compliance_data_layer.Schema.{Invoice, InvoiceLine, ar}
use compliance_data_layer.Ingestion.Normalise.{CanonicalLine, CanonicalDoc, NormaliseInput}

module _ (doc_hash : CanonicalDoc → Text) (expires_at : ℕ) (input : NormaliseInput) where
  -- A stored line: it names its invoice, and has what the document says on the line.
  pub record IsLine (id : Text) (line : CanonicalLine) (row : InvoiceLine) : Type 0 where
    pub of_invoice : row.invoice_id ≡ id
    pub of_tenant : row.tenant_id ≡ input.tenant_id
    pub same_number : row.line_number ≡ line.line_number
    pub same_description : row.description ≡ line.description
    pub same_quantity : row.quantity ≡ line.quantity
    pub same_unit : row.unit_code ≡ line.unit_code
    pub same_amount : row.net_amount_minor ≡ line.net_amount_minor
    pub same_category : row.tax_category_code ≡ line.tax_category_code
    pub same_rate : row.tax_rate ≡ line.tax_rate
    pub kept_until : row.expires_at ≡ expires_at

  -- A stored invoice: whose it is, and what the document says.
  pub record IsInvoice (id : Text) (doc : CanonicalDoc) (row : Invoice) : Type 0 where
    pub has_id : row.id ≡ id
    pub of_tenant : (row.tenant_id ≡ input.tenant_id) × (row.entity_id ≡ input.entity_id)
    pub of_run : row.run_id ≡ input.run_id
    pub outgoing : row.direction ≡ ar
    pub hashed : row.doc_hash ≡ doc_hash doc
    pub same_type : (row.doc_type ≡ doc.doc_type) × (row.scenario ≡ doc.scenario)
    pub same_number : row.invoice_number ≡ doc.invoice_number
    pub same_date : row.issue_date ≡ doc.issue_date ++ codes "T00:00:00Z"
    pub same_currency : row.currency ≡ doc.currency
    pub same_parties :
        (row.buyer_name ≡ doc.buyer_name)
        × (row.buyer_trn ≡ doc.buyer_trn)
        × (row.seller_trn ≡ doc.seller_trn)
    pub same_predecessor : row.predecessor_ref ≡ doc.predecessor_ref
    pub same_amounts :
        (row.line_extension_minor ≡ doc.line_extension_minor)
        × (row.tax_amount_minor ≡ doc.tax_amount_minor)
        × (row.payable_minor ≡ doc.payable_minor)
    pub same_flags :
        (row.has_allowance_charge ≡ doc.has_allowance_charge)
        × (row.has_multi_tax_rate ≡ doc.has_multi_tax_rate)
    pub counted : row.line_count ≡ length doc.lines
    pub not_mapped : row.mapped_payload ≡ none
    pub kept_until : row.expires_at ≡ expires_at

  -- The rows are those of the lines, one for one and in order.
  pub data AreLines (id : Text) : List CanonicalLine → List InvoiceLine → Type 0 where
    no_lines : AreLines id [] []
    a_line :
        {l : CanonicalLine} {ls : List CanonicalLine} {r : InvoiceLine} {rs : List InvoiceLine}
        → IsLine id l r
        → AreLines id ls rs
        → AreLines id (l ∷ ls) (r ∷ rs)

  -- The rows of documents: for each, under the id that the database gives its invoice, one invoice and
  -- the lines of that invoice.
  pub data AreWritten (new_id : ℕ → Text)
      : ℕ → List CanonicalDoc → List Invoice → List InvoiceLine → List Text → Type 0 where
    nothing : {n : ℕ} → AreWritten new_id n [] [] [] []
    document :
        {n : ℕ} {d : CanonicalDoc} {ds : List CanonicalDoc} {i : Invoice} {is : List Invoice}
        {own ls : List InvoiceLine} {ids : List Text}
        → IsInvoice (new_id n) d i
        → AreLines i.id d.lines own
        → AreWritten new_id (n + 1) ds is ls ids
        → AreWritten new_id n (d ∷ ds) (i ∷ is) (own ++ ls) (i.id ∷ ids)
