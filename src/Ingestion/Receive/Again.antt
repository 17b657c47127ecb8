-- ===== src/Ingestion/Receive/Again.antt =====
-- apps/web/modules/ingestion/receive.ts, receiveDocument: the rows of documents that were received before.
use compliance_data_layer.Base.{
  ℕ, ◌<◌, ◌≡◌, ◌⊎◌, true, List, [], ◌∷◌, ◌++◌, none, some, is_some, Result, ok, err,
}
use compliance_data_layer.Base.Texts.{Text, one_of}
use compliance_data_layer.Schema.{RawDocument}
use compliance_data_layer.Ingestion.Receive.{
  ReceiveInput, ReceiveResult, SealedBlob, ReceiveStore, find_duplicate, Received,
}

-- Two rows of one tenant with the same checksum, both kept at a time.
pub record Clash (now : ℕ) (r q : RawDocument) : Type 0 where
  pub same_tenant : r.tenant_id ≡ q.tenant_id
  pub same_checksum : r.checksum ≡ q.checksum
  pub both_kept : (now < r.expires_at) × (now < q.expires_at)

abbrev pub ClashesWithNone : ℕ → RawDocument → List RawDocument → Type 0
ClashesWithNone now r [] = Unit
ClashesWithNone now r (q ∷ qs) = (¬ Clash now r q) × ClashesWithNone now r qs

-- No two rows of the table clash.
abbrev pub IsUnique : ℕ → List RawDocument → Type 0
IsUnique now [] = Unit
IsUnique now (r ∷ rs) = ClashesWithNone now r rs × IsUnique now rs

module _ (sha256 : Text → Text) (seal : Text → Text → SealedBlob)
    (enqueue : ReceiveResult → Result Text (Unit {0})) where
  -- What a reception leaves: nothing of a failed one in the tables; of a repeated one no row and no object;
  -- else one row, and the object that the row names.
  abbrev pub IsReceived : ReceiveInput → ℕ → ReceiveStore → Received sha256 seal enqueue → Type 0
  IsReceived input now s (s', err e) = s'.client_data ≡ s.client_data
  IsReceived input now s (s', ok r) =
      ((old : RawDocument) × (find_duplicate input.tenant_id r.checksum now
            s.client_data.raw_documents
          ≡ some old)
        × (r.duplicate_of ≡ some old.id)
        × (s'.client_data.raw_documents ≡ s.client_data.raw_documents)
        × (s'.objects ≡ s.objects))
      ⊎ ((row : RawDocument) × (r.duplicate_of ≡ none)
          × (row.id ≡ r.raw_document_id)
          × (s'.client_data.raw_documents ≡ s.client_data.raw_documents ++ row ∷ [])
          × (is_some (one_of s'.objects row.storage_key) ≡ true))

  abbrev Leaves : ReceiveInput → ℕ → ReceiveStore → Received sha256 seal enqueue → Type 0
  Leaves input now s o = IsUnique now o.0.client_data.raw_documents × IsReceived input now s o
