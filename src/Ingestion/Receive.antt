-- ===== src/Ingestion/Receive.antt =====
-- apps/web/modules/ingestion/receive.ts, retention.ts and run.ts: the upload of a file and its reception. The
-- hash, the sealing of bytes, the time, the ids of the database and the enqueuer are parameters; the object
-- store is a list of keys with their bytes, which a transaction that throws does not take back.
pub mod Again
mod Tests
use compliance_data_layer.Base.{
  ℕ, ◌+◌, ◌*◌, Bool, true, false, ◌&&◌, List, [], ◌∷◌, ◌++◌, map, length, Option, none, some,
  Result, ok, err, ltb, if◌then◌else◌,
}
use compliance_data_layer.Base.Texts.{Text, codes, text_eq, one_of}
use compliance_data_layer.Schema.{ClientData, IngestionRun, RawDocument, received, normalising}
use compliance_data_layer.Tenancy.{TenantAccess, log_access, with_tenant_access}

abbrev pub day_ms : ℕ
day_ms = 24 * 60 * 60 * 1000

abbrev pub raw_retention_days : ℕ
raw_retention_days = 90

unfoldable pub expires_in_ninety_days : ℕ → ℕ
expires_in_ninety_days from = from + raw_retention_days * day_ms

pub record ReceiveInput : Type 0 where
  pub run_id : Text
  pub tenant_id : Text
  pub entity_id : Text
  pub actor_id : Text
  pub staging_key : Text
  pub mime_type : Text
  pub trace_id : Option Text

pub record ReceiveResult : Type 0 where
  pub raw_document_id : Text
  pub checksum : Text
  pub storage_key : Text
  pub size_bytes : ℕ
  pub duplicate_of : Option Text

pub record CreateIngestionRunInput : Type 0 where
  pub run_id : Text
  pub tenant_id : Text
  pub entity_id : Text
  pub actor_id : Text
  pub checksum : Text
  pub staging_key : Text
  pub trace_id : Option Text

pub record SealedBlob : Type 0 where
  pub ciphertext : Text
  pub encrypted_data_key : Text
  pub iv : Text

pub data ReceiveError : Type 0 where
  no_object : ReceiveError
  enqueue_failed : Text → ReceiveError

pub record ReceiveStore : Type 0 where
  pub client_data : ClientData
  pub objects : List (Text × Text)

-- `storageKeyFor`
abbrev pub storage_key_for : Text → Text → Text → Text
storage_key_for tenant_id run_id checksum =
    codes "tenant/" ++ tenant_id ++ codes "/run/" ++ run_id ++ codes "/" ++ checksum

-- The condition of the query for a duplicate.
abbrev pub is_duplicate : Text → Text → ℕ → RawDocument → Bool
is_duplicate tenant_id checksum now r =
    text_eq r.tenant_id tenant_id && text_eq r.checksum checksum && ltb now r.expires_at

unfoldable pub find_duplicate : Text → Text → ℕ → List RawDocument → Option RawDocument
find_duplicate tenant_id checksum now [] = none
find_duplicate tenant_id checksum now (r ∷ rs) =
    if is_duplicate tenant_id checksum now r
    then some r
    else find_duplicate tenant_id checksum now rs

abbrev pub enqueued : {A : Type 0} → Result Text (Unit {0}) → A → Result ReceiveError A
enqueued (err e) a = err (enqueue_failed e)
enqueued (ok u) a = ok a

-- `createIngestionRun`, in one transaction with its job.
unfoldable pub create_ingestion_run :
    Result Text (Unit {0})
    → ℕ
    → CreateIngestionRunInput
    → ClientData
    → Result ReceiveError (ClientData × Text)
unfolding expires_in_ninety_days
create_ingestion_run enqueue now input db =
    with_tenant_access
      (record {
        tenant_id = input.tenant_id;
        actor_id = input.actor_id;
        reason = codes "audit_delivery";
        trace_id = input.trace_id;
      })
      (λ (tx : ClientData). enqueued enqueue (
        record tx {
          runs =
              tx.runs
              ++ record {
                run_id = input.run_id;
                tenant_id = input.tenant_id;
                entity_id = input.entity_id;
                status = received;
                checksum = input.checksum;
                storage_key = input.staging_key;
                doc_count = none;
                readiness_score = none;
                expires_at = expires_in_ninety_days now;
              }
                ∷ [];
        },
        input.run_id,
      ))
      db

module _ (sha256 : Text → Text) (seal : Text → Text → SealedBlob)
    (enqueue : ReceiveResult → Result Text (Unit {0})) where
  abbrev pub advanced : ReceiveInput → Text → Text → IngestionRun → IngestionRun
  advanced input checksum storage_key r =
      if text_eq r.run_id input.run_id && text_eq r.tenant_id input.tenant_id
      then record r { status = normalising; checksum = checksum; storage_key = storage_key }
      else r

  -- `advanceRun`
  abbrev pub advance_run : ReceiveInput → Text → Text → ClientData → ClientData
  advance_run input checksum storage_key db = record db {
    runs = map (advanced input checksum storage_key) db.runs;
  }

  abbrev pub raw_document_row : ReceiveInput → Text → Text → ℕ → Text → RawDocument
  raw_document_row input id bytes now storage_key =
      let sealed = seal input.tenant_id bytes in
      record {
        id = id;
        tenant_id = input.tenant_id;
        run_id = input.run_id;
        storage_key = storage_key;
        checksum = sha256 bytes;
        mime_type = input.mime_type;
        size_bytes = length bytes;
        encrypted_data_key = sealed.encrypted_data_key;
        iv = sealed.iv;
        expires_at = expires_in_ninety_days now;
      }

  abbrev pub duplicate_result : Text → RawDocument → ReceiveResult
  duplicate_result checksum r = record {
    raw_document_id = r.id;
    checksum = checksum;
    storage_key = r.storage_key;
    size_bytes = r.size_bytes;
    duplicate_of = some r.id;
  }

  abbrev pub new_result : Text → Text → Text → ReceiveResult
  new_result id bytes storage_key = record {
    raw_document_id = id;
    checksum = sha256 bytes;
    storage_key = storage_key;
    size_bytes = length bytes;
    duplicate_of = none;
  }

  abbrev pub Received : Type 0
  Received = ReceiveStore × Result ReceiveError ReceiveResult

  -- The end of the transaction: an enqueuer that throws rolls its rows back.
  abbrev pub commit :
      ClientData
      → ClientData
      → List (Text × Text)
      → ReceiveResult
      → Result Text (Unit {0})
      → Received
  commit before after objects r (err e) =
      (record { client_data = before; objects = objects }, err (enqueue_failed e))
  commit before after objects r (ok u) = (record { client_data = after; objects = objects }, ok r)

  -- The body of the transaction, by what the query finds; tx is the database with the access logged.
  abbrev pub receive_as :
      ReceiveInput → Text → Text → ℕ → ReceiveStore → ClientData → Option RawDocument → Received
  receive_as input id bytes now s tx (some r) =
      let result = duplicate_result (sha256 bytes) r in
      commit s.client_data (advance_run input (sha256 bytes) r.storage_key tx) s.objects result
        (enqueue result)
  receive_as input id bytes now s tx none =
      let storage_key = storage_key_for input.tenant_id input.run_id (sha256 bytes) in
      let result = new_result id bytes storage_key in
      let inserted : ClientData = record tx {
        raw_documents = tx.raw_documents ++ raw_document_row input id bytes now storage_key ∷ [];
      } in
      commit s.client_data (advance_run input (sha256 bytes) storage_key inserted)
        ((storage_key, (seal input.tenant_id bytes).ciphertext) ∷ s.objects) result (enqueue result)

  abbrev pub receive_bytes : ReceiveInput → Text → ℕ → ReceiveStore → Option Text → Received
  receive_bytes input id now s none = (s, err no_object)
  receive_bytes input id now s (some bytes) =
      let tx : ClientData =
        log_access
          (record {
            tenant_id = input.tenant_id;
            actor_id = input.actor_id;
            reason = codes "scheduled_job";
            trace_id = input.trace_id;
          })
          s.client_data in
      receive_as input id bytes now s tx
        (find_duplicate input.tenant_id (sha256 bytes) now tx.raw_documents)

  -- The id of a row that the database may give, and the time, are arguments.
  unfoldable pub receive_document : ReceiveInput → Text → ℕ → ReceiveStore → Received
  unfolding find_duplicate expires_in_ninety_days
  receive_document input id now s =
      receive_bytes input id now s (one_of s.objects input.staging_key)
