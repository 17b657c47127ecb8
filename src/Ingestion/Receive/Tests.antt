-- ===== src/Ingestion/Receive/Tests.antt =====
-- receiveDocument on a file that is received twice.
use compliance_data_layer.Base.{◌≡◌, refl, [], ◌∷◌, none, some, Option, Result, ok, err}
use compliance_data_layer.Base.Texts.{Text, codes, text_eq, one_of}
use compliance_data_layer.Ingestion.Receive.{
  ReceiveInput, ReceiveResult, SealedBlob, ReceiveStore, Received, receive_document, find_duplicate,
  expires_in_ninety_days,
}

abbrev plain : Text → Text → SealedBlob
plain tenant bytes = record { ciphertext = bytes; encrypted_data_key = []; iv = [] }

abbrev sent : ReceiveResult → Result Text (Unit {0})
sent r = ok tt

abbrev same : Text → Text
same s = s

abbrev store : ReceiveStore
store = record {
  client_data = record {
    runs = [];
    raw_documents = [];
    invoices = [];
    lines = [];
    profiles = [];
    defects = [];
    access_log = [];
  };
  objects = (codes "up", codes "bytes") ∷ [];
}

abbrev input : ReceiveInput
input = record {
  run_id = codes "r";
  tenant_id = codes "t";
  entity_id = codes "e";
  actor_id = codes "u";
  staging_key = codes "up";
  mime_type = codes "text/csv";
  trace_id = none;
}

abbrev duplicate_in : Received same plain sent → Option Text
duplicate_in (s, ok r) = r.duplicate_of
duplicate_in (s, err e) = some (codes "err")

received_again :
    duplicate_in (
      receive_document same plain sent input
        (codes "d2")
        5
        (receive_document same plain sent input (codes "d1") 4 store).0)
    ≡ some (codes "d1")
unfolding receive_document find_duplicate expires_in_ninety_days text_eq one_of
received_again = refl
