-- ===== src/Jobs/Handler.antt =====
-- apps/web/jobs/_handler.ts: what surrounds the body of every job. The schema, the body and the hash of
-- its result are the handler's parameters; `boss.send` and `boss.cancel` are taken to succeed, and logging
-- is left out.
pub mod Routing
mod Tests
use compliance_data_layer.Base.{
  ℕ, ◌≡◌, Bool, true, false, List, [], ◌∷◌, ◌++◌, Option, none, some, or_else, Result, ok, err,
}
use compliance_data_layer.Base.Texts.{Text}
use compliance_data_layer.Jobs.Registry.{JobName, queue_spec}
use compliance_data_layer.Jobs.Ledger.{
  Table, Outcome, done, skipped, lease_held, threw, Surroundings, idempotent,
}

pub record BaseJobPayload : Type 0 where
  pub run_id : Text
  pub tenant_id : Option Text
  pub trace_id : Option Text

pub record Job (Data : Type 0) : Type 0 where
  pub id : Text
  pub content : Data

-- The errors of `work`, with their serialised texts: `LeaseHeld`, `UnrecoverableError` and the others.
pub data Thrown : Type 0 where
  lease_held_error empty_batch invalid_payload : Thrown
  unrecoverable other : Text → Thrown

abbrev pub serialise_error : Thrown → Text
serialise_error lease_held_error = []
serialise_error empty_batch = []
serialise_error invalid_payload = []
serialise_error (unrecoverable message) = message
serialise_error (other message) = message

-- A message to a dead-letter sink: the data of the job, with the error.
pub record DeadLetter (Data : Type 0) : Type 0 where
  pub sink : JobName
  pub content : Data
  pub error : Text

-- The ledger and what the queue has been told.
pub record State (Data : Type 0) : Type 0 where
  pub table : Table
  pub sent : List (DeadLetter Data)
  pub cancelled : List (JobName × Text)

-- `defineHandler(name, schema, body)`. `Payload` is the output of the schema, with the fields of the base
-- in it; `body` gets the payload and the trace id; `meanwhile` is what other
-- workers do to the ledger between a refused claim and the look at the row.
pub record Handler (Data A : Type 0) : Type 1 where
  pub name : JobName
  pub Payload : Type 0
  pub base : Payload → BaseJobPayload
  pub parse : Data → Option Payload
  pub body : Payload → Text → Table → Table × ℕ × Result Thrown A
  pub meanwhile : Table → Table
  pub hash_of : A → Option Text

pub data Returned (A : Type 0) : Type 0 where
  value : A → Returned A
  skipped_run undefined_result : Returned A

module _ {Data A : Type 0} (handler : Handler Data A) where
  abbrev pub send_to : Option JobName → Job Data → Text → State Data → State Data
  send_to none job error st = st
  send_to (some sink) job error st = record st {
    sent = st.sent ++ record { sink = sink; content = job.content; error = error } ∷ [];
  }

  unfoldable pub route_to_dead_letter : Job Data → Text → State Data → State Data
  route_to_dead_letter job error st =
      let st' = send_to (queue_spec handler.name).dead_letter job error st in
      record st' { cancelled = st'.cancelled ++ (handler.name, job.id) ∷ [] }

  abbrev pub surroundings : handler.Payload → Job Data → Surroundings Thrown A
  surroundings payload job = record {
    meanwhile = handler.meanwhile;
    body = handler.body payload (or_else (handler.base payload).trace_id job.id);
    hash_of = handler.hash_of;
    serialise_error = serialise_error;
  }

  abbrev pub after_error : Job Data → State Data → Thrown → State Data × Result Thrown (Returned A)
  after_error job st lease_held_error = (st, err lease_held_error)
  after_error job st (unrecoverable message) =
      (route_to_dead_letter job message st, ok undefined_result)
  after_error job st empty_batch = (st, err empty_batch)
  after_error job st invalid_payload = (st, err invalid_payload)
  after_error job st (other message) = (st, err (other message))

  abbrev pub after_idempotent :
      Job Data → State Data → Table × Outcome Thrown A → State Data × Result Thrown (Returned A)
  after_idempotent job st (table, done a) = (record st { table = table }, ok (value a))
  after_idempotent job st (table, skipped) = (record st { table = table }, ok skipped_run)
  after_idempotent job st (table, lease_held) = (record st { table = table }, err lease_held_error)
  after_idempotent job st (table, threw e) = after_error job (record st { table = table }) e

  abbrev pub run_payload :
      ℕ → Job Data → State Data → Option handler.Payload → State Data × Result Thrown (Returned A)
  run_payload now job st none = (st, err invalid_payload)
  run_payload now job st (some payload) = after_idempotent job st (
      idempotent (surroundings payload job) handler.name (handler.base payload).run_id now
        (queue_spec handler.name).expire_in_seconds (handler.base payload).tenant_id st.table)

  -- `work([job])`, called at the time `now`
  unfoldable pub work : ℕ → Option (Job Data) → State Data → State Data × Result Thrown (Returned A)
  unfolding route_to_dead_letter
  work now none st = (st, err empty_batch)
  work now (some job) st = run_payload now job st (handler.parse job.content)
