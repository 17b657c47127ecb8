-- ===== src/Jobs/Registry.antt =====
-- apps/web/jobs/registry.ts: the queues and their settings, and the list of handlers of
-- jobs/handlers/index.ts.
pub mod Coverage
mod Tests
use compliance_data_layer.Base.{ℕ, ◌≡◌, Bool, true, false, List, [], ◌∷◌, Option, none, some}
use compliance_data_layer.Base.Texts.{Text, codes}

pub data JobName : Type 0 where
  ingest_receive ingest_normalise map_apply validate_run corpus_record corpus_record_dlq
        report_generate notify_deliver data_purge ap_receive ap_match ap_respond supplier_score
        ledger_ingest vat_ingest reconcile_run assurance_score evidence_pack :
      JobName

unfoldable pub job_text : JobName → Text
job_text ingest_receive = codes "ingest.receive"
job_text ingest_normalise = codes "ingest.normalise"
job_text map_apply = codes "map.apply"
job_text validate_run = codes "validate.run"
job_text corpus_record = codes "corpus.record"
job_text corpus_record_dlq = codes "corpus.record.dlq"
job_text report_generate = codes "report.generate"
job_text notify_deliver = codes "notify.deliver"
job_text data_purge = codes "data.purge"
job_text ap_receive = codes "ap.receive"
job_text ap_match = codes "ap.match"
job_text ap_respond = codes "ap.respond"
job_text supplier_score = codes "supplier.score"
job_text ledger_ingest = codes "ledger.ingest"
job_text vat_ingest = codes "vat.ingest"
job_text reconcile_run = codes "reconcile.run"
job_text assurance_score = codes "assurance.score"
job_text evidence_pack = codes "evidence.pack"

pub data Milestone : Type 0 where
  m1 m2 m6 m7 : Milestone

-- `sinkOnly` and the other optional members are `false` or `none` where they are left out.
pub record QueueSpec : Type 0 where
  pub retry_limit : ℕ
  pub retry_backoff : Bool
  pub retry_delay : ℕ
  pub expire_in_seconds : ℕ
  pub singleton : Bool
  pub dead_letter : Option JobName
  pub sink_only : Bool
  pub planned_for : Option Milestone

-- `QUEUES`
pub queue_spec : JobName → QueueSpec
queue_spec ingest_receive = record {
  retry_limit = 3;
  retry_backoff = true;
  retry_delay = 30;
  expire_in_seconds = 900;
  singleton = false;
  dead_letter = none;
  sink_only = false;
  planned_for = none;
}
queue_spec ingest_normalise = record {
  retry_limit = 3;
  retry_backoff = true;
  retry_delay = 30;
  expire_in_seconds = 1800;
  singleton = false;
  dead_letter = none;
  sink_only = false;
  planned_for = none;
}
queue_spec map_apply = record {
  retry_limit = 2;
  retry_backoff = true;
  retry_delay = 30;
  expire_in_seconds = 900;
  singleton = false;
  dead_letter = none;
  sink_only = false;
  planned_for = none;
}
queue_spec validate_run = record {
  retry_limit = 5;
  retry_backoff = true;
  retry_delay = 15;
  expire_in_seconds = 1800;
  singleton = false;
  dead_letter = none;
  sink_only = false;
  planned_for = none;
}
queue_spec corpus_record = record {
  retry_limit = 2_147_483_647;
  retry_backoff = true;
  retry_delay = 10;
  expire_in_seconds = 300;
  singleton = false;
  dead_letter = some corpus_record_dlq;
  sink_only = false;
  planned_for = none;
}
queue_spec corpus_record_dlq = record {
  retry_limit = 0;
  retry_backoff = false;
  retry_delay = 0;
  expire_in_seconds = 300;
  singleton = false;
  dead_letter = none;
  sink_only = true;
  planned_for = none;
}
queue_spec report_generate = record {
  retry_limit = 3;
  retry_backoff = true;
  retry_delay = 60;
  expire_in_seconds = 1800;
  singleton = false;
  dead_letter = none;
  sink_only = false;
  planned_for = some m2;
}
queue_spec notify_deliver = record {
  retry_limit = 5;
  retry_backoff = true;
  retry_delay = 60;
  expire_in_seconds = 300;
  singleton = false;
  dead_letter = none;
  sink_only = false;
  planned_for = some m2;
}
queue_spec data_purge = record {
  retry_limit = 3;
  retry_backoff = true;
  retry_delay = 300;
  expire_in_seconds = 3600;
  singleton = true;
  dead_letter = none;
  sink_only = false;
  planned_for = some m2;
}
queue_spec ap_receive = record {
  retry_limit = 3;
  retry_backoff = true;
  retry_delay = 30;
  expire_in_seconds = 900;
  singleton = false;
  dead_letter = none;
  sink_only = false;
  planned_for = some m6;
}
queue_spec ap_match = record {
  retry_limit = 3;
  retry_backoff = true;
  retry_delay = 30;
  expire_in_seconds = 900;
  singleton = false;
  dead_letter = none;
  sink_only = false;
  planned_for = some m6;
}
queue_spec ap_respond = record {
  retry_limit = 20;
  retry_backoff = true;
  retry_delay = 60;
  expire_in_seconds = 300;
  singleton = false;
  dead_letter = none;
  sink_only = false;
  planned_for = some m6;
}
queue_spec supplier_score = record {
  retry_limit = 3;
  retry_backoff = true;
  retry_delay = 300;
  expire_in_seconds = 1800;
  singleton = true;
  dead_letter = none;
  sink_only = false;
  planned_for = some m6;
}
queue_spec ledger_ingest = record {
  retry_limit = 3;
  retry_backoff = true;
  retry_delay = 30;
  expire_in_seconds = 1800;
  singleton = false;
  dead_letter = none;
  sink_only = false;
  planned_for = some m7;
}
queue_spec vat_ingest = record {
  retry_limit = 3;
  retry_backoff = true;
  retry_delay = 30;
  expire_in_seconds = 900;
  singleton = false;
  dead_letter = none;
  sink_only = false;
  planned_for = some m7;
}
queue_spec reconcile_run = record {
  retry_limit = 3;
  retry_backoff = true;
  retry_delay = 120;
  expire_in_seconds = 3600;
  singleton = false;
  dead_letter = none;
  sink_only = false;
  planned_for = some m7;
}
queue_spec assurance_score = record {
  retry_limit = 3;
  retry_backoff = true;
  retry_delay = 60;
  expire_in_seconds = 900;
  singleton = false;
  dead_letter = none;
  sink_only = false;
  planned_for = some m7;
}
queue_spec evidence_pack = record {
  retry_limit = 2;
  retry_backoff = true;
  retry_delay = 300;
  expire_in_seconds = 3600;
  singleton = false;
  dead_letter = none;
  sink_only = false;
  planned_for = some m7;
}

-- `HANDLERS`, in pipeline order
abbrev pub handlers : List JobName
handlers = ingest_receive ∷ ingest_normalise ∷ map_apply ∷ validate_run ∷ corpus_record ∷ []
