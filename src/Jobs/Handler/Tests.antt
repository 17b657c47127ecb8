-- ===== src/Jobs/Handler/Tests.antt =====
-- apps/web/jobs/_handler.ts on the job of one run.
use compliance_data_layer.Base.{ℕ, ◌+◌, ◌*◌, ◌≡◌, refl, [], ◌∷◌, ◌++◌, none, some, ok, err}
use compliance_data_layer.Base.Texts.{Text, codes}
use compliance_data_layer.Jobs.Registry.{corpus_record, validate_run, queue_spec}
use compliance_data_layer.Jobs.Ledger.{Table, Row, running, claim_row, put}
use compliance_data_layer.Jobs.Handler.{
  BaseJobPayload, Job, unrecoverable, State, Handler, undefined_result, work,
}
use compliance_data_layer.Jobs.Handler.Routing.{IsSent, IsFailed, work-unrecoverable}

abbrev payload : BaseJobPayload
payload = record { run_id = codes "r1"; tenant_id = none; trace_id = none }

-- A handler that returns 7.
abbrev succeeding : Handler Text ℕ
succeeding = record {
  name = validate_run;
  Payload = BaseJobPayload;
  base = λ p. p;
  parse = λ d. some payload;
  body = λ p trace t. (t, 9, ok 7);
  meanwhile = λ t. t;
  hash_of = λ a. none;
}

-- A handler whose run cannot succeed.
abbrev failing : Handler Text ℕ
failing = record {
  name = corpus_record;
  Payload = BaseJobPayload;
  base = λ p. p;
  parse = λ d. some payload;
  body = λ p trace t. (t, 9, err (unrecoverable (codes "raw value")));
  meanwhile = λ t. t;
  hash_of = λ a. none;
}

abbrev job : Job Text
job = record { id = codes "j1"; content = codes "data" }

abbrev again : Job Text
again = record { id = codes "j2"; content = codes "data" }

abbrev fresh : State Text
fresh = record { table = λ name run. none; sent = []; cancelled = [] }

abbrev after_first : State Text
after_first = (work succeeding 0 (some job) fresh).0

abbrev claimed_row : Row
claimed_row = record {
  tenant_id = none;
  status = running;
  attempt = 1;
  lease_until = 5 + (queue_spec corpus_record).expire_in_seconds * 1000;
  started_at = 5;
  finished_at = none;
  output_hash = none;
  error = none;
}

abbrev claimed_table : Table
claimed_table = put corpus_record (codes "r1") (some claimed_row) fresh.table

is_claimed :
    claim_row 5 (5 + (queue_spec corpus_record).expire_in_seconds * 1000) none none
    ≡ some claimed_row
unfolding claim_row
is_claimed = refl

work-unrecoverable_example :
    ((work failing 5 (some job) fresh).1 ≡ ok undefined_result)
    × ((work failing 5 (some job) fresh).0.cancelled ≡ [] ++ (corpus_record, codes "j1") ∷ [])
    × IsSent failing
        (queue_spec corpus_record).dead_letter
        job.content
        (codes "raw value")
        []
        (work failing 5 (some job) fresh).0.sent
    × IsFailed failing 9
        (codes "raw value")
        (claimed_table corpus_record (codes "r1"))
        ((work failing 5 (some job) fresh).0.table corpus_record (codes "r1"))
work-unrecoverable_example =
    work-unrecoverable failing 5 9 job payload fresh claimed_row claimed_table (codes "raw value")
      refl is_claimed refl
