-- ===== src/Jobs/Ledger/Tests.antt =====
-- apps/web/jobs/idempotent.ts on one run.
use compliance_data_layer.Base.{
  ℕ, ◌≤◌, ◌≡◌, ◌≢◌, ◌↔◌, ◌⊎◌, refl, true, false, [], ◌∷◌, none, some, ok, arith, length,
}
use compliance_data_layer.Base.Texts.{Text, codes, text_eq}
use compliance_data_layer.Jobs.Registry.{job_text, validate_run}
use compliance_data_layer.Jobs.Ledger.{
  running, completed, Row, Table, claim_row, complete_row, put, done, skipped, Surroundings,
  idempotent,
}
use compliance_data_layer.Jobs.Ledger.Once.{claim_row-eq-none_iff, idempotent_rerun}
use compliance_data_layer.Jobs.Ledger.Leases.{System, start, live, claimed, Reach, here, next}
use compliance_data_layer.Jobs.Ledger.Exclusion.{live_at_most_one, stale_failure_overlaps}

abbrev running_row : Row
running_row = record {
  tenant_id = some (codes "t1");
  status = running;
  attempt = 1;
  lease_until = 900;
  started_at = 0;
  finished_at = none;
  output_hash = none;
  error = none;
}

abbrev empty_table : Table
empty_table name run = none

-- A body that returns 7 and leaves the table as it is.
abbrev quiet : Surroundings Text ℕ
quiet = record {
  meanwhile = λ t. t;
  body = λ t. (t, 5, ok 7);
  hash_of = λ a. none;
  serialise_error = λ e. e;
}

abbrev run : Text
run = codes "r1"

abbrev after_first : Table
after_first = (idempotent quiet validate_run run 0 900 none empty_table).0

first_done : (idempotent quiet validate_run run 0 900 none empty_table).1 ≡ done 7
unfolding idempotent claim_row
first_done = refl

first_kept : after_first validate_run run ≢ none
unfolding idempotent claim_row complete_row put text_eq job_text
first_kept = λ e. cc

claim_row-eq-none_iff_example :
    (claim_row 900 1800 none (some running_row) ≡ none)
    ↔ ((running ≡ completed) ⊎ ((running ≡ running) × (900 ≤ 900)))
claim_row-eq-none_iff_example = claim_row-eq-none_iff 900 1800 none running_row

idempotent_rerun_example :
    idempotent quiet validate_run run 60 900 none after_first ≡ (after_first, skipped)
idempotent_rerun_example =
    idempotent_rerun quiet quiet validate_run run 0 60 900 900 none none empty_table after_first 7
      first_done first_kept refl refl

abbrev first_claim : Row
first_claim = record {
  tenant_id = none;
  status = running;
  attempt = 1;
  lease_until = 900;
  started_at = 10;
  finished_at = none;
  output_hash = none;
  error = none;
}

abbrev one_call : System
one_call = record { now = 10; row = some first_claim; active = 900 ∷ [] }

one_call_reached : Reach true (start 0) one_call
unfolding claim_row
one_call_reached = next here (claimed (start 0) 10 900 none first_claim (omega arith) refl)

live_at_most_one_example : length (live one_call.now one_call.active) ≤ 1
live_at_most_one_example = live_at_most_one 0 one_call_reached

-- The call with the lease 900 has been taken over by one with the lease 1800.
abbrev taken_over : System
taken_over = record { now = 1000; row = some running_row; active = 1800 ∷ 900 ∷ [] }

stale_failure_overlaps_example :
    (t : System) × Reach false taken_over t × (2 ≤ length (live t.now t.active))
stale_failure_overlaps_example =
    stale_failure_overlaps taken_over running_row 900 1800 1900 refl refl (omega arith)
      (omega arith) (omega arith)
