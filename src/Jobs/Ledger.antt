-- ===== src/Jobs/Ledger.antt =====
-- apps/web/jobs/idempotent.ts: the execution ledger `app.job_execution` and the rule that a run is
-- executed once. Times are milliseconds of one clock: the code takes the lease from the clock of the
-- process and compares it with the clock of the database. A table is a function from its unique key.
pub mod Once
pub mod Leases
pub mod Exclusion
mod Tests
use compliance_data_layer.Base.{
  ℕ, ◌+◌, ◌*◌, ◌≡◌, Bool, true, false, ◌&&◌, List, [], ◌∷◌, Option, none, some, Result, ok, err,
  ltb, if◌then◌else◌,
}
use compliance_data_layer.Base.Texts.{Text, text_eq}
use compliance_data_layer.Jobs.Registry.{JobName, job_text}

pub data Status : Type 0 where
  running completed failed : Status

pub record Row : Type 0 where
  pub tenant_id : Option Text
  pub status : Status
  pub attempt : ℕ
  pub lease_until : ℕ
  pub started_at : ℕ
  pub finished_at : Option ℕ
  pub output_hash : Option Text
  pub error : Option Text

abbrev pub Table : Type 0
Table = JobName → Text → Option Row

-- The condition of `ON CONFLICT … DO UPDATE … WHERE`.
abbrev pub is_claimable : ℕ → Row → Bool
is_claimable now row = elim row.status [
  | failed ↦ true
  | running ↦ ltb row.lease_until now
  | completed ↦ false
]

-- The row that the one statement leaves, or `none` where it returns no row.
unfoldable pub claim_row : ℕ → ℕ → Option Text → Option Row → Option Row
claim_row now lease tenant none = some (record {
  tenant_id = tenant;
  status = running;
  attempt = 1;
  lease_until = lease;
  started_at = now;
  finished_at = none;
  output_hash = none;
  error = none;
})
claim_row now lease tenant (some row) =
    if is_claimable now row
    then some (record row {
      status = running;
      attempt = row.attempt + 1;
      lease_until = lease;
      started_at = now;
    })
    else none

-- `UPDATE app.job_execution … WHERE job_name AND run_id` at the end, whoever holds the row by then.
unfoldable pub complete_row : ℕ → Option Text → Option Row → Option Row
complete_row now hash none = none
complete_row now hash (some row) =
    some (record row { status = completed; finished_at = some now; output_hash = hash })

unfoldable pub fail_row : ℕ → Text → Option Row → Option Row
fail_row now text none = none
fail_row now text (some row) =
    some (record row { status = failed; finished_at = some now; error = some text })

-- A write to one key of the table.
unfoldable pub put : JobName → Text → Option Row → Table → Table
put name run row table name' run' =
    if text_eq (job_text name) (job_text name') && text_eq run run' then row else table name' run'

pub data Outcome (E A : Type 0) : Type 0 where
  done : A → Outcome E A
  skipped lease_held : Outcome E A
  threw : E → Outcome E A

-- What happens around the statements of one call: `meanwhile` is what other workers do to the table
-- between the claim and the look at a refused row, and `body` runs `fn` and ends at a later time.
pub record Surroundings (E A : Type 0) : Type 0 where
  pub meanwhile : Table → Table
  pub body : Table → Table × ℕ × Result E A
  pub hash_of : A → Option Text
  pub serialise_error : E → Text

abbrev pub refused : {E A : Type 0} → Option Row → Outcome E A
refused none = lease_held
refused (some row) = elim row.status [ completed ↦ skipped | _ ↦ lease_held ]

module _ {E A : Type 0} (world : Surroundings E A) (name : JobName) (run : Text) where
  abbrev pub settle : Table × ℕ × Result E A → Table × Outcome E A
  settle (table, now, ok a) =
      (put name run (complete_row now (world.hash_of a) (table name run)) table, done a)
  settle (table, now, err e) =
      (put name run (fail_row now (world.serialise_error e) (table name run)) table, threw e)

  abbrev pub after_claim : Table → Option Row → Table × Outcome E A
  after_claim table none = let later = world.meanwhile table in (later, refused (later name run))
  after_claim table (some row) = settle (world.body (put name run (some row) table))

  unfoldable pub idempotent : ℕ → ℕ → Option Text → Table → Table × Outcome E A
  idempotent now lease_seconds tenant table =
      after_claim table (claim_row now (now + lease_seconds * 1000) tenant (table name run))
