-- ===== src/Lib.antt =====
-- The data layer of an e-invoicing compliance service: client exports are received and normalised,
-- mapped under a confirmed profile, validated by a sidecar, and recorded in an append-only corpus.
-- Every stage is a job of a queue, run once for each run under a ledger of executions.
--
-- Parts, and the files of the repository that they model:
--   Base          numbers, lists, results, texts as lists of UTF-16 code units, decimal digits, and the
--                 members of an object literal read by a computed name.
--   Ingestion     Money: apps/web/modules/ingestion/money.ts (toMinor, tryToMinor, minorToDecimal).
--                 Shape: apps/web/modules/ingestion/shape.ts (valueShape). Normalise:
--                 apps/web/modules/ingestion/normalise.ts (writeDocuments, writeDefects and the second
--                 transaction of normaliseRun) on the documents of canonical.ts. Tabular:
--                 apps/web/modules/ingestion/extractors/tabular.ts (extractTabular). Receive: receive.ts
--                 (receiveDocument), with run.ts (createIngestionRun) and retention.ts.
--   Jobs          Registry: apps/web/jobs/registry.ts and jobs/handlers/index.ts. Ledger:
--                 apps/web/jobs/idempotent.ts. Drain: apps/web/jobs/drain.ts. Handler:
--                 apps/web/jobs/_handler.ts (defineHandler, routeToDeadLetter).
--   Schema        packages/db/schema/_shared.ts, client-data.ts and corpus.ts: unions and rows.
--   Tenancy       apps/web/modules/tenancy/with-tenant.ts and packages/db/transaction.ts.
--   Audit         Coverage: apps/web/modules/audit/coverage.ts (scenarioCoverage). Score: score.ts
--                 (readinessScore). Validate: validate.ts, its rows, Loading (loadCanonical) and Running
--                 (runValidation).
--   Mapping       Apply, Profile and SpecIdentifiers: apps/web/modules/mapping/apply.ts, profile.ts and
--                 spec-identifiers.ts. Ubl: ubl.ts (toUbl and its helpers), with a reader of XML and the
--                 tree of a document to compare the text with.
--   Seeding       packages/db/scripts/seed-rules.ts. Extract: extractRules, on the nodes of the parser.
--                 Plan: buildPlan. Writing: applyPlan.
--   Corpus        Patterns and Redaction: apps/web/modules/corpus/assert-redacted.ts. Recurrence:
--                 recurrence.ts. Record and Seed: record.ts (recordCorpus, seedSpecCatalogue).
--
-- How the parts meet: `Handler.work` calls `Ledger.idempotent` with the settings of `Registry`; the drain
-- takes the handlers as operations of its world; `Record.record_corpus` calls the scan of `Redaction` and
-- the key of `Recurrence`; `Apply` and `Profile` run inside `Tenancy.with_tenant_access`; `Validate` sends
-- the text of `Mapping.Ubl` and writes the key of `Recurrence`; `Seeding.Writing` fills the tables of
-- `Corpus.Record`; `Ingestion.Tabular` gives the documents that `Normalise` writes.
--
-- Conventions. A thrown error is the `err` of a `Result`; a transaction that throws has no state with it,
-- as it is rolled back. Tables are lists of rows, in the order of insertion; the ledger is a function from
-- its unique key. A query carries the conditions that the code writes. Doubles, hashes, clocks, ids of the
-- database, schemas of payloads, bodies of jobs and enqueuers are parameters. Texts that are compared with
-- the program's own are lists of code units; case mapping covers the letters of ASCII and those that map
-- into them.
--
-- Fuel. The while loop of the drain runs on fuel; more than the budget has milliseconds is enough, where a
-- fetch that brings a job takes a millisecond at least. Printing a number runs on the number itself as
-- fuel, and the slices of the ids of a validation run on the length of the list. All other loops are
-- structural.
--
-- Not modelled: the validator service (Python, with rulesets of third parties), pages and components,
-- authentication, logging, environment, storage, encryption, connections, migrations and generated types.
-- A reception is one step, though its query and its insertion may overlap with those of another; a line
-- number of a table is a whole number.
-- The other extractors, the hash of a document and the results of an audit are not modelled either.
pub mod Audit
pub mod Base
pub mod Corpus
pub mod Ingestion
pub mod Jobs
pub mod Mapping
pub mod Schema
pub mod Seeding
pub mod Tenancy
