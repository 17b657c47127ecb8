-- ===== src/Jobs/Handler/Routing.antt =====
-- apps/web/jobs/_handler.ts: redelivery of a job that returned, and a job that cannot succeed.
use compliance_data_layer.Base.{
  ℕ, ◌+◌, ◌*◌, ◌≡◌, refl, sym, ap, subst, ◌∙◌, List, [], ◌∷◌, ◌++◌, Option, none, some, or_else,
  Result, ok, err,
}
use compliance_data_layer.Base.Texts.{Text}
use compliance_data_layer.Jobs.Registry.{JobName, queue_spec}
use compliance_data_layer.Jobs.Ledger.{
  Table, Row, failed, threw, idempotent, claim_row, fail_row, put, after_claim, settle,
}
use compliance_data_layer.Jobs.Ledger.Once.{put_self}
use compliance_data_layer.Jobs.Handler.{
  Job, Thrown, unrecoverable, DeadLetter, State, Handler, Returned, undefined_result, send_to,
  route_to_dead_letter, surroundings, after_idempotent, run_payload, work,
}

module _ {Data A : Type 0} (handler : Handler Data A) where
  send_to-same :
      (sink : Option JobName) (job : Job Data) (message : Text) (st : State Data)
      → ((send_to handler sink job message st).cancelled ≡ st.cancelled)
        × ((send_to handler sink job message st).table ≡ st.table)
  send_to-same none job message st = (refl, refl)
  send_to-same (some sink) job message st = (refl, refl)

  -- What the queue has been sent: nothing where there is no sink, else one message with the data of the
  -- job and the error.
  abbrev pub IsSent :
      Option JobName → Data → Text → List (DeadLetter Data) → List (DeadLetter Data) → Type 0
  IsSent none content message before after = after ≡ before
  IsSent (some sink) content message before after =
      after ≡ before ++ record { sink = sink; content = content; error = message } ∷ []

  send_to-IsSent :
      (sink : Option JobName) (job : Job Data) (message : Text) (st : State Data)
      → IsSent sink job.content message st.sent (send_to handler sink job message st).sent
  send_to-IsSent none job message st = refl
  send_to-IsSent (some sink) job message st = refl

  -- A row that a failure has ended: it keeps what it had, but for its status, its end and its error.
  abbrev pub IsFailed : ℕ → Text → Option Row → Option Row → Type 0
  IsFailed later message none after = after ≡ none
  IsFailed later message (some row) after =
      after ≡ some (record row { status = failed; finished_at = some later; error = some message })

  fail_row-IsFailed :
      (later : ℕ) (message : Text) (row : Option Row)
      → IsFailed later message row (fail_row later message row)
  unfolding fail_row
  fail_row-IsFailed later message none = refl
  fail_row-IsFailed later message (some row) = refl

  -- A deterministic failure is not retried: where the claim succeeds and the body throws an
  -- `UnrecoverableError`, `work` returns instead of throwing, and the job is cancelled. Where its queue has a
  -- dead-letter queue, one message goes there, with the data of the job and the text of the error, and else
  -- none. The row that the body left, if it left one, is failed at the time at which the body ended, with
  -- that text, and is otherwise the same.
  pub work-unrecoverable :
      (now later : ℕ) (job : Job Data) (payload : handler.Payload) (st : State Data) (row : Row)
      (table : Table) (message : Text)
      → handler.parse job.content ≡ some payload
      → claim_row now
          (now + (queue_spec handler.name).expire_in_seconds * 1000)
          (handler.base payload).tenant_id
          (st.table handler.name (handler.base payload).run_id)
        ≡ some row
      → handler.body payload
          (or_else (handler.base payload).trace_id job.id)
          (put handler.name (handler.base payload).run_id (some row) st.table)
        ≡ (table, later, err (unrecoverable message))
      → ((work handler now (some job) st).1 ≡ ok undefined_result)
        × ((work handler now (some job) st).0.cancelled
            ≡ st.cancelled ++ (handler.name, job.id) ∷ [])
        × IsSent
            (queue_spec handler.name).dead_letter
            job.content
            message
            st.sent
            (work handler now (some job) st).0.sent
        × IsFailed later message
            (table handler.name (handler.base payload).run_id)
            ((work handler now (some job) st).0.table handler.name (handler.base payload).run_id)
  unfolding work idempotent route_to_dead_letter
  work-unrecoverable now later job payload st row table message parsed claimed thrown =
      let run = (handler.base payload).run_id in
      let lease = now + (queue_spec handler.name).expire_in_seconds * 1000 in
      let failed_table =
        put handler.name run (fail_row later message (table handler.name run)) table in
      let idle : idempotent (surroundings handler payload job) handler.name run now
            (queue_spec handler.name).expire_in_seconds (handler.base payload).tenant_id st.table
          ≡ (failed_table, threw (unrecoverable message)) =
        ap (after_claim (surroundings handler payload job) handler.name run st.table) claimed
        ∙ ap (settle (surroundings handler payload job) handler.name run) thrown in
      let ends =
        ap (λ (o : Option handler.Payload). run_payload handler now job st o) parsed
        ∙ ap (after_idempotent handler job st) idle in
      let sink = (queue_spec handler.name).dead_letter in
      let moved : State Data = record st { table = failed_table } in
      let (cancels, writes) = send_to-same sink job message moved in
      (
        ap (λ (r : State Data × Result Thrown (Returned A)). r.1) ends,
        ap (λ (r : State Data × Result Thrown (Returned A)). r.0.cancelled) ends
            ∙ ap (λ l. l ++ (handler.name, job.id) ∷ []) cancels,
        subst (λ l. IsSent sink job.content message st.sent l)
            (sym (ap (λ (r : State Data × Result Thrown (Returned A)). r.0.sent) ends))
            (send_to-IsSent sink job message moved),
        subst (λ r. IsFailed later message (table handler.name run) r)
            (sym (
              ap (λ (r : State Data × Result Thrown (Returned A)). r.0.table handler.name run) ends
              ∙ ap (λ (t : Table). t handler.name run) writes
              ∙ put_self handler.name run (fail_row later message (table handler.name run)) table))
            (fail_row-IsFailed later message (table handler.name run)),
      )
