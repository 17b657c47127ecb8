-- ===== src/Jobs/Ledger/Once.antt =====
-- apps/web/jobs/idempotent.ts: a call on each kind of row.
use compliance_data_layer.Base.{
  ℕ, ◌+◌, ◌*◌, ◌≤◌, ◌≡◌, ◌≢◌, ◌↔◌, ◌⊎◌, refl, Option, none, some, Result, ok, err, arith, inl, inr,
  Option-cases, ap, ◌∙◌,
}
use compliance_data_layer.Base.Texts.{Text, text_eq_refl}
use compliance_data_layer.Jobs.Registry.{JobName, job_text}
use compliance_data_layer.Jobs.Ledger.{
  running, completed, Row, Table, claim_row, complete_row, put, done, skipped, Surroundings,
  idempotent, settle, after_claim, refused,
}

pub put_self :
    (name : JobName) (run : Text) (row : Option Row) (t : Table) → put name run row t name run ≡ row
unfolding put
put_self name run row t = rw (text_eq_refl (job_text name), text_eq_refl run)

-- The claim is refused exactly on a completed row and on a running row whose lease has not passed.
pub claim_row-eq-none_iff :
    (now lease : ℕ) (tenant : Option Text) (row : Row)
    → (claim_row now lease tenant (some row) ≡ none)
      ↔ ((row.status ≡ completed) ⊎ ((row.status ≡ running) × (now ≤ row.lease_until)))
unfolding claim_row
claim_row-eq-none_iff now lease tenant row = ground arith

refused-ne-done : {E A : Type 0} (row : Option Row) (a : A) → refused {E = E} row ≢ done a
refused-ne-done none a = cc
refused-ne-done (some row) a = ground arith

module _ {E A : Type 0} (world : Surroundings E A) (name : JobName) (run : Text) where
  settled-done :
      (end : Table × ℕ × Result E A) (a : A)
      → (settle world name run end).1 ≡ done a
      → (settle world name run end).0 name run ≢ none
      → (row : Row) × ((settle world name run end).0 name run ≡ some row) × (row.status ≡ completed)
  unfolding complete_row
  settled-done (t, now, ok b) a h kept = elim (Option-cases (t name run)) [
    | inl gone ↦
        absurd (kept (put_self name run _ t ∙ ap (complete_row now (world.hash_of b)) gone))
    | inr (row, found) ↦ (
      record row { status = completed; finished_at = some now; output_hash = world.hash_of b },
      put_self name run _ t ∙ ap (complete_row now (world.hash_of b)) found,
      refl,
    )
  ]
  settled-done (t, now, err e) a h kept = cc

  -- A completed run is a no-op, as long as nobody else writes its row: the body is not run, the row
  -- stays and the outcome is `skipped`.
  pub idempotent_completed :
      (now lease : ℕ) (tenant : Option Text) (t : Table) (row : Row)
      → t name run ≡ some row
      → row.status ≡ completed
      → world.meanwhile t name run ≡ some row
      → idempotent world name run now lease tenant t ≡ (world.meanwhile t, skipped)
  unfolding idempotent
  idempotent_completed now lease tenant t row found is_done quiet =
      let kept : claim_row now (now + lease * 1000) tenant (some row) ≡ none =
        (claim_row-eq-none_iff now (now + lease * 1000) tenant row).1 (inl is_done) in
      rw (found, kept, quiet, is_done) refl

  -- The row behind a call that returned the result of its body.
  done_row :
      (claimed : Option Row) (t : Table) (a : A)
      → (after_claim world name run t claimed).1 ≡ done a
      → (after_claim world name run t claimed).0 name run ≢ none
      → (row : Row) × ((after_claim world name run t claimed).0 name run ≡ some row)
        × (row.status ≡ completed)
  done_row none t a h kept = absurd (refused-ne-done (world.meanwhile t name run) a h)
  done_row (some row) t a h kept = settled-done (world.body (put name run (some row) t)) a h kept

-- Once a call has returned the result of its body and has left its row there, a later call for the same
-- run, by any worker, at any time and with any lease, is skipped without running its body, whatever has
-- happened to the other rows, provided that the row of this run is at its start what the first call left
-- and that nobody writes that row while the call looks at it.
pub idempotent_rerun :
    {E A B F : Type 0} (first : Surroundings E A) (second : Surroundings F B) (name : JobName)
    (run : Text) (now now' lease lease' : ℕ) (tenant tenant' : Option Text) (t u : Table) (a : A)
    → let t' = (idempotent first name run now lease tenant t).0 in
      (idempotent first name run now lease tenant t).1 ≡ done a
      → t' name run ≢ none
      → u name run ≡ t' name run
      → second.meanwhile u name run ≡ u name run
      → idempotent second name run now' lease' tenant' u ≡ (second.meanwhile u, skipped)
unfolding idempotent
idempotent_rerun first second name run now now' lease lease' tenant tenant' t u a h kept same
      quiet =
    let (row, found, is_done) =
      done_row first name run (claim_row now (now + lease * 1000) tenant (t name run)) t a h kept in
    idempotent_completed second name run now' lease' tenant' u row (same ∙ found) is_done
      (quiet ∙ same ∙ found)
