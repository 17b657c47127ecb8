-- ===== src/Jobs/Drain.antt =====
-- apps/web/jobs/drain.ts: one slice of the queues. The queue, the clock and the handlers are the
-- surroundings: operations on a state of the world. The queues that are visited are an argument.
pub mod Balance
pub mod Ends
mod Tests
use compliance_data_layer.Base.{
  ℕ, zero, suc, ◌+◌, ◌-◌, ◌≤◌, ◌<◌, ◌≡◌, Bool, true, false, List, [], ◌∷◌, Option, none, some, leb,
  if◌then◌else◌, or_else,
}
use compliance_data_layer.Base.Int.{ℤ}
use compliance_data_layer.Base.Texts.{Text, text_eq}
use compliance_data_layer.Jobs.Registry.{JobName, job_text}

-- How a handler's `work` ends: with an output, or by an error that is `LeaseHeld` or not.
pub data Work (Output : Type 0) : Type 0 where
  returned : Output → Work Output
  threw_lease_held threw_other : Work Output

pub data Outcome : Type 0 where
  completed failed lease_held : Outcome

-- `tick` reads the clock. `settle_ok` and `settle_fail` are `boss.complete` and `boss.fail`; a failed
-- `complete` is an error of the call, as a failed handler is. `fail` is taken not to throw.
pub record Boss : Type 1 where
  pub World : Type 0
  pub Job : Type 0
  pub Output : Type 0
  pub tick : World → ℕ × World
  pub fetch : JobName → World → Option Job × World
  pub work : JobName → Job → World → Work Output × World
  pub settle_ok : JobName → Job → Output → World → Bool × World
  pub settle_fail : JobName → Job → World → World

pub record Counts : Type 0 where
  pub fetched : ℕ
  pub completed : ℕ
  pub failed : ℕ
  pub lease_held : ℕ
  pub by_queue : List (JobName × ℕ)

abbrev pub zero_counts : Counts
zero_counts = record { fetched = 0; completed = 0; failed = 0; lease_held = 0; by_queue = [] }

-- `byQueue[name] = (byQueue[name] ?? 0) + 1`
unfoldable pub count_queue : JobName → List (JobName × ℕ) → List (JobName × ℕ)
count_queue name [] = (name, 1) ∷ []
count_queue name ((other, n) ∷ rest) =
    if text_eq (job_text other) (job_text name)
    then (other, n + 1) ∷ rest
    else (other, n) ∷ count_queue name rest

abbrev count_outcome : Outcome → Counts → Counts
count_outcome completed c = record c { completed = c.completed + 1 }
count_outcome lease_held c = record c { lease_held = c.lease_held + 1 }
count_outcome failed c = record c { failed = c.failed + 1 }

unfoldable pub count_job : JobName → Outcome → Counts → Counts
unfolding count_queue
count_job name outcome c =
    let c' = count_outcome outcome (record c { fetched = c.fetched + 1 }) in
    record c' { by_queue = count_queue name c'.by_queue }

-- The variables of `drainQueues`, with the world that its calls change.
pub record Slice (boss : Boss) : Type 0 where
  pub world : boss.World
  pub counts : Counts
  pub progressed : Bool
  pub exhausted : Bool

pub record DrainResult : Type 0 where
  pub counts : Counts
  pub elapsed_ms : ℕ
  pub budget_exhausted : Bool

-- The settling headroom, `SETTLE_HEADROOM_MS`.
abbrev pub settle_headroom_ms : ℕ
settle_headroom_ms = 1500

module _ (boss : Boss) where
  open boss use {World, Job, Output, tick, fetch, work, settle_ok, settle_fail}

  abbrev pub end_complete : JobName → Job → (Bool × World) → Outcome × World
  end_complete name job (true, w) = (completed, w)
  end_complete name job (false, w) = (failed, settle_fail name job w)

  abbrev pub end_work : JobName → Job → (Work Output × World) → Outcome × World
  end_work name job (returned output, w) = end_complete name job (settle_ok name job output w)
  end_work name job (threw_lease_held, w) = (lease_held, settle_fail name job w)
  end_work name job (threw_other, w) = (failed, settle_fail name job w)

  -- `runOne`
  unfoldable pub run_one : JobName → Job → World → Outcome × World
  run_one name job w = end_work name job (work name job w)

  abbrev pub after_job : JobName → Counts → (Outcome × World) → Slice boss
  after_job name c (outcome, w) = record {
    world = w;
    counts = count_job name outcome c;
    progressed = true;
    exhausted = false;
  }

  abbrev pub after_fetch : JobName → Slice boss → (Option Job × World) → Slice boss
  after_fetch name s (none, w) = record s { world = w }
  after_fetch name s (some job, w) = after_job name s.counts (run_one name job w)

  -- One round of the `for` loop below the test of the deadline.
  unfoldable pub visit : JobName → Slice boss → Slice boss
  unfolding run_one count_job
  visit name s = after_fetch name s (fetch name s.world)

  unfoldable pub run_pass : ℕ → List JobName → Slice boss → Slice boss
  run_pass deadline [] s = s
  run_pass deadline (name ∷ names) s =
      let (now, w) = tick s.world in
      let s' = record s { world = w } in
      let rest = run_pass deadline names (visit name s') in
      if leb deadline now then record s' { exhausted = true } else rest

  -- The `while` loop, on fuel: `none` means that the fuel ran out.
  unfoldable pub drain_loop : ℕ → ℕ → List JobName → Slice boss → Option (Slice boss)
  drain_loop zero deadline names s = none
  drain_loop (suc fuel) deadline names s =
      let s' = run_pass deadline names (record s { progressed = false }) in
      let again = drain_loop fuel deadline names s' in
      if s'.exhausted then some s' else if s'.progressed then again else some s'

  abbrev pub first_slice : World → Slice boss
  first_slice w = record { world = w; counts = zero_counts; progressed = true; exhausted = false }

  abbrev pub end_slice : ℕ → Option (Slice boss) → Option (DrainResult × World)
  end_slice started_at none = none
  end_slice started_at (some s) =
      let (now, w) = tick s.world in
      some (
        record { counts = s.counts; elapsed_ms = now - started_at; budget_exhausted = s.exhausted },
        w,
      )

  -- `drainQueues` behind `ensureStarted`. The truncated difference tests as the negative one does:
  -- every time is at or past it.
  unfoldable pub drain_queues : ℕ → ℕ → List JobName → World → Option (DrainResult × World)
  unfolding drain_loop run_pass visit
  drain_queues fuel budget_ms names w =
      let (started_at, w') = tick w in
      end_slice started_at
        (drain_loop fuel (started_at + budget_ms - settle_headroom_ms) names (first_slice w'))
