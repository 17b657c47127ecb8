-- ===== src/Jobs/Drain/Tests.antt =====
-- apps/web/jobs/drain.ts on a queue of three jobs.
use compliance_data_layer.Base.{
  ℕ, zero, suc, ◌+◌, ◌≤◌, ◌<◌, ◌≡◌, ◌≢◌, refl, ap, true, false, List, [], ◌∷◌, Option, none, some,
  arith,
}
use compliance_data_layer.Base.Texts.{text_eq}
use compliance_data_layer.Jobs.Registry.{JobName, job_text, map_apply, validate_run}
use compliance_data_layer.Jobs.Drain.{
  Boss, Work, returned, threw_lease_held, threw_other, drain_queues, drain_loop, run_pass, visit,
  run_one, DrainResult, count_job, count_queue,
}
use compliance_data_layer.Jobs.Drain.Balance.{FetchLog, IsBalanced, drain_queues-IsBalanced}
use compliance_data_layer.Jobs.Drain.Ends.{Clock, drain_queues-ends}

-- The world is the number of jobs left, of those taken, and the time. A fetch takes a millisecond.
abbrev World : Type 0
World = ℕ × ℕ × ℕ

abbrev take_job : World → Option ℕ × World
take_job (zero, taken, now) = (none, (zero, taken, now + 1))
take_job (suc n, taken, now) = (some n, (n, taken + 1, now + 1))

abbrev try_job : ℕ → World → Work ℕ × World
try_job zero w = (threw_other, w)
try_job (suc zero) w = (threw_lease_held, w)
try_job (suc (suc n)) w = (returned n, w)

abbrev boss : Boss
boss = record {
  World = World;
  Job = ℕ;
  Output = ℕ;
  tick = λ (n, taken, now). (now, (n, taken, now));
  fetch = λ name w. take_job w;
  work = λ name job w. try_job job w;
  settle_ok = λ name job output w. (true, w);
  settle_fail = λ name job w. w;
}

abbrev now_of : World → ℕ
now_of (n, taken, now) = now

abbrev taken_of : World → ℕ
taken_of (n, taken, now) = taken

take_job-now : (w : World) → now_of w < now_of (take_job w).1
take_job-now (zero, taken, now) = omega arith
take_job-now (suc n, taken, now) = omega arith

take_job-some :
    (w : World) (job : ℕ) → (take_job w).0 ≡ some job → taken_of (take_job w).1 ≡ taken_of w + 1
take_job-some (zero, taken, now) job h = cc
take_job-some (suc n, taken, now) job h = refl

take_job-none : (w : World) → (take_job w).0 ≡ none → taken_of (take_job w).1 ≡ taken_of w
take_job-none (zero, taken, now) h = refl
take_job-none (suc n, taken, now) h = cc

try_job-same : (job : ℕ) (w : World) → (try_job job w).1 ≡ w
try_job-same zero w = refl
try_job-same (suc zero) w = refl
try_job-same (suc (suc n)) w = refl

abbrev clock : Clock boss
clock = record {
  time = now_of;
  reads = λ w. refl;
  tick_le = λ (w : World). (let le : now_of w ≤ now_of w = omega arith in le);
  empty_le = λ name w h. omega (arith, take_job-now w);
  fetch_lt = λ name w job h. take_job-now w;
  work_le = λ name job w. omega (arith, ap now_of (try_job-same job w));
  ok_le = λ name job output (w : World). (let le : now_of w ≤ now_of w = omega arith in le);
  fail_le = λ name job (w : World). (let le : now_of w ≤ now_of w = omega arith in le);
}

abbrev log : FetchLog boss
log = record {
  taken = taken_of;
  fetch_some = λ name w job h. take_job-some w job h;
  fetch_none = λ name w h. take_job-none w h;
  tick_same = λ w. refl;
  work_same = λ name job w. ap taken_of (try_job-same job w);
  ok_same = λ name job output w. refl;
  fail_same = λ name job w. refl;
}

abbrev queues : List JobName
queues = map_apply ∷ validate_run ∷ []

abbrev three_jobs : DrainResult
three_jobs = record {
  counts = record {
    fetched = 3;
    completed = 1;
    failed = 1;
    lease_held = 1;
    by_queue = (map_apply, 2) ∷ (validate_run, 1) ∷ [];
  };
  elapsed_ms = 6;
  budget_exhausted = false;
}

drained : drain_queues boss 4 20000 queues (3, 0, 100) ≡ some (three_jobs, (0, 3, 106))
unfolding drain_queues drain_loop run_pass visit run_one count_job count_queue text_eq job_text
drained = refl

drain_queues-IsBalanced_example :
    IsBalanced three_jobs.counts × (taken_of (0, 3, 106) ≡ taken_of (3, 0, 100) + 3)
drain_queues-IsBalanced_example =
    drain_queues-IsBalanced boss log 4 20000 queues (3, 0, 100) (0, 3, 106) three_jobs drained

drain_queues-ends_example : drain_queues boss 2000 1600 queues (500, 0, 100) ≢ none
drain_queues-ends_example =
    drain_queues-ends boss clock 2000 1600 queues (500, 0, 100) (omega arith)
