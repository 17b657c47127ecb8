-- ===== src/Jobs/Drain/Balance.antt =====
-- apps/web/jobs/drain.ts: the numbers that a slice reports.
use compliance_data_layer.Base.{
  some_inj, ℕ, zero, suc, ◌+◌, ◌≡◌, refl, ◌∙◌, ◌⊎◌, subst, Bool, true, false, List, [], ◌∷◌, Option,
  none, some, arith, leb, Bool-cases, inl, inr, if◌then◌else◌,
}
use compliance_data_layer.Jobs.Registry.{JobName}
use compliance_data_layer.Jobs.Drain.{
  Boss, Outcome, completed, failed, lease_held, Counts, count_queue, count_job, Slice, visit,
  run_pass, drain_loop, drain_queues, DrainResult, end_slice, first_slice, after_fetch, run_one,
  end_complete, end_work, Work, returned, threw_lease_held, threw_other,
}

abbrev pub total : List (JobName × ℕ) → ℕ
total [] = 0
total ((name, n) ∷ rest) = n + total rest

-- A count of what the queues have given out, kept beside the world: a fetch that returns a job adds one to
-- it, and nothing else changes it.
pub record FetchLog (boss : Boss) : Type 0 where
  pub taken : boss.World → ℕ
  pub fetch_some :
      (name : JobName) (w : boss.World) (job : boss.Job)
      → (boss.fetch name w).0 ≡ some job
      → taken (boss.fetch name w).1 ≡ taken w + 1
  pub fetch_none :
      (name : JobName) (w : boss.World)
      → (boss.fetch name w).0 ≡ none
      → taken (boss.fetch name w).1 ≡ taken w
  pub tick_same : (w : boss.World) → taken (boss.tick w).1 ≡ taken w
  pub work_same :
      (name : JobName) (job : boss.Job) (w : boss.World) → taken (boss.work name job w).1 ≡ taken w
  pub ok_same :
      (name : JobName) (job : boss.Job) (output : boss.Output) (w : boss.World)
      → taken (boss.settle_ok name job output w).1 ≡ taken w
  pub fail_same :
      (name : JobName) (job : boss.Job) (w : boss.World)
      → taken (boss.settle_fail name job w) ≡ taken w

-- Each fetched job has one outcome and is counted for one queue.
pub record IsBalanced (c : Counts) : Type 0 where
  pub outcomes : c.fetched ≡ c.completed + c.failed + c.lease_held
  pub queues : c.fetched ≡ total c.by_queue

total-count_queue :
    (name : JobName) (l : List (JobName × ℕ)) → total (count_queue name l) ≡ total l + 1
unfolding count_queue
total-count_queue name [] = omega arith
total-count_queue name ((other, n) ∷ rest) = ground (arith, total-count_queue name rest)

count_job-IsBalanced :
    (name : JobName) (o : Outcome) (c : Counts) → IsBalanced c → IsBalanced (count_job name o c)
unfolding count_job
count_job-IsBalanced name completed c b = omega (arith, total-count_queue name c.by_queue)
count_job-IsBalanced name failed c b = omega (arith, total-count_queue name c.by_queue)
count_job-IsBalanced name lease_held c b = omega (arith, total-count_queue name c.by_queue)

count_job-fetched :
    (name : JobName) (o : Outcome) (c : Counts) → (count_job name o c).fetched ≡ c.fetched + 1
unfolding count_job
count_job-fetched name completed c = refl
count_job-fetched name failed c = refl
count_job-fetched name lease_held c = refl

module _ (boss : Boss) (log : FetchLog boss) where
  open log use {taken}

  -- The numbers are balanced, and the jobs that were taken since there were `base` are those that they count.
  abbrev IsCounted : ℕ → Slice boss → Type 0
  IsCounted base s = IsBalanced s.counts × (taken s.world ≡ base + s.counts.fetched)

  end_complete-taken :
      (name : JobName) (job : boss.Job) (e : Bool × boss.World)
      → taken (end_complete boss name job e).1 ≡ taken e.1
  end_complete-taken name job (true, w) = refl
  end_complete-taken name job (false, w) = log.fail_same name job w

  end_work-taken :
      (name : JobName) (job : boss.Job) (e : Work boss.Output × boss.World)
      → taken (end_work boss name job e).1 ≡ taken e.1
  end_work-taken name job (returned output, w) =
      end_complete-taken name job _ ∙ log.ok_same name job output w
  end_work-taken name job (threw_lease_held, w) = log.fail_same name job w
  end_work-taken name job (threw_other, w) = log.fail_same name job w

  run_one-taken :
      (name : JobName) (job : boss.Job) (w : boss.World)
      → taken (run_one boss name job w).1 ≡ taken w
  unfolding run_one
  run_one-taken name job w = end_work-taken name job _ ∙ log.work_same name job w

  after_fetch-IsCounted :
      (base : ℕ) (name : JobName) (s : Slice boss) (f : Option boss.Job × boss.World)
      → (f.0 ≡ none → taken f.1 ≡ taken s.world)
      → ((job : boss.Job) → f.0 ≡ some job → taken f.1 ≡ taken s.world + 1)
      → IsCounted base s
      → IsCounted base (after_fetch boss name s f)
  after_fetch-IsCounted base name s (none, w) empty full (b, t) = (b, empty refl ∙ t)
  after_fetch-IsCounted base name s (some job, w) empty full (b, t) = (
    count_job-IsBalanced name _ s.counts b,
    omega (
      arith,
      t,
      run_one-taken name job w,
      full job refl,
      count_job-fetched name (run_one boss name job w).0 s.counts,
    ),
  )

  visit-IsCounted :
      (base : ℕ) (name : JobName) (s : Slice boss)
      → IsCounted base s
      → IsCounted base (visit boss name s)
  unfolding visit
  visit-IsCounted base name s c =
      after_fetch-IsCounted base name s (boss.fetch name s.world) (log.fetch_none name s.world)
        (log.fetch_some name s.world) c

  run_pass-IsCounted :
      (base deadline : ℕ) (names : List JobName) (s : Slice boss)
      → IsCounted base s
      → IsCounted base (run_pass boss deadline names s)
  unfolding run_pass
  run_pass-IsCounted base deadline [] s c = c
  run_pass-IsCounted base deadline (name ∷ names) s (b, t) =
      let ticked : taken (boss.tick s.world).1 ≡ base + s.counts.fetched =
        log.tick_same s.world ∙ t in
      elim (Bool-cases (leb deadline (boss.tick s.world).0)) [
        | inl late ↦ rw late (b, ticked)
        | inr early ↦ rw early (
            run_pass-IsCounted base deadline names _
              (visit-IsCounted base name (record s { world = (boss.tick s.world).1 }) (b, ticked)))
      ]

  loop_choice :
      (exhausted progressed : Bool) (after : Slice boss) (again : Option (Slice boss))
      {s : Slice boss}
      → (if exhausted then some after else if progressed then again else some after) ≡ some s
      → (after ≡ s) ⊎ (again ≡ some s)
  loop_choice true progressed after again h = inl (some_inj h)
  loop_choice false true after again h = inr h
  loop_choice false false after again h = inl (some_inj h)

  drain_loop-IsCounted :
      (base fuel deadline : ℕ) (names : List JobName) (s : Slice boss) {s' : Slice boss}
      → IsCounted base s
      → drain_loop boss fuel deadline names s ≡ some s'
      → IsCounted base s'
  unfolding drain_loop
  drain_loop-IsCounted base zero deadline names s c h = cc
  drain_loop-IsCounted base (suc fuel) deadline names s {s'} c h =
      let after = run_pass boss deadline names (record s { progressed = false }) in
      let counted = run_pass-IsCounted base deadline names (record s { progressed = false }) c in
      elim (loop_choice after.exhausted after.progressed after _ h) [
        | inl e ↦ subst (λ (u : Slice boss). IsCounted base u) e counted
        | inr e ↦ drain_loop-IsCounted base fuel deadline names after {s' = s'} counted e
      ]

  end_slice-IsCounted :
      (base started_at : ℕ) (o : Option (Slice boss)) (r : DrainResult) (w : boss.World)
      → ((s : Slice boss) → o ≡ some s → IsCounted base s)
      → end_slice boss started_at o ≡ some (r, w)
      → IsBalanced r.counts × (taken w ≡ base + r.counts.fetched)
  end_slice-IsCounted base started_at none r w c h = cc
  end_slice-IsCounted base started_at (some s) r w c h =
      let (balanced, t) = c s refl in
      subst
        (λ (p : DrainResult × boss.World).
          IsBalanced p.0.counts × (taken p.1 ≡ base + p.0.counts.fetched))
        (some_inj h) (balanced, log.tick_same s.world ∙ t)

  -- A slice that ends reports as fetched exactly the jobs that the queues gave out meanwhile, each as
  -- completed, failed or held by another worker, and each under one queue.
  pub drain_queues-IsBalanced :
      (fuel budget_ms : ℕ) (names : List JobName) (w w' : boss.World) (r : DrainResult)
      → drain_queues boss fuel budget_ms names w ≡ some (r, w')
      → IsBalanced r.counts × (taken w' ≡ taken w + r.counts.fetched)
  unfolding drain_queues
  drain_queues-IsBalanced fuel budget_ms names w w' r h =
      end_slice-IsCounted (taken w) (boss.tick w).0 _ r w'
        (λ s looped.
          drain_loop-IsCounted (taken w) fuel _ names (first_slice boss (boss.tick w).1) {s' = s}
            (omega arith, omega (arith, log.tick_same w)) looped)
        h
