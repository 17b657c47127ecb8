-- ===== src/Jobs/Drain/Ends.antt =====
-- apps/web/jobs/drain.ts: the passes of a slice, its deadline, and the fuel that they take.
use compliance_data_layer.Base.{
  ℕ, zero, suc, ◌-◌, ◌≤◌, ◌<◌, ◌≡◌, ◌≢◌, refl, ◌∙◌, ◌⊎◌, Bool, true, false, List, [], ◌∷◌, Option,
  none, some, arith, leb, Bool-cases, inl, inr, if◌then◌else◌,
}
use compliance_data_layer.Jobs.Registry.{JobName}
use compliance_data_layer.Jobs.Drain.{
  Boss, Work, returned, threw_lease_held, threw_other, Slice, visit, run_one, run_pass, drain_loop,
  drain_queues, end_slice, after_fetch, end_complete, end_work, first_slice,
}

-- The clock, in milliseconds: `tick` reads it, nothing puts it back, and a fetch that brings a job takes a
-- millisecond at least. Nothing is said of how many jobs there are.
pub record Clock (boss : Boss) : Type 0 where
  pub time : boss.World → ℕ
  pub reads : (w : boss.World) → (boss.tick w).0 ≡ time w
  pub tick_le : (w : boss.World) → time w ≤ time (boss.tick w).1
  pub empty_le :
      (name : JobName) (w : boss.World)
      → (boss.fetch name w).0 ≡ none
      → time w ≤ time (boss.fetch name w).1
  pub fetch_lt :
      (name : JobName) (w : boss.World) (job : boss.Job)
      → (boss.fetch name w).0 ≡ some job
      → time w < time (boss.fetch name w).1
  pub work_le :
      (name : JobName) (job : boss.Job) (w : boss.World) → time w ≤ time (boss.work name job w).1
  pub ok_le :
      (name : JobName) (job : boss.Job) (output : boss.Output) (w : boss.World)
      → time w ≤ time (boss.settle_ok name job output w).1
  pub fail_le :
      (name : JobName) (job : boss.Job) (w : boss.World)
      → time w ≤ time (boss.settle_fail name job w)

module _ (boss : Boss) (clock : Clock boss) where
  open clock use {time}

  end_complete-le :
      (name : JobName) (job : boss.Job) (e : Bool × boss.World)
      → time e.1 ≤ time (end_complete boss name job e).1
  end_complete-le name job (true, w) = omega arith
  end_complete-le name job (false, w) = clock.fail_le name job w

  end_work-le :
      (name : JobName) (job : boss.Job) (e : Work boss.Output × boss.World)
      → time e.1 ≤ time (end_work boss name job e).1
  end_work-le name job (returned output, w) = omega (
    arith,
    clock.ok_le name job output w,
    end_complete-le name job (boss.settle_ok name job output w),
  )
  end_work-le name job (threw_lease_held, w) = clock.fail_le name job w
  end_work-le name job (threw_other, w) = clock.fail_le name job w

  run_one-le :
      (name : JobName) (job : boss.Job) (w : boss.World) → time w ≤ time (run_one boss name job w).1
  unfolding run_one
  run_one-le name job w =
      omega (arith, clock.work_le name job w, end_work-le name job (boss.work name job w))

  -- What a round below the test of the deadline does: it makes no progress, or it takes time.
  abbrev Takes : Slice boss → Slice boss → Type 0
  Takes s s' =
      (time s.world ≤ time s'.world)
      × ((s'.progressed ≡ s.progressed) ⊎ (time s.world < time s'.world))

  after_fetch-Takes :
      (name : JobName) (s : Slice boss) (f : Option boss.Job × boss.World)
      → (f.0 ≡ none → time s.world ≤ time f.1)
      → ((job : boss.Job) → f.0 ≡ some job → time s.world < time f.1)
      → Takes s (after_fetch boss name s f)
  after_fetch-Takes name s (none, w) empty full = (empty refl, inl refl)
  after_fetch-Takes name s (some job, w) empty full =
      let lt = full job refl in
      let le = run_one-le name job w in (omega (arith, lt, le), inr (omega (arith, lt, le)))

  visit-Takes : (name : JobName) (s : Slice boss) → Takes s (visit boss name s)
  unfolding visit
  visit-Takes name s =
      after_fetch-Takes name s (boss.fetch name s.world) (clock.empty_le name s.world)
        (clock.fetch_lt name s.world)

  -- What a pass does: it makes no progress, meets the deadline, or has begun before it and takes time.
  abbrev Passes : ℕ → Slice boss → Slice boss → Type 0
  Passes deadline s s' =
      (time s.world ≤ time s'.world)
      × ((s'.progressed ≡ s.progressed)
          ⊎ ((s'.exhausted ≡ true) ⊎ ((time s.world < time s'.world) × (time s.world < deadline))))

  Takes-Passes :
      (deadline : ℕ) (s t u : Slice boss)
      → time s.world < deadline
      → Takes s t
      → Passes deadline t u
      → Passes deadline s u
  Takes-Passes deadline s t u h (a, inl p) (b, inl q) = (omega (arith, a, b), inl (q ∙ p))
  Takes-Passes deadline s t u h (a, inr lt) (b, inl q) =
      (omega (arith, a, b), inr (inr (omega (arith, lt, b), h)))
  Takes-Passes deadline s t u h (a, p) (b, inr (inl late)) = (omega (arith, a, b), inr (inl late))
  Takes-Passes deadline s t u h (a, p) (b, inr (inr (lt, l))) =
      (omega (arith, a, b), inr (inr (omega (arith, a, lt), h)))

  -- The reading of the clock in front of a round
  ticked-Takes :
      (s t : Slice boss) → Takes (record s { world = (boss.tick s.world).1 }) t → Takes s t
  ticked-Takes s t (a, inl p) = (omega (arith, a, clock.tick_le s.world), inl p)
  ticked-Takes s t (a, inr lt) =
      (omega (arith, a, clock.tick_le s.world), inr (omega (arith, lt, clock.tick_le s.world)))

  run_pass-Passes :
      (deadline : ℕ) (names : List JobName) (s : Slice boss)
      → Passes deadline s (run_pass boss deadline names s)
  unfolding run_pass
  run_pass-Passes deadline [] s = (omega arith, inl refl)
  run_pass-Passes deadline (name ∷ names) s =
      let s' : Slice boss = record s { world = (boss.tick s.world).1 } in
      let t : Slice boss = visit boss name s' in
      elim (Bool-cases (leb deadline (boss.tick s.world).0)) [
        | inl late ↦ rw late (clock.tick_le s.world, inr (inl refl))
        | inr early ↦
            let before : time s.world < deadline = ground (arith, clock.reads s.world, early) in
            rw early (
              Takes-Passes deadline s t (run_pass boss deadline names t) before
                (ticked-Takes s t (visit-Takes name s')) (run_pass-Passes deadline names t))
      ]

  -- Fuel above the time that is left is enough.
  drain_loop-ends :
      (fuel deadline : ℕ) (names : List JobName) (s : Slice boss)
      → deadline - time s.world < fuel
      → drain_loop boss fuel deadline names s ≢ none
  unfolding drain_loop
  drain_loop-ends zero deadline names s h = absurd (omega arith)
  drain_loop-ends (suc fuel) deadline names s h =
      let passed = run_pass-Passes deadline names (record s { progressed = false }) in
      let after = run_pass boss deadline names (record s { progressed = false }) in
      choice after (drain_loop boss fuel deadline names after) passed.1
        (λ lt l. drain_loop-ends fuel deadline names after (omega (arith, lt, l)))
    where
      choice :
          (after : Slice boss) (again : Option (Slice boss))
          → ((after.progressed ≡ false)
              ⊎ ((after.exhausted ≡ true)
                  ⊎ ((time s.world < time after.world) × (time s.world < deadline))))
          → (time s.world < time after.world → time s.world < deadline → again ≢ none)
          → (if after.exhausted then some after else if after.progressed then again else some after)
            ≢ none
      choice after again (inl idle) more = ground arith
      choice after again (inr (inl late)) more = ground arith
      choice after again (inr (inr (lt, l))) more = ground (arith, more lt l)

  end_slice-ne-none :
      (started_at : ℕ) (o : Option (Slice boss)) → o ≢ none → end_slice boss started_at o ≢ none
  end_slice-ne-none started_at none h = absurd (h refl)
  end_slice-ne-none started_at (some s) h = cc

  -- The budget ends a slice, however many jobs the queues give out: with more fuel than the budget has
  -- milliseconds, a slice ends, where the clock is never put back and a fetch that brings a job takes a
  -- millisecond at least.
  pub drain_queues-ends :
      (fuel budget_ms : ℕ) (names : List JobName) (w : boss.World)
      → budget_ms < fuel
      → drain_queues boss fuel budget_ms names w ≢ none
  unfolding drain_queues
  drain_queues-ends fuel budget_ms names w h = end_slice-ne-none (boss.tick w).0 _ (
      drain_loop-ends fuel _ names (first_slice boss (boss.tick w).1)
        (omega (arith, clock.tick_le w, clock.reads w, h)))
