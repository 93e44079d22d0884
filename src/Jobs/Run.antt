-- ===== src/Jobs/Run.antt =====
-- That the jobs of jobs.rs keep to their stories, whatever happens in between.
use rc_launcher.Base.{
  ℕ, suc, ◌≤◌, ◌<◌, ◌≡◌, refl, sym, ap, ◌∙◌, inl, inr, Bool, true, false, Option, some, List, [],
  ◌∷◌, ◌++◌, get_elem?, leb, ◌==◌, Bool-cases, Option-cases, arith, ok, err, max, ok-injective,
}
use rc_launcher.Base.Text.{Text, codes, lookup}
use rc_launcher.Error.{other}
use rc_launcher.Event.{Event, publish, lifecycle_event, error_event, progress_event}
use rc_launcher.Jobs.{
  Spec, Phase, checking, reporting, ending, done, Job, World, fails_at, publish_by, start_job,
  spawn_job, text_or, go_to, begin_step, check, advance, raise_flag, cancel_job,
}
use rc_launcher.Jobs.Trace.{
  Step, spawned, advanced, cancelled, Reachable, fresh, next, published, started_event, reports,
  Spared, Last, completed, failed, stopped, Story, at_check, at_report, at_end, over, Told,
  set_job-Told, push-Told, start-Told,
}

module _ {V : Type 0} (show : ℕ → Text) (scope label : Text) (steps : ℕ) (fail_at : Option ℕ) where
  checking-Story :
      (i : ℕ) (es : List (Event V))
      → Story show scope label steps fail_at (checking i) es
      → (k : ℕ) × (i ≡ suc k)
        × (k ≤ steps)
        × Spared fail_at k
        × (es ≡ started_event show scope label steps ∷ reports show scope label steps k)
  checking-Story _ _ (at_check {k = k} h s) = (k, refl, h, s, refl)

  reporting-Story :
      (i : ℕ) (es : List (Event V))
      → Story show scope label steps fail_at (reporting i) es
      → (k : ℕ) × (i ≡ suc k)
        × (k < steps)
        × Spared fail_at (suc k)
        × (es ≡ started_event show scope label steps ∷ reports show scope label steps k)
  reporting-Story _ _ (at_report {k = k} h s) = (k, refl, h, s, refl)

  ending-Story :
      (es : List (Event V))
      → Story show scope label steps fail_at ending es
      → Story show scope label steps fail_at done es
  ending-Story _ (at_end l) = over l

Spared-suc :
    (fail_at : Option ℕ) (k : ℕ)
    → Spared fail_at k
    → fails_at fail_at (suc k) ≡ false
    → Spared fail_at (suc k)
Spared-suc fail_at k s h i lt = elim (Bool-cases (i == k)) [
  | inl e ↦ let same : i ≡ k = ground (arith, e) in ap (λ n. fails_at fail_at (suc n)) same ∙ h
  | inr e ↦ s i (ground (arith, e, lt))
]

module _ {V S : Type 0} (show : ℕ → Text) where
  -- What a step says of the world.
  abbrev ToldIn : World V S → Type 0
  ToldIn w = Told show w.jobs w.log

  module _ (n : ℕ) (j : Job) (w : World V S) (t : ToldIn w)
      (here : get_elem? w.jobs n ≡ some j) where
    -- The job goes to its end with a last event.
    publish_by-Told :
        (k : ℕ) (e : Event V)
        → published n w.log
          ≡ started_event show j.scope j.label j.steps ∷ reports show j.scope j.label j.steps k
        → Last show j.scope j.label j.steps j.fail_at k (record e { seq = 0 })
        → ToldIn (publish_by show n e (go_to show n j ending w))
    unfolding publish_by publish
    publish_by-Told k e before l =
        push-Told show n j (record j { phase = ending }) w.jobs w.log
          (record e { seq = w.bus.next_seq }) t here (rw (before) (at_end l))

    Before : ℕ → Type 0
    Before k =
        published n w.log
        ≡ started_event show j.scope j.label j.steps ∷ reports show j.scope j.label j.steps k

    -- The check of the step behind `k` reported ones.
    begin_step-Told :
        (flag fails : Bool) (k : ℕ)
        → k < j.steps
        → Spared j.fail_at k
        → Before k
        → fails_at j.fail_at (suc k) ≡ fails
        → ToldIn (begin_step show flag fails n j (suc k) w)
    unfolding begin_step Before
    begin_step-Told true fails k lt spared before f =
        publish_by-Told k
          (lifecycle_event j.scope (codes "cancelled") (j.label ++ codes " cancelled")) before
          (stopped lt)
    begin_step-Told false true k lt spared before f =
        publish_by-Told k
          (error_event j.scope (j.label ++ (codes " failed at step " ++ show (suc k)))) before
          (failed lt f)
    begin_step-Told false false k lt spared before f =
        set_job-Told show n j (record j { phase = reporting (suc k) }) w.jobs w.log w.log t here
          (λ m apart. refl) (rw (before) (at_report lt (Spared-suc j.fail_at k spared f)))

    -- The head of the loop behind `k` reported steps.
    check_from :
        (k : ℕ) → k ≤ j.steps → Spared j.fail_at k → Before k → ToldIn (check show n j (suc k) w)
    unfolding check Before
    check_from k le spared before = elim (Bool-cases (leb (suc k) j.steps)) [
      | inr beyond ↦
          let all : k ≡ j.steps = ground (arith, beyond, le) in
          let before' =
            before
            ∙ ap
                (λ k.
                  started_event show j.scope j.label j.steps
                  ∷ reports show j.scope j.label j.steps k)
                all in
          let spared' : Spared j.fail_at j.steps = rw (sym all) spared in
          rw (check, beyond)
            (publish_by-Told j.steps
              (lifecycle_event j.scope (codes "completed") (j.label ++ codes " completed")) before'
              (completed spared'))
      | inl within ↦
          rw (check, within)
            (begin_step-Told j.cancelled (fails_at j.fail_at (suc k)) k (ground (arith, within))
              spared before refl)
    ]

    check-Told : (i : ℕ) → j.phase ≡ checking i → ToldIn (check show n j i w)
    unfolding Before
    check-Told i at =
        let (k, next_step, le, spared, before) =
          checking-Story show j.scope j.label j.steps j.fail_at i (published n w.log)
            (rw (sym at) (t.story n j here)) in
        rw (next_step) (check_from k le spared before)

    -- The report of step `suc k`.
    report_from :
        (k : ℕ)
        → k < j.steps
        → Spared j.fail_at (suc k)
        → Before k
        → ToldIn (
            publish_by show n
              (progress_event j.scope
                (j.label ++ (codes " step " ++ show (suc k)))
                (suc k)
                (some j.steps))
              (go_to show n j (checking (suc (suc k))) w))
    unfolding Before publish_by publish reports
    report_from k lt spared before =
        let e =
          progress_event j.scope (j.label ++ (codes " step " ++ show (suc k))) (suc k)
            (some j.steps) in
        push-Told show n j (record j { phase = checking (suc (suc k)) }) w.jobs w.log
          (record e { seq = w.bus.next_seq }) t here (rw (before) (at_check lt spared))

    report-Told :
        (i : ℕ)
        → j.phase ≡ reporting i
        → ToldIn (
            publish_by show n
              (progress_event j.scope (j.label ++ (codes " step " ++ show i)) i (some j.steps))
              (go_to show n j (checking (suc i)) w))
    unfolding Before
    report-Told i at =
        let (k, next_step, lt, spared, before) =
          reporting-Story show j.scope j.label j.steps j.fail_at i (published n w.log)
            (rw (sym at) (t.story n j here)) in
        rw (next_step) (report_from k lt spared before)

    advance-Told : ToldIn (advance show n j w)
    unfolding advance
    advance-Told = by_phase j.phase refl
      where
        by_phase : (p : Phase) → j.phase ≡ p → ToldIn (advance show n j w)
        by_phase (checking i) at = rw (advance, at) (check-Told i at)
        by_phase (reporting i) at = rw (advance, at) (report-Told i at)
        by_phase ending at =
            rw (advance, at)
              (set_job-Told show n j (record j { phase = done }) w.jobs w.log w.log t here
                (λ m apart. refl)
                (ending-Story show j.scope j.label j.steps j.fail_at (published n w.log)
                  (rw (sym at) (t.story n j here))))
        by_phase done at = rw (advance, at) t

  start_job-Told :
      (scope label : Text) (steps : ℕ) (fail_at : Option ℕ) (w : World V S)
      → ToldIn w
      → ToldIn (start_job show scope label steps fail_at w)
  unfolding start_job publish_by publish reports
  start_job-Told scope label steps fail_at w t =
      let e = lifecycle_event scope (codes "started") (label ++ codes " started") in
      let j : Job = record {
        scope = scope;
        label = label;
        steps = steps;
        fail_at = fail_at;
        cancelled = false;
        phase = checking 1;
      } in
      start-Told show j w.jobs w.log (record e { seq = w.bus.next_seq }) t
        (at_check (omega arith) (λ i lt. absurd (omega (arith, lt))))

  spawn_job-Told :
      (spec : Spec) (w v : World V S) → spawn_job show spec w ≡ ok v → ToldIn w → ToldIn v
  unfolding spawn_job
  spawn_job-Told spec w v h t = named (text_or (codes "job") spec.scope) h
    where
      named :
          (scope : Text)
          → (elim scope [
            | [] ↦ err (other "job scope must not be empty")
            | c ∷ t ↦ ok (
                start_job show
                  (c ∷ t)
                  (text_or (codes "job") spec.label)
                  (max (text_or 1 spec.steps) 1)
                  spec.fail_at
                  w)
          ])
            ≡ ok v
          → ToldIn v
      named [] h = absurd (cc)
      named (c ∷ s) h = rw (sym (ok-injective h)) (
          start_job-Told (c ∷ s) (text_or (codes "job") spec.label) (max (text_or 1 spec.steps) 1)
            spec.fail_at w t)

  raise_flag-Told : (n : ℕ) (w : World V S) → ToldIn w → ToldIn (raise_flag n w)
  unfolding raise_flag
  raise_flag-Told n w t = elim (Option-cases (get_elem? w.jobs n)) [
    | inl e ↦ rw (raise_flag, e) t
    | inr (j, e) ↦
        rw (raise_flag, e)
          (set_job-Told show n j (record j { cancelled = true }) w.jobs w.log w.log t e
            (λ m apart. refl) (t.story n j e))
  ]

  cancel_job-Told : (scope : Text) (w : World V S) → ToldIn w → ToldIn ((cancel_job scope w).1)
  unfolding cancel_job
  cancel_job-Told scope w t = elim (Option-cases (lookup scope w.cancels)) [
    | inl e ↦ rw (cancel_job, e) t
    | inr (n, e) ↦ rw (cancel_job, e) (raise_flag-Told n w t)
  ]

  Step-Told : (w v : World V S) → Step show w v → ToldIn w → ToldIn v
  Step-Told w v (spawned spec h) t = spawn_job-Told spec w v h t
  Step-Told w _ (advanced n j here) t = advance-Told n j w t here
  Step-Told w _ (cancelled scope) t = cancel_job-Told scope w t

  Reachable-Told : (w : World V S) → Reachable show w → ToldIn w
  unfolding published
  Reachable-Told _ (fresh bus) = record { story = λ n j h. absurd (cc); silent = λ n h. refl }
  Reachable-Told v (next {w = w} r s) = Step-Told w v s (Reachable-Told w r)

  -- In whatever order jobs are spawned, advance and are cancelled, what a job has published is its
  -- `started` event, the progress of its steps from the first one on, and at most one more event at its
  -- end: `completed` if all its steps were reported and none fails, the error of the next step if that
  -- is the one that fails, or `cancelled`.
  pub Reachable-Story :
      (w : World V S)
      → Reachable show w
      → (n : ℕ) (j : Job) → get_elem? w.jobs n ≡ some j
      → Story show j.scope j.label j.steps j.fail_at j.phase (published n w.log)
  Reachable-Story w r n j here = (Reachable-Told w r).story n j here
