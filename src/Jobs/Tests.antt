-- ===== src/Jobs/Tests.antt =====
-- Runs of the jobs of jobs.rs on concrete inputs.
use rc_launcher.Base.{ℕ, ◌≡◌, refl, false, none, some, [], ◌∷◌, map, get_elem?}
use rc_launcher.Base.Text.{Text, codes, text_eq, lookup}
use rc_launcher.Event.{new_bus, publish}
use rc_launcher.Jobs.{
  Spec, Job, World, checking, done, set_job, start_job, spawn_job, publish_by, advance, check,
  begin_step, cancel_job, raise_flag, remove_scope,
}
use rc_launcher.Jobs.Trace.{Step, spawned, fresh, next, published, Story}
use rc_launcher.Jobs.Run.{Reachable-Story}

abbrev one_digit : ℕ → Text
one_digit n = b'0' ∷ []

abbrev one_step : Spec
one_step = record {
  scope = some (codes "s");
  label = some (codes "l");
  steps = some 1;
  fail_at = none;
  delay_ms = none;
}

abbrev idle : World ℕ ℕ
idle = record { bus = new_bus; cancels = []; jobs = []; log = [] }

abbrev start_s : World ℕ ℕ → World ℕ ℕ
start_s = start_job one_digit (codes "s") (codes "l") 1 none

abbrev first_job : Job
first_job = record {
  scope = codes "s";
  label = codes "l";
  steps = 1;
  fail_at = none;
  cancelled = false;
  phase = checking 1;
}

spawned_idle : Step one_digit idle (start_s idle)
unfolding spawn_job
spawned_idle = spawned one_step refl

first_job_run : get_elem? ((start_s idle).jobs) 0 ≡ some first_job
unfolding start_job publish_by
first_job_run = refl

Reachable-Story_example :
    Story one_digit (codes "s") (codes "l") 1 none (checking 1) (published 0 (start_s idle).log)
Reachable-Story_example =
    Reachable-Story one_digit (start_s idle) (next (fresh new_bus) spawned_idle) 0 first_job
      first_job_run

-- The next step of the job of a number.
abbrev tick : ℕ → World ℕ ℕ → World ℕ ℕ
tick n w = elim (get_elem? w.jobs n) [ none ↦ w | some j ↦ advance one_digit n j w ]

-- Two jobs of one scope: the first one has ended, while the second one has not begun.
abbrev first_over : World ℕ ℕ
first_over = tick 0 (tick 0 (tick 0 (tick 0 (start_s (start_s idle)))))

first_over_run : map (λ j. j.phase) first_over.jobs ≡ done ∷ checking 1 ∷ []
unfolding advance check begin_step start_job publish_by set_job publish remove_scope text_eq
first_over_run = refl

-- The second one cannot be cancelled.
two_jobs_run : (cancel_job (codes "s") first_over).0 ≡ false
unfolding cancel_job advance check begin_step start_job publish_by set_job publish remove_scope
    lookup text_eq raise_flag
two_jobs_run = refl
