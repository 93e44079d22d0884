-- ===== src/Jobs.antt =====
-- jobs.rs: the background jobs that report through the event bus, and their cancellation. A job
-- advances from one place in its code where others may run to the next: the check of its flag, the
-- report of a step, and the drop of its guard. A flag is a field of the job, which the registry names
-- by the job's number. The digits of a number (`show`) are a parameter.
pub mod Trace
pub mod Run
mod Tests
use rc_launcher.Base.{
  ℕ, zero, suc, ◌+◌, Bool, true, false, Option, none, some, List, [], ◌∷◌, ◌++◌, length, get_elem?,
  leb, ◌==◌, max, String, if◌then◌else◌, Result, ok, err,
}
use rc_launcher.Base.Text.{Text, codes, text_eq, lookup}
use rc_launcher.Error.{RcResult, other}
use rc_launcher.Event.{Event, EventBus, publish, lifecycle_event, error_event, progress_event}

-- The fields of the JSON value `spec` that are there.
pub record Spec : Type 0 where
  pub scope : Option Text
  pub label : Option Text
  pub steps : Option ℕ
  pub fail_at : Option ℕ
  pub delay_ms : Option ℕ

-- Where a job is: before the check of a step, before its report, behind its last event, or gone.
pub data Phase : Type 0 where
  checking reporting : ℕ → Phase
  ending done : Phase

pub record Job : Type 0 where
  pub scope : Text
  pub label : Text
  pub steps : ℕ
  pub fail_at : Option ℕ
  pub cancelled : Bool
  pub phase : Phase

-- The bus, the registry `CANCELS`, the jobs by their numbers, and what was published, each event with
-- the number of the job that published it.
pub record World (V S : Type 0) : Type 0 where
  pub bus : EventBus S
  pub cancels : List (Text × ℕ)
  pub jobs : List Job
  pub log : List (ℕ × Event V)

-- `HashMap::remove`
unfoldable pub remove_scope : Text → List (Text × ℕ) → List (Text × ℕ)
remove_scope s [] = []
remove_scope s ((k, j) ∷ rest) =
    let later = remove_scope s rest in if text_eq k s then later else (k, j) ∷ later

unfoldable pub set_job : ℕ → Job → List Job → List Job
set_job n j [] = []
set_job zero j (i ∷ is) = j ∷ is
set_job (suc n) j (i ∷ is) = i ∷ set_job n j is

abbrev pub text_or {ℓ} : {A : Type ℓ} → A → Option A → A
text_or a none = a
text_or a (some b) = b

-- Whether the job fails at a step.
abbrev pub fails_at : Option ℕ → ℕ → Bool
fails_at none i = false
fails_at (some f) i = i == f

module _ {V S : Type 0} (show : ℕ → Text) where
  -- `event::publish`, by a job
  unfoldable pub publish_by : ℕ → Event V → World V S → World V S
  publish_by n e w =
      let (bus, numbered, _) = publish e w.bus in
      record w { bus = bus; log = w.log ++ ((n, numbered) ∷ []) }

  -- `spawn_job` with its scope, label and steps read
  unfoldable pub start_job : Text → Text → ℕ → Option ℕ → World V S → World V S
  start_job scope label steps fail_at w =
      let n = length w.jobs in
      publish_by n (lifecycle_event scope (codes "started") (label ++ codes " started")) (record w {
        cancels = (scope, n) ∷ remove_scope scope w.cancels;
        jobs =
            w.jobs
            ++ (record {
              scope = scope;
              label = label;
              steps = steps;
              fail_at = fail_at;
              cancelled = false;
              phase = checking 1;
            }
                ∷ []);
      })

  unfoldable pub spawn_job : Spec → World V S → RcResult (World V S)
  spawn_job spec w = elim (text_or (codes "job") spec.scope) [
    | [] ↦ err (other "job scope must not be empty")
    | c ∷ t ↦ ok (
        start_job (c ∷ t) (text_or (codes "job") spec.label) (max (text_or 1 spec.steps) 1)
          spec.fail_at w)
  ]

  -- The job of that number goes to another phase.
  abbrev pub go_to : ℕ → Job → Phase → World V S → World V S
  go_to n j p w = record w { jobs = set_job n (record j { phase = p }) w.jobs }

  -- The check of a step `i`: whether the flag is raised, and whether the step fails.
  unfoldable pub begin_step : Bool → Bool → ℕ → Job → ℕ → World V S → World V S
  begin_step true fails n j i w =
      publish_by n (lifecycle_event j.scope (codes "cancelled") (j.label ++ codes " cancelled"))
        (go_to n j ending w)
  begin_step false true n j i w =
      publish_by n (error_event j.scope (j.label ++ (codes " failed at step " ++ show i)))
        (go_to n j ending w)
  begin_step false false n j i w = go_to n j (reporting i) w

  -- The head of the loop: the check of step `i`, or the end behind the last step.
  unfoldable pub check : ℕ → Job → ℕ → World V S → World V S
  check n j i w =
      if leb i j.steps
      then begin_step j.cancelled (fails_at j.fail_at i) n j i w
      else publish_by n
          (lifecycle_event j.scope (codes "completed") (j.label ++ codes " completed"))
          (go_to n j ending w)

  -- What a job does next.
  unfoldable pub advance : ℕ → Job → World V S → World V S
  advance n j w = elim (j.phase) [
    | checking i ↦ check n j i w
    | reporting i ↦
        publish_by n
          (progress_event j.scope (j.label ++ (codes " step " ++ show i)) i (some j.steps))
          (go_to n j (checking (suc i)) w)
    | ending ↦ record (go_to n j done w) { cancels = remove_scope j.scope w.cancels }
    | done ↦ w
  ]

module _ {V S : Type 0} where
  -- The flag of a job is set.
  unfoldable pub raise_flag : ℕ → World V S → World V S
  raise_flag n w = elim (get_elem? w.jobs n) [
    | none ↦ w
    | some j ↦ record w { jobs = set_job n (record j { cancelled = true }) w.jobs }
  ]

  unfoldable pub cancel_job : Text → World V S → Bool × World V S
  cancel_job scope w = elim (lookup scope w.cancels) [
    | none ↦ (false, w)
    | some n ↦ (true, raise_flag n w)
  ]
