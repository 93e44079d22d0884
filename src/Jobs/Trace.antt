-- ===== src/Jobs/Trace.antt =====
-- What a job of jobs.rs publishes, in whatever order the jobs run and are cancelled.
use mathlib.Core.List.{append-nil}
use rc_launcher.Base.{
  ℕ, zero, suc, ◌≤◌, ◌<◌, ◌≡◌, refl, sym, ap, ◌∙◌, ◌⊎◌, inl, inr, true, false, Option, some, List,
  [], ◌∷◌, ◌++◌, length, length-append, get_elem?, ◌==◌, ==_iff, Bool-cases, some-injective, arith,
  ok, if◌then◌else◌,
}
use rc_launcher.Base.Text.{Text, codes}
use rc_launcher.Event.{Event, EventBus, lifecycle_event, error_event, progress_event}
use rc_launcher.Jobs.{
  Spec, Phase, checking, reporting, ending, done, Job, World, set_job, fails_at, spawn_job, advance,
  cancel_job,
}

module _ {V S : Type 0} (show : ℕ → Text) where
  -- One thing that happens: a job is spawned, a job does its next step, or a scope is cancelled.
  pub data Step : World V S → World V S → Type 0 where
    spawned : {w v : World V S} (spec : Spec) → spawn_job show spec w ≡ ok v → Step w v
    advanced :
        {w : World V S} (n : ℕ) (j : Job)
        → get_elem? w.jobs n ≡ some j
        → Step w (advance show n j w)
    cancelled : {w : World V S} (scope : Text) → Step w ((cancel_job scope w).1)

  -- What may happen to a world without jobs.
  pub data Reachable : World V S → Type 0 where
    fresh : (bus : EventBus S) → Reachable (record { bus = bus; cancels = []; jobs = []; log = [] })
    next : {w v : World V S} → Reachable w → Step w v → Reachable v

module _ {V : Type 0} where
  -- The events of a job, without their numbers.
  unfoldable pub published : ℕ → List (ℕ × Event V) → List (Event V)
  published n [] = []
  published n ((m, e) ∷ rest) =
      let later = published n rest in if m == n then record e { seq = 0 } ∷ later else later

-- None of the first steps is the one that fails.
abbrev pub Spared : Option ℕ → ℕ → Type 0
Spared fail_at k = (i : ℕ) → i < k → fails_at fail_at (suc i) ≡ false

module _ {V : Type 0} (show : ℕ → Text) (scope label : Text) (steps : ℕ) where
  abbrev pub started_event : Event V
  started_event = lifecycle_event scope (codes "started") (label ++ codes " started")

  -- The progress events of the first steps.
  unfoldable pub reports : ℕ → List (Event V)
  reports zero = []
  reports (suc k) =
      reports k
      ++ (progress_event scope (label ++ (codes " step " ++ show (suc k))) (suc k) (some steps)
          ∷ [])

  -- The last event of a job that reported `k` steps: it completed all of them, or failed or was
  -- cancelled before another one.
  pub data Last (fail_at : Option ℕ) : ℕ → Event V → Type 0 where
    completed :
        Spared fail_at steps
        → Last fail_at steps
            (lifecycle_event scope (codes "completed") (label ++ codes " completed"))
    failed :
        {k : ℕ}
        → k < steps
        → fails_at fail_at (suc k) ≡ true
        → Last fail_at k (error_event scope (label ++ (codes " failed at step " ++ show (suc k))))
    stopped :
        {k : ℕ}
        → k < steps
        → Last fail_at k (lifecycle_event scope (codes "cancelled") (label ++ codes " cancelled"))

  -- What a job has published, by where it is.
  pub data Story (fail_at : Option ℕ) : Phase → List (Event V) → Type 0 where
    at_check :
        {k : ℕ}
        → k ≤ steps
        → Spared fail_at k
        → Story fail_at (checking (suc k)) (started_event ∷ reports k)
    at_report :
        {k : ℕ}
        → k < steps
        → Spared fail_at (suc k)
        → Story fail_at (reporting (suc k)) (started_event ∷ reports k)
    at_end :
        {k : ℕ} {e : Event V}
        → Last fail_at k e
        → Story fail_at ending (started_event ∷ (reports k ++ (e ∷ [])))
    over :
        {k : ℕ} {e : Event V}
        → Last fail_at k e
        → Story fail_at done (started_event ∷ (reports k ++ (e ∷ [])))

module _ {V : Type 0} (show : ℕ → Text) where
  -- The story of a job.
  abbrev pub StoryOf : Job → List (Event V) → Type 0
  StoryOf j es = Story show j.scope j.label j.steps j.fail_at j.phase es

  published-push :
      (m n : ℕ) (e : Event V) (log : List (ℕ × Event V))
      → published m (log ++ ((n, e) ∷ []))
        ≡ published m log ++ (if n == m then record e { seq = 0 } ∷ [] else [])
  unfolding published
  published-push m n e [] = refl
  published-push m n e ((k, f) ∷ rest) = elim (Bool-cases (k == m)) [
    | inl q ↦ rw (published, q) (ap (λ es. record f { seq = 0 } ∷ es) (published-push m n e rest))
    | inr q ↦ rw (published, q) (published-push m n e rest)
  ]

  -- Every job has its story, and what is not a job has published nothing.
  pub record Told (jobs : List Job) (log : List (ℕ × Event V)) : Type 0 where
    pub story : (n : ℕ) (j : Job) → get_elem? jobs n ≡ some j → StoryOf j (published n log)
    pub silent : (n : ℕ) → length jobs ≤ n → published n log ≡ []

get_elem?-set_job :
    (n : ℕ) (j i : Job) (js : List Job)
    → get_elem? js n ≡ some i
    → get_elem? (set_job n j js) n ≡ some j
unfolding set_job
get_elem?-set_job n j i [] h = absurd (cc)
get_elem?-set_job zero j i (x ∷ xs) h = refl
get_elem?-set_job (suc n) j i (x ∷ xs) h = get_elem?-set_job n j i xs h

get_elem?-set_job_other :
    (n m : ℕ) (j : Job) (js : List Job)
    → (n == m) ≡ false
    → get_elem? (set_job n j js) m ≡ get_elem? js m
unfolding set_job
get_elem?-set_job_other n m j [] h = refl
get_elem?-set_job_other zero zero j (x ∷ xs) h = absurd (cc)
get_elem?-set_job_other zero (suc m) j (x ∷ xs) h = refl
get_elem?-set_job_other (suc n) zero j (x ∷ xs) h = refl
get_elem?-set_job_other (suc n) (suc m) j (x ∷ xs) h =
    get_elem?-set_job_other n m j xs (ground (arith, h))

length-set_job : (n : ℕ) (j : Job) (js : List Job) → length (set_job n j js) ≡ length js
unfolding set_job
length-set_job n j [] = refl
length-set_job zero j (x ∷ xs) = refl
length-set_job (suc n) j (x ∷ xs) = ap suc (length-set_job n j xs)

get_elem?-lt : (n : ℕ) (i : Job) (js : List Job) → get_elem? js n ≡ some i → n < length js
get_elem?-lt n i [] h = absurd (cc)
get_elem?-lt zero i (x ∷ xs) h = omega arith
get_elem?-lt (suc n) i (x ∷ xs) h = let l = get_elem?-lt n i xs h in omega (arith, l)

get_elem?-push :
    (m : ℕ) (i j : Job) (js : List Job)
    → get_elem? (js ++ (j ∷ [])) m ≡ some i
    → ((m < length js) × (get_elem? js m ≡ some i)) ⊎ ((m ≡ length js) × (j ≡ i))
get_elem?-push zero i j [] h = inr (refl, some-injective h)
get_elem?-push (suc m) i j [] h = absurd (cc)
get_elem?-push zero i j (x ∷ xs) h = inl (omega arith, h)
get_elem?-push (suc m) i j (x ∷ xs) h = elim (get_elem?-push m i j xs h) [
  | inl (l, g) ↦ inl (omega (arith, l), g)
  | inr (q, g) ↦ inr (ap suc q, g)
]

module _ {V : Type 0} (show : ℕ → Text) where
  pub set_job-Told :
      (n : ℕ) (j j' : Job) (jobs : List Job) (log log' : List (ℕ × Event V))
      → Told show jobs log
      → get_elem? jobs n ≡ some j
      → ((m : ℕ) → (n == m) ≡ false → published m log' ≡ published m log)
      → StoryOf show j' (published n log')
      → Told show (set_job n j' jobs) log'
  set_job-Told n j j' jobs log log' t here others own = record {
    story = λ m i h. elim (Bool-cases (n == m)) [
      | inl e ↦
          let same : n ≡ m = (==_iff n m).0 e in
          let h' : get_elem? (set_job n j' jobs) n ≡ some i =
            ap (get_elem? (set_job n j' jobs)) same ∙ h in
          let job : j' ≡ i = some-injective (sym (get_elem?-set_job n j' j jobs here) ∙ h') in
          rw (sym same, sym job) own
      | inr e ↦ rw (others m e) (t.story m i (sym (get_elem?-set_job_other n m j' jobs e) ∙ h))
    ];
    silent = λ m h.
        let lt = get_elem?-lt n j jobs here in
        let same = length-set_job n j' jobs in
        let apart : (n == m) ≡ false = ground (arith, lt, h, same) in
        others m apart ∙ t.silent m (omega (arith, h, same));
  }

  -- A job that publishes an event.
  pub push-Told :
      (n : ℕ) (j j' : Job) (jobs : List Job) (log : List (ℕ × Event V)) (e : Event V)
      → Told show jobs log
      → get_elem? jobs n ≡ some j
      → StoryOf show j' (published n log ++ (record e { seq = 0 } ∷ []))
      → Told show (set_job n j' jobs) (log ++ ((n, e) ∷ []))
  push-Told n j j' jobs log e t here own =
      set_job-Told n j j' jobs log (log ++ ((n, e) ∷ [])) t here
        (λ m apart. published-push show m n e log ∙ (rw (apart) (append-nil (published m log))))
        (rw (published-push show n n e log, (==_iff n n).1 refl) own)

  -- A new job.
  pub start-Told :
      (j : Job) (jobs : List Job) (log : List (ℕ × Event V)) (e : Event V)
      → Told show jobs log
      → StoryOf show j (record e { seq = 0 } ∷ [])
      → Told show (jobs ++ (j ∷ [])) (log ++ ((length jobs, e) ∷ []))
  start-Told j jobs log e t own = record {
    story = λ m i h. elim (get_elem?-push m i j jobs h) [
      | inl (lt, g) ↦
          let apart : (length jobs == m) ≡ false = ground (arith, lt) in
          rw (published-push show m (length jobs) e log, apart, append-nil (published m log))
            (t.story m i g)
      | inr (q, same) ↦
          let here : (length jobs == m) ≡ true = (==_iff (length jobs) m).1 (sym q) in
          let before = t.silent m (omega (arith, q)) in
          rw (published-push show m (length jobs) e log, here, before, sym same) own
    ];
    silent = λ m h.
        let more = length-append jobs (j ∷ []) in
        let apart : (length jobs == m) ≡ false = ground (arith, h, more) in
        rw (published-push show m (length jobs) e log, apart)
          (append-nil (published m log) ∙ t.silent m (omega (arith, h, more)));
  }
