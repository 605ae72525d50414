-- ===== src/Jobs/Postgres/Starting.antt =====
-- jobs/postgres.go: that the workers are started, and when they never are.
use arrower.Base.{◌≡◌, bytes_eq, Bytes, true, false, none, some, ◌⊎◌, inl, inr, arith}
use arrower.Base.Dict.{Dict, lookup, lookup-insert}
use arrower.Jobs.Postgres.Lifecycle.{
  is_armed, expired, PostgresQueue, shutdown, start_later, execute_between_restarts, add_worker,
  register_job_func, add_schedule, schedule, start_workers, System, Step, register_step,
  schedule_step, shutdown_step, expire_step, start_step, Reach, here, next,
}
use arrower.Jobs.Postgres.Running.{IsConsistent, register_job_func-IsConsistent, Step-IsConsistent}

-- `typed` is the registration of a valid function where nothing fails that it waits for.
module _ (Er : Type 0) {F : Type 0} (job_type : Bytes) (f : F) where
  abbrev pub typed : System F → System F
  typed s = record s {
    queue = (register_job_func {Er = Er} none none true (some job_type) f s.queue).1;
  }

  typed_lem :
      (s : System F)
      → IsConsistent s.queue s.due
      → (s.queue.is_start_in_progress ≡ true
          → (is_armed s.queue.start_timer ≡ true) ⊎ (s.due ≡ true))
      → lookup job_type s.queue.work_map ≡ none
      → (lookup job_type (typed s).queue.work_map ≡ some f)
        × ((typed s).queue.has_started ≡ false)
        × ((is_armed (typed s).queue.start_timer ≡ true) ⊎ (s.due ≡ true))
  unfolding register_job_func execute_between_restarts shutdown start_later add_worker is_armed
  typed_lem s c healthy new =
      ground (arith, c, healthy, new, lookup-insert job_type job_type f s.queue.work_map)

module _ {Er F : Type 0} (load_through : Dict Bytes F → Dict Bytes F) where
  -- A step in which no workers fail to end or to start, and that does not shut the queue down: any
  -- registration and schedule, the timer and the start.
  abbrev pub IsCalm : {s t : System F} → Step Er load_through s t → Type 0
  IsCalm (register_step waited unregistered valid name f) = (waited ≡ none) × (unregistered ≡ none)
  IsCalm (schedule_step waited unregistered refused text name) =
      (waited ≡ none) × (unregistered ≡ none)
  IsCalm (shutdown_step waited unregistered) = ⊥
  IsCalm (expire_step h) = Unit {0}
  IsCalm (start_step failure h) = failure ≡ none

module _ (Er : Type 0) {F : Type 0} (load_through : Dict Bytes F → Dict Bytes F) where
  -- Calm steps, one after the other.
  pub data Undisturbed (s : System F) : System F → Type 0 where
    at_once : Undisturbed s s
    further :
        {t u : System F}
        → Undisturbed s t
        → (step : Step Er load_through t u) → IsCalm load_through step
        → Undisturbed s u

module _ {F : Type 0} (job_type : Bytes) (f : F) where
  -- The workers run, and with this function.
  abbrev pub IsWorkedOn : PostgresQueue F → Type 0
  IsWorkedOn q = (m : Dict Bytes F) × (q.workers ≡ some m) × (lookup job_type m ≡ some f)

  -- It is registered, and a start is on its way or the workers run.
  abbrev IsUnderway : System F → Type 0
  IsUnderway s =
      (lookup job_type s.queue.work_map ≡ some f)
      × ((s.queue.is_start_in_progress ≡ true)
          → (is_armed s.queue.start_timer ≡ true) ⊎ (s.due ≡ true))
      × ((is_armed s.queue.start_timer ≡ true) ⊎ ((s.due ≡ true) ⊎ (s.queue.has_started ≡ true)))
      × (s.queue.has_started ≡ true → s.queue.workers ≡ some s.queue.work_map)

module _ {Er F : Type 0} (load_through : Dict Bytes F → Dict Bytes F)
    (load_through_keeps : (job_type : Bytes) (f : F) (m : Dict Bytes F)
      → lookup job_type m ≡ some f
      → lookup job_type (load_through m) ≡ some f)
    (job_type : Bytes) (f : F) where
  Step-IsUnderway :
      {s t : System F} (step : Step Er load_through s t)
      → IsCalm load_through step
      → IsConsistent s.queue s.due
      → IsUnderway job_type f s
      → IsUnderway job_type f t
  Step-IsUnderway {s} (register_step waited unregistered valid none g) calm c way =
      unfold register_job_func in ground (arith, way)
  Step-IsUnderway {s} (register_step waited unregistered valid (some name) g) calm c way =
      unfold register_job_func execute_between_restarts shutdown start_later add_worker is_armed in
      ground (arith, calm, c, way, lookup-insert job_type name g s.queue.work_map)
  Step-IsUnderway {s} (schedule_step waited unregistered refused text name) calm c way =
      unfold schedule execute_between_restarts shutdown start_later add_schedule is_armed in
      ground (arith, calm, c, way)
  Step-IsUnderway {s} (shutdown_step waited unregistered) calm c way = absurd calm
  Step-IsUnderway {s} (expire_step h) calm c way = unfold is_armed in ground (arith, c, way, h)
  Step-IsUnderway {s} (start_step failure h) calm c way =
      unfold start_workers in
      ground (arith, calm, c, way, h, load_through_keeps job_type f s.queue.work_map way.0)

  Undisturbed-IsUnderway :
      {s t : System F}
      → Undisturbed Er load_through s t
      → IsConsistent s.queue s.due
      → IsUnderway job_type f s
      → IsConsistent t.queue t.due × IsUnderway job_type f t
  Undisturbed-IsUnderway at_once c way = (c, way)
  Undisturbed-IsUnderway (further runs step calm) c way =
      let (c', way') = Undisturbed-IsUnderway runs c way in
      (Step-IsConsistent load_through c' step, Step-IsUnderway step calm c' way')

-- The timer expires; its function starts the workers, without an error.
abbrev pub timer_expires : {F : Type 0} → System F → System F
timer_expires s = record s { queue = record s.queue { start_timer = expired }; due = true }

abbrev pub workers_start :
    {F : Type 0} (Er : Type 0) (load_through : Dict Bytes F → Dict Bytes F) → System F → System F
workers_start Er load_through s = record s {
  queue = (start_workers {Er = Er} load_through none s.queue).1;
  due = false;
}

module _ (Er : Type 0) {F : Type 0} (load_through : Dict Bytes F → Dict Bytes F)
    (load_through_keeps : (job_type : Bytes) (f : F) (m : Dict Bytes F)
      → lookup job_type m ≡ some f
      → lookup job_type (load_through m) ≡ some f)
    (job_type : Bytes) (f : F) where
  start_workers-IsWorkedOn :
      (q : PostgresQueue F)
      → q.has_started ≡ false
      → lookup job_type q.work_map ≡ some f
      → IsWorkedOn job_type f (start_workers {Er = Er} load_through none q).1
  unfolding start_workers
  start_workers-IsWorkedOn q idle has =
      (load_through q.work_map, ground (arith, idle), load_through_keeps job_type f q.work_map has)

  -- Where the scheduler keeps the functions in the map: a job function for a new type is registered
  -- while the queue is consistent, no start has failed, and the workers can be stopped. At any time
  -- after that, whatever is registered and scheduled in between, if the queue is not shut down, the
  -- workers can be stopped and no start fails: the timer is set, and once it has expired and the workers
  -- have started they run with this function; or it has expired, and once the workers have started they
  -- do; or the workers run with it.
  pub registered_runs :
      (s t : System F)
      → IsConsistent s.queue s.due
      → (s.queue.is_start_in_progress ≡ true
          → (is_armed s.queue.start_timer ≡ true) ⊎ (s.due ≡ true))
      → lookup job_type s.queue.work_map ≡ none
      → Undisturbed Er load_through (typed Er job_type f s) t
      → ((is_armed t.queue.start_timer ≡ true)
          × IsWorkedOn job_type f (workers_start Er load_through (timer_expires t)).queue)
        ⊎ (((t.due ≡ true) × IsWorkedOn job_type f (workers_start Er load_through t).queue)
            ⊎ IsWorkedOn job_type f t.queue)
  registered_runs s t c healthy new runs =
      let (has, idle, way) = typed_lem Er job_type f s c healthy new in
      let begun : IsUnderway job_type f (typed Er job_type f s) =
        (has, (λ _. way), ground (arith, way), λ h. absurd (ground (arith, idle, h))) in
      let (c', (there, waits, on_its_way, runs_all)) =
        Undisturbed-IsUnderway load_through load_through_keeps job_type f runs
          (register_job_func-IsConsistent {Er = Er} none none true (some job_type) f s.queue s.due
            c)
          begun in
      elim on_its_way [
        | inl set ↦
            inl (
              set,
              start_workers-IsWorkedOn (timer_expires t).queue (ground (arith, c', set)) there,
            )
        | inr (inl waiting) ↦
            inr
              (inl (waiting, start_workers-IsWorkedOn t.queue (ground (arith, c', waiting)) there))
        | inr (inr started) ↦ inr (inr (t.queue.work_map, runs_all started, there))
      ]

module _ {F : Type 0} where
  -- A start is in progress, but nothing is left that would do it.
  abbrev IsStuck : System F → Type 0
  IsStuck s =
      (s.queue.workers ≡ none)
      × (s.queue.has_started ≡ false)
      × (s.queue.is_start_in_progress ≡ true)
      × (is_armed s.queue.start_timer ≡ false)
      × (s.due ≡ false)

module _ {Er F : Type 0} (load_through : Dict Bytes F → Dict Bytes F) where
  Step-IsStuck : {s t : System F} → IsStuck s → Step Er load_through s t → IsStuck t
  Step-IsStuck {s} v (register_step waited unregistered valid name f) =
      unfold register_job_func execute_between_restarts shutdown start_later add_worker in
      ground (arith, v)
  Step-IsStuck {s} v (schedule_step waited unregistered refused text name) =
      unfold schedule execute_between_restarts shutdown start_later add_schedule in
      ground (arith, v)
  Step-IsStuck {s} v (shutdown_step waited unregistered) = unfold shutdown in ground (arith, v)
  Step-IsStuck {s} v (expire_step h) = absurd (ground (arith, v, h))
  Step-IsStuck {s} v (start_step failure h) = absurd (ground (arith, v, h))

  Reach-IsStuck : (s t : System F) → IsStuck s → Reach Er load_through s t → IsStuck t
  Reach-IsStuck s t v here = v
  Reach-IsStuck s t v (next {t = u} r step) = Step-IsStuck (Reach-IsStuck s u v r) step

  -- If the scheduler returns an error when the workers of a consistent queue are to be started,
  -- there are none from then on, whatever is registered, scheduled or shut down later.
  failed_start_stays :
      (s t : System F) (e : Er)
      → IsConsistent s.queue s.due
      → s.due ≡ true
      → Reach Er load_through
          (record s { queue = (start_workers load_through (some e) s.queue).1; due = false })
          t
      → (t.queue.workers ≡ none) × (t.queue.has_started ≡ false)
  failed_start_stays s t e c waits r =
      let failed = record s {
        queue = (start_workers load_through (some e) s.queue).1;
        due = false;
      } in
      let stuck = Reach-IsStuck failed t (unfold start_workers in ground (arith, c, waits)) r in
      (stuck.0, stuck.1)
