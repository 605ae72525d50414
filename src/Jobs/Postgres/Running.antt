-- ===== src/Jobs/Postgres/Running.antt =====
-- jobs/postgres.go: what is registered is worked on.
use arrower.Base.{
  ◌≡◌, bytes_eq, Bytes, Bool, true, false, Option, none, some, ◌⊎◌, inl, inr, arith, Option-cases,
}
use arrower.Base.Dict.{Dict}
use arrower.Jobs.Postgres.Lifecycle.{
  QueueError, is_armed, PostgresQueue, Answered, shutdown, start_later, execute_between_restarts,
  add_worker, register_job_func, add_schedule, schedule, start_workers, System, Step, register_step,
  schedule_step, shutdown_step, expire_step, start_step, Reach, here, next,
}

module _ {F : Type 0} where
  -- The workers run with all functions that are registered; a start is in progress only while they do
  -- not, and the timer is set or its function due only then.
  abbrev pub IsConsistent : PostgresQueue F → Bool → Type 0
  IsConsistent q due =
      ((q.workers ≡ none) ⊎ ((q.workers ≡ some q.work_map) × (q.has_started ≡ true)))
      × (q.has_started ≡ true → q.is_start_in_progress ≡ false)
      × (q.is_start_in_progress ≡ false → (is_armed q.start_timer ≡ false) × (due ≡ false))
      × (due ≡ true → is_armed q.start_timer ≡ false)

  -- The same but for the functions and schedules.
  abbrev SameStart : PostgresQueue F → PostgresQueue F → Type 0
  SameStart q q' =
      (q'.workers ≡ q.workers)
      × (q'.has_started ≡ q.has_started)
      × (q'.is_start_in_progress ≡ q.is_start_in_progress)
      × (q'.start_timer ≡ q.start_timer)

  add_worker-SameStart :
      (Er : Type 0) (job_type : Bytes) (f : F) (q : PostgresQueue F)
      → SameStart q (add_worker {Er = Er} job_type f q).1
  unfolding add_worker
  add_worker-SameStart Er job_type f q = ground arith

module _ {Er F : Type 0} where
  shutdown-IsConsistent :
      (waited unregistered : Option Er) (q : PostgresQueue F) (due : Bool)
      → IsConsistent q due
      → IsConsistent (shutdown waited unregistered q).1 due
        × (((shutdown waited unregistered q).0 ≡ none)
            → ((shutdown waited unregistered q).1.workers ≡ none)
              × ((shutdown waited unregistered q).1.has_started ≡ false))
  unfolding shutdown is_armed
  shutdown-IsConsistent waited unregistered q due c = ground (arith, c)

  start_later-IsConsistent :
      (fn_err : Option (QueueError Er)) (q : PostgresQueue F) (due : Bool)
      → IsConsistent q due
      → q.workers ≡ none
      → q.has_started ≡ false
      → IsConsistent (start_later (fn_err, q)).1 due
  unfolding start_later is_armed
  start_later-IsConsistent fn_err q due c stopped idle = ground (arith, c, stopped, idle)

  start_workers-IsConsistent :
      (load_through : Dict Bytes F → Dict Bytes F) (failure : Option Er) (q : PostgresQueue F)
      → IsConsistent q true
      → IsConsistent (start_workers load_through failure q).1 false
  unfolding start_workers is_armed
  start_workers-IsConsistent load_through failure q c = ground (arith, c)

  execute-IsConsistent :
      (waited unregistered : Option Er) (fn : PostgresQueue F → Answered Er F)
      → ((q : PostgresQueue F) → SameStart q (fn q).1)
      → (q : PostgresQueue F) (due : Bool) → IsConsistent q due
      → IsConsistent (execute_between_restarts waited unregistered fn q).1 due
  unfolding execute_between_restarts
  execute-IsConsistent waited unregistered fn same q due c =
      let stopped = (shutdown waited unregistered q).1 in
      let (well, idle) = shutdown-IsConsistent waited unregistered q due c in
      elim (Option-cases (shutdown waited unregistered q).0) [
        | inr (e, failure) ↦ rw (execute_between_restarts, failure) well
        | inl fine ↦
            rw (execute_between_restarts, fine)
              (start_later-IsConsistent (fn stopped).0 (fn stopped).1 due
                (ground (arith, well, idle fine, same stopped))
                (ground (arith, idle fine, same stopped)) (ground (arith, idle fine, same stopped)))
      ]

  add_schedule-SameStart :
      (refused : Option Er) (text job_type : Bytes) (q : PostgresQueue F)
      → SameStart q (add_schedule refused text job_type q).1
  unfolding add_schedule
  add_schedule-SameStart refused text job_type q = ground arith

  pub register_job_func-IsConsistent :
      (waited unregistered : Option Er) (valid : Bool) (name : Option Bytes) (f : F)
      (q : PostgresQueue F) (due : Bool)
      → IsConsistent q due
      → IsConsistent (register_job_func waited unregistered valid name f q).1 due
  unfolding register_job_func
  register_job_func-IsConsistent waited unregistered false name f q due c = c
  register_job_func-IsConsistent waited unregistered true none f q due c = c
  register_job_func-IsConsistent waited unregistered true (some name) f q due c =
      execute-IsConsistent waited unregistered (add_worker name f) (add_worker-SameStart Er name f)
        q due c

  schedule-IsConsistent :
      (waited unregistered refused : Option Er) (text : Bytes) (name : Option Bytes)
      (q : PostgresQueue F) (due : Bool)
      → IsConsistent q due
      → IsConsistent (schedule waited unregistered refused text name q).1 due
  unfolding schedule
  schedule-IsConsistent waited unregistered refused text none q due c = c
  schedule-IsConsistent waited unregistered refused text (some name) q due c =
      execute-IsConsistent waited unregistered (add_schedule refused text name)
        (add_schedule-SameStart refused text name) q due c

  pub Step-IsConsistent :
      (load_through : Dict Bytes F → Dict Bytes F) {s t : System F}
      → IsConsistent s.queue s.due
      → Step Er load_through s t
      → IsConsistent t.queue t.due
  Step-IsConsistent load_through {s} c (register_step waited unregistered valid name f) =
      register_job_func-IsConsistent waited unregistered valid name f s.queue s.due c
  Step-IsConsistent load_through {s} c (schedule_step waited unregistered refused text name) =
      schedule-IsConsistent waited unregistered refused text name s.queue s.due c
  Step-IsConsistent load_through {s} c (shutdown_step waited unregistered) =
      (shutdown-IsConsistent waited unregistered s.queue s.due c).0
  Step-IsConsistent load_through {s} c (expire_step h) = unfold is_armed in ground (arith, c, h)
  Step-IsConsistent load_through {s} c (start_step failure h) =
      start_workers-IsConsistent load_through failure s.queue (ground (arith, c, h))

  -- From a queue of which this holds on, as it does of a new one, at any time: the workers, if
  -- there are any, run with exactly the functions that are registered, and the timer is set or its
  -- function due only while a start is in progress, which is never so while the workers run.
  pub Reach-IsConsistent :
      (load_through : Dict Bytes F → Dict Bytes F) (s t : System F)
      → IsConsistent s.queue s.due
      → Reach Er load_through s t
      → IsConsistent t.queue t.due
  Reach-IsConsistent load_through s t c here = c
  Reach-IsConsistent load_through s t c (next {t = u} r step) =
      Step-IsConsistent load_through (Reach-IsConsistent load_through s u c r) step
