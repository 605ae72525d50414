-- ===== src/Jobs/Postgres/Lifecycle.antt =====
-- jobs/postgres.go: when the workers of `PostgresJobsHandler` run. They are started by a timer after
-- the first registration, and stopped and started again for each one that comes later.
use arrower.Base.{
  ◌≡◌, bytes_eq, if◌then◌else◌, is_some, not, Bytes, Bool, true, false, ◌&&◌, Option, none, some,
  List, [], ◌∷◌, ◌++◌,
}
use arrower.Base.Dict.{Dict, lookup, insert}

pub data QueueError (Er : Type 0) : Type 0 where
  invalid_job_type invalid_job_func already_registered already_started : QueueError Er
  shutdown_failed not_scheduled load_through_failed : Er → QueueError Er

-- startTimer: unset, set and not yet expired, or expired or stopped.
pub data Timer : Type 0 where
  unset armed expired : Timer

-- `workers` has the map that the pool of workers was started with, while there is one.
pub record PostgresQueue (F : Type 0) : Type 0 where
  pub work_map : Dict Bytes F
  pub schedules : List (Bytes × Bytes)
  pub start_timer : Timer
  pub is_start_in_progress : Bool
  pub has_started : Bool
  pub workers : Option (Dict Bytes F)

abbrev pub Answered : Type 0 → Type 0 → Type 0
Answered Er F = Option (QueueError Er) × PostgresQueue F

unfoldable pub is_armed : Timer → Bool
is_armed unset = false
is_armed armed = true
is_armed expired = false

module _ {Er F : Type 0} where
  -- `waited` is the error of the workers that have ended, `unregistered` that of the query which says
  -- so in the database.
  unfoldable pub shutdown : Option Er → Option Er → PostgresQueue F → Answered Er F
  shutdown waited unregistered q =
      if q.has_started
      then elim waited [
        | some e ↦ (some (shutdown_failed e), record q { workers = none })
        | none ↦ elim unregistered [
          | some e ↦ (some (shutdown_failed e), record q { workers = none })
          | none ↦ (none, record q { workers = none; has_started = false })
        ]
      ]
      else (none, q)

  -- What follows on the call of `fn` in executeBetweenRestarts.
  unfoldable pub start_later : Answered Er F → Answered Er F
  unfolding is_armed
  start_later (fn_err, q) =
      if q.has_started
      then (fn_err, q)
      else if q.is_start_in_progress && not (is_armed q.start_timer)
      then (none, q)
      else (fn_err, record q { start_timer = armed; is_start_in_progress = true })

  unfoldable pub execute_between_restarts :
      Option Er → Option Er → (PostgresQueue F → Answered Er F) → PostgresQueue F → Answered Er F
  unfolding shutdown start_later
  execute_between_restarts waited unregistered fn q =
      let (failure, stopped) = shutdown waited unregistered q in
      elim failure [ some e ↦ (some e, stopped) | none ↦ start_later (fn stopped) ]

  -- The function that RegisterJobFunc gives to executeBetweenRestarts.
  unfoldable pub add_worker : Bytes → F → PostgresQueue F → Answered Er F
  add_worker job_type f q =
      if is_some (lookup job_type q.work_map)
      then (some already_registered, q)
      else (none, record q { work_map = insert job_type f q.work_map })

  -- `valid` says whether isValidJobFunc holds, `name` is what getJobTypeFromType returns.
  unfoldable pub register_job_func :
      Option Er → Option Er → Bool → Option Bytes → F → PostgresQueue F → Answered Er F
  unfolding execute_between_restarts add_worker
  register_job_func waited unregistered valid name f q =
      if not valid then (some invalid_job_func, q) else elim name [
        | none ↦ (some invalid_job_type, q)
        | some job_type ↦ execute_between_restarts waited unregistered (add_worker job_type f) q
      ]

  -- The function that Schedule gives to executeBetweenRestarts; `refused` is the scheduler's answer.
  unfoldable pub add_schedule : Option Er → Bytes → Bytes → PostgresQueue F → Answered Er F
  add_schedule refused text job_type q =
      let q' = record q { schedules = q.schedules ++ ((text, job_type) ∷ []) } in
      elim refused [ some e ↦ (some (not_scheduled e), q') | none ↦ (none, q') ]

  -- `name` is what getJobTypeFromType returns for a struct that can be marshalled, and `none` for
  -- another job, whichever error it is that Schedule returns for it.
  unfoldable pub schedule :
      Option Er → Option Er → Option Er → Bytes → Option Bytes → PostgresQueue F → Answered Er F
  unfolding execute_between_restarts add_schedule
  schedule waited unregistered refused text name q = elim name [
    | none ↦ (some invalid_job_type, q)
    | some job_type ↦
        execute_between_restarts waited unregistered (add_schedule refused text job_type) q
  ]

  -- `load_through` is the scheduler's Run, which adds its own jobs to the map, with the error that it
  -- returns.
  unfoldable pub start_workers :
      (Dict Bytes F → Dict Bytes F) → Option Er → PostgresQueue F → Answered Er F
  start_workers load_through failure q =
      if q.has_started then (some already_started, q) else elim failure [
        | some e ↦ (some (load_through_failed e), record q { work_map = load_through q.work_map })
        | none ↦ (
          none,
          record q {
            work_map = load_through q.work_map;
            has_started = true;
            is_start_in_progress = false;
            workers = some (load_through q.work_map);
          },
        )
      ]

-- The queue, and whether the timer's function is due: it has expired, and the function waits for the
-- lock.
pub record System (F : Type 0) : Type 0 where
  pub queue : PostgresQueue F
  pub due : Bool

-- What happens to a queue, in any order; each step holds the lock.
module _ (Er : Type 0) {F : Type 0} (load_through : Dict Bytes F → Dict Bytes F) where
  pub data Step (s : System F) : System F → Type 0 where
    register_step :
        (waited unregistered : Option Er) (valid : Bool) (name : Option Bytes) (f : F)
        → Step s
            (record s { queue = (register_job_func waited unregistered valid name f s.queue).1 })
    schedule_step :
        (waited unregistered refused : Option Er) (text : Bytes) (name : Option Bytes)
        → Step s (record s { queue = (schedule waited unregistered refused text name s.queue).1 })
    shutdown_step :
        (waited unregistered : Option Er)
        → Step s (record s { queue = (shutdown waited unregistered s.queue).1 })
    expire_step :
        is_armed s.queue.start_timer ≡ true
        → Step s (record s { queue = record s.queue { start_timer = expired }; due = true })
    start_step :
        (failure : Option Er)
        → s.due ≡ true
        → Step s (record s { queue = (start_workers load_through failure s.queue).1; due = false })

  pub data Reach (s : System F) : System F → Type 0 where
    here : Reach s s
    next : {t u : System F} → Reach s t → Step t u → Reach s u
