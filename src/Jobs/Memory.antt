-- ===== src/Jobs/Memory.antt =====
-- jobs/inmemory.go: `MemoryQueue`, one function for each stretch of code under its lock. The cron
-- library and the functions that work on jobs are outside.
use arrower.Base.{
  if◌then◌else◌, is_some, bytes_eq, Bytes, Bool, true, false, ◌&&◌, Option, none, some, List, [],
  ◌∷◌, ◌++◌,
}
use arrower.Base.Dict.{Dict, lookup, insert}

-- What `reflect` tells of a value that is given as a job: a struct, a slice, in which `none` is an
-- element that is no struct, or nil or a value of another kind.
pub data Job (J : Type 0) : Type 0 where
  struct : J → Job J
  slice : List (Option J) → Job J
  other : Job J

-- `cron` has the jobs that are scheduled.
pub record MemoryQueue (J F : Type 0) : Type 0 where
  pub jobs : List (Job J)
  pub worker_map : Dict Bytes F
  pub cron : List (Job J)

-- What `processFirstJob` does with the first job before it frees the lock.
pub data Taken (J F : Type 0) : Type 0 where
  idle : Taken J F
  no_worker : Job J → Taken J F
  called : Job J → F → Taken J F

module _ {J : Type 0} where
  unfoldable pub all_structs : List (Option J) → Bool
  all_structs [] = true
  all_structs (j ∷ js) = is_some j && all_structs js

  -- ensureValidJobTypeForEnqueue: whether it returns no error
  unfoldable pub is_valid_job_type : Job J → Bool
  unfolding all_structs
  is_valid_job_type (struct j) = true
  is_valid_job_type (slice []) = false
  is_valid_job_type (slice (j ∷ js)) = all_structs (j ∷ js)
  is_valid_job_type other = false

  unfoldable pub elements : List (Option J) → List (Job J)
  elements [] = []
  elements (none ∷ js) = other ∷ elements js
  elements (some j ∷ js) = struct j ∷ elements js

  -- The switch of `Enqueue`: what it appends for the job.
  unfoldable pub entries : Job J → List (Job J)
  unfolding elements
  entries (struct j) = struct j ∷ []
  entries (slice js) = elements js
  entries other = []

module _ {J F : Type 0} where
  -- The result says whether there is no error.
  unfoldable pub enqueue : Job J → MemoryQueue J F → Bool × MemoryQueue J F
  unfolding is_valid_job_type entries
  enqueue job q =
      if is_valid_job_type job
      then (true, record q { jobs = q.jobs ++ entries job })
      else (false, q)

  -- `accepts` says whether cron can read the text that says when.
  unfoldable pub schedule :
      (Bytes → Bool) → Bytes → Job J → MemoryQueue J F → Bool × MemoryQueue J F
  unfolding is_valid_job_type
  schedule accepts text job q =
      if is_valid_job_type job
      then (if accepts text then (true, record q { cron = q.cron ++ (job ∷ []) }) else (false, q))
      else (false, q)

  -- The function that cron is given: it appends the job as it is.
  unfoldable pub fire : Job J → MemoryQueue J F → MemoryQueue J F
  fire job q = record q { jobs = q.jobs ++ (job ∷ []) }

  -- `name` is the job type of the function's second parameter, `none` where there is an error.
  unfoldable pub register_job_func : Option Bytes → F → MemoryQueue J F → Bool × MemoryQueue J F
  register_job_func none f q = (false, q)
  register_job_func (some name) f q = (true, record q { worker_map = insert name f q.worker_map })

  -- processFirstJob, up to the call; `type_of` is what `getJobTypeFromType` gives for a job.
  unfoldable pub take_first : (Job J → Bytes) → MemoryQueue J F → Taken J F × MemoryQueue J F
  take_first type_of q = elim q.jobs [
    | [] ↦ (idle, q)
    | job ∷ rest ↦ elim (lookup (type_of job) q.worker_map) [
      | none ↦ (no_worker job, record q { jobs = rest })
      | some f ↦ (called job f, record q { jobs = rest })
    ]
  ]

  -- processFirstJob, after a call that has failed or not.
  unfoldable pub put_back : Bool → Job J → MemoryQueue J F → MemoryQueue J F
  put_back failed job q = if failed then record q { jobs = q.jobs ++ (job ∷ []) } else q
