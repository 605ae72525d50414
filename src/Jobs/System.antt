-- ===== src/Jobs/System.antt =====
-- jobs/inmemory.go: the queue with everyone who uses it at the same time. Each step is a stretch of
-- code under the lock; calls of job functions run between two steps, any number of them at once.
use arrower.Base.{◌≡◌, Bytes, Bool, Option, List, [], ◌∷◌, ◌++◌, if◌then◌else◌}
use arrower.Jobs.Memory.{
  Job, MemoryQueue, idle, no_worker, called, entries, enqueue, schedule, fire, register_job_func,
  take_first, put_back,
}

-- The queue and the jobs whose function is being called; and the history: the jobs that have come to
-- the queue, those whose function has succeeded, and those that were taken without a function.
pub record System (J F : Type 0) : Type 0 where
  pub queue : MemoryQueue J F
  pub running : List (Job J)
  pub arrived : List (Job J)
  pub finished : List (Job J)
  pub dropped : List (Job J)

module _ {J F : Type 0} where
  unfoldable pub enqueued : Job J → System J F → System J F
  unfolding enqueue
  enqueued job s = record s {
    queue = (enqueue job s.queue).1;
    arrived = if (enqueue job s.queue).0 then s.arrived ++ entries job else s.arrived;
  }

  unfoldable pub fired : Job J → System J F → System J F
  unfolding fire
  fired job s = record s { queue = fire job s.queue; arrived = s.arrived ++ (job ∷ []) }

  unfoldable pub taken : (Job J → Bytes) → System J F → System J F
  unfolding take_first
  taken type_of s =
      let q = (take_first type_of s.queue).1 in
      elim (take_first type_of s.queue).0 [
        | idle ↦ s
        | no_worker job ↦ record s { queue = q; dropped = job ∷ s.dropped }
        | called job f ↦ record s { queue = q; running = s.running ++ (job ∷ []) }
      ]

  -- The call on `job` comes back; `before` and `after` are the other calls.
  unfoldable pub returned : List (Job J) → Job J → List (Job J) → Bool → System J F → System J F
  unfolding put_back
  returned before job after failed s = record s {
    queue = put_back failed job s.queue;
    running = before ++ after;
    finished = if failed then s.finished else job ∷ s.finished;
  }

module _ {J F : Type 0} (type_of : Job J → Bytes) where
  pub data Step (s : System J F) : System J F → Type 0 where
    enqueue_step : (job : Job J) → Step s (enqueued job s)
    schedule_step :
        (accepts : Bytes → Bool) (text : Bytes) (job : Job J)
        → Step s (record s { queue = (schedule accepts text job s.queue).1 })
    fire_step :
        (before after : List (Job J)) (job : Job J)
        → s.queue.cron ≡ before ++ (job ∷ after)
        → Step s (fired job s)
    register_step :
        (name : Option Bytes) (f : F)
        → Step s (record s { queue = (register_job_func name f s.queue).1 })
    take_step : Step s (taken type_of s)
    return_step :
        (before after : List (Job J)) (job : Job J) (failed : Bool)
        → s.running ≡ before ++ (job ∷ after)
        → Step s (returned before job after failed s)

  pub data Reach (s : System J F) : System J F → Type 0 where
    here : Reach s s
    next : {t u : System J F} → Reach s t → Step t u → Reach s u
