-- ===== src/Jobs/Order.antt =====
-- jobs/inmemory.go: which jobs are called, and in which order.
use arrower.Base.{
  ℕ, zero, suc, ◌≡◌, ◌≢◌, bytes_eq, ◌==◌, is_some, length, Bytes, none, some, List, [], ◌∷◌, ◌++◌,
  arith, if◌then◌else◌,
}
use arrower.Base.Dict.{Dict, lookup, lookup-insert}
use arrower.Jobs.Memory.{Job, enqueue, schedule, fire, register_job_func, take_first, put_back}
use arrower.Jobs.System.{
  System, enqueued, fired, taken, returned, Step, enqueue_step, schedule_step, fire_step,
  register_step, take_step, return_step, Reach, here, next,
}
use arrower.Base.Append.{append_assoc, append_nil}
use arrower.Base.Count.{count_of}

module _ {J F : Type 0} (type_of : Job J → Bytes) (name : Bytes) where
  -- Jobs of this type have a function, and none was dropped.
  abbrev pub IsServed : System J F → Type 0
  IsServed s =
      (lookup name s.queue.worker_map ≢ none)
      × (count_of (λ job. type_of job == name) s.dropped ≡ 0)

  Step-IsServed : {s t : System J F} → IsServed s → Step type_of s t → IsServed t
  unfolding count_of
  Step-IsServed {s} v (enqueue_step job) = unfold enqueued enqueue in ground (arith, v)
  Step-IsServed {s} v (schedule_step accepts text job) = unfold schedule in ground (arith, v)
  Step-IsServed {s} v (fire_step before after job h) = unfold fired fire in v
  Step-IsServed {s} v (register_step none f) = unfold register_job_func in v
  Step-IsServed {s} v (register_step (some other) f) =
      unfold register_job_func in
      (ground (arith, v, lookup-insert name other f s.queue.worker_map), v.1)
  Step-IsServed {s} v take_step = unfold taken take_first in ground (arith, v)
  Step-IsServed {s} v (return_step before after job failed h) =
      unfold returned put_back in ground (arith, v)

  -- If a function is registered for a job type and no job of that type was dropped, both stay so
  -- whatever happens: registering functions never takes one away.
  Reach-IsServed : (s t : System J F) → IsServed s → Reach type_of s t → IsServed t
  Reach-IsServed s t v here = v
  Reach-IsServed s t v (next {t = u} r step) = Step-IsServed (Reach-IsServed s u v r) step

module _ {J F : Type 0} (type_of : Job J → Bytes) where
  -- The jobs that have a function, in their order.
  unfoldable pub with_worker : Dict Bytes F → List (Job J) → List (Job J)
  with_worker w [] = []
  with_worker w (job ∷ jobs) =
      let rest = with_worker w jobs in if is_some (lookup (type_of job) w) then job ∷ rest else rest

  -- processFirstJob so many times, with no other step in between.
  unfoldable pub taken_times : ℕ → System J F → System J F
  taken_times zero s = s
  taken_times (suc n) s = taken_times n (taken type_of s)

  taken_lem :
      (job : Job J) (rest : List (Job J)) (s : System J F)
      → s.queue.jobs ≡ job ∷ rest
      → ((taken type_of s).queue.jobs ≡ rest)
        × ((taken type_of s).queue.worker_map ≡ s.queue.worker_map)
        × ((taken type_of s).running ≡ s.running ++ with_worker s.queue.worker_map (job ∷ []))
  unfolding taken take_first with_worker
  taken_lem job rest s h = ground (arith, h, append_nil s.running)

  -- The jobs at the front of the queue are taken in the order in which they stand there: those that
  -- have a function are called in that order, and the jobs behind them stay.
  taken_times_lem :
      (xs ys : List (Job J)) (s : System J F)
      → s.queue.jobs ≡ xs ++ ys
      → ((taken_times (length xs) s).queue.jobs ≡ ys)
        × ((taken_times (length xs) s).running ≡ s.running ++ with_worker s.queue.worker_map xs)
  unfolding taken_times with_worker
  taken_times_lem [] ys s h = (h, ground (arith, append_nil s.running))
  taken_times_lem (job ∷ xs) ys s h =
      let one = taken_lem job (xs ++ ys) s h in
      let rest = taken_times_lem xs ys (taken type_of s) one.0 in
      (
        rest.0,
        ground (
          arith,
          one,
          rest,
          append_assoc s.running (job ∷ []) (with_worker s.queue.worker_map xs),
          append_nil s.running,
        ),
      )
