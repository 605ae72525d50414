-- ===== src/Jobs/Conservation.antt =====
-- What becomes of the jobs of a queue, whatever the order of the steps is.
use arrower.Base.{
  ℕ, ◌+◌, ◌≡◌, refl, bytes_eq, Bytes, Bool, none, some, List, [], ◌∷◌, arith, inl, inr, ◌⊎◌,
}
use arrower.Base.Count.{count_of, count_of-append}
use arrower.Jobs.Memory.{
  Job, entries, enqueue, schedule, fire, register_job_func, take_first, put_back,
}
use arrower.Jobs.System.{
  System, enqueued, fired, taken, returned, Step, enqueue_step, schedule_step, fire_step,
  register_step, take_step, return_step, Reach, here, next,
}

List-cases {ℓ} : {A : Type ℓ} (l : List A) → (l ≡ []) ⊎ ((a : A) × (rest : List A) × (l ≡ a ∷ rest))
List-cases [] = inl refl
List-cases (a ∷ rest) = inr (a, rest, refl)

module _ {J F : Type 0} (p : Job J → Bool) where
  -- How many of the jobs that pass the test are in the queue, running, finished or dropped.
  abbrev pub present : System J F → ℕ
  present s =
      count_of p s.queue.jobs + count_of p s.running + count_of p s.finished + count_of p s.dropped

  module _ (type_of : Job J → Bytes) where
    -- Each step brings as many of them as it says that have arrived.
    Step-present :
        {s t : System J F}
        → Step type_of s t
        → present t + count_of p s.arrived ≡ present s + count_of p t.arrived
    unfolding count_of
    Step-present {s} (enqueue_step job) =
        unfold enqueued enqueue in
        ground (
          arith,
          count_of-append p s.queue.jobs (entries job),
          count_of-append p s.arrived (entries job),
        )
    Step-present {s} (schedule_step accepts text job) = unfold schedule in ground arith
    Step-present {s} (fire_step before after job h) =
        unfold fired fire in
        ground
          (arith, count_of-append p s.queue.jobs (job ∷ []), count_of-append p s.arrived (job ∷ []))
    Step-present {s} (register_step none f) = unfold register_job_func in omega arith
    Step-present {s} (register_step (some name) f) = unfold register_job_func in omega arith
    Step-present {s} take_step =
        unfold taken take_first in
        elim (List-cases s.queue.jobs) [
          | inl h ↦ ground (arith, h)
          | inr (job, rest, h) ↦ ground (arith, h, count_of-append p s.running (job ∷ []))
        ]
    Step-present {s} (return_step before after job failed h) =
        unfold returned put_back in
        ground (
          arith,
          h,
          count_of-append p before (job ∷ after),
          count_of-append p before after,
          count_of-append p s.queue.jobs (job ∷ []),
        )

    -- From a state in which every job that has arrived is in the queue, running, finished or dropped,
    -- as many times as it has arrived, such as the empty queue, only such states are reached: none is
    -- lost and none is doubled. It holds of the jobs that pass any test.
    pub present-arrived :
        (s t : System J F)
        → present s ≡ count_of p s.arrived
        → Reach type_of s t
        → present t ≡ count_of p t.arrived
    present-arrived s t h here = h
    present-arrived s t h (next {t = u} r step) =
        omega (arith, present-arrived s u h r, Step-present step)
