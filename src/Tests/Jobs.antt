-- ===== src/Tests/Jobs.antt =====
-- A queue of jobs that are numbers, and the theorems on it.
use arrower.Base.{ℕ, ◌≡◌, refl, nat_eq, bytes_eq, ◌==◌, Bytes, Bool, true, false, some, [], ◌∷◌}
use arrower.Base.Dict.{lookup}
use arrower.Jobs.Memory.{Job, struct, slice, other, enqueue, is_valid_job_type, entries}
use arrower.Jobs.System.{
  System, Reach, here, next, enqueue_step, take_step, return_step, enqueued, taken, returned,
}
use arrower.Base.Count.{count_of}
use arrower.Jobs.Conservation.{present, present-arrived}

-- The type of a job is its number, and that of a slice the one text that all slices have.
abbrev type_name : Job ℕ → Bytes
type_name (struct n) = n ∷ []
type_name (slice _) = b'.' ∷ []
type_name other = []

-- A function for jobs of type 7.
abbrev one_worker : System ℕ Bool
one_worker = record {
  queue = record { jobs = []; worker_map = (7 ∷ [], true) ∷ []; cron = [] };
  running = [];
  arrived = [];
  finished = [];
  dropped = [];
}

abbrev after_enqueue : System ℕ Bool
after_enqueue = enqueued (slice (some 7 ∷ some 8 ∷ [])) one_worker

-- The first job is called and fails.
abbrev after_failure : System ℕ Bool
after_failure = returned [] (struct 7) [] true (taken type_name after_enqueue)

failure : Reach type_name one_worker after_failure
unfolding enqueued enqueue is_valid_job_type entries taken lookup bytes_eq
failure =
    next (next (next here (enqueue_step (slice (some 7 ∷ some 8 ∷ [])))) take_step)
      (return_step [] [] (struct 7) true refl)

enqueue_nothing : (enqueue (slice []) one_worker.queue).0 ≡ false
unfolding enqueue is_valid_job_type
enqueue_nothing = refl

present-arrived_example :
    present (λ job. type_name job == 7 ∷ []) after_failure
    ≡ count_of (λ job. type_name job == 7 ∷ []) after_failure.arrived
present-arrived_example =
    present-arrived (λ job. type_name job == 7 ∷ []) type_name one_worker after_failure
      (unfold count_of in refl) failure
