-- ===== src/Tests/Queue.antt =====
-- A queue with two job types over a small database, and the theorems on the queue in Postgres.
use arrower.Base.{
  ◌⊎◌, ℕ, ◌≡◌, refl, bytes_eq, nat_eq, String, Bytes, true, false, none, some, [], ◌∷◌, arith,
}
use arrower.Base.Dict.{Dict, lookup, insert}
use arrower.Jobs.Postgres.Lifecycle.{
  unset, expired, is_armed, shutdown, start_later, execute_between_restarts, add_worker,
  register_job_func, start_workers, System, register_step, expire_step, Reach, here, next,
}
use arrower.Jobs.Postgres.Running.{IsConsistent, Reach-IsConsistent}
use arrower.Jobs.Postgres.Starting.{
  typed, Undisturbed, at_once, further, timer_expires, workers_start, IsWorkedOn, registered_runs,
}

abbrev mail : Bytes
mail = b'm' ∷ []

abbrev invoice : Bytes
invoice = b'i' ∷ []

abbrev fresh : System ℕ
fresh = record {
  queue = record {
    work_map = [];
    schedules = [];
    start_timer = unset;
    is_start_in_progress = false;
    has_started = false;
    workers = none;
  };
  due = false;
}

-- A scheduler that adds nothing to the map.
abbrev unchanged : Dict Bytes ℕ → Dict Bytes ℕ
unchanged m = m

-- Two functions are registered, then the timer expires.
abbrev one_registered : System ℕ
one_registered = record fresh {
  queue = (register_job_func {Er = String} none none true (some mail) 7 fresh.queue).1;
}

abbrev waiting : System ℕ
waiting = record one_registered {
  queue = record one_registered.queue { start_timer = expired };
  due = true;
}

abbrev running : System ℕ
running = record waiting {
  queue = (start_workers {Er = String} unchanged none waiting.queue).1;
  due = false;
}

fresh-IsConsistent : IsConsistent fresh.queue fresh.due
unfolding is_armed
fresh-IsConsistent = ground arith

to_waiting : Reach String unchanged fresh waiting
unfolding register_job_func execute_between_restarts shutdown start_later add_worker is_armed lookup
to_waiting = next (next here (register_step none none true (some mail) 7)) (expire_step refl)

Reach-IsConsistent_example : IsConsistent waiting.queue waiting.due
Reach-IsConsistent_example =
    Reach-IsConsistent unchanged fresh waiting fresh-IsConsistent to_waiting

test_running : running.queue.workers ≡ some ((mail, 7) ∷ [])
unfolding register_job_func execute_between_restarts shutdown start_later add_worker is_armed
    start_workers lookup insert
test_running = refl

-- A registration of a type that is there is refused, but the caller is not told while a start waits.
test_refused_silently :
    (register_job_func {Er = String} none none true (some mail) 8 waiting.queue).0 ≡ none
unfolding register_job_func execute_between_restarts shutdown start_later add_worker is_armed lookup
    insert bytes_eq
test_refused_silently = refl

-- The second function is registered while the start of the first is pending.
abbrev first_only : System ℕ
first_only = typed String mail 7 fresh

abbrev with_both : System ℕ
with_both = typed String invoice 9 first_only

both : Undisturbed String unchanged first_only with_both
both = further at_once (register_step none none true (some invoice) 9) (refl, refl)

registered_runs_example :
    ((is_armed with_both.queue.start_timer ≡ true)
      × IsWorkedOn mail 7 (workers_start String unchanged (timer_expires with_both)).queue)
    ⊎ (((with_both.due ≡ true) × IsWorkedOn mail 7 (workers_start String unchanged with_both).queue)
        ⊎ IsWorkedOn mail 7 with_both.queue)
unfolding lookup
registered_runs_example =
    registered_runs String unchanged (λ job_type f m h. h) mail 7 fresh with_both fresh-IsConsistent
      (λ h. absurd (ground (arith, h))) refl both

abbrev failed : System ℕ
failed = record waiting {
  queue = (start_workers {Er = String} unchanged (some "down") waiting.queue).1;
  due = false;
}

abbrev after_failure : System ℕ
after_failure = record failed {
  queue = (register_job_func {Er = String} none none true (some invoice) 9 failed.queue).1;
}
