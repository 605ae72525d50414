-- ===== src/Admin/History.antt =====
-- contexts/admin/internal/application/prune-job-history.usecase.go and
-- internal/interfaces/web/jobs.controller.go: the history of jobs is pruned by age. A time is the
-- number of nanoseconds since the year 1, at which Go begins, and all are later than that.
use arrower.Base.{
  ℕ, ◌+◌, ◌-◌, ◌*◌, ◌^◌, ◌%◌, if◌then◌else◌, leb, ltb, ◌==◌, nat_eq, bytes_eq, ◌&&◌, not, Bytes,
  Bool, true, false, Option, none, some, List, [], ◌∷◌,
}
use arrower.Base.Int.{ℤ, pos, negsuc}
use arrower.Admin.Atoi.{NumError, syntax, out_of_range, atoi}

-- const timeDay = time.Hour * 24
abbrev pub time_day : ℕ
time_day = 24 * 60 * 60 * 1000000000

-- The bits of an `int`, in which products wrap around.
unfoldable pub bits64 : ℤ → ℕ
bits64 (pos n) = n % 2 ^ 64
bits64 (negsuc n) = 2 ^ 64 - 1 - n % 2 ^ 64

-- time.Time.Add, of a duration by its bits
unfoldable pub add_duration : ℕ → ℕ → ℕ
add_duration t d = if ltb d (2 ^ 63) then t + d else t - (2 ^ 64 - d)

-- time.Now().Add(-1 * time.Duration(days) * timeDay)
unfoldable pub delete_before : ℕ → ℤ → ℕ
unfolding bits64 add_duration
delete_before now days = add_duration now ((2 ^ 64 - 1) * bits64 days % 2 ^ 64 * time_day % 2 ^ 64)

-- A row of the table arrower.gue_jobs_history, as far as it is pruned.
pub record Row : Type 0 where
  pub queue : Bytes
  pub args : Bytes
  pub created_at : ℕ
  pub finished_at : Option ℕ
  pub pruned_at : Option ℕ

-- DELETE FROM arrower.gue_jobs_history WHERE created_at <= $1
unfoldable pub created_after : ℕ → List Row → List Row
created_after before [] = []
created_after before (row ∷ rows) =
    let rest = created_after before rows in if leb row.created_at before then rest else row ∷ rest

-- UPDATE arrower.gue_jobs_history SET args, pruned_at WHERE queue = $1 AND created_at <= $2
unfoldable pub without_payload : ℕ → Bytes → ℕ → List Row → List Row
without_payload now queue before [] = []
without_payload now queue before (row ∷ rows) =
    (if row.queue == queue && leb row.created_at before
      then record row { args = []; pruned_at = some now }
      else row)
    ∷ without_payload now queue before rows

-- The table; `answers` says whether the database takes the next statements.
pub record Database : Type 0 where
  pub history : List Row
  pub answers : Bool

-- Queries.PruneHistory; `none` is an error
unfoldable pub prune_history : ℕ → Database → Option Database
unfolding created_after
prune_history before db =
    if db.answers then some (record db { history = created_after before db.history }) else none

-- Queries.PruneHistoryPayload
unfoldable pub prune_history_payload : ℕ → Bytes → ℕ → Database → Option Database
unfolding without_payload
prune_history_payload now queue before db =
    if db.answers
    then some (record db { history = without_payload now queue before db.history })
    else none

pub data Reply (Size : Type 0) : Type 0 where
  bad_request : Reply Size
  no_content : Reply Size
  table_size : Size → Reply Size

abbrev pub all_text : Bytes
all_text = b'a' ∷ b'l' ∷ b'l' ∷ []

-- string(jobs.DefaultQueueName)
abbrev pub default_queue : Bytes
default_queue = b'D' ∷ b'e' ∷ b'f' ∷ b'a' ∷ b'u' ∷ b'l' ∷ b't' ∷ []

abbrev is_syntax : Option NumError → Bool
is_syntax (some syntax) = true
is_syntax (some out_of_range) = false
is_syntax none = false

-- JobsController.PruneHistory, at a time, for the days and the queue of the form. Errors are ignored.
unfoldable pub prune_payload : ℕ → Bytes → Bytes → Database → Database
unfolding delete_before prune_history_payload atoi
prune_payload now days queue db =
    elim (prune_history_payload now (if queue == default_queue then [] else queue)
      (delete_before now (atoi days).0) db) [ none ↦ db | some db' ↦ db' ]

-- `size` is the statement JobTableSize, and `none` its error.
module _ {Size : Type 0} (size : Database → Option Size) where
  -- pruneJobHistoryRequestHandler.H
  unfoldable pub prune_job_history : ℕ → ℤ → Database → Option Size × Database
  unfolding prune_history delete_before
  prune_job_history now days db = elim (prune_history (delete_before now days) db) [
    | none ↦ (none, db)
    | some db' ↦ (size db', db')
  ]

  -- JobsController.DeleteHistory
  unfoldable pub delete_history : ℕ → Bytes → Database → Reply Size × Database
  unfolding prune_job_history atoi
  delete_history now days db =
      let (n, e) = atoi days in
      if is_syntax e && not (days == all_text)
      then (bad_request, db)
      else let (result, db') = prune_job_history now n db in
        (elim result [ none ↦ bad_request | some s ↦ table_size s ], db')
