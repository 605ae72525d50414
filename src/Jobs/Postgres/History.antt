-- ===== src/Jobs/Postgres/History.antt =====
-- jobs/postgres.go: the history of jobs, which the library's hooks write when a job is locked and
-- when it is done; the two statements on the table are those of jobs/query.sql.
use arrower.Base.{
  ℕ, ◌==◌, nat_eq, bytes_eq, ◌&&◌, if◌then◌else◌, not, Bytes, Bool, true, false, Option, none, some,
  List, [], ◌∷◌, ◌++◌, ◌⊎◌, inl, inr,
}
use arrower.Base.Int.{ℤ}
use arrower.Jobs.Postgres.Payload.{Payload, GueJob}

-- gue_jobs_history, without the times of a row but for whether `finished_at` is set.
pub record Row (Time : Type 0) : Type 0 where
  pub job_id : Bytes
  pub priority : ℤ
  pub run_at : Option Time
  pub job_type : Bytes
  pub args : Bytes
  pub queue : Bytes
  pub run_count : ℕ
  pub run_error : Bytes
  pub success : Bool
  pub finished : Bool

module _ {Time : Type 0} where
  -- InsertHistory
  abbrev pub started_row : GueJob Time → Row Time
  started_row g = record {
    job_id = g.id;
    priority = g.priority;
    run_at = g.run_at;
    job_type = g.job_type;
    args = g.args;
    queue = g.queue;
    run_count = g.error_count;
    run_error = g.last_error;
    success = false;
    finished = false;
  }

  -- The rows that UpdateHistory sets: job_id = $2 AND run_count = $4 AND finished_at IS NULL
  unfoldable pub is_open : Bytes → ℕ → Row Time → Bool
  is_open id count row = row.job_id == id && row.run_count == count && not row.finished

  abbrev pub closed : Bytes → Bool → Row Time → Row Time
  closed text ok row = record row { run_error = text; success = ok; finished = true }

  unfoldable pub update_history : Bytes → ℕ → Bytes → Bool → List (Row Time) → List (Row Time)
  unfolding is_open
  update_history id count text ok [] = []
  update_history id count text ok (row ∷ rows) =
      let rest = update_history id count text ok rows in
      (if is_open id count row then closed text ok row else row) ∷ rest

-- `empty_payload` is the payload without data of a job without arguments.
module _ {D Carrier Er : Type 0} (decode : Bytes → Er ⊎ Payload D Carrier)
    (marshal : Payload D Carrier → Er ⊎ Bytes) (empty_payload : Payload D Carrier) where
  unfoldable pub record_git_hash_to_args : Bytes → Bytes → Er ⊎ Bytes
  record_git_hash_to_args git_hash [] =
      marshal (record empty_payload { git_hash_processed = git_hash })
  record_git_hash_to_args git_hash (c ∷ args) = elim (decode (c ∷ args)) [
    | inl e ↦ inl e
    | inr payload ↦ marshal (record payload { git_hash_processed = git_hash })
  ]

-- The hooks' errors are only logged. `refused` is the error of the statement, which then does
-- nothing.
module _ {D Carrier Er Time Tx : Type 0} (decode : Bytes → Er ⊎ Payload D Carrier)
    (marshal : Payload D Carrier → Er ⊎ Bytes) (empty_payload : Payload D Carrier)
    (unwrap_tx : GueJob Time → Option Tx) where
  -- recordStartedJobsToHistory; it also changes the job.
  unfoldable pub record_started :
      Bytes → Option Er → Option Er → GueJob Time → List (Row Time) → GueJob Time × List (Row Time)
  unfolding record_git_hash_to_args
  record_started git_hash (some job_err) refused g rows = (g, rows)
  record_started git_hash none refused g rows =
      elim (record_git_hash_to_args decode marshal empty_payload git_hash g.args) [
        | inl e ↦ (g, rows)
        | inr args ↦
            let g' : GueJob Time = record g { args = args } in
            elim (unwrap_tx g') [
              | none ↦ (g', rows)
              | some tx ↦ elim refused [
                | some e ↦ (g', rows)
                | none ↦ (g', rows ++ (started_row g' ∷ []))
              ]
            ]
      ]

-- recordFinishedJobsToHistory; `text_of` is the text of an error.
module _ {Er Time Tx : Type 0} (unwrap_tx : GueJob Time → Option Tx) (text_of : Er → Bytes) where
  unfoldable pub record_finished :
      Option Er → Option Er → GueJob Time → List (Row Time) → List (Row Time)
  unfolding update_history
  record_finished job_err refused g rows = elim (unwrap_tx g) [
    | none ↦ rows
    | some tx ↦ elim refused [
      | some e ↦ rows
      | none ↦ elim job_err [
        | some e ↦ update_history g.id g.error_count (text_of e) false rows
        | none ↦ update_history g.id g.error_count [] true rows
      ]
    ]
  ]
