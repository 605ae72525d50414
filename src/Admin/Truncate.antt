-- ===== src/Admin/Truncate.antt =====
-- contexts/admin/internal/application/prune-job-history-cron.usecase.go: the history is pruned in the
-- background, also to a number of entries.
use arrower.Base.{
  ℕ, zero, suc, ◌*◌, ◌-◌, if◌then◌else◌, leb, ◌&&◌, is_some, Bool, true, false, Option, none, some,
  List, [], ◌∷◌,
}
use arrower.Base.Int.{ℤ, pos, negsuc, wrap_int64}
use arrower.Admin.History.{Row, Database, prune_history, delete_before}

-- SELECT created_at ... WHERE finished_at IS NOT NULL
unfoldable pub finished_times : List Row → List ℕ
finished_times [] = []
finished_times (row ∷ rows) =
    let rest = finished_times rows in
    if is_some row.finished_at then row.created_at ∷ rest else rest

unfoldable pub insert_desc : ℕ → List ℕ → List ℕ
insert_desc t [] = t ∷ []
insert_desc t (u ∷ us) = let rest = insert_desc t us in if leb u t then t ∷ u ∷ us else u ∷ rest

-- ORDER BY created_at DESC
unfoldable pub sort_desc : List ℕ → List ℕ
unfolding insert_desc
sort_desc [] = []
sort_desc (t ∷ ts) = insert_desc t (sort_desc ts)

-- OFFSET n LIMIT 1
unfoldable pub offset : ℕ → List ℕ → Option ℕ
offset n [] = none
offset zero (t ∷ ts) = some t
offset (suc n) (t ∷ ts) = offset n ts

-- DELETE ... WHERE finished_at IS NOT NULL AND created_at <= cutoff, which is NULL without a row
unfoldable pub unfinished_or_after : Option ℕ → List Row → List Row
unfinished_or_after none rows = rows
unfinished_or_after (some cutoff) [] = []
unfinished_or_after (some cutoff) (row ∷ rows) =
    let rest = unfinished_or_after (some cutoff) rows in
    if is_some row.finished_at && leb row.created_at cutoff then rest else row ∷ rest

-- Queries.TruncateHistoryEntries; `none` is an error, as which a negative offset is refused.
unfoldable pub truncate_history_entries : ℤ → Database → Option Database
unfolding finished_times sort_desc offset unfinished_or_after
truncate_history_entries (negsuc _) db = none
truncate_history_entries (pos n) db =
    if db.answers
    then some (record db {
      history = unfinished_or_after (offset n (sort_desc (finished_times db.history))) db.history;
    })
    else none

-- PruneJobHistoryCronSetting
pub record CronSetting : Type 0 where
  pub prune_history_entries : Bool
  pub prune_history_entries_value : ℤ
  pub prune_history_age : Bool
  pub prune_history_age_value : ℤ
  pub prune_history_size : Bool
  pub prune_history_size_value : ℤ

-- const GB
abbrev gb : ℕ
gb = 1024 * 1024 * 1024

-- An `int` times GB.
abbrev times_gb : ℤ → ℤ
times_gb (pos n) = wrap_int64 (pos (n * gb))
times_gb (negsuc n) = wrap_int64 (negsuc (suc n * gb - 1))

-- A statement that is run if the setting says so; an error is remembered (errors.Join) and leaves the
-- table as it is.
unfoldable pub step : Bool → (Database → Option Database) → Bool × Database → Bool × Database
step is_on statement (has_failed, db) =
    if is_on
    then elim (statement db) [ none ↦ (true, db) | some db' ↦ (has_failed, db') ]
    else (has_failed, db)

-- The handler, for the setting that is found and read; the result says whether it fails. What
-- TruncateHistorySize deletes depends on how Postgres stores the rows.
unfoldable pub prune_job_history_cron :
    (ℤ → Database → Option Database) → ℕ → Option CronSetting → Database → Bool × Database
unfolding step truncate_history_entries prune_history delete_before
prune_job_history_cron truncate_history_size now none db = (true, db)
prune_job_history_cron truncate_history_size now (some s) db =
    step s.prune_history_size (truncate_history_size (times_gb s.prune_history_size_value)) (
      step s.prune_history_age (prune_history (delete_before now s.prune_history_age_value)) (
        step s.prune_history_entries (truncate_history_entries s.prune_history_entries_value)
          (false, db)))
