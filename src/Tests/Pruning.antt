-- ===== src/Tests/Pruning.antt =====
-- The pruning of the history of jobs on a small table.
use arrower.Base.{
  ℕ, suc, ◌+◌, ◌*◌, ◌≡◌, ◌≤◌, false, refl, bytes_eq, nat_eq, Bytes, true, Option, none, some, [],
  ◌∷◌, ◌++◌, arith, length,
}
use arrower.Base.Int.{pos}
use arrower.Admin.Atoi.{atoi, scan, unsigned, plus}
use arrower.Admin.History.{
  Row, Database, bad_request, table_size, delete_history, prune_job_history, prune_history,
  created_after, delete_before, add_duration, bits64, time_day, all_text,
}
use arrower.Admin.Truncate.{
  truncate_history_entries, finished_times, sort_desc, insert_desc, offset, unfinished_or_after,
  step, prune_job_history_cron,
}
use arrower.Admin.Newest.{newest, truncate_history_entries-newest}
use arrower.Admin.Pruned.{younger, delete_history-days, delete_history-wrapped}

abbrev now : ℕ
now = 740000 * time_day

abbrev row_of : ℕ → Row
row_of t = record {
  queue = [];
  args = b'{' ∷ b'}' ∷ [];
  created_at = t;
  finished_at = some (suc t);
  pruned_at = none;
}

abbrev table : Database
table = record {
  history = row_of (739000 * time_day) ∷ row_of (739990 * time_day) ∷ [];
  answers = true;
}

abbrev rows : Database → Option ℕ
rows db = some (length db.history)

abbrev thirty : Bytes
thirty = b'3' ∷ b'0' ∷ []

abbrev many_days : Bytes
many_days = b'2' ∷ b'0' ∷ b'0' ∷ b'0' ∷ b'0' ∷ b'0' ∷ []

read_thirty : atoi thirty ≡ (pos 30, none)
unfolding atoi unsigned scan plus nat_eq
read_thirty = refl

read_many : atoi many_days ≡ (pos 200000, none)
unfolding atoi unsigned scan plus nat_eq
read_many = refl

-- "all" is no number, and stands for 0 days.
test_all : delete_history rows now all_text table ≡ (table_size 0, record table { history = [] })
unfolding delete_history prune_job_history prune_history created_after delete_before add_duration
    bits64 atoi unsigned scan plus nat_eq bytes_eq
test_all = refl

test_refused : delete_history rows now (b'x' ∷ []) table ≡ (bad_request, table)
unfolding delete_history prune_job_history prune_history created_after delete_before add_duration
    bits64 atoi unsigned scan plus nat_eq bytes_eq
test_refused = refl

-- A number that is out of range is the greatest `int`, which wraps around to a time tomorrow.
test_out_of_range :
    delete_before now (atoi (b'1' ∷ many_days ++ many_days ++ many_days ++ many_days)).0
    ≡ now + time_day
unfolding delete_before add_duration bits64 atoi unsigned scan plus nat_eq
test_out_of_range = refl

delete_history-days_example :
    (delete_history rows now thirty table).1
    ≡ record table { history = younger now 30 table.history }
delete_history-days_example =
    delete_history-days rows now 30 thirty table (omega arith) (omega arith) read_thirty refl

delete_history-wrapped_example :
    (delete_history rows now many_days table).1 ≡ record table { history = [] }
delete_history-wrapped_example =
    delete_history-wrapped rows now 200000 many_days table (omega arith) (omega arith) read_many
      refl (omega arith, (omega arith, tt))

abbrev crowded : Database
crowded = record {
  history = record (row_of 3) { finished_at = none } ∷ row_of 5 ∷ row_of 9 ∷ row_of 7 ∷ [];
  answers = true;
}

-- The setting asks for two entries, whatever their age and size.
test_cron :
    prune_job_history_cron
      (λ _ _. none)
      now
      (some (record {
        prune_history_entries = true;
        prune_history_entries_value = pos 2;
        prune_history_age = false;
        prune_history_age_value = pos 1;
        prune_history_size = false;
        prune_history_size_value = pos 1;
      }))
      crowded
    ≡ (
      false,
      record crowded {
        history = record (row_of 3) { finished_at = none } ∷ row_of 9 ∷ row_of 7 ∷ [];
      },
    )
unfolding prune_job_history_cron step truncate_history_entries finished_times sort_desc insert_desc
    offset unfinished_or_after
test_cron = refl

truncate_history_entries-newest_example :
    (db' : Database) × (truncate_history_entries (pos 2) crowded ≡ some db')
    × (db'.history ≡ newest 2 (finished_times crowded.history) crowded.history)
    × (length (finished_times db'.history) ≤ 2)
truncate_history_entries-newest_example = truncate_history_entries-newest 2 crowded refl
