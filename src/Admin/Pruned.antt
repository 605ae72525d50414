-- ===== src/Admin/Pruned.antt =====
-- contexts/admin/: which rows of the history are left when it is pruned by age.
use arrower.Base.{
  ℕ, zero, suc, ◌+◌, ◌-◌, ◌*◌, ◌^◌, ◌%◌, ◌≤◌, ◌<◌, ◌≡◌, refl, ap, ◌∙◌, ltb, if◌then◌else◌, Bytes,
  true, none, Option, List, [], ◌∷◌, All, arith,
}
use arrower.Base.Int.{pos}
use arrower.Admin.Atoi.{atoi}
use arrower.Admin.History.{
  delete_before, add_duration, bits64, time_day, Row, Database, created_after, prune_history,
  prune_job_history, delete_history,
}

-- The product with -1, on the bits of a number of days that is not 0.
minus_days : (n : ℕ) → n ≤ 213503 → (2 ^ 64 - 1) * (suc n % 2 ^ 64) % 2 ^ 64 ≡ 2 ^ 64 - suc n
minus_days n few = omega arith

minus_duration :
    (n : ℕ) → n < 213503 → (2 ^ 64 - suc n) * time_day % 2 ^ 64 ≡ 2 ^ 64 - suc n * time_day
minus_duration n few = omega arith

delete_before-days : (now n : ℕ) → n ≤ 106751 → delete_before now (pos n) ≡ now - n * time_day
unfolding delete_before add_duration bits64
delete_before-days now zero few = ground arith
delete_before-days now (suc n) few =
    rw (minus_days n (omega arith)) (rw (minus_duration n (omega arith)) (ground arith))

delete_before-wrapped : (now n : ℕ) → 106751 < n → n ≤ 213503 → now ≤ delete_before now (pos n)
unfolding delete_before add_duration bits64
delete_before-wrapped now zero many few = omega arith
delete_before-wrapped now (suc n) many few =
    rw (minus_days n (omega arith)) (rw (minus_duration n (omega arith)) (ground arith))

-- The rows that were created within the last `n` days.
unfoldable pub younger : ℕ → ℕ → List Row → List Row
younger now n [] = []
younger now n (row ∷ rows) =
    if ltb now (row.created_at + n * time_day) then row ∷ younger now n rows else younger now n rows

created_after-younger :
    (now n : ℕ) (rows : List Row)
    → n * time_day ≤ now
    → created_after (now - n * time_day) rows ≡ younger now n rows
unfolding created_after younger
created_after-younger now n [] past = refl
created_after-younger now n (row ∷ rows) past =
    let rest = created_after-younger now n rows past in ground (arith, rest)

created_after-none :
    (before : ℕ) (rows : List Row)
    → All (λ row. row.created_at ≤ before) rows
    → created_after before rows ≡ []
unfolding created_after
created_after-none before [] old = refl
created_after-none before (row ∷ rows) (h, old) =
    let rest = created_after-none before rows old in ground (arith, rest)

older :
    (now before : ℕ) (rows : List Row)
    → now ≤ before
    → All (λ row. row.created_at ≤ now) rows
    → All (λ row. row.created_at ≤ before) rows
older now before [] later old = tt
older now before (row ∷ rows) later (h, old) = (omega arith, older now before rows later old)

module _ {Size : Type 0} (size : Database → Option Size) where
  -- What is left when the days of the form are a number and the statement goes through.
  delete_history-left :
      (now n : ℕ) (days : Bytes) (db : Database)
      → atoi days ≡ (pos n, none)
      → db.answers ≡ true
      → (delete_history size now days db).1
        ≡ record db { history = created_after (delete_before now (pos n)) db.history }
  unfolding delete_history prune_job_history prune_history
  delete_history-left now n days db read answers = rw (read, answers, delete_history)

  -- At a time after the year 293, where the days of the form are a number of at most 106751 and the
  -- database takes the statement: the history is pruned to the rows that were created within the last
  -- so many days.
  pub delete_history-days :
      (now n : ℕ) (days : Bytes) (db : Database)
      → 2 ^ 63 ≤ now
      → n ≤ 106751
      → atoi days ≡ (pos n, none)
      → db.answers ≡ true
      → (delete_history size now days db).1 ≡ record db { history = younger now n db.history }
  delete_history-days now n days db late few read answers =
      delete_history-left now n days db read answers
      ∙ ap (λ rows. record db { history = rows })
          (ap (λ before. created_after before db.history) (delete_before-days now n few)
            ∙ created_after-younger now n db.history (omega arith))

  -- Where the days of the form are a number from 106752 to 213503, no row was created later than now
  -- and the database takes the statement: the whole history is deleted, as the duration wraps around.
  pub delete_history-wrapped :
      (now n : ℕ) (days : Bytes) (db : Database)
      → 106751 < n
      → n ≤ 213503
      → atoi days ≡ (pos n, none)
      → db.answers ≡ true
      → All (λ row. row.created_at ≤ now) db.history
      → (delete_history size now days db).1 ≡ record db { history = [] }
  delete_history-wrapped now n days db many few read answers old =
      delete_history-left now n days db read answers
      ∙ ap (λ rows. record db { history = rows })
          (created_after-none (delete_before now (pos n)) db.history (
            older now (delete_before now (pos n)) db.history (delete_before-wrapped now n many few)
              old))
