-- ===== src/Alog/Batches.antt =====
-- alog/postgres-handler.go: processBatches, which collects records and writes them to the database.
use arrower.Base.{ℕ, nat_eq, if◌then◌else◌, length, List, [], ◌∷◌, ◌++◌, leb}

-- `received` are the records that came through the channel, `submitted` the batches that
-- LogRecords was called with; its error is ignored.
pub record Batches (R : Type 0) : Type 0 where
  pub batch : List R
  pub received : List R
  pub submitted : List (List R)

module _ {R : Type 0} where
  -- saveLogs: no query for no records
  unfoldable pub save_logs : List R → List (List R) → List (List R)
  save_logs [] submitted = submitted
  save_logs (r ∷ rs) submitted = submitted ++ ((r ∷ rs) ∷ [])

  -- case value := <-records
  unfoldable pub receive : ℕ → R → Batches R → Batches R
  unfolding save_logs
  receive max_batch_size r b =
      let batch' = b.batch ++ (r ∷ []) in
      let received' = b.received ++ (r ∷ []) in
      if leb max_batch_size (length batch')
      then record { batch = []; received = received'; submitted = save_logs batch' b.submitted }
      else record { batch = batch'; received = received'; submitted = b.submitted }

  -- case <-expire.C
  unfoldable pub expire : Batches R → Batches R
  unfolding save_logs
  expire b = record b { batch = []; submitted = save_logs b.batch b.submitted }

  pub data Step (max_batch_size : ℕ) (b : Batches R) : Batches R → Type 0 where
    receive_step : (r : R) → Step max_batch_size b (receive max_batch_size r b)
    expire_step : Step max_batch_size b (expire b)

  pub data Reach (max_batch_size : ℕ) (b : Batches R) : Batches R → Type 0 where
    here : Reach max_batch_size b b
    next :
        {c d : Batches R}
        → Reach max_batch_size b c
        → Step max_batch_size c d
        → Reach max_batch_size b d
