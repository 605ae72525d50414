-- ===== src/Jobs/Postgres/Recorded.antt =====
-- jobs/postgres.go: what the history says of a job that was worked on.
use arrower.Base.{
  ℕ, ◌≡◌, refl, ap, ◌∙◌, nat_eq, bytes_eq, ◌&&◌, is_some, not, Bytes, Bool, true, false, Option,
  none, some, List, [], ◌∷◌, ◌++◌, ◌⊎◌, inr, arith,
}
use arrower.Jobs.Postgres.Payload.{Payload, GueJob}
use arrower.Jobs.Postgres.History.{
  Row, started_row, is_open, closed, update_history, record_git_hash_to_args, record_started,
  record_finished,
}

abbrev pub is_empty : Bytes → Bool
is_empty [] = true
is_empty (c ∷ t) = false

module _ {D Carrier Er : Type 0} (decode : Bytes → Er ⊎ Payload D Carrier)
    (marshal : Payload D Carrier → Er ⊎ Bytes) (empty_payload : Payload D Carrier) where
  record_git_hash_to_args-decoded :
      (git_hash old : Bytes) (p : Payload D Carrier)
      → is_empty old ≡ false
      → decode old ≡ inr p
      → record_git_hash_to_args decode marshal empty_payload git_hash old
        ≡ marshal (record p { git_hash_processed = git_hash })
  unfolding record_git_hash_to_args
  record_git_hash_to_args-decoded git_hash [] p full decoded = absurd (ground (arith, full))
  record_git_hash_to_args-decoded git_hash (c ∷ t) p full decoded =
      rw (record_git_hash_to_args, decoded) refl

module _ {Time : Type 0} where
  -- No run of the job with this number is without an end.
  unfoldable pub none_open : Bytes → ℕ → List (Row Time) → Bool
  none_open id count [] = true
  none_open id count (row ∷ rows) = not (is_open id count row) && none_open id count rows

  update_history-append :
      (id : Bytes) (count : ℕ) (text : Bytes) (ok : Bool) (rows : List (Row Time)) (row : Row Time)
      → none_open id count rows ≡ true
      → is_open id count row ≡ true
      → update_history id count text ok (rows ++ (row ∷ [])) ≡ rows ++ (closed text ok row ∷ [])
  unfolding update_history none_open
  update_history-append id count text ok [] row _ mine = ground (arith, mine)
  update_history-append id count text ok (r ∷ rows) row others mine =
      ground (
        arith,
        others,
        update_history-append id count text ok rows row (ground (arith, others)) mine,
      )

  started_row-is_open : (g : GueJob Time) → is_open g.id g.error_count (started_row g) ≡ true
  unfolding is_open
  started_row-is_open g = ground arith

module _ {D Carrier Er Time Tx : Type 0} (decode : Bytes → Er ⊎ Payload D Carrier)
    (marshal : Payload D Carrier → Er ⊎ Bytes) (empty_payload : Payload D Carrier)
    (unwrap_tx : GueJob Time → Option Tx) (text_of : Er → Bytes) where
  record_started_lem :
      (git_hash : Bytes) (g : GueJob Time) (rows : List (Row Time)) (args : Bytes) (tx : Tx)
      → record_git_hash_to_args decode marshal empty_payload git_hash g.args ≡ inr args
      → unwrap_tx (record g { args = args }) ≡ some tx
      → record_started decode marshal empty_payload unwrap_tx git_hash none none g rows
        ≡ (record g { args = args }, rows ++ (started_row (record g { args = args }) ∷ []))
  unfolding record_started
  record_started_lem git_hash g rows args tx hashed has = rw (record_started, hashed, has) refl

  record_finished_lem :
      (job_err : Option Er) (g : GueJob Time) (rows : List (Row Time)) (tx : Tx)
      → unwrap_tx g ≡ some tx
      → record_finished unwrap_tx text_of job_err none g rows
        ≡ update_history g.id g.error_count
            (elim job_err [ some e ↦ text_of e | none ↦ [] ])
            (not (is_some job_err))
            rows
  unfolding record_finished
  record_finished_lem none g rows tx has = rw (record_finished, has) refl
  record_finished_lem (some e) g rows tx has = rw (record_finished, has) refl

  -- Where JSON reads what it wrote: a run in a transaction whose statements do not fail, of a job
  -- whose arguments are not empty, can be read and can be written with the version that processes it,
  -- and of which no run with this number is without an end in the history: it has one row there,
  -- behind those that were there and that stay as they are, with the job's arguments and that
  -- version, and once it is done with its end and its error, and success exactly if it had none.
  pub record_finished-record_started :
      (reads : (p : Payload D Carrier) (args : Bytes) → marshal p ≡ inr args → decode args ≡ inr p)
      (git_hash : Bytes) (g : GueJob Time) (rows : List (Row Time)) (job_err : Option Er)
      (p : Payload D Carrier) (args : Bytes) (tx : Tx)
      → is_empty g.args ≡ false
      → decode g.args ≡ inr p
      → marshal (record p { git_hash_processed = git_hash }) ≡ inr args
      → unwrap_tx (record g { args = args }) ≡ some tx
      → none_open g.id g.error_count rows ≡ true
      → (decode args ≡ inr (record p { git_hash_processed = git_hash }))
        × (record_finished unwrap_tx text_of job_err none
              (record_started decode marshal empty_payload unwrap_tx git_hash none none g rows).0
              (record_started decode marshal empty_payload unwrap_tx git_hash none none g rows).1
            ≡ rows
              ++ (closed
                    (elim job_err [ some e ↦ text_of e | none ↦ [] ])
                    (not (is_some job_err))
                    (started_row (record g { args = args }))
                  ∷ []))
  record_finished-record_started reads git_hash g rows job_err p args tx full decoded written has
        others =
      let g' : GueJob Time = record g { args = args } in
      let started =
        record_started_lem git_hash g rows args tx
          (record_git_hash_to_args-decoded decode marshal empty_payload git_hash g.args p full
              decoded
            ∙ written)
          has in
      (
        reads (record p { git_hash_processed = git_hash }) args written,
        ap (λ a. record_finished unwrap_tx text_of job_err none a.0 a.1) started
            ∙ record_finished_lem job_err g' (rows ++ (started_row g' ∷ [])) tx has
            ∙ update_history-append g.id g.error_count
                (elim job_err [ some e ↦ text_of e | none ↦ [] ]) (not (is_some job_err)) rows
                (started_row g') others (started_row-is_open g'),
      )
