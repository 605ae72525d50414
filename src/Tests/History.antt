-- ===== src/Tests/History.antt =====
-- A job that is worked on twice, and the theorem on the history of jobs.
use arrower.Base.{
  ℕ, nat_eq, bytes_eq, ◌≡◌, refl, sym, ap, String, Bytes, true, false, Option, none, some, [], ◌∷◌,
  ◌++◌, ◌⊎◌, inl, inr, arith,
}
use arrower.Base.Int.{pos}
use arrower.Jobs.Postgres.Payload.{Payload, GueJob}
use arrower.Jobs.Postgres.History.{
  Row, started_row, is_open, closed, record_started, record_finished,
}
use arrower.Jobs.Postgres.Recorded.{none_open, record_finished-record_started}

-- The number and the version that processed it; nothing else can be written.
abbrev marshal_parts : Bytes → Bytes → Bytes → ℕ → Bytes → String ⊎ Bytes
marshal_parts [] [] [] n processed = inr (n ∷ processed)
marshal_parts _ _ _ n processed = inl "too long"

abbrev marshal : Payload ℕ (Unit {0}) → String ⊎ Bytes
marshal p =
    marshal_parts p.job_struct_path p.git_hash_enqueued p.user_id p.job_data p.git_hash_processed

abbrev payload : ℕ → Bytes → Payload ℕ (Unit {0})
payload n processed = record {
  job_data = n;
  job_struct_path = [];
  git_hash_enqueued = [];
  git_hash_processed = processed;
  user_id = [];
  carrier = tt;
}

abbrev decode : Bytes → String ⊎ Payload ℕ (Unit {0})
decode [] = inl "empty"
decode (n ∷ processed) = inr (payload n processed)

read_parts :
    (path enqueued user : Bytes) (n : ℕ) (processed args : Bytes)
    → marshal_parts path enqueued user n processed ≡ inr args
    → decode args
      ≡ inr (record {
        job_data = n;
        job_struct_path = path;
        git_hash_enqueued = enqueued;
        git_hash_processed = processed;
        user_id = user;
        carrier = tt;
      })
read_parts [] [] [] n processed args h =
    let same : n ∷ processed ≡ args = ground (arith, h) in ap decode (sym same)
read_parts [] [] (c ∷ t) n processed args h = absurd (ground (arith, h))
read_parts [] (c ∷ t) user n processed args h = absurd (ground (arith, h))
read_parts (c ∷ t) enqueued user n processed args h = absurd (ground (arith, h))

reads : (p : Payload ℕ (Unit {0})) (args : Bytes) → marshal p ≡ inr args → decode args ≡ inr p
reads p args written =
    read_parts p.job_struct_path p.git_hash_enqueued p.user_id p.job_data p.git_hash_processed args
      written

abbrev second_run : GueJob ℕ
second_run = record {
  id = b'j' ∷ [];
  queue = [];
  job_type = [];
  args = 4 ∷ [];
  priority = pos 0;
  run_at = none;
  error_count = 1;
  last_error = b'e' ∷ [];
}

abbrev first_row : Row ℕ
first_row = closed (b'e' ∷ []) false (started_row (record second_run { error_count = 0 }))

abbrev in_transaction : GueJob ℕ → Option ℕ
in_transaction g = some 5

abbrev text_of : String → Bytes
text_of e = b'x' ∷ []

record_finished-record_started_example :
    (decode (4 ∷ b'v' ∷ []) ≡ inr (payload 4 (b'v' ∷ [])))
    × (record_finished in_transaction text_of none none
          (record_started decode marshal
            (payload 0 [])
            in_transaction
            (b'v' ∷ [])
            none
            none
            second_run
            (first_row ∷ [])).0
          (record_started decode marshal
            (payload 0 [])
            in_transaction
            (b'v' ∷ [])
            none
            none
            second_run
            (first_row ∷ [])).1
        ≡ (first_row ∷ [])
          ++ (closed [] true (started_row (record second_run { args = 4 ∷ b'v' ∷ [] })) ∷ []))
unfolding none_open is_open bytes_eq nat_eq
record_finished-record_started_example =
    record_finished-record_started decode marshal (payload 0 []) in_transaction text_of reads
      (b'v' ∷ []) second_run (first_row ∷ []) none (payload 4 []) (4 ∷ b'v' ∷ []) 5 refl refl refl
      refl refl
