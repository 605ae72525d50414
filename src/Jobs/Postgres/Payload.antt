-- ===== src/Jobs/Postgres/Payload.antt =====
-- jobs/jobs.go, jobs/postgres.go: what a job is in the database, and how it is put there.
use arrower.Base.{
  ℕ, bytes_eq, if◌then◌else◌, not, Bytes, Option, none, some, List, [], ◌∷◌, ◌⊎◌, inl, inr,
}
use arrower.Base.Int.{ℤ, pos}
use arrower.Auth.Middleware.{CtxUser, as_string, as_user_id}
use arrower.Jobs.Memory.{Job, struct, slice, other, is_valid_job_type}

-- ctx.Value(auth.CtxUserID).(string), without its second result: empty for another type.
unfoldable pub string_of_user : Option CtxUser → Bytes
string_of_user none = []
string_of_user (some (as_string u)) = u
string_of_user (some (as_user_id u)) = []

-- PersistencePayload, with the fields of PersistenceCTXPayload.
pub record Payload (D Carrier : Type 0) : Type 0 where
  pub job_data : D
  pub job_struct_path : Bytes
  pub git_hash_enqueued : Bytes
  pub git_hash_processed : Bytes
  pub user_id : Bytes
  pub carrier : Carrier

-- The fields of gue.Job that the code uses.
pub record GueJob (Time : Type 0) : Type 0 where
  pub id : Bytes
  pub queue : Bytes
  pub job_type : Bytes
  pub args : Bytes
  pub priority : ℤ
  pub run_at : Option Time
  pub error_count : ℕ
  pub last_error : Bytes

-- JobOption
abbrev pub JobOption : Type 0 → Type 0 → Type 0
JobOption Er Time = GueJob Time → Option Er × GueJob Time

unfoldable pub with_priority : {Er Time : Type 0} → ℤ → JobOption Er Time
with_priority p job = (none, record job { priority = p })

unfoldable pub with_run_at : {Er Time : Type 0} → Time → JobOption Er Time
with_run_at at job = (none, record job { run_at = some at })

unfoldable pub apply_options :
    {Er Time : Type 0} → List (JobOption Er Time) → GueJob Time → Option Er × GueJob Time
apply_options [] job = (none, job)
apply_options (opt ∷ opts) job =
    let rest = apply_options opts (opt job).1 in
    elim (opt job).0 [ some e ↦ (some e, (opt job).1) | none ↦ rest ]

pub data EnqueueError (Er : Type 0) : Type 0 where
  invalid_job_type : EnqueueError Er
  not_marshalled option_refused not_enqueued : Er → EnqueueError Er

-- The context of a request that enqueues a job, after the span is started.
pub record RequestContext (Tx Carrier : Type 0) : Type 0 where
  pub user : Option CtxUser
  pub tx : Option Tx
  pub injected : Carrier

module _ {J : Type 0} where
  -- The structs of a job; is_valid_job_type has refused a slice with anything else in it.
  unfoldable pub all_of_slice : List (Option J) → List J
  all_of_slice [] = []
  all_of_slice (none ∷ js) = all_of_slice js
  all_of_slice (some j ∷ js) = j ∷ all_of_slice js

  unfoldable pub structs_of : Job J → List J
  unfolding all_of_slice
  structs_of (struct j) = j ∷ []
  structs_of (slice js) = all_of_slice js
  structs_of other = []

abbrev pub payload_of :
    {J Tx Carrier : Type 0} → Bytes → RequestContext Tx Carrier → Bytes → J → Payload J Carrier
payload_of git_hash ctx path job = record {
  job_data = job;
  job_struct_path = path;
  git_hash_enqueued = git_hash;
  git_hash_processed = [];
  user_id = string_of_user ctx.user;
  carrier = ctx.injected;
}

abbrev pub plain_job : {Time : Type 0} → Bytes → Bytes → Bytes → GueJob Time
plain_job queue type args = record {
  id = [];
  queue = queue;
  job_type = type;
  args = args;
  priority = pos 0;
  run_at = none;
  error_count = 0;
  last_error = [];
}

-- What is outside: json.Marshal of a payload, and getJobTypeFromType with the job type and the full
-- path.
module _ {J Er Time Tx Carrier : Type 0} (marshal : Payload J Carrier → Er ⊎ Bytes)
    (name_of : J → Option (Bytes × Bytes)) (git_hash queue : Bytes) where
  -- buildAndAppendGueJob: the job that it appends
  unfoldable pub build_gue_job :
      RequestContext Tx Carrier → List (JobOption Er Time) → J → EnqueueError Er ⊎ GueJob Time
  unfolding apply_options string_of_user
  build_gue_job ctx opts job = elim (name_of job) [
    | none ↦ inl invalid_job_type
    | some (type, path) ↦ elim (marshal (payload_of git_hash ctx path job)) [
      | inl e ↦ inl (not_marshalled e)
      | inr args ↦
          let (refused, built) = apply_options opts (plain_job queue type args) in
          elim refused [ some e ↦ inl (option_refused e) | none ↦ inr built ]
    ]
  ]

  unfoldable pub build_gue_jobs :
      RequestContext Tx Carrier
      → List (JobOption Er Time)
      → List J
      → EnqueueError Er ⊎ List (GueJob Time)
  unfolding build_gue_job
  build_gue_jobs ctx opts [] = inr []
  build_gue_jobs ctx opts (j ∷ js) =
      let rest = build_gue_jobs ctx opts js in
      elim (build_gue_job ctx opts j) [
        | inl e ↦ inl e
        | inr built ↦ elim rest [ inl e ↦ inl e | inr more ↦ inr (built ∷ more) ]
      ]

-- `enqueue_batch` is the client's EnqueueBatch, and EnqueueBatchTx with a transaction.
module _ {J Er Time Tx Carrier S : Type 0} (marshal : Payload J Carrier → Er ⊎ Bytes)
    (name_of : J → Option (Bytes × Bytes)) (git_hash queue : Bytes)
    (enqueue_batch : Option Tx → List (GueJob Time) → S → Option Er × S) where
  unfoldable pub enqueue :
      RequestContext Tx Carrier
      → List (JobOption Er Time)
      → Job J
      → S
      → Option (EnqueueError Er) × S
  unfolding is_valid_job_type build_gue_jobs structs_of
  enqueue ctx opts job s =
      if not (is_valid_job_type job)
      then (some invalid_job_type, s)
      else elim (build_gue_jobs marshal name_of git_hash queue ctx opts (structs_of job)) [
        | inl e ↦ (some e, s)
        | inr jobs ↦
            let (failure, s') = enqueue_batch ctx.tx jobs s in
            elim failure [ some e ↦ (some (not_enqueued e), s') | none ↦ (none, s') ]
      ]
