-- ===== src/Jobs/Postgres/Worker.antt =====
-- jobs/postgres.go: gueWorkerAdapter, what the library calls when it has locked a job.
use arrower.Base.{
  ◌==◌, bytes_eq, if◌then◌else◌, ◌&&◌, not, Bytes, Bool, false, Option, none, some, List, [], ◌∷◌,
  ◌⊎◌, inl, inr,
}
use arrower.Auth.Middleware.{CtxUser, as_string}
use arrower.Jobs.Postgres.Payload.{Payload, GueJob}

-- What `reflect` tells of a parameter or a result of a function.
pub record ParamType : Type 0 where
  pub is_interface : Bool
  pub is_struct : Bool
  pub pkg_path : Bytes
  pub name : Bytes

pub data JobFunc : Type 0 where
  nil_value not_a_function : JobFunc
  function : List ParamType → List ParamType → JobFunc

abbrev context_text : Bytes
context_text = b'c' ∷ b'o' ∷ b'n' ∷ b't' ∷ b'e' ∷ b'x' ∷ b't' ∷ []

abbrev context_name : Bytes
context_name = b'C' ∷ b'o' ∷ b'n' ∷ b't' ∷ b'e' ∷ b'x' ∷ b't' ∷ []

abbrev error_name : Bytes
error_name = b'e' ∷ b'r' ∷ b'r' ∷ b'o' ∷ b'r' ∷ []

unfoldable pub is_valid_job_func : JobFunc → Bool
is_valid_job_func nil_value = false
is_valid_job_func not_a_function = false
is_valid_job_func (function (ctx ∷ job ∷ []) (result ∷ [])) =
    ctx.is_interface
    && not (not (ctx.pkg_path == context_text) && not (ctx.name == context_name))
    && job.is_struct
    && result.name == error_name
is_valid_job_func (function _ _) = false

pub data WorkError (Er : Type 0) : Type 0 where
  no_transaction : WorkError Er
  bad_args no_savepoint not_rolled_back job_failed not_released : Er → WorkError Er

pub data Statement : Type 0 where
  savepoint rollback_to release : Statement

-- The values in the context of a job function. `span` is what the propagator has put there.
pub record WorkerContext (Tx Span : Type 0) : Type 0 where
  pub job_id : Bytes
  pub tx : Tx
  pub user : Option CtxUser
  pub span : Span

-- What is outside: JSON
module _ {D J Er Carrier : Type 0} (decode : Bytes → Er ⊎ Payload D Carrier)
    (encode_data : D → Er ⊎ Bytes) (decode_job : Bytes → Er ⊎ J) where
  unfoldable pub unmarshal_args_to_job_payload : Bytes → WorkError Er ⊎ (Payload D Carrier × J)
  unmarshal_args_to_job_payload args = elim (decode args) [
    | inl e ↦ inl (bad_args e)
    | inr payload ↦ elim (encode_data payload.job_data) [
      | inl e ↦ inl (bad_args e)
      | inr text ↦ elim (decode_job text) [
        | inl e ↦ inl (bad_args e)
        | inr job ↦ inr (payload, job)
      ]
    ]
  ]

-- and the library's transaction, the propagator and the tracer
module _ {D J Er Time Tx Carrier Span : Type 0} (decode : Bytes → Er ⊎ Payload D Carrier)
    (encode_data : D → Er ⊎ Bytes) (decode_job : Bytes → Er ⊎ J)
    (unwrap_tx : GueJob Time → Option Tx) (extract : Carrier → Span) where
  -- The context and the job that the job function is called with. `user` is the one in the context
  -- that the library calls with.
  unfoldable pub prepare : Option CtxUser → GueJob Time → WorkError Er ⊎ (WorkerContext Tx Span × J)
  unfolding unmarshal_args_to_job_payload
  prepare user g = elim (unmarshal_args_to_job_payload decode encode_data decode_job g.args) [
    | inl e ↦ inl e
    | inr (payload, job) ↦ elim (unwrap_tx g) [
      | none ↦ inl no_transaction
      | some tx ↦ inr (
        record {
          job_id = g.id;
          tx = tx;
          user = if payload.user_id == [] then user else some (as_string payload.user_id);
          span = extract payload.carrier;
        },
        job,
      )
    ]
  ]

-- and the database.
module _ {D J Er Time Tx Carrier Span S : Type 0} (decode : Bytes → Er ⊎ Payload D Carrier)
    (encode_data : D → Er ⊎ Bytes) (decode_job : Bytes → Er ⊎ J)
    (unwrap_tx : GueJob Time → Option Tx) (extract : Carrier → Span)
    (execute : Tx → Statement → S → Option Er × S) where
  unfoldable pub work :
      (WorkerContext Tx Span → J → S → Option Er × S)
      → Option CtxUser
      → GueJob Time
      → S
      → Option (WorkError Er) × S
  unfolding prepare
  work fn user g s = elim (prepare decode encode_data decode_job unwrap_tx extract user g) [
    | inl e ↦ (some e, s)
    | inr (ctx, job) ↦
        let (refused, s1) = execute ctx.tx savepoint s in
        elim refused [
          | some e ↦ (some (no_savepoint e), s1)
          | none ↦
              let (failure, s2) = fn ctx job s1 in
              elim failure [
                | some failed ↦
                    let (kept, s3) = execute ctx.tx rollback_to s2 in
                    elim kept [
                      | some e ↦ (some (not_rolled_back e), s3)
                      | none ↦ (some (job_failed failed), s3)
                    ]
                | none ↦
                    let (held, s3) = execute ctx.tx release s2 in
                    elim held [ some e ↦ (some (not_released e), s3) | none ↦ (none, s3) ]
              ]
        ]
  ]
