-- ===== src/Jobs/Postgres/Carried.antt =====
-- jobs/postgres.go: what a job function is called with, and what stays of its work.
use arrower.Base.{
  ◌≡◌, refl, ap, ◌∙◌, ◌==◌, bytes_eq, if◌then◌else◌, is_some, Bytes, true, Option, none, some, List,
  [], ◌∷◌, ◌⊎◌, inl, inr, arith, Option-cases, Sum-cases,
}
use arrower.Auth.Middleware.{
  CtxUser, as_string, as_user_id, UserContext, SessionValues, next, read_logged_in, read_user_id,
  ensure_user_is_logged_in,
}
use arrower.Jobs.Postgres.Payload.{
  string_of_user, Payload, GueJob, JobOption, apply_options, RequestContext, payload_of, plain_job,
  build_gue_job,
}
use arrower.Jobs.Postgres.Worker.{
  WorkError, Statement, not_rolled_back, not_released, savepoint, rollback_to, release,
  WorkerContext, unmarshal_args_to_job_payload, prepare, work,
}

-- A user comes through as a string, if the request's is one and not empty.
abbrev pub carried : Option CtxUser → Option CtxUser → Option CtxUser
carried (some (as_string (c ∷ u))) user = some (as_string (c ∷ u))
carried _ user = user

carried_lem :
    (asking user : Option CtxUser)
    → (if string_of_user asking == [] then user else some (as_string (string_of_user asking)))
      ≡ carried asking user
unfolding string_of_user bytes_eq
carried_lem none user = refl
carried_lem (some (as_string [])) user = refl
carried_lem (some (as_string (c ∷ u))) user = refl
carried_lem (some (as_user_id u)) user = refl

-- Behind the middleware for users that are logged in, no job that is enqueued carries the user:
-- the middleware sets a value of another type than the queue asks for.
carried-ensure_user_is_logged_in :
    {Er : Type 0} (sess : Er ⊎ SessionValues) (ctx ctx' : UserContext) (user : Option CtxUser)
    → ensure_user_is_logged_in sess ctx ≡ next ctx'
    → (string_of_user ctx'.user ≡ []) × (carried ctx'.user user ≡ user)
unfolding ensure_user_is_logged_in read_logged_in read_user_id string_of_user
carried-ensure_user_is_logged_in sess ctx ctx' user passed = ground (arith, passed)

-- What json.Marshal writes json.Unmarshal reads, where the data of the job is first read without its
-- type.
module _ {J D Er Carrier : Type 0} (marshal : Payload J Carrier → Er ⊎ Bytes)
    (decode : Bytes → Er ⊎ Payload D Carrier) (encode_data : D → Er ⊎ Bytes)
    (decode_job : Bytes → Er ⊎ J) where
  abbrev pub IsReadBack : Type 0
  IsReadBack =
      (p : Payload J Carrier) (args : Bytes)
      → marshal p ≡ inr args
      → (d : D) × (text : Bytes) × (decode args
          ≡ inr (record {
            job_data = d;
            job_struct_path = p.job_struct_path;
            git_hash_enqueued = p.git_hash_enqueued;
            git_hash_processed = p.git_hash_processed;
            user_id = p.user_id;
            carrier = p.carrier;
          }))
        × (encode_data d ≡ inr text)
        × (decode_job text ≡ inr p.job_data)

module _ {J Er Time Tx Carrier : Type 0} (marshal : Payload J Carrier → Er ⊎ Bytes)
    (name_of : J → Option (Bytes × Bytes)) (git_hash queue : Bytes) where
  build_gue_job-args :
      (ctx : RequestContext Tx Carrier) (opts : List (JobOption Er Time)) (job : J)
      (g : GueJob Time)
      → ((g : GueJob Time) → (apply_options opts g).1.args ≡ g.args)
      → build_gue_job marshal name_of git_hash queue ctx opts job ≡ inr g
      → (path : Bytes) × (marshal (payload_of git_hash ctx path job) ≡ inr g.args)
  unfolding build_gue_job
  build_gue_job-args ctx opts job g keeps built = elim (Option-cases (name_of job)) [
    | inl nameless ↦ absurd (ground (arith, nameless, built))
    | inr ((type, path), named) ↦ elim (Sum-cases (marshal (payload_of git_hash ctx path job))) [
      | inl (e, refused) ↦ absurd (ground (arith, named, refused, built))
      | inr (args, fine) ↦ (
        path,
        fine
            ∙ ap (λ a. inr a)
                (ground (arith, named, fine, built, keeps (plain_job queue type args))),
      )
    ]
  ]

module _ {J D Er Carrier : Type 0} (decode : Bytes → Er ⊎ Payload D Carrier)
    (encode_data : D → Er ⊎ Bytes) (decode_job : Bytes → Er ⊎ J) where
  unmarshalled :
      (args text : Bytes) (p : Payload D Carrier) (job : J)
      → decode args ≡ inr p
      → encode_data p.job_data ≡ inr text
      → decode_job text ≡ inr job
      → unmarshal_args_to_job_payload decode encode_data decode_job args ≡ inr (p, job)
  unfolding unmarshal_args_to_job_payload
  unmarshalled args text p job decoded encoded read =
      rw (unmarshal_args_to_job_payload, decoded, encoded, read) refl

module _ {J D Er Time Tx Carrier Span : Type 0} (marshal : Payload J Carrier → Er ⊎ Bytes)
    (name_of : J → Option (Bytes × Bytes)) (git_hash queue : Bytes)
    (decode : Bytes → Er ⊎ Payload D Carrier) (encode_data : D → Er ⊎ Bytes)
    (decode_job : Bytes → Er ⊎ J) (unwrap_tx : GueJob Time → Option Tx)
    (extract : Carrier → Span) where
  -- Where JSON reads what it wrote and no option changes the arguments: the job function gets the
  -- job that was enqueued, the tracing information of the request and its user, but the user only
  -- if the request's context has it as a string.
  pub prepare-build_gue_job :
      IsReadBack marshal decode encode_data decode_job
      → (ctx : RequestContext Tx Carrier) (opts : List (JobOption Er Time)) (job : J)
        (g : GueJob Time) (tx : Tx) (user : Option CtxUser)
      → ((g : GueJob Time) → (apply_options opts g).1.args ≡ g.args)
      → build_gue_job marshal name_of git_hash queue ctx opts job ≡ inr g
      → unwrap_tx g ≡ some tx
      → prepare decode encode_data decode_job unwrap_tx extract user g
        ≡ inr (
          record {
            job_id = g.id;
            tx = tx;
            user = carried ctx.user user;
            span = extract ctx.injected;
          },
          job,
        )
  unfolding prepare
  prepare-build_gue_job reads ctx opts job g tx user keeps built has =
      let (path, marshalled) =
        build_gue_job-args marshal name_of git_hash queue ctx opts job g keeps built in
      let (d, text, decoded, encoded, read) =
        reads (payload_of git_hash ctx path job) g.args marshalled in
      let got = unmarshalled decode encode_data decode_job g.args text _ job decoded encoded read in
      rw (prepare, got, has)
        (ap
          (λ u. inr (record { job_id = g.id; tx = tx; user = u; span = extract ctx.injected }, job))
          (carried_lem ctx.user user))

module _ {D J Er Time Tx Carrier Span S : Type 0} (decode : Bytes → Er ⊎ Payload D Carrier)
    (encode_data : D → Er ⊎ Bytes) (decode_job : Bytes → Er ⊎ J)
    (unwrap_tx : GueJob Time → Option Tx) (extract : Carrier → Span)
    (execute : Tx → Statement → S → Option Er × S)
    (fn : WorkerContext Tx Span → J → S → Option Er × S) where
  abbrev pub worked : Option CtxUser → GueJob Time → S → Option (WorkError Er) × S
  worked = work decode encode_data decode_job unwrap_tx extract execute fn

-- `view` is what the job's transaction has of the database. Rolling back to the savepoint gives
-- what it was there before the job function.
module _ {D J Er Time Tx Carrier Span S V : Type 0} (decode : Bytes → Er ⊎ Payload D Carrier)
    (encode_data : D → Er ⊎ Bytes) (decode_job : Bytes → Er ⊎ J)
    (unwrap_tx : GueJob Time → Option Tx) (extract : Carrier → Span)
    (execute : Tx → Statement → S → Option Er × S) (view : S → V)
    (fn : WorkerContext Tx Span → J → S → Option Er × S)
    (savepoint_keeps : (tx : Tx) (s : S) → view (execute tx savepoint s).1 ≡ view s)
    (rolls_back : (ctx : WorkerContext Tx Span) (job : J) (s : S)
      → (execute ctx.tx rollback_to (fn ctx job (execute ctx.tx savepoint s).1).1).0 ≡ none
      → view (execute ctx.tx rollback_to (fn ctx job (execute ctx.tx savepoint s).1).1).1
        ≡ view s) where
  -- The library is told of no error, and then the job function was called with the job and
  -- returned none, and its savepoint was released; or it is told of an error, and then the
  -- database is as it was before, if not rolling back or the release is what failed.
  pub work_lem :
      (user : Option CtxUser) (g : GueJob Time) (s : S)
      → (((worked decode encode_data decode_job unwrap_tx extract execute fn user g s).0 ≡ none)
          × ((ctx : WorkerContext Tx Span) × (job : J) × (prepare decode encode_data decode_job
                  unwrap_tx extract user g
                ≡ inr (ctx, job))
              × ((fn ctx job (execute ctx.tx savepoint s).1).0 ≡ none)
              × (execute ctx.tx release (fn ctx job (execute ctx.tx savepoint s).1).1 ≡ (
                none,
                (worked decode encode_data decode_job unwrap_tx extract execute fn user g s).1,
              ))))
        ⊎ ((is_some (worked decode encode_data decode_job unwrap_tx extract execute fn user g s).0
              ≡ true)
            × (view (worked decode encode_data decode_job unwrap_tx extract execute fn user g s).1
                ≡ view s))
        ⊎ ((e : Er) × (((worked decode encode_data decode_job unwrap_tx extract execute fn user g
                  s).0
                ≡ some (not_rolled_back e))
              ⊎ ((worked decode encode_data decode_job unwrap_tx extract execute fn user g s).0
                  ≡ some (not_released e))))
  unfolding work
  work_lem user g s =
      elim (Sum-cases (prepare decode encode_data decode_job unwrap_tx extract user g)) [
        | inl (e, bad) ↦ inr (inl (rw (work, bad) refl, rw (work, bad) refl))
        | inr ((ctx, job), good) ↦
            let s1 = (execute ctx.tx savepoint s).1 in
            let s2 = (fn ctx job s1).1 in
            elim (Option-cases (execute ctx.tx savepoint s).0) [
              | inr (e, refused) ↦ inr (
                  inl (
                    rw (work, good, refused) refl,
                    rw (work, good, refused) (savepoint_keeps ctx.tx s),
                  ))
              | inl set ↦ elim (Option-cases (fn ctx job s1).0) [
                | inr (e, failure) ↦ elim (Option-cases (execute ctx.tx rollback_to s2).0) [
                  | inl back ↦ inr (
                      inl (
                        rw (work, good, set, failure, back) refl,
                        rw (work, good, set, failure, back) (rolls_back ctx job s back),
                      ))
                  | inr (x, stays) ↦ inr (inr (x, inl (rw (work, good, set, failure, stays) refl)))
                ]
                | inl fine ↦ elim (Option-cases (execute ctx.tx release s2).0) [
                  | inl done ↦ inl (
                    rw (work, good, set, fine, done) refl,
                    (ctx, job, good, fine, rw (work, good, set, fine, done) refl),
                  )
                  | inr (x, held) ↦ inr (inr (x, inr (rw (work, good, set, fine, held) refl)))
                ]
              ]
            ]
      ]
