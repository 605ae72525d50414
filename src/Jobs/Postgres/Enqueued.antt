-- ===== src/Jobs/Postgres/Enqueued.antt =====
-- jobs/postgres.go: `Enqueue` puts all jobs of a slice into the database, or none.
use arrower.Base.{
  ◌≡◌, refl, is_some, Bytes, true, Option, List, [], ◌∷◌, ◌⊎◌, inl, inr, Option-cases, Sum-cases,
  Bool-cases,
}
use arrower.Jobs.Memory.{Job, is_valid_job_type}
use arrower.Jobs.Postgres.Payload.{
  Payload, GueJob, JobOption, RequestContext, build_gue_job, build_gue_jobs, structs_of, enqueue,
  EnqueueError,
}

module _ {J Er Time Tx Carrier : Type 0} (marshal : Payload J Carrier → Er ⊎ Bytes)
    (name_of : J → Option (Bytes × Bytes)) (git_hash queue : Bytes)
    (ctx : RequestContext Tx Carrier) (opts : List (JobOption Er Time)) where
  -- Each job is built of the one at its place.
  pub data AllBuilt : List J → List (GueJob Time) → Type 0 where
    all_built : AllBuilt [] []
    one_more :
        {j : J} {js : List J} {g : GueJob Time} {gs : List (GueJob Time)}
        → build_gue_job marshal name_of git_hash queue ctx opts j ≡ inr g
        → AllBuilt js gs
        → AllBuilt (j ∷ js) (g ∷ gs)

  build_gue_jobs-AllBuilt :
      (js : List J)
      → ((e : EnqueueError Er) × (build_gue_jobs marshal name_of git_hash queue ctx opts js
            ≡ inl e))
        ⊎ ((gs : List (GueJob Time)) × (build_gue_jobs marshal name_of git_hash queue ctx opts js
              ≡ inr gs)
            × AllBuilt js gs)
  unfolding build_gue_jobs
  build_gue_jobs-AllBuilt [] = inr ([], refl, all_built)
  build_gue_jobs-AllBuilt (j ∷ js) =
      elim (Sum-cases (build_gue_job marshal name_of git_hash queue ctx opts j)) [
        | inl (e, failure) ↦ inl (e, rw (build_gue_jobs, failure) refl)
        | inr (g, one) ↦ elim (build_gue_jobs-AllBuilt js) [
          | inl (e, failure) ↦ inl (e, rw (build_gue_jobs, one, failure) refl)
          | inr (gs, more, all) ↦
              inr (g ∷ gs, rw (build_gue_jobs, one, more) refl, one_more one all)
        ]
      ]

module _ {J Er Time Tx Carrier S : Type 0} (marshal : Payload J Carrier → Er ⊎ Bytes)
    (name_of : J → Option (Bytes × Bytes)) (git_hash queue : Bytes)
    (enqueue_batch : Option Tx → List (GueJob Time) → S → Option Er × S)
    (ctx : RequestContext Tx Carrier) (opts : List (JobOption Er Time)) where
  abbrev enqueued : Job J → S → Option (EnqueueError Er) × S
  enqueued = enqueue marshal name_of git_hash queue enqueue_batch ctx opts

  -- Enqueue returns an error and has asked nothing of the database; or it has asked once, in the
  -- transaction of the context if there is one, for jobs that are built of all structs it was
  -- given in their order, and returns an error exactly if the database did.
  pub enqueue_lem :
      (job : Job J) (s : S)
      → ((is_some (enqueued job s).0 ≡ true) × ((enqueued job s).1 ≡ s))
        ⊎ ((gs : List (GueJob Time)) × AllBuilt marshal name_of git_hash queue ctx opts
              (structs_of job)
              gs
            × (is_some (enqueued job s).0 ≡ is_some (enqueue_batch ctx.tx gs s).0)
            × ((enqueued job s).1 ≡ (enqueue_batch ctx.tx gs s).1))
  unfolding enqueue
  enqueue_lem job s = elim (Bool-cases (is_valid_job_type job)) [
    | inr invalid ↦ inl (rw (enqueue, invalid) refl, rw (enqueue, invalid) refl)
    | inl valid ↦
        elim (build_gue_jobs-AllBuilt marshal name_of git_hash queue ctx opts (structs_of job)) [
          | inl (e, failure) ↦
              inl (rw (enqueue, valid, failure) refl, rw (enqueue, valid, failure) refl)
          | inr (gs, built, all) ↦ elim (Option-cases (enqueue_batch ctx.tx gs s).0) [
            | inl fine ↦ inr (
              gs,
              all,
              rw (enqueue, valid, built, fine) refl,
              rw (enqueue, valid, built, fine) refl,
            )
            | inr (e, failure) ↦ inr (
              gs,
              all,
              rw (enqueue, valid, built, failure) refl,
              rw (enqueue, valid, built, failure) refl,
            )
          ]
        ]
  ]
