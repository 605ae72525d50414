-- ===== src/Auth/UseCases.antt =====
-- contexts/auth/internal/application/: the handlers of the use cases that change users. A handler
-- returns its answer with the users and the queue that it leaves; what is saved before a later step
-- fails stays saved. Logging is left out, and validation of the request comes before the handler.
use arrower.Base.{
  ℕ, if◌then◌else◌, bytes_eq, nat_eq, Bytes, Bool, true, false, not, Option, none, some, List, [],
  ◌∷◌, ◌++◌,
}
use arrower.Setting.Value.{Value}
use arrower.Auth.Name.{new_name}
use arrower.Auth.User.{User, Time, block, unblock, set_true}
use arrower.Auth.Repository.{Users, VerificationToken, find, find_by_login, save}
use arrower.Auth.Services.{
  Platform, AuthError, Answer, authenticate, register_new_user, verify, new_verification_token,
}
use arrower.Auth.Services

-- The jobs of the two handlers that enqueue one. `ip` is the resolved address.
pub data Job : Type 0 where
  send_confirmation_new_device_logged_in : Bytes → Time → Bytes → Bytes → Job
  new_user_verification_email : Bytes → Time → Bytes → Bytes → Job

pub data Failure : Type 0 where
  user_not_found not_authenticated not_saved ip_not_resolved not_queued : Failure
  service : AuthError → Failure

pub data Reply (A : Type 0) : Type 0 where
  ok : A → Reply A
  err : Failure → Reply A
  panic : Reply A

-- The address resolver and the queue: an address or an error, and whether a job is taken.
pub record Outside : Type 0 where
  pub resolve_ip : Bytes → Option Bytes
  pub accepts_job : Job → Bool

-- The fields of the two requests that come from the client.
pub record Client : Type 0 where
  pub user_agent : Bytes
  pub ip : Bytes
  pub session_key : Bytes

abbrev pub Handled : Type 0 → Type 0
Handled A = Reply A × Users × List Job

unfoldable pub with_session : Time → Client → User → User
with_session now c u = record u {
  sessions =
      u.sessions
      ++ (record { id = c.session_key; created_at = now; expires_at = 0; device = c.user_agent }
          ∷ []);
}

module _ (out : Outside) where
  -- h.queue.Enqueue(ctx, job)
  unfoldable pub enqueue : {A : Type 0} → Job → A → Users → List Job → Handled A
  enqueue job answer s jobs =
      if out.accepts_job job then (ok answer, s, jobs ++ (job ∷ [])) else (err not_queued, s, jobs)

  module _ (pf : Platform) where
    unfoldable pub login_user :
        Option Value → Time → Bytes → Bytes → Bool → Client → Users → List Job → Handled User
    unfolding enqueue with_session
    login_user allowed now email password is_new_device c s jobs = elim (find_by_login email s) [
      | none ↦ (err user_not_found, s, jobs)
      | some found ↦ elim (authenticate pf allowed found password) [
        | none ↦ (panic, s, jobs)
        | some false ↦ (err not_authenticated, s, jobs)
        | some true ↦
            let u = with_session now c found in
            let (saved, s') = save u s in
            if not saved
            then (err not_saved, s', jobs)
            else if is_new_device
            then (elim (out.resolve_ip c.ip) [
              | none ↦ (err ip_not_resolved, s', jobs)
              | some place ↦
                  enqueue (send_confirmation_new_device_logged_in u.id now place c.user_agent) u s'
                    jobs
            ])
            else (ok u, s', jobs)
      ]
    ]

    -- The answer is the user's descriptor: ID and login.
    unfoldable pub register_user :
        Option Value → Time → Bytes → Bytes → Client → Users → List Job → Handled (Bytes × Bytes)
    unfolding enqueue with_session
    register_user allowed now email password c s jobs =
        elim (register_new_user pf allowed now email password s) [
          | Services.panic ↦ (panic, s, jobs)
          | Services.failed e ↦ (err (service e), s, jobs)
          | Services.done fresh ↦
              let u = with_session now c fresh in
              let (saved, s') = save u s in
              if not saved then (err not_saved, s', jobs) else elim (out.resolve_ip c.ip) [
                | none ↦ (err ip_not_resolved, s', jobs)
                | some place ↦
                    enqueue (new_user_verification_email u.id now place c.user_agent)
                      (u.id, u.login) s' jobs
              ]
        ]

unfoldable pub verify_user : Time → Bytes → Bytes → Users → Reply Unit × Users
verify_user now id token s = elim (find id s) [
  | none ↦ (err user_not_found, s)
  | some u ↦
      let (failure, _, s') = verify now u token s in
      elim failure [ none ↦ (ok tt, s') | some e ↦ (err (service e), s') ]
]

-- The answer is the time of the block and the user's ID.
unfoldable pub block_user : Time → Bytes → Bool → Users → Reply (Time × Bytes) × Users
block_user now id set_blocked s = elim (find id s) [
  | none ↦ (err user_not_found, s)
  | some found ↦
      let u = if set_blocked then block now found else unblock found in
      let (saved, s') = save u s in
      if saved then (ok (u.blocked, u.id), s') else (err not_saved, s')
]

module _ (pf : Platform) (title : ℕ → ℕ) (is_space : ℕ → Bool) where
  -- `password` is what `generatePassword` draws.
  unfoldable pub new_user :
      Option Value
      → Time
      → Bytes
      → Bytes
      → Bytes
      → Bytes
      → Bytes
      → Bool
      → Users
      → Reply Unit × Users
  new_user allowed now password email first last display make_superuser s =
      elim (register_new_user pf allowed now email password s) [
        | Services.panic ↦ (panic, s)
        | Services.failed e ↦ (err (service e), s)
        | Services.done fresh ↦ elim (new_name title is_space first last display) [
          | none ↦ (panic, s)
          | some named ↦
              let u : User = record fresh {
                name = named;
                superuser = if make_superuser then set_true now 0 else fresh.superuser;
              } in
              let (saved, s') = save u s in if saved then (ok tt, s') else (err not_saved, s')
        ]
      ]

-- The handler of the job that sends the verification email, up to the email itself.
unfoldable pub send_new_user_verification_email :
    Platform → Time → ℕ → Bytes → Users → Reply VerificationToken × Users
send_new_user_verification_email pf now valid_for id s = elim (find id s) [
  | none ↦ (err user_not_found, s)
  | some u ↦ let (token, s') = new_verification_token pf now valid_for u s in (ok token, s')
]
