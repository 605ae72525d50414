-- ===== src/Auth/Services.antt =====
-- contexts/auth/internal/domain/: the services that authenticate, register and verify users.
-- `none` is a panic where a comment says so.
use arrower.Base.{
  ℕ, ◌+◌, if◌then◌else◌, bytes_eq, nat_eq, ◌==◌, ltb, Bytes, Bool, true, false, not, Option, none,
  some, [],
}
use arrower.Setting.Value.{Value}
use arrower.Setting.Convert.{bool_of}
use arrower.Auth.User.{User, Time, is_verified, is_blocked, set_true, set_false, is_weak_password}
use arrower.Auth.Repository.{
  Users, VerificationToken, exists_by_login, save, create_verification_token,
  verification_token_by_token,
}

-- What the services use of other packages: the new IDs and tokens, bcrypt, and net/mail.
pub record Platform : Type 0 where
  pub new_id : Bytes
  pub new_token : Bytes
  pub hash : Bytes → Option Bytes
  pub matches_hash : Bytes → Bytes → Bool
  pub valid_address : Bytes → Bool

pub data AuthError : Type 0 where
  missing_login invalid_address weak_password hash_failed : AuthError
  no_setting registration_disabled user_already_exists : AuthError
  token_unknown wrong_user token_expired not_saved : AuthError

pub data Answer (A : Type 0) : Type 0 where
  done : A → Answer A
  failed : AuthError → Answer A
  panic : Answer A

module _ (pf : Platform) where
  unfoldable pub new_user : Time → Bytes → Bytes → Answer User
  new_user now email password =
      if email == []
      then failed missing_login
      else if not (pf.valid_address email)
      then failed invalid_address
      else if is_weak_password password
      then failed weak_password
      else elim (pf.hash password) [
        | none ↦ failed hash_failed
        | some h ↦ done (record {
          id = pf.new_id;
          login = email;
          password_hash = h;
          registered_at = now;
          name = record { first_name = []; last_name = []; display_name = [] };
          birthday = record { day = 0; month = 0; year = 0 };
          verified = set_false 0;
          blocked = set_false 0;
          superuser = set_false 0;
          sessions = [];
        })
      ]

  -- AuthenticationService.Authenticate, given what Setting returns for `SettingAllowLogin`. `none`
  -- is the panic of `MustBool`.
  unfoldable pub authenticate : Option Value → User → Bytes → Option Bool
  authenticate none u password = some false
  authenticate (some x) u password = elim (bool_of x) [
    | none ↦ none
    | some false ↦ some false
    | some true ↦
        if not (is_verified u)
        then some false
        else if is_blocked u
        then some false
        else if not (pf.matches_hash u.password_hash password)
        then some false
        else some true
  ]

  -- RegistrationService.RegisterNewUser, given what Setting returns for `SettingAllowRegistration`.
  unfoldable pub register_new_user : Option Value → Time → Bytes → Bytes → Users → Answer User
  unfolding new_user
  register_new_user none now email password s = failed no_setting
  register_new_user (some x) now email password s = elim (bool_of x) [
    | none ↦ panic
    | some false ↦ failed registration_disabled
    | some true ↦
        if exists_by_login email s then failed user_already_exists else new_user now email password
  ]

  unfoldable pub new_verification_token : Time → ℕ → User → Users → VerificationToken × Users
  new_verification_token now valid_for u s =
      let t : VerificationToken = record {
        valid_until = now + valid_for;
        user_id = u.id;
        token = pf.new_token;
      } in
      (t, create_verification_token t s)

-- !time.Now().UTC().After(t.validUntil)
unfoldable pub is_valid : Time → VerificationToken → Bool
is_valid now t = not (ltb t.valid_until now)

-- VerificationService.Verify: the user as the caller's pointer shows it afterwards, the users, and
-- the error. The user is marked before it is saved.
unfoldable pub verify : Time → User → Bytes → Users → Option AuthError × User × Users
unfolding is_valid
verify now u raw s = elim (verification_token_by_token raw s) [
  | none ↦ (some token_unknown, u, s)
  | some t ↦
      if not (t.user_id == u.id)
      then (some wrong_user, u, s)
      else if not (is_valid now t)
      then (some token_expired, u, s)
      else let u' = record u { verified = set_true now u.verified } in
        let (saved, s') = save u' s in if saved then (none, u', s') else (some not_saved, u', s')
]
