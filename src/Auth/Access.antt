-- ===== src/Auth/Access.antt =====
-- What the services of contexts/auth/internal/domain/ guarantee: who gets in, who may register, and
-- which token verifies whom.
use arrower.Base.{
  ℕ, ◌+◌, ◌≤◌, ◌==◌, ◌&&◌, ◌||◌, leb, if◌then◌else◌, ◌≡◌, ◌≢◌, ◌↔◌, refl, ◌∙◌, bytes_eq, nat_eq,
  Bytes, Bool, true, false, Option, none, some, inl, inr, Option-cases, [], ◌∷◌, arith,
}
use arrower.Base.Dict.{Dict, lookup, insert, values, NodupKeys, lookup-insert, insert-NodupKeys}
use arrower.Setting.Value.{Value}
use arrower.Setting.Convert.{bool_of}
use arrower.Arepo.Memory.Valid.{IsValid}
use arrower.Arepo.Memory.Reads.{all}
use arrower.Arepo.Memory.Writes
use arrower.Auth.User.{
  User, Time, is_verified, is_blocked, is_true, is_weak_password, set_false, set_true,
}
use arrower.Auth.Repository.{
  Users, VerificationToken, user_schema, first_with_login, first_with_token, find, find_by_login,
  exists_by_login, save, create_verification_token, verification_token_by_token,
}
use arrower.Auth.Services.{
  Platform, done, authenticate, register_new_user, verify, new_verification_token,
}

-- The setting is there and its value reads as true.
abbrev pub is_on : Option Value → Bool
is_on none = false
is_on (some x) = elim (bool_of x) [ some true ↦ true | _ ↦ false ]

module _ (pf : Platform) where
  -- A user gets in exactly when the setting that allows logins is there and true, the user is
  -- verified and not blocked, and the password matches the hash.
  pub authenticate_lem :
      (allowed : Option Value) (u : User) (password : Bytes)
      → (authenticate pf allowed u password ≡ some true) ↔ (
          (is_on allowed ≡ true)
          × (is_verified u ≡ true)
          × (is_blocked u ≡ false)
          × (pf.matches_hash u.password_hash password ≡ true))
  unfolding authenticate
  authenticate_lem none u password = ground arith
  authenticate_lem (some x) u password = ground arith

  -- A registration that succeeds is of a new login, which is a mail address, with a strong password,
  -- and the setting that allows registration is there and true; the user has that login and the hash of
  -- the password, and is neither verified, nor blocked, nor a superuser.
  pub register_new_user_lem :
      (allowed : Option Value) (now : Time) (email password : Bytes) (s : Users) (u : User)
      → register_new_user pf allowed now email password s ≡ done u
      → (is_on allowed ≡ true)
        × (exists_by_login email s ≡ false)
        × (is_weak_password password ≡ false)
        × (pf.valid_address email ≡ true)
        × (u.login ≡ email)
        × (pf.hash password ≡ some u.password_hash)
        × (is_verified u ≡ false)
        × (is_blocked u ≡ false)
        × (is_true u.superuser ≡ false)
  unfolding register_new_user is_verified is_blocked set_false
  register_new_user_lem none now email password s u h = cc
  register_new_user_lem (some x) now email password s u h = ground arith

-- A known token verifies exactly the user that it belongs to, and until its time is over: Verify then
-- reports no error and stores that user as verified. Otherwise neither whether the user is verified
-- nor what is stored changes. The user has an ID, and it is not the zero time.
verify_lem :
    (now : Time) (u : User) (raw j : Bytes) (t : VerificationToken) (s : Users)
    → now ≢ 0
    → u.id ≢ []
    → verification_token_by_token raw s ≡ some t
    → (((verify now u raw s).0 ≡ none) ↔ ((t.user_id ≡ u.id) × (now ≤ t.valid_until)))
      × (is_verified (verify now u raw s).1
          ≡ (t.user_id == u.id && leb now t.valid_until || is_verified u))
      × (find j (verify now u raw s).2 ≡ (
          if t.user_id == u.id && leb now t.valid_until && j == u.id
          then some (verify now u raw s).1
          else find j s))
unfolding verify save find is_verified set_true Writes.save
verify_lem now u raw j t s h named known = (
  ground (arith, known),
  ground (arith, known),
  ground (
    arith,
    known,
    lookup-insert j u.id (record u { verified = set_true now u.verified }) s.users.collection,
  ),
)

-- The tokens are stored under their own name, once.
pub record IsKeyed (d : Dict Bytes VerificationToken) : Type 0 where
  pub own : (k : Bytes) (t : VerificationToken) → lookup k d ≡ some t → t.token ≡ k
  pub nodup : NodupKeys d

first_with_token-lookup :
    (d : Dict Bytes VerificationToken) (k : Bytes)
    → ((k : Bytes) (t : VerificationToken) → lookup k d ≡ some t → t.token ≡ k)
    → NodupKeys d
    → first_with_token k (values d) ≡ lookup k d
unfolding first_with_token values lookup
first_with_token-lookup [] k own _ = refl
first_with_token-lookup ((j, t) ∷ d) k own (fresh, u) =
    ground (
      arith,
      own j t (ground arith),
      first_with_token-lookup d k (λ i o h. own i o (ground arith)) u,
    )

fresh_token :
    (t : VerificationToken) (s : Users)
    → IsKeyed s.tokens
    → verification_token_by_token t.token (create_verification_token t s) ≡ some t
unfolding verification_token_by_token create_verification_token
fresh_token t s keyed =
    first_with_token-lookup (insert t.token t s.tokens) t.token
      (λ k o h. ground (arith, lookup-insert k t.token t s.tokens, keyed.own k o))
      (insert-NodupKeys t.token t s.tokens keyed.nodup)
    ∙ ground (arith, lookup-insert t.token t.token t s.tokens)

-- Where each token is stored once and under its own text, a token that has just been made for a user
-- verifies that user until its time is over: Verify reports no error, and the user is verified and is
-- stored as verified. With another user, or later, it reports an error, and neither whether the user
-- is verified nor what is stored changes. What is stored under other IDs never changes. The user to
-- verify has an ID, and it is not the zero time.
pub verify-new_verification_token :
    (pf : Platform) (now later valid_for : ℕ) (u v : User) (s : Users) (j : Bytes)
    → IsKeyed s.tokens
    → later ≢ 0
    → v.id ≢ []
    → let (failure, v', s') =
        verify later v pf.new_token (new_verification_token pf now valid_for u s).1 in
      ((failure ≡ none) ↔ ((u.id ≡ v.id) × (later ≤ now + valid_for)))
      × (is_verified v' ≡ (u.id == v.id && leb later (now + valid_for) || is_verified v))
      × (find j s' ≡ (
          if u.id == v.id && leb later (now + valid_for) && j == v.id then some v' else find j s))
unfolding new_verification_token create_verification_token find
verify-new_verification_token pf now later valid_for u v s j keyed h named =
    let t : VerificationToken = record {
      valid_until = now + valid_for;
      user_id = u.id;
      token = pf.new_token;
    } in
    verify_lem later v pf.new_token j t (create_verification_token t s) h named
      (fresh_token t s keyed)

module _ (login : Bytes) where
  first_with_login-found :
      (d : Dict Bytes User) (u : User)
      → ((k : Bytes) (o : User) → lookup k d ≡ some o → o.id ≡ k)
      → NodupKeys d
      → first_with_login login (values d) ≡ some u
      → (u.login ≡ login) × (lookup u.id d ≡ some u)
  unfolding first_with_login values lookup
  first_with_login-found [] u own _ h = absurd (ground (arith, h))
  first_with_login-found ((j, o) ∷ d) u own (fresh, n) h = ground (
    arith,
    own j o (ground arith),
    first_with_login-found d u (λ i o' e. own i o' (ground arith)) n,
  )

  first_with_login-ne-none :
      (d : Dict Bytes User) (id : Bytes) (u : User)
      → lookup id d ≡ some u
      → u.login ≡ login
      → first_with_login login (values d) ≢ none
  unfolding first_with_login values lookup
  first_with_login-ne-none [] id u h same = ground arith
  first_with_login-ne-none ((j, o) ∷ d) id u h same =
      ground (arith, first_with_login-ne-none d id u)

find_by_login-found :
    (login : Bytes) (u : User) (s : Users)
    → IsValid s.users.collection
    → find_by_login login s ≡ some u
    → (u.login ≡ login) × (find u.id s ≡ some u)
unfolding find_by_login find all
find_by_login-found login u s v h =
    let found = first_with_login-found login s.users.collection u v.own v.nodup h in
    (found.0, ground (arith, found.1))

pub find_by_login-exists :
    (login id : Bytes) (u : User) (s : Users)
    → find id s ≡ some u
    → u.login ≡ login
    → exists_by_login login s ≡ true
unfolding find_by_login exists_by_login find all
find_by_login-exists login id u s h same =
    ground (arith, first_with_login-ne-none login s.users.collection id u (ground (arith, h)) same)

-- In a valid collection, a login exists exactly when a stored user has it, and FindByLogin finds a
-- user then; that user has the login and is stored under its own ID.
find_by_login_lem :
    (login : Bytes) (s : Users)
    → IsValid s.users.collection
    → ((exists_by_login login s ≡ true)
        ↔ ((u : User) × ((find_by_login login s ≡ some u) × (find u.id s ≡ some u))))
      × ((exists_by_login login s ≡ true)
          ↔ ((u : User) × ((u.login ≡ login) × (find u.id s ≡ some u))))
unfolding exists_by_login
find_by_login_lem login s v = elim (Option-cases (find_by_login login s)) [
  | inl absent ↦ (
    (λ e. absurd (ground (arith, absent, e)), λ (u, (h, _)). absurd (ground (arith, absent, h))),
    (
      λ e. absurd (ground (arith, absent, e)),
      λ (u, (same, h)). find_by_login-exists login u.id u s h same,
    ),
  )
  | inr (u, there) ↦ (
    (λ _. (u, (there, (find_by_login-found login u s v there).1)), λ _. ground (arith, there)),
    (λ _. (u, find_by_login-found login u s v there), λ _. ground (arith, there)),
  )
]
