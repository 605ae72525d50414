-- ===== src/Auth/Flows.antt =====
-- What the use cases of contexts/auth/internal/application/ leave behind, on success and after a
-- failure of a later step.
use arrower.Base.{
  ◌≡◌, ◌≢◌, refl, ◌∙◌, sym, if◌then◌else◌, bytes_eq, nat_eq, ◌==◌, Bytes, Bool, true, false, Option,
  none, some, inl, inr, ◌⊎◌, ◌&&◌, Bool-cases, List, [], arith,
}
use arrower.Base.Dict.{lookup-insert}
use arrower.Setting.Value.{Value}
use arrower.Arepo.Memory.Valid.{IsValid}
use arrower.Arepo.Memory.Writes
use arrower.Arepo.Memory.Invariant.{apply}
use arrower.Arepo.Memory.Invariant
use arrower.Arepo.Memory.Preserve.{apply-IsValid}
use arrower.Auth.User.{User, Time, block, unblock}
use arrower.Auth.Repository.{
  Users, user_schema, user_store, find, find_by_login, exists_by_login, save,
}
use arrower.Auth.Services.{
  Platform, Answer, authenticate, register_new_user, user_already_exists, AuthError,
}
use arrower.Auth.Services
use arrower.Auth.Access.{find_by_login-exists}
use arrower.Auth.UseCases.{
  Outside, Client, Job, err, with_session, login_user, register_user, block_user, ip_not_resolved,
  service,
}

-- Saving a user with an ID, then finding it.
find-save :
    (u : User) (s : Users) (id : Bytes)
    → u.id ≢ []
    → ((save u s).0 ≡ true) × (find id (save u s).1 ≡ (if id == u.id then some u else find id s))
unfolding save find Writes.save
find-save u s id named = (ground arith, ground (arith, lookup-insert id u.id u s.users.collection))

save-IsValid :
    (u : User) (s : Users) → IsValid s.users.collection → IsValid (save u s).1.users.collection
unfolding save apply
save-IsValid u s v = apply-IsValid (Invariant.save u) s.users v (inr tt)

stored-exists_by_login :
    (u : User) (s : Users)
    → IsValid s.users.collection
    → u.id ≢ []
    → exists_by_login u.login (save u s).1 ≡ true
stored-exists_by_login u s v named =
    find_by_login-exists u.login u.id u (save u s).1 (ground (arith, (find-save u s u.id named).1))
      refl

-- What a registration that succeeds says of its user, and of the next one with that login.
register_new_user-done :
    (pf : Platform) (allowed : Option Value) (now later : Time) (email password : Bytes)
    (s s' : Users) (fresh : User)
    → register_new_user pf allowed now email password s ≡ Services.done fresh
    → (fresh.login ≡ email)
      × (fresh.id ≡ pf.new_id)
      × (exists_by_login email s' ≡ true
          → register_new_user pf allowed later email password s'
            ≡ Services.failed user_already_exists)
unfolding register_new_user
register_new_user-done pf none now later email password s s' fresh h = cc
register_new_user-done pf (some x) now later email password s s' fresh h = ground arith

Answer-cases :
    (a : Answer User)
    → ((fresh : User) × (a ≡ Services.done fresh))
      ⊎ (((e : AuthError) × (a ≡ Services.failed e)) ⊎ (a ≡ Services.panic))
Answer-cases (Services.done fresh) = inl (fresh, refl)
Answer-cases (Services.failed e) = inr (inl (e, refl))
Answer-cases Services.panic = inr (inr refl)

-- Authenticate returns true.
abbrev pub gets_in : Option Bool → Bool
gets_in (some true) = true
gets_in _ = false

module _ (out : Outside) (pf : Platform) (allowed : Option Value) (now : Time)
    (email password : Bytes) (c : Client) (s : Users) (jobs : List Job) where
  -- A login of a user, found by the login and with an ID, that gets in stores that user with the
  -- new session, whatever becomes of the later steps, and no other user changes. A login of one
  -- that does not get in leaves users and queue as they were.
  login_user_lem :
      (new_device : Bool) (found : User) (id : Bytes)
      → find_by_login email s ≡ some found
      → found.id ≢ []
      → (find id (login_user out pf allowed now email password new_device c s jobs).1 ≡ (
          if gets_in (authenticate pf allowed found password) && id == found.id
          then some (with_session now c found)
          else find id s))
        × ((gets_in (authenticate pf allowed found password) ≡ true)
            ⊎ ((login_user out pf allowed now email password new_device c s jobs).1 ≡ s)
              × ((login_user out pf allowed now email password new_device c s jobs).2 ≡ jobs))
  unfolding login_user
  login_user_lem new_device found id known named =
      elim (Bool-cases (gets_in (authenticate pf allowed found password))) [
        | inl may ↦
            (ground (arith, known, may, find-save (with_session now c found) s id named), inl may)
        | inr stays ↦ (
          ground (arith, known, stays),
          inr (ground (arith, known, stays), ground (arith, known, stays)),
        )
      ]

  -- From a valid collection, a registration that fails because the address cannot be resolved has
  -- stored the user under its new ID, which is not empty: the same registration, tried again, finds
  -- that the user already exists.
  register_user_retry :
      (later : Time) (jobs' : List Job)
      → IsValid s.users.collection
      → pf.new_id ≢ []
      → (register_user out pf allowed now email password c s jobs).0 ≡ err ip_not_resolved
      → (register_user out pf allowed later email password c
          (register_user out pf allowed now email password c s jobs).1
          jobs').0
        ≡ err (service user_already_exists)
  unfolding register_user
  register_user_retry later jobs' v named failed =
      elim (Answer-cases (register_new_user pf allowed now email password s)) [
        | inl (fresh, h) ↦
            let u = with_session now c fresh in
            let facts =
              register_new_user-done pf allowed now later email password s (save u s).1 fresh h in
            let has_id : fresh.id ≢ [] = λ e. named (sym facts.1 ∙ e) in
            let stored = stored-exists_by_login u s v has_id in
            ground (arith, h, (find-save u s u.id has_id).0, facts, stored)
        | inr (inl (e, h)) ↦ absurd (ground (arith, h, failed))
        | inr (inr h) ↦ absurd (ground (arith, h, failed))
      ]

-- BlockUser of a stored user that has an ID stores the user as blocked or not, and changes no other
-- user.
block_user_lem :
    (now : Time) (id j : Bytes) (set_blocked : Bool) (s : Users) (u : User)
    → find id s ≡ some u
    → u.id ≢ []
    → find j (block_user now id set_blocked s).1
      ≡ (if j == u.id then some (if set_blocked then block now u else unblock u) else find j s)
unfolding block_user block unblock
block_user_lem now id j true s u known named = ground (arith, known, find-save (block now u) s j)
block_user_lem now id j false s u known named = ground (arith, known, find-save (unblock u) s j)
