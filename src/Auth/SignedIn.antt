-- ===== src/Auth/SignedIn.antt =====
-- contexts/auth/: what the controllers write into the session, and what the middlewares make of it in
-- the next request.
use arrower.Base.{
  ◌≡◌, refl, ap, ◌∙◌, Bytes, bytes_eq, true, Option, none, some, ◌⊎◌, inl, inr, [], ◌∷◌, ◌++◌,
  arith, Option-cases,
}
use arrower.Auth.Middleware.{
  acting_as, left_user, bool_value, user_id_value, SessionValues, UserContext, is_logged_in,
  redirect_to_login, redirect_home, read_logged_in, read_user_id, read_superuser,
  ensure_user_is_logged_in, ensure_user_is_superuser,
}
use arrower.Auth.Controllers.{to_root, to_admin, MaxAge, login, logout}
use arrower.Auth.Impersonation.{add_flash, user_id_of, admin_login_as_user, admin_leave_user}

-- A session without values, as the next request gets it of one that was deleted.
abbrev pub no_values : SessionValues
no_values = record {
  logged_in_value = none;
  user_value = none;
  superuser_value = none;
  as_other_value = none;
  original_value = none;
  flashes = [];
}

refused_without :
    {Er : Type 0} (ctx : UserContext) (x : SessionValues)
    → x.logged_in_value ≡ none
    → x.user_value ≡ none
    → x.superuser_value ≡ none
    → (ensure_user_is_logged_in {Er = Er} (inr x) ctx ≡ redirect_to_login)
      × (ensure_user_is_superuser {Er = Er} (inr x) ctx ≡ redirect_home)
unfolding ensure_user_is_logged_in ensure_user_is_superuser read_logged_in read_user_id
    read_superuser
refused_without ctx x out nobody plain =
    (ground (arith, out, nobody), ground (arith, out, nobody, plain))

-- A session that is saved with an age that is over is deleted, or its values are kept as they were saved.
module _ {Er S : Type 0} (save : SessionValues → MaxAge → S → Option Er × S)
    (stored : S → SessionValues)
    (deletes_or_saves : (sess : SessionValues) (s : S)
      → (save sess MaxAge.deleted_now s).0 ≡ none
      → (stored (save sess MaxAge.deleted_now s).1 ≡ no_values)
        ⊎ (stored (save sess MaxAge.deleted_now s).1 ≡ sess)) where
  -- Where saving a session with an age that is over, if it does not fail, deletes it, so that the next
  -- request gets one without values, or keeps the values: after a user who is logged in has logged out
  -- without an error, the session gets past neither middleware, also if the cookie comes back.
  pub logout_lem :
      (ctx next_ctx : UserContext) (sess : SessionValues) (s s' : S)
      → is_logged_in ctx ≡ true
      → logout save ctx (inr sess) s ≡ (to_root, s')
      → (ensure_user_is_logged_in {Er = Er} (inr (stored s')) next_ctx ≡ redirect_to_login)
        × (ensure_user_is_superuser {Er = Er} (inr (stored s')) next_ctx ≡ redirect_home)
  unfolding logout
  logout_lem ctx next_ctx sess s s' logged done =
      let empty = record sess {
        logged_in_value = none;
        user_value = none;
        superuser_value = none;
      } in
      elim (Option-cases (save empty MaxAge.deleted_now s).0) [
        | inr (e, refused) ↦ absurd (ground (arith, logged, refused, done))
        | inl saved ↦
            let reached : stored s' ≡ stored (save empty MaxAge.deleted_now s).1 =
              ap stored (ground (arith, logged, saved, done)) in
            elim (deletes_or_saves empty s saved) [
              | inl gone ↦ rw (reached ∙ gone) (refused_without next_ctx no_values refl refl refl)
              | inr kept ↦ rw (reached ∙ kept) (refused_without next_ctx empty refl refl refl)
            ]
      ]

abbrev acting : Bytes → Bytes → Bytes → SessionValues → SessionValues
acting u v login sess = add_flash (acting_as login) (record sess {
  as_other_value = some (bool_value true);
  original_value = some (user_id_value u);
  user_value = some (user_id_value v);
})

abbrev back : Bytes → SessionValues → SessionValues
back u sess = add_flash left_user (record sess {
  as_other_value = none;
  original_value = none;
  user_value = some (user_id_value u);
})

module _ {Er S : Type 0} (save : SessionValues → S → Option Er × S) (stored : S → SessionValues)
    (saves : (sess : SessionValues) (s : S)
      → (save sess s).0 ≡ none
      → stored (save sess s).1 ≡ sess) where
  began_stored :
      (u v login : Bytes) (sess : SessionValues) (s s1 : S)
      → sess.user_value ≡ some (user_id_value u)
      → admin_login_as_user save (inr (v, login)) (inr sess) s ≡ (to_root, s1)
      → stored s1 ≡ acting u v login sess
  unfolding admin_login_as_user user_id_of
  began_stored u v login sess s s1 is_u began =
      elim (Option-cases (save (acting u v login sess) s).0) [
        | inr (e, refused) ↦ absurd (ground (arith, is_u, refused, began))
        | inl saved ↦
            ap stored (ground (arith, is_u, saved, began)) ∙ saves (acting u v login sess) s saved
      ]

  left_stored :
      (u : Bytes) (sess : SessionValues) (s s2 : S)
      → sess.original_value ≡ some (user_id_value u)
      → admin_leave_user save (inr sess) s ≡ (to_admin, s2)
      → stored s2 ≡ back u sess
  unfolding admin_leave_user user_id_of
  left_stored u sess s s2 was_u left = elim (Option-cases (save (back u sess) s).0) [
    | inr (e, refused) ↦ absurd (ground (arith, was_u, refused, left))
    | inl saved ↦ ap stored (ground (arith, was_u, saved, left)) ∙ saves (back u sess) s saved
  ]

  -- Where the next request gets the session that was saved: a superuser who acts as another user and
  -- leaves it again has the session from before, with the two messages that say so behind those that
  -- it had, if it did not act as another user already.
  pub admin_leave_user_lem :
      (u v login : Bytes) (sess : SessionValues) (s s1 s2 : S)
      → sess.user_value ≡ some (user_id_value u)
      → sess.as_other_value ≡ none
      → sess.original_value ≡ none
      → admin_login_as_user save (inr (v, login)) (inr sess) s ≡ (to_root, s1)
      → admin_leave_user save (inr (stored s1)) s1 ≡ (to_admin, s2)
      → ((stored s1).user_value ≡ some (user_id_value v))
        × (stored s2 ≡ record sess {
          flashes = (sess.flashes ++ (acting_as login ∷ [])) ++ (left_user ∷ []);
        })
  admin_leave_user_lem u v login sess s s1 s2 is_u alone first began left =
      let one = began_stored u v login sess s s1 is_u began in
      let two = left_stored u (stored s1) s1 s2 (ap (λ x. x.original_value) one) left in
      (ap (λ x. x.user_value) one, two ∙ ap (back u) one ∙ ground (arith, is_u, alone, first))
