-- ===== src/Auth/Controllers.antt =====
-- contexts/auth/internal/interfaces/web/: the controllers that write the session.
use arrower.Base.{ℕ, if◌then◌else◌, Bytes, Bool, true, not, Option, none, some, ◌⊎◌, inl, inr}
use arrower.Auth.Middleware.{bool_value, user_id_value, SessionValues, UserContext, is_logged_in}

-- What a controller answers. The pages show the form again, with an error of the use case if there is
-- one.
pub data Reply (Er : Type 0) : Type 0 where
  to_root to_admin to_users : Reply Er
  bad_request : Er → Reply Er
  login_page register_page : Option Er → Reply Er

-- How long the browser keeps the cookie: as long as it runs, so many seconds, or no longer.
pub data MaxAge : Type 0 where
  browser_session deleted_now : MaxAge
  seconds : ℕ → MaxAge

module _ {Er S : Type 0} (save : SessionValues → MaxAge → S → Option Er × S)
    (set_known_device_cookie : S → Option Er × S) where
  -- How Login and Register end: the session is saved, then the cookie is set.
  unfoldable pub save_and_remember : Reply Er → SessionValues → MaxAge → S → Reply Er × S
  save_and_remember target sess age s =
      let (refused, s1) = save sess age s in
      elim refused [
        | some e ↦ (bad_request e, s1)
        | none ↦
            let (failure, s2) = set_known_device_cookie s1 in
            elim failure [ some e ↦ (bad_request e, s2) | none ↦ (target, s2) ]
      ]

-- What is outside: session.Get, the binding of the form to a request of type `Req`, the session's
-- Save and the cookie of known devices. A use case answers with the ID of the user and whether it
-- is a superuser.
module _ {Req Er S : Type 0} (save : SessionValues → MaxAge → S → Option Er × S)
    (set_known_device_cookie : S → Option Er × S) where
  -- The request comes with whether it is to be remembered.
  unfoldable pub login :
      (Req → S → (Er ⊎ (Bytes × Bool)) × S)
      → UserContext
      → Bool
      → Er ⊎ SessionValues
      → Er ⊎ (Req × Bool)
      → S
      → Reply Er × S
  unfolding is_logged_in save_and_remember
  login handler ctx is_get got bound s =
      if is_logged_in ctx then (to_root, s) else if is_get then (login_page none, s) else elim got [
        | inl e ↦ (bad_request e, s)
        | inr sess ↦ elim bound [
          | inl e ↦ (bad_request e, s)
          | inr (req, remember) ↦
              let (answer, s1) = handler req s in
              elim answer [
                | inl e ↦ (login_page (some e), s1)
                | inr (user_id, is_super) ↦
                    save_and_remember save set_known_device_cookie to_root
                      (record sess {
                        logged_in_value = some (bool_value true);
                        user_value = some (user_id_value user_id);
                        superuser_value = some (bool_value is_super);
                      })
                      (if remember then seconds 2592000 else browser_session) s1
              ]
        ]
      ]

  unfoldable pub register :
      (Req → S → (Er ⊎ Bytes) × S) → UserContext → Er ⊎ SessionValues → Er ⊎ Req → S → Reply Er × S
  unfolding is_logged_in save_and_remember
  register handler ctx got bound s = if is_logged_in ctx then (to_root, s) else elim got [
    | inl e ↦ (bad_request e, s)
    | inr sess ↦ elim bound [
      | inl e ↦ (bad_request e, s)
      | inr req ↦
          let (answer, s1) = handler req s in
          elim answer [
            | inl e ↦ (register_page (some e), s1)
            | inr user_id ↦
                save_and_remember save set_known_device_cookie to_users
                  (record sess {
                    logged_in_value = some (bool_value true);
                    user_value = some (user_id_value user_id);
                  })
                  browser_session s1
          ]
    ]
  ]

module _ {Er S : Type 0} (save : SessionValues → MaxAge → S → Option Er × S) where
  unfoldable pub logout : UserContext → Er ⊎ SessionValues → S → Reply Er × S
  unfolding is_logged_in
  logout ctx got s = if not (is_logged_in ctx) then (to_root, s) else elim got [
    | inl e ↦ (bad_request e, s)
    | inr sess ↦
        let (refused, s1) =
          save (record sess { logged_in_value = none; user_value = none; superuser_value = none })
            deleted_now s in
        elim refused [ some e ↦ (bad_request e, s1) | none ↦ (to_root, s1) ]
  ]
