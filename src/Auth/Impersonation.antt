-- ===== src/Auth/Impersonation.antt =====
-- contexts/auth/internal/interfaces/web/superuser.controller.go: superusers who act as another user.
use arrower.Base.{Bytes, true, Option, none, some, ◌⊎◌, inl, inr, [], ◌∷◌, ◌++◌}
use arrower.Auth.Middleware.{
  SessionValue, bool_value, user_id_value, SessionValues, Flash, acting_as, left_user,
}
use arrower.Auth.Controllers.{Reply, to_root, to_admin, bad_request}

-- v, ok := value.(auth.UserID)
unfoldable pub user_id_of : Option SessionValue → Option Bytes
user_id_of (some (user_id_value u)) = some u
user_id_of _ = none

-- sess.AddFlash
abbrev pub add_flash : Flash → SessionValues → SessionValues
add_flash message sess = record sess { flashes = sess.flashes ++ (message ∷ []) }

-- `save` is the session's Save with its options as they are. The query for the user answers with its ID
-- and its login.
module _ {Er S : Type 0} (save : SessionValues → S → Option Er × S) where
  unfoldable pub admin_login_as_user : Er ⊎ (Bytes × Bytes) → Er ⊎ SessionValues → S → Reply Er × S
  unfolding user_id_of
  admin_login_as_user (inl e) got s = (bad_request e, s)
  admin_login_as_user (inr (user_id, user_login)) (inl e) s = (bad_request e, s)
  admin_login_as_user (inr (user_id, user_login)) (inr sess) s = elim (user_id_of sess.user_value) [
    | none ↦ (to_root, s)
    | some original ↦
        let (refused, s1) =
          save
            (add_flash (acting_as user_login) (record sess {
              as_other_value = some (bool_value true);
              original_value = some (user_id_value original);
              user_value = some (user_id_value user_id);
            }))
            s in
        elim refused [ some e ↦ (bad_request e, s1) | none ↦ (to_root, s1) ]
  ]

  unfoldable pub admin_leave_user : Er ⊎ SessionValues → S → Reply Er × S
  unfolding user_id_of
  admin_leave_user (inl e) s = (bad_request e, s)
  admin_leave_user (inr sess) s = elim (user_id_of sess.original_value) [
    | none ↦ (to_admin, s)
    | some original ↦
        let (refused, s1) =
          save
            (add_flash left_user (record sess {
              as_other_value = none;
              original_value = none;
              user_value = some (user_id_value original);
            }))
            s in
        elim refused [ some e ↦ (bad_request e, s1) | none ↦ (to_admin, s1) ]
  ]
