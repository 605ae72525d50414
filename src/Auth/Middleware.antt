-- ===== src/Auth/Middleware.antt =====
-- contexts/auth/auth.mw.go: the middlewares that read the session, and what they put into the context
-- of a request.
use arrower.Base.{
  get_or, Bytes, Bool, true, false, ◌&&◌, if◌then◌else◌, Option, none, some, [], ◌⊎◌, inl, inr,
  List,
}

-- The value of CtxUserID in a context is of any type; the code makes two of it, `string` and
-- `UserID`.
pub data CtxUser : Type 0 where
  as_string as_user_id : Bytes → CtxUser

-- A value in a session, by the types that the middlewares ask for.
pub data SessionValue : Type 0 where
  bool_value : Bool → SessionValue
  user_id_value : Bytes → SessionValue
  other_value : SessionValue

-- A message that a later page shows: "Angemeldet als Nutzer: " with a login, and "Left user and back to
-- superuser".
pub data Flash : Type 0 where
  acting_as : Bytes → Flash
  left_user : Flash

-- `flashes` is what AddFlash has collected.
pub record SessionValues : Type 0 where
  pub logged_in_value : Option SessionValue
  pub user_value : Option SessionValue
  pub superuser_value : Option SessionValue
  pub as_other_value : Option SessionValue
  pub original_value : Option SessionValue
  pub flashes : List Flash

-- CtxLoggedIn, CtxUserID, CtxIsSuperuser, CtxIsSuperuserLoggedInAsUser
pub record UserContext : Type 0 where
  pub logged_in : Option Bool
  pub user : Option CtxUser
  pub superuser : Option Bool
  pub as_other : Option Bool

unfoldable pub is_logged_in : UserContext → Bool
is_logged_in ctx = get_or false ctx.logged_in

unfoldable pub is_superuser : UserContext → Bool
is_superuser ctx = get_or false ctx.superuser

unfoldable pub is_logged_in_as_other_user : UserContext → Bool
is_logged_in_as_other_user ctx = get_or false ctx.as_other

unfoldable pub current_user_id : UserContext → Bytes
current_user_id ctx = elim ctx.user [ some (as_user_id u) ↦ u | _ ↦ [] ]

-- What a middleware does: it returns an error, redirects, or calls the next handler with a context.
pub data Response (Er : Type 0) : Type 0 where
  session_error : Er → Response Er
  invalid_logged_in invalid_user_id invalid_superuser : Response Er
  redirect_to_login redirect_home : Response Er
  next : UserContext → Response Er

-- The blocks that the middlewares share, with the flag that they set; `none` is a value of a wrong
-- type.
unfoldable pub read_logged_in : Option SessionValue → UserContext → Option (UserContext × Bool)
read_logged_in none ctx = some (ctx, false)
read_logged_in (some (bool_value b)) ctx = some (record ctx { logged_in = some b }, b)
read_logged_in (some _) ctx = none

unfoldable pub read_user_id : Option SessionValue → UserContext → Option (UserContext × Bool)
read_user_id none ctx = some (ctx, false)
read_user_id (some (user_id_value u)) ctx = some (record ctx { user = some (as_user_id u) }, true)
read_user_id (some _) ctx = none

unfoldable pub read_superuser : Option SessionValue → UserContext → Option (UserContext × Bool)
read_superuser none ctx = some (ctx, false)
read_superuser (some (bool_value b)) ctx = some (record ctx { superuser = some b }, b)
read_superuser (some _) ctx = none

-- EnrichCtxWithUserInfoMiddleware passes over a value of a wrong type in the last two.
unfoldable pub enrich_superuser : Option SessionValue → UserContext → UserContext
enrich_superuser (some (bool_value b)) ctx = record ctx { superuser = some b }
enrich_superuser _ ctx = ctx

unfoldable pub enrich_as_other : Option SessionValue → UserContext → UserContext
enrich_as_other (some (bool_value _)) ctx = record ctx { as_other = some true }
enrich_as_other _ ctx = ctx

module _ {Er : Type 0} where
  unfoldable pub ensure_user_is_logged_in : Er ⊎ SessionValues → UserContext → Response Er
  unfolding read_logged_in read_user_id
  ensure_user_is_logged_in (inl e) ctx = session_error e
  ensure_user_is_logged_in (inr sess) ctx = elim (read_logged_in sess.logged_in_value ctx) [
    | none ↦ invalid_logged_in
    | some (ctx1, is_in) ↦ elim (read_user_id sess.user_value ctx1) [
      | none ↦ invalid_user_id
      | some (ctx2, has_id) ↦ if is_in && has_id then next ctx2 else redirect_to_login
    ]
  ]

  unfoldable pub ensure_user_is_superuser : Er ⊎ SessionValues → UserContext → Response Er
  unfolding read_logged_in read_user_id read_superuser
  ensure_user_is_superuser (inl e) ctx = session_error e
  ensure_user_is_superuser (inr sess) ctx = elim (read_logged_in sess.logged_in_value ctx) [
    | none ↦ invalid_logged_in
    | some (ctx1, is_in) ↦ elim (read_user_id sess.user_value ctx1) [
      | none ↦ invalid_user_id
      | some (ctx2, has_id) ↦ elim (read_superuser sess.superuser_value ctx2) [
        | none ↦ invalid_superuser
        | some (ctx3, is_su) ↦ if is_in && has_id && is_su then next ctx3 else redirect_home
      ]
    ]
  ]

  unfoldable pub enrich_ctx_with_user_info : Er ⊎ SessionValues → UserContext → Response Er
  unfolding read_logged_in read_user_id enrich_superuser enrich_as_other
  enrich_ctx_with_user_info (inl e) ctx = session_error e
  enrich_ctx_with_user_info (inr sess) ctx = elim (read_logged_in sess.logged_in_value ctx) [
    | none ↦ invalid_logged_in
    | some (ctx1, _) ↦ elim (read_user_id sess.user_value ctx1) [
      | none ↦ invalid_user_id
      | some (ctx2, _) ↦
          next (enrich_as_other sess.as_other_value (enrich_superuser sess.superuser_value ctx2))
    ]
  ]
