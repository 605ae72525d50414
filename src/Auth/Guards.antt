-- ===== src/Auth/Guards.antt =====
-- contexts/auth/auth.mw.go: who gets past the middlewares, and what the handlers behind them know.
use arrower.Base.{◌≡◌, ◌↔◌, bytes_eq, true, some, ◌⊎◌, inl, inr, arith}
use arrower.Auth.Middleware.{
  as_user_id, bool_value, user_id_value, SessionValues, UserContext, is_logged_in, current_user_id,
  next, read_logged_in, read_user_id, read_superuser, enrich_superuser, enrich_as_other,
  ensure_user_is_logged_in, ensure_user_is_superuser, enrich_ctx_with_user_info,
}

module _ {Er : Type 0} where
  -- A request gets past the middleware for superusers exactly if its session says that it is
  -- logged in, that it is a superuser, and who it is, each with a value of its type; the handler
  -- behind it finds all three in its context.
  pub ensure_user_is_superuser_lem :
      (sess : SessionValues) (ctx ctx' : UserContext)
      → (ensure_user_is_superuser {Er = Er} (inr sess) ctx ≡ next ctx') ↔ (
          (sess.logged_in_value ≡ some (bool_value true))
          × (sess.superuser_value ≡ some (bool_value true))
          × (sess.user_value ≡ some (user_id_value (current_user_id ctx')))
          × (ctx' ≡ record ctx {
            logged_in = some true;
            user = some (as_user_id (current_user_id ctx'));
            superuser = some true;
          }))
  unfolding ensure_user_is_superuser read_logged_in read_user_id read_superuser current_user_id
  ensure_user_is_superuser_lem sess ctx ctx' = ground arith

  -- What gets past the middleware for users gets past the one that only reads the session, and
  -- both tell the handler the same of whether it is logged in, which it is, and of the user.
  ensure_user_is_logged_in_lem :
      (sess : Er ⊎ SessionValues) (ctx ctx' : UserContext)
      → ensure_user_is_logged_in sess ctx ≡ next ctx'
      → (is_logged_in ctx' ≡ true)
        × ((u : UserContext) × (enrich_ctx_with_user_info sess ctx ≡ next u)
            × (is_logged_in u ≡ true)
            × (u.user ≡ ctx'.user)
            × (current_user_id u ≡ current_user_id ctx'))
  unfolding ensure_user_is_logged_in enrich_ctx_with_user_info read_logged_in read_user_id
      is_logged_in current_user_id enrich_superuser enrich_as_other
  ensure_user_is_logged_in_lem (inl e) ctx ctx' passed = absurd (ground (arith, passed))
  ensure_user_is_logged_in_lem (inr sess) ctx ctx' passed = (
    ground (arith, passed),
    (
      enrich_as_other sess.as_other_value (enrich_superuser sess.superuser_value ctx'),
      ground (arith, passed),
      ground (arith, passed),
      ground (arith, passed),
      ground (arith, passed),
    ),
  )
