-- ===== src/Alog/Delivery.antt =====
-- alog/: which records get through.
use arrower.Base.{
  ◌≡◌, refl, ◌==◌, nat_eq, bytes_eq, Bool, true, false, Option, none, some, [], ◌⊎◌, inl, inr,
  arith, Bool-cases, Option-cases,
}
use arrower.Base.Int.{ℤ}
use arrower.Base.Dict.{lookup-insert}
use arrower.Auth.Middleware.{
  CtxUser, UserContext, SessionValues, next, read_logged_in, read_user_id, ensure_user_is_logged_in,
}
use arrower.Alog.Logger.{
  Logger, Levels, LogSettings, enabled, early_enabled, handle, log, with_all, set_level, level_of,
  CopyOf, itself, copied,
}

module _ {H Settings Rec Er S : Type 0} (from : LogSettings Settings) (at_least : ℤ → ℤ → Bool)
    (emit : H → Rec → S → Option Er × S) where
  -- The early check makes no difference: a record is handled by all handlers exactly if the check of
  -- users and levels lets it through, with and without settings.
  log_lem :
      (l : Logger H Settings) (current : ℤ) (user : Option CtxUser) (level : ℤ) (rec : Rec) (s : S)
      → log from at_least emit l current user level rec s
        ≡ elim (enabled from at_least l current user level) [
          | none ↦ none
          | some true ↦ some (handle emit l.handlers rec s)
          | some false ↦ some ([], s)
        ]
  unfolding log early_enabled enabled
  log_lem l current user level rec s = elim (Option-cases l.settings) [
    | inl fixed ↦ elim (Bool-cases (at_least level current)) [
      | inl high ↦ rw (log, fixed, high) refl
      | inr low ↦ rw (log, fixed, low) refl
    ]
    | inr (settings, live) ↦ rw (log, live) refl
  ]

module _ {H Settings Er : Type 0} (from : LogSettings Settings) (at_least : ℤ → ℤ → Bool) where
  -- Behind the middleware for users that are logged in, the list of users whose records are all
  -- logged has no effect.
  enabled-ensure_user_is_logged_in :
      (l : Logger H Settings) (current level : ℤ) (sess : Er ⊎ SessionValues)
      (ctx ctx' : UserContext)
      → ensure_user_is_logged_in sess ctx ≡ next ctx'
      → enabled from at_least l current ctx'.user level ≡ enabled from at_least l current none level
  unfolding enabled ensure_user_is_logged_in read_logged_in read_user_id
  enabled-ensure_user_is_logged_in l current level sess ctx ctx' passed = ground (arith, passed)

module _ {H Settings : Type 0} where
  CopyOf-level : {l m : Logger H Settings} → CopyOf l m → m.level ≡ l.level
  unfolding with_all
  CopyOf-level itself = refl
  CopyOf-level (copied with_h c) = CopyOf-level c

  -- SetLevel on a logger or on a copy of it changes the level of all its copies, and of no logger
  -- with a level of its own.
  set_level_lem :
      (l a b other : Logger H Settings) (level : ℤ) (cells : Levels)
      → CopyOf l a
      → CopyOf l b
      → (other.level == l.level) ≡ false
      → (level_of b (set_level level a cells) ≡ some level)
        × (level_of other (set_level level a cells) ≡ level_of other cells)
  unfolding set_level level_of
  set_level_lem l a b other level cells la lb apart =
      let same = CopyOf-level la in
      let same' = CopyOf-level lb in
      (
        ground (arith, same, same', lookup-insert b.level a.level level cells),
        ground (arith, same, apart, lookup-insert other.level a.level level cells),
      )
