-- ===== src/Alog/Logger.antt =====
-- alog/arrower-logger.go: `tracedHandler` and `arrowerHandler`. The spans and the attributes that
-- they add are left out.
use arrower.Base.{
  ℕ, ◌==◌, nat_eq, bytes_eq, if◌then◌else◌, Bytes, Bool, true, false, Option, none, some, List, [],
  ◌∷◌, map,
}
use arrower.Base.Int.{ℤ}
use arrower.Base.Dict.{Dict, lookup, insert}
use arrower.Auth.Middleware.{CtxUser, as_string, as_user_id}

-- A handler of its own is at `handlers`; the level is a cell that copies of the logger share.
pub record Logger (H Settings : Type 0) : Type 0 where
  pub handlers : List H
  pub level : ℕ
  pub settings : Option Settings

abbrev pub Levels : Type 0
Levels = Dict ℕ ℤ

unfoldable pub contains : Bytes → List Bytes → Bool
contains u [] = false
contains u (v ∷ vs) = let rest = contains u vs in if u == v then true else rest

-- errors.Join: the errors that are not nil
unfoldable pub join : {Er : Type 0} → Option Er → List Er → List Er
join none es = es
join (some e) es = e ∷ es

-- What is outside: a setting of a key, if there is no error, with the list of users or the number
-- that it converts to; `none` where the conversion panics. `at_least` is the order of levels.
pub record LogSettings (Settings : Type 0) : Type 0 where
  pub users_setting : Settings → Option (Option (List Bytes))
  pub level_setting : Settings → Option (Option ℤ)

module _ {Settings : Type 0} (from : LogSettings Settings) (at_least : ℤ → ℤ → Bool) where
  -- The part of Enabled that reads the level from the settings; `none` is a panic.
  unfoldable pub enabled_by_level : Settings → ℤ → ℤ → Option Bool
  enabled_by_level settings current level = elim (from.level_setting settings) [
    | some none ↦ none
    | some (some minimum) ↦ some (at_least level minimum)
    | none ↦ some (at_least level current)
  ]

module _ {H Settings : Type 0} (from : LogSettings Settings) (at_least : ℤ → ℤ → Bool) where
  -- tracedHandler.Enabled, with the level that the logger's cell has.
  unfoldable pub enabled : Logger H Settings → ℤ → Option CtxUser → ℤ → Option Bool
  unfolding enabled_by_level contains
  enabled l current user level = elim l.settings [
    | none ↦ some (at_least level current)
    | some settings ↦ elim user [
      | some (as_string u) ↦ elim (from.users_setting settings) [
        | some none ↦ none
        | some (some users) ↦
            let rest = enabled_by_level from at_least settings current level in
            if contains u users then some true else rest
        | none ↦ enabled_by_level from at_least settings current level
      ]
      | some (as_user_id _) ↦ enabled_by_level from at_least settings current level
      | none ↦ enabled_by_level from at_least settings current level
    ]
  ]

-- arrowerHandler.Enabled
unfoldable pub early_enabled :
    {H Settings : Type 0} → (ℤ → ℤ → Bool) → Logger H Settings → ℤ → ℤ → Bool
early_enabled at_least l current level = elim l.settings [
  | some _ ↦ true
  | none ↦ at_least level current
]

-- `emit` is the Handle of a handler, over all that handlers write to.
module _ {H Rec Er S : Type 0} (emit : H → Rec → S → Option Er × S) where
  -- tracedHandler.Handle: all handlers are called, also after one has failed.
  unfoldable pub handle : List H → Rec → S → List Er × S
  unfolding join
  handle [] rec s = ([], s)
  handle (h ∷ hs) rec s =
      let (e, s1) = emit h rec s in let (es, s2) = handle hs rec s1 in (join e es, s2)

-- What a call of the logger does with a record: slog asks Enabled, and then calls
-- arrowerHandler.Handle, which asks again; `none` is a panic.
module _ {H Settings Rec Er S : Type 0} (from : LogSettings Settings) (at_least : ℤ → ℤ → Bool)
    (emit : H → Rec → S → Option Er × S) where
  unfoldable pub log : Logger H Settings → ℤ → Option CtxUser → ℤ → Rec → S → Option (List Er × S)
  unfolding early_enabled enabled handle
  log l current user level rec s =
      if early_enabled at_least l current level
      then elim (enabled from at_least l current user level) [
        | none ↦ none
        | some true ↦ some (handle emit l.handlers rec s)
        | some false ↦ some ([], s)
      ]
      else some ([], s)

module _ {H Settings : Type 0} where
  -- WithAttrs and WithGroup, where `with` is that of the handlers.
  unfoldable pub with_all : (H → H) → Logger H Settings → Logger H Settings
  with_all with_h l = record l { handlers = map with_h l.handlers }

  unfoldable pub set_level : ℤ → Logger H Settings → Levels → Levels
  set_level level l cells = insert l.level level cells

  -- Level
  unfoldable pub level_of : Logger H Settings → Levels → Option ℤ
  level_of l cells = lookup l.level cells

  -- A logger and its copies.
  pub data CopyOf (l : Logger H Settings) : Logger H Settings → Type 0 where
    itself : CopyOf l l
    copied : {m : Logger H Settings} → (with_h : H → H) → CopyOf l m → CopyOf l (with_all with_h m)
