-- ===== src/Tests/Sessions.antt =====
-- A session of a superuser, a logger with a setting, and the theorems on middlewares and logging.
use arrower.Base.{
  ℕ, ◌+◌, ◌≡◌, ◌↔◌, refl, bytes_eq, nat_eq, ◌==◌, String, Bytes, Bool, true, false, Option, none,
  some, List, [], ◌∷◌, ◌++◌, inr, arith, if◌then◌else◌, leb,
}
use arrower.Base.Append.{joined}
use arrower.Base.Int.{ℤ, pos}
use arrower.Auth.Middleware.{
  as_string, as_user_id, bool_value, user_id_value, SessionValues, UserContext, current_user_id,
  next, ensure_user_is_superuser,
}
use arrower.Auth.Guards.{ensure_user_is_superuser_lem}
use arrower.Alog.Logger.{Logger, LogSettings, enabled, handle, log, with_all}
use arrower.Alog.Batches.{Batches, receive, expire, Reach, here, receive_step, expire_step}
use arrower.Alog.Saved.{IsKept, Reach-IsKept}

abbrev ada : Bytes
ada = b'a' ∷ []

abbrev ada_session : SessionValues
ada_session = record {
  logged_in_value = some (bool_value true);
  user_value = some (user_id_value ada);
  superuser_value = some (bool_value true);
  as_other_value = none;
  original_value = none;
  flashes = [];
}

abbrev nobody : UserContext
nobody = record { logged_in = none; user = none; superuser = none; as_other = none }

abbrev ada_context : UserContext
ada_context = record {
  logged_in = some true;
  user = some (as_user_id ada);
  superuser = some true;
  as_other = none;
}

abbrev ada_as_user : UserContext
ada_as_user = record {
  logged_in = some true;
  user = some (as_user_id ada);
  superuser = none;
  as_other = none;
}

ensure_user_is_superuser_lem_example :
    (ensure_user_is_superuser {Er = String} (inr ada_session) nobody ≡ next ada_context) ↔ (
      (ada_session.logged_in_value ≡ some (bool_value true))
      × (ada_session.superuser_value ≡ some (bool_value true))
      × (ada_session.user_value ≡ some (user_id_value (current_user_id ada_context)))
      × (ada_context ≡ record nobody {
        logged_in = some true;
        user = some (as_user_id (current_user_id ada_context));
        superuser = some true;
      }))
ensure_user_is_superuser_lem_example = ensure_user_is_superuser_lem ada_session nobody ada_context

-- Settings with a list of users and a level.
abbrev from_pair : LogSettings (List Bytes × ℤ)
from_pair = record { users_setting = λ s. some (some s.0); level_setting = λ s. some (some s.1) }

abbrev at_least : ℤ → ℤ → Bool
at_least a b = elim a [ pos m ↦ elim b [ pos n ↦ leb n m | _ ↦ true ] | _ ↦ false ]

-- Handlers that write their number, and the first of which fails.
abbrev emit : ℕ → ℕ → List (ℕ × ℕ) → Option String × List (ℕ × ℕ)
emit h rec s = (if h == 1 then some "broken" else none, s ++ ((h, rec) ∷ []))

abbrev logger : Logger ℕ (List Bytes × ℤ)
logger = record { handlers = 1 ∷ 2 ∷ []; level = 0; settings = some (ada ∷ [], pos 8) }

abbrev quiet_logger : Logger ℕ (List Bytes × ℤ)
quiet_logger = record { handlers = 1 ∷ 2 ∷ []; level = 7; settings = none }

test_log :
    log from_pair at_least emit logger (pos 0) (some (as_string ada)) (pos 4) 6 []
    ≡ some ("broken" ∷ [], (1, 6) ∷ (2, 6) ∷ [])
unfolding log enabled handle nat_eq bytes_eq
test_log = refl

abbrev copy : Logger ℕ (List Bytes × ℤ)
copy = with_all (λ h. h + 10) logger

abbrev none_yet : Batches ℕ
none_yet = record { batch = []; received = []; submitted = [] }

none_yet-IsKept : IsKept 2 none_yet
unfolding joined
none_yet-IsKept = (refl, ground arith, tt)

Reach-IsKept_example : IsKept 2 (expire (receive 2 5 (receive 2 4 (receive 2 3 none_yet))))
Reach-IsKept_example =
    Reach-IsKept 2 none_yet (expire (receive 2 5 (receive 2 4 (receive 2 3 none_yet))))
      none_yet-IsKept
      (Reach.next
        (Reach.next (Reach.next (Reach.next here (receive_step 3)) (receive_step 4))
          (receive_step 5))
        expire_step)
