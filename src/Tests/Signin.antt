-- ===== src/Tests/Signin.antt =====
-- A browser that keeps its session, and the theorems on the controllers.
use arrower.Base.{
  ℕ, nat_eq, ◌≡◌, refl, bytes_eq, ◌==◌, String, Bytes, Bool, true, false, Option, none, some, [],
  ◌∷◌, ◌++◌, is_some, arith, ◌⊎◌, inl, inr, if◌then◌else◌,
}
use arrower.Auth.Middleware.{
  acting_as, left_user, bool_value, user_id_value, SessionValues, UserContext, is_logged_in,
  redirect_to_login, redirect_home, ensure_user_is_logged_in, ensure_user_is_superuser,
}
use arrower.Auth.Controllers.{MaxAge, logout}
use arrower.Auth.Impersonation.{user_id_of, admin_login_as_user, admin_leave_user}
use arrower.Auth.SessionStore
use arrower.Auth.SessionStore.{
  Session, Codecs, Database, Cookie, load, loaded, find_session_data_by_key, delete_session_by_key,
}
use arrower.Base.Int.{ℤ, pos, negsuc}
use arrower.Base.Dict.{lookup, erase, lookup-erase}
use arrower.Auth.SignedIn.{no_values, logout_lem, admin_leave_user_lem}

abbrev root : Bytes
root = b'r' ∷ []

abbrev bob : Bytes
bob = b'b' ∷ []

abbrev eve : Bytes
eve = b'e' ∷ []

abbrev no_session : SessionValues
no_session = record {
  logged_in_value = none;
  user_value = none;
  superuser_value = none;
  as_other_value = none;
  original_value = none;
  flashes = [];
}

abbrev session_of : Bytes → Bool → SessionValues
session_of u is_super = record no_session {
  logged_in_value = some (bool_value true);
  user_value = some (user_id_value u);
  superuser_value = some (bool_value is_super);
}

abbrev stranger : UserContext
stranger = record { logged_in = none; user = none; superuser = none; as_other = none }

abbrev insider : UserContext
insider = record stranger { logged_in = some true }

abbrev keep_with_age : SessionValues → MaxAge → SessionValues → Option String × SessionValues
keep_with_age sess age s = (none, sess)

abbrev keep : SessionValues → SessionValues → Option String × SessionValues
keep sess s = (none, sess)

abbrev no_cookie : SessionValues → Option String × SessionValues
no_cookie s = (none, s)

-- The only password is 7.
abbrev check_password : ℕ → SessionValues → (String ⊎ (Bytes × Bool)) × SessionValues
check_password n s = (if n == 7 then inr (root, true) else inl "wrong", s)

-- The store of the sessions in Postgres, where the values are written as 1 if somebody is logged in;
-- an error is answered with "refused".
abbrev counted : Codecs SessionValues
counted = record {
  encode_id = λ id. some id;
  decode_id = λ id. some id;
  encode_values = λ v. some (if is_some v.logged_in_value then b'1' ∷ [] else []);
  decode_values = λ text. some (if text == [] then no_values else session_of root true);
}

abbrev age_of : MaxAge → ℤ
age_of MaxAge.browser_session = pos 0
age_of (MaxAge.seconds n) = pos n
age_of MaxAge.deleted_now = negsuc 0

abbrev session_with : SessionValues → MaxAge → Session SessionValues
session_with sess age = record { id = bob; values = sess; is_new = false; max_age = age_of age }

abbrev refusal : Option Cookie → Option String
refusal none = some "refused"
refusal (some c) = none

abbrev pg_save : SessionValues → MaxAge → Database → Option String × Database
pg_save sess age db =
    let (cookie, db') =
      SessionStore.save counted no_values (pos 60) (λ a. a) eve (session_with sess age) db in
    (refusal cookie, db')

abbrev pg_stored : Database → SessionValues
pg_stored db = (load counted no_values (pos 60) bob db).0.values

abbrev signed_in : Database
signed_in = record { rows = (bob, (b'1' ∷ [], pos 60)) ∷ []; answers = true }

pg_deletes :
    (sess : SessionValues) (db : Database)
    → (pg_save sess MaxAge.deleted_now db).0 ≡ none
    → pg_stored (pg_save sess MaxAge.deleted_now db).1 ≡ no_values
unfolding SessionStore.save SessionStore.save_aged delete_session_by_key load
    find_session_data_by_key loaded
pg_deletes sess db saved = ground (arith, saved, lookup-erase bob bob db.rows)

test_signed_in : (pg_stored signed_in).user_value ≡ some (user_id_value root)
unfolding load find_session_data_by_key loaded lookup bytes_eq nat_eq
test_signed_in = refl

logout_lem_example :
    let after : Database = record signed_in { rows = [] } in
    (ensure_user_is_logged_in {Er = String} (inr (pg_stored after)) stranger ≡ redirect_to_login)
    × (ensure_user_is_superuser {Er = String} (inr (pg_stored after)) stranger ≡ redirect_home)
unfolding logout is_logged_in SessionStore.save SessionStore.save_aged delete_session_by_key erase
    bytes_eq nat_eq
logout_lem_example =
    logout_lem pg_save pg_stored (λ sess db saved. inl (pg_deletes sess db saved)) insider stranger
      (session_of root true) signed_in (record signed_in { rows = [] }) refl refl

abbrev as_bob : SessionValues
as_bob = record (session_of bob true) {
  as_other_value = some (bool_value true);
  original_value = some (user_id_value root);
  flashes = acting_as eve ∷ [];
}

abbrev back_again : SessionValues
back_again = record (session_of root true) { flashes = acting_as eve ∷ left_user ∷ [] }

-- The user with the ID b has the login e.
admin_leave_user_lem_example :
    (as_bob.user_value ≡ some (user_id_value bob))
    × (back_again ≡ record (session_of root true) {
      flashes = ([] ++ (acting_as eve ∷ [])) ++ (left_user ∷ []);
    })
unfolding admin_login_as_user admin_leave_user user_id_of
admin_leave_user_lem_example =
    admin_leave_user_lem keep (λ s. s) (λ sess s h. refl) root bob eve (session_of root true)
      (session_of root true) as_bob back_again refl refl refl refl refl
