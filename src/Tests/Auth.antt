-- ===== src/Tests/Auth.antt =====
-- Users, the services of the domain and the use cases on small inputs, and their theorems at inputs
-- that meet the hypotheses.
use arrower.Base.{
  ◌&&◌, ◌||◌, leb, if◌then◌else◌, ◌≤◌, ◌≡◌, ◌↔◌, refl, bytes_eq, nat_eq, ◌==◌, Bytes, true, false,
  Option, none, some, [], ◌∷◌, arith,
}
use arrower.Base.Dict.{lookup, values}
use arrower.Arepo.Memory.Reads
use arrower.Auth.User
use arrower.Arepo.Memory.Valid.{IsValid}
use arrower.Setting.Value
use arrower.Setting.Value.{Value}
use arrower.Setting.Convert.{bool_of}
use arrower.Setting.Strconv.{format_bool, parse_bool}
use arrower.Auth.User.{
  User, is_true, is_verified, is_blocked, is_weak_password, is_weak_password_lem, block, unblock,
  matches, between, is_special,
}
use arrower.Auth.Repository.{find, Users, VerificationToken, user_schema, exists_by_login}
use arrower.Auth.Services.{
  Platform, authenticate, register_new_user, verify, new_verification_token,
}
use arrower.Auth.Access.{
  IsKeyed, is_on, authenticate_lem, register_new_user_lem, verify-new_verification_token,
}
use arrower.Auth.UseCases.{Outside, Client, Handled, login_user}

abbrev on : Option Value
on = some (record { v = format_bool true; kind = Value.bool })

-- bcrypt replaced by the identity, and an address is any text.
abbrev plain_platform : Platform
plain_platform = record {
  new_id = b'9' ∷ [];
  new_token = b't' ∷ [];
  hash = λ pw. some pw;
  matches_hash = λ h pw. h == pw;
  valid_address = λ a. true;
}

abbrev strong : Bytes
strong = b'0' ∷ b'S' ∷ b'e' ∷ b'c' ∷ b'r' ∷ b'e' ∷ b't' ∷ b'!' ∷ []

abbrev ann : User
ann = record {
  id = b'1' ∷ [];
  login = b'a' ∷ [];
  password_hash = strong;
  registered_at = 5;
  name = record { first_name = []; last_name = []; display_name = [] };
  birthday = record { day = 0; month = 0; year = 0 };
  verified = 7;
  blocked = 0;
  superuser = 0;
  sessions = [];
}

abbrev some_users : Users
some_users = record {
  users = record { collection = (b'1' ∷ [], ann) ∷ []; current_int_id = []; state = tt };
  tokens = [];
}

some_users-IsValid : IsValid some_users.users.collection
unfolding lookup bytes_eq
some_users-IsValid = record {
  own = λ id u h. ground arith;
  none_at_zero = refl;
  nodup = (refl, tt);
}

authenticate_lem_example : (authenticate plain_platform on ann strong ≡ some true) ↔ (
    (is_on on ≡ true)
    × (is_verified ann ≡ true)
    × (is_blocked ann ≡ false)
    × (plain_platform.matches_hash strong strong ≡ true))
authenticate_lem_example = authenticate_lem plain_platform on ann strong

abbrev bob : User
bob = record {
  id = b'9' ∷ [];
  login = b'b' ∷ [];
  password_hash = strong;
  registered_at = 8;
  name = record { first_name = []; last_name = []; display_name = [] };
  birthday = record { day = 0; month = 0; year = 0 };
  verified = 0;
  blocked = 0;
  superuser = 0;
  sessions = [];
}

register_new_user_lem_example :
    (is_on on ≡ true)
    × (exists_by_login (b'b' ∷ []) some_users ≡ false)
    × (is_weak_password strong ≡ false)
    × (plain_platform.valid_address (b'b' ∷ []) ≡ true)
    × (bob.login ≡ b'b' ∷ [])
    × (plain_platform.hash strong ≡ some bob.password_hash)
    × (is_verified bob ≡ false)
    × (is_blocked bob ≡ false)
    × (is_true bob.superuser ≡ false)
unfolding register_new_user bool_of format_bool parse_bool bytes_eq nat_eq exists_by_login Reads.all
    values is_weak_password User.set_false matches
register_new_user_lem_example =
    register_new_user_lem plain_platform on 8 (b'b' ∷ []) strong some_users bob refl

abbrev ann_token : VerificationToken
ann_token = record { valid_until = 20; user_id = b'1' ∷ []; token = b't' ∷ [] }

abbrev with_token : Users
with_token = record some_users { tokens = (b't' ∷ [], ann_token) ∷ [] }

no_tokens-IsKeyed : IsKeyed some_users.tokens
unfolding lookup
no_tokens-IsKeyed = record { own = λ k t h. absurd (ground (arith, h)); nodup = tt }

verify-new_verification_token_example :
    let (failure, ann', s') =
      verify 12 ann plain_platform.new_token
        (new_verification_token plain_platform 10 5 ann some_users).1 in
    ((failure ≡ none) ↔ ((ann.id ≡ ann.id) × (12 ≤ 15)))
    × (is_verified ann' ≡ (ann.id == ann.id && leb 12 15 || is_verified ann))
    × (find ann.id s' ≡ (
        if ann.id == ann.id && leb 12 15 && ann.id == ann.id
        then some ann'
        else find ann.id some_users))
verify-new_verification_token_example =
    verify-new_verification_token plain_platform 10 12 5 ann ann some_users ann.id no_tokens-IsKeyed
      (omega arith) (λ e. cc)

-- No address can be resolved, and every job is taken.
abbrev no_resolver : Outside
no_resolver = record { resolve_ip = λ ip. none; accepts_job = λ job. true }

abbrev browser : Client
browser = record { user_agent = []; ip = []; session_key = b'k' ∷ [] }

abbrev ann_login : Handled User
ann_login = login_user no_resolver plain_platform on 9 (b'a' ∷ []) strong true browser some_users []
