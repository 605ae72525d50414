-- ===== src/Tests/Pages.antt =====
-- Three users, listed page by page.
use arrower.Base.{◌≡◌, refl, nat_eq, bytes_eq, ◌==◌, Bytes, [], ◌∷◌, arith}
use arrower.Base.Count.{count_of}
use arrower.Base.Dict.{values}
use arrower.Arepo.Memory.Reads.{all}
use arrower.Auth.User.{User}
use arrower.Auth.Repository.{Users}
use arrower.Auth.Pages.{list_users, sort_by_login, insert_by_login, bytes_lt}
use arrower.Auth.Listing.{IsSorted, take_some, list_users_lem}

abbrev user : Bytes → User
user login = record {
  id = login;
  login = login;
  password_hash = [];
  registered_at = 5;
  name = record { first_name = []; last_name = []; display_name = [] };
  birthday = record { day = 0; month = 0; year = 0 };
  verified = 7;
  blocked = 0;
  superuser = 0;
  sessions = [];
}

abbrev a_login : Bytes
a_login = b'a' ∷ []

abbrev b_login : Bytes
b_login = b'b' ∷ []

abbrev c_login : Bytes
c_login = b'c' ∷ []

abbrev three_users : Users
three_users = record {
  users = record {
    collection = (c_login, user c_login) ∷ (a_login, user a_login) ∷ (b_login, user b_login) ∷ [];
    current_int_id = [];
    state = tt;
  };
  tokens = [];
}

list_users_lem_example :
    IsSorted (user a_login ∷ user b_login ∷ user c_login ∷ [])
    × (count_of (λ u. u.login == b_login) (user a_login ∷ user b_login ∷ user c_login ∷ [])
        ≡ count_of (λ u. u.login == b_login) (all three_users.users))
    × (list_users (record { offset = []; limit = 1 }) three_users
        ≡ take_some 1 (user a_login ∷ user b_login ∷ user c_login ∷ []))
    × (list_users (record { offset = a_login; limit = 1 }) three_users
        ≡ take_some 1 (user b_login ∷ user c_login ∷ []))
unfolding sort_by_login insert_by_login bytes_lt all values
list_users_lem_example =
    list_users_lem (λ u. u.login == b_login) 1 three_users [] (user b_login ∷ user c_login ∷ [])
      (user a_login) refl (omega arith) (omega arith) (omega arith)
      ((λ e. cc), ((λ e. cc), ((λ e. cc), tt))) (λ e. cc) tt
      ((λ e. ground (arith, e)), ((λ e. ground (arith, e)), tt))
