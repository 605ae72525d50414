-- ===== src/Auth/Repository.antt =====
-- contexts/auth/internal/interfaces/repository/user.inmemory.repository.go: the users in memory,
-- an extension of the repository of arepo/, and the verification tokens of
-- domain/verify-user.business.go.
use arrower.Base.{
  if◌then◌else◌, bytes_eq, nat_eq, ◌==◌, Bytes, Bool, true, false, Option, none, some, List, [],
  ◌∷◌,
}
use arrower.Base.Dict.{Dict, insert, values}
use arrower.Arepo.Errors.{ok, err, is_ok}
use arrower.Arepo.Memory.State.{Schema, Store, MemoryRepository, noop_store}
use arrower.Arepo.Memory.Reads.{all, find_by_id}
use arrower.Arepo.Memory.Writes
use arrower.Auth.User.{User, Time}

-- The zero User.
abbrev no_user : User
no_user = record {
  id = [];
  login = [];
  password_hash = [];
  registered_at = 0;
  name = record { first_name = []; last_name = []; display_name = [] };
  birthday = record { day = 0; month = 0; year = 0 };
  verified = 0;
  blocked = 0;
  superuser = 0;
  sessions = [];
}

instance abbrev pub user_schema : Schema User Bytes
user_schema = record { get_id = λ u. u.id; zero_id = []; zero_entity = no_user }

instance abbrev pub user_store : Store User Bytes (Unit {0})
user_store = noop_store

pub record VerificationToken : Type 0 where
  pub valid_until : Time
  pub user_id : Bytes
  pub token : Bytes

-- The embedded repository, and the map `tokens`.
pub record Users : Type 0 where
  pub users : MemoryRepository User Bytes (Unit {0})
  pub tokens : Dict Bytes VerificationToken

unfoldable pub first_with_login : Bytes → List User → Option User
first_with_login login [] = none
first_with_login login (u ∷ us) =
    let rest = first_with_login login us in if u.login == login then some u else rest

unfoldable pub find_by_login : Bytes → Users → Option User
unfolding first_with_login
find_by_login login s = first_with_login login (all s.users)

-- The first result. The second is ErrNotFound exactly where it is false.
unfoldable pub exists_by_login : Bytes → Users → Bool
unfolding find_by_login
exists_by_login login s = elim (find_by_login login s) [ some _ ↦ true | none ↦ false ]

unfoldable pub find : Bytes → Users → Option User
unfolding find_by_id
find id s = elim (find_by_id id s.users) [ ok u ↦ some u | err _ ↦ none ]

-- The embedded Save, and whether it succeeds.
unfoldable pub save : User → Users → Bool × Users
unfolding Writes.save
save u s =
    let (result, users') = Writes.save u s.users in (is_ok result, record s { users = users' })

-- The text of a token is never empty, so the test on it always passes.
unfoldable pub create_verification_token : VerificationToken → Users → Users
create_verification_token t s = record s { tokens = insert t.token t s.tokens }

unfoldable pub first_with_token : Bytes → List VerificationToken → Option VerificationToken
first_with_token id [] = none
first_with_token id (t ∷ ts) =
    let rest = first_with_token id ts in if t.token == id then some t else rest

unfoldable pub verification_token_by_token : Bytes → Users → Option VerificationToken
unfolding first_with_token
verification_token_by_token id s = first_with_token id (values s.tokens)
