-- ===== src/Auth/SessionStore.antt =====
-- contexts/auth/pg.session.store.go: `PGSessionStore`, which keeps the values of a session in Postgres
-- under the ID that the cookie has. The statements are those of
-- internal/interfaces/repository/query.sql.
use arrower.Base.{
  ◌==◌, nat_eq, bytes_eq, if◌then◌else◌, Bytes, Bool, true, false, Option, none, some, [],
}
use arrower.Base.Int.{ℤ, pos, negsuc}
use arrower.Base.Dict.{Dict, lookup, insert, erase}

-- A session of gorilla/sessions, as far as the store uses it; the maximal age counts in seconds.
pub record Session (V : Type 0) : Type 0 where
  pub id : Bytes
  pub values : V
  pub is_new : Bool
  pub max_age : ℤ

-- EncodeMulti and DecodeMulti of securecookie with the store's keys and the session's name, for an ID
-- and for values; `none` is an error.
pub record Codecs (V : Type 0) : Type 0 where
  pub encode_id : Bytes → Option Bytes
  pub decode_id : Bytes → Option Bytes
  pub encode_values : V → Option Bytes
  pub decode_values : Bytes → Option V

-- The table auth.session: the data and when it expires, by key; and whether the database answers.
pub record Database : Type 0 where
  pub rows : Dict Bytes (Bytes × ℤ)
  pub answers : Bool

-- FindSessionDataByKey: an error, no row, or its data, whether it has expired or not
unfoldable pub find_session_data_by_key : Bytes → Database → Option (Option Bytes)
unfolding lookup
find_session_data_by_key k db =
    if db.answers
    then some (elim (lookup k db.rows) [ none ↦ none | some row ↦ some row.0 ])
    else none

-- DeleteSessionByKey; `none` is an error
unfoldable pub delete_session_by_key : Bytes → Database → Option Database
unfolding erase
delete_session_by_key k db =
    if db.answers then some (record db { rows = erase k db.rows }) else none

-- UpsertSessionData
unfoldable pub upsert_session_data : Bytes → Bytes → ℤ → Database → Option Database
unfolding insert
upsert_session_data k text expires db =
    if db.answers then some (record db { rows = insert k (text, expires) db.rows }) else none

-- The cookie of the response: one that is cleared, or a value.
pub data Cookie : Type 0 where
  cleared : Cookie
  value : Bytes → Cookie

module _ {V : Type 0} (codecs : Codecs V) (no_values : V) (default_age : ℤ) where
  abbrev pub fresh : Bytes → Session V
  fresh id = record { id = id; values = no_values; is_new = true; max_age = default_age }

  -- New, once the row is looked up; the second part is the error, if there is one. Neither an error of
  -- the database nor a session that is not there is one.
  unfoldable pub loaded : Bytes → Option (Option Bytes) → Session V × Bool
  loaded id none = (fresh id, false)
  loaded id (some none) = (fresh id, false)
  loaded id (some (some text)) = elim (codecs.decode_values text) [
    | none ↦ (fresh id, true)
    | some values ↦ (record (fresh id) { values = values; is_new = false }, false)
  ]

  -- New, once the ID is read from the cookie
  unfoldable pub load : Bytes → Database → Session V × Bool
  unfolding find_session_data_by_key loaded
  load id db = loaded id (find_session_data_by_key id db)

  -- New, with the ID that newSessionID draws and the cookie of the request
  unfoldable pub new : Bytes → Option Bytes → Database → Session V × Bool
  unfolding load
  new drawn none db = (fresh drawn, false)
  new drawn (some cookie) db = elim (codecs.decode_id cookie) [
    | none ↦ (fresh drawn, true)
    | some id ↦ load id db
  ]

  -- PGSessionStore.save; `expires` is the time at which a session of this age expires.
  unfoldable pub store : (ℤ → ℤ) → Session V → Database → Option Database
  unfolding upsert_session_data
  store expires session db = elim (codecs.encode_values session.values) [
    | none ↦ none
    | some text ↦ upsert_session_data session.id text (expires session.max_age) db
  ]

  -- The end of Save.
  unfoldable pub store_and_answer : (ℤ → ℤ) → Session V → Database → Option Cookie × Database
  unfolding store
  store_and_answer expires session db = elim (store expires session db) [
    | none ↦ (none, db)
    | some db' ↦ elim (codecs.encode_id session.id) [
      | none ↦ (none, db')
      | some cookie ↦ (some (value cookie), db')
    ]
  ]

  -- Save, by the session's maximal age: only an age below 0 deletes the session.
  unfoldable pub save_aged : ℤ → (ℤ → ℤ) → Bytes → Session V → Database → Option Cookie × Database
  unfolding delete_session_by_key store_and_answer
  save_aged (negsuc _) expires drawn session db = elim (delete_session_by_key session.id db) [
    | none ↦ (none, db)
    | some db' ↦ (some cleared, db')
  ]
  save_aged (pos _) expires drawn session db =
      store_and_answer expires (if session.id == [] then record session { id = drawn } else session)
        db

  -- Save: the cookie of the response, or `none` for an error
  unfoldable pub save : (ℤ → ℤ) → Bytes → Session V → Database → Option Cookie × Database
  unfolding save_aged
  save expires drawn session db = save_aged session.max_age expires drawn session db
