-- ===== src/Setting/Memory.antt =====
-- setting/inmemory.settings.go: `InMemorySettings`, over the repository of arepo/. Its entities have
-- no ID field (`WithIDField("")`), so the methods that it adds are given the key.
use arrower.Base.{
  ◌≡◌, refl, if◌then◌else◌, bytes_eq, ◌==◌, contains, is_some, Bytes, Bool, true, false, ◌||◌, not,
  Option, none, some, List, [], ◌∷◌, arith, Option-cases, inl, inr,
}
use arrower.Base.Dict.{Dict, lookup, insert, NodupKeys, lookup-insert, lookup-nil}
use arrower.Arepo.Errors.{ok, err}
use arrower.Arepo.Memory.State.{Schema, Store, MemoryRepository, noop_store}
use arrower.Arepo.Memory.Reads.{exist, find_by_id}
use arrower.Arepo.Memory.Batch.{delete_by_id}
use arrower.Arepo.Memory.Valid.{or_else}
use arrower.Arepo.Memory.Many.{delete_by_ids_removes}
use arrower.Setting.Value.{Value, Runtime, Any, new_value, string}

abbrev pub Key : Type 0
Key = Bytes

-- `getID` finds no field with the empty name, and gives the zero ID.
instance abbrev pub value_schema : Schema Value Key
value_schema = record {
  get_id = λ _. [];
  zero_id = [];
  zero_entity = record { v = []; kind = string };
}

instance abbrev pub no_store : Store Value Key (Unit {0})
no_store = noop_store

abbrev pub InMemorySettings : Type 0
InMemorySettings = MemoryRepository Value Key (Unit {0})

-- inMemoryRepository.Save, which never fails
unfoldable pub put : Key → Value → InMemorySettings → InMemorySettings
put key x s = record s { collection = insert key x s.collection }

unfoldable pub setting : Key → InMemorySettings → Option Value
unfolding find_by_id
setting key s = elim (find_by_id key s) [ ok x ↦ some x | err _ ↦ none ]

-- The loop of `Settings`: the map that is returned, and `hasNotFound`.
unfoldable pub collect : List Key → InMemorySettings → Dict Key Value → Bool → Dict Key Value × Bool
unfolding find_by_id
collect [] s found missing = (found, missing)
collect (key ∷ keys) s found missing =
    let o = find_by_id key s in
    collect keys s (elim o [ ok x ↦ insert key x found | err _ ↦ found ])
      (elim o [ ok _ ↦ missing | err _ ↦ true ])

unfoldable pub settings : List Key → InMemorySettings → Dict Key Value × Bool
unfolding collect
settings keys s = collect keys s [] false

unfoldable pub delete : Key → InMemorySettings → InMemorySettings
unfolding delete_by_id
delete key s = (delete_by_id key s).1

module _ {Time Location Float Object : Type 0} (rt : Runtime Time Location Float Object) where
  -- A Value is stored as it is; of any other value NewValue makes one. `none` is a panic.
  unfoldable pub save :
      Key → Option Value → Any Time Float Object → InMemorySettings → Option InMemorySettings
  unfolding put
  save key (some x) given s = some (put key x s)
  save key none given s = elim (new_value rt given) [ none ↦ none | some x ↦ some (put key x s) ]

  -- `Register`, with the entries of the given map in the order of the range over it.
  unfoldable pub register :
      Dict Key (Any Time Float Object) → InMemorySettings → Option InMemorySettings
  unfolding save exist
  register [] s = some s
  register ((key, given) ∷ rest) s =
      let kept = register rest s in
      elim (exist key s) [
        | true ↦ kept
        | false ↦ elim (save key none given s) [ none ↦ none | some s' ↦ register rest s' ]
      ]

  -- The value that Register would store for the key.
  unfoldable pub default_of : Key → Dict Key (Any Time Float Object) → Option Value
  default_of key d = elim (lookup key d) [ none ↦ none | some given ↦ new_value rt given ]

  -- After a Register that does not panic, of defaults with distinct keys, a key holds what it held
  -- before; a key that held nothing holds its default, if one is given.
  register_lem :
      (d : Dict Key (Any Time Float Object)) (s s' : InMemorySettings) (key : Key)
      → NodupKeys d
      → register d s ≡ some s'
      → lookup key s'.collection ≡ or_else (lookup key s.collection) (default_of key d)
  unfolding register default_of lookup
  register_lem [] s s' key _ h = ground arith
  register_lem ((k, given) ∷ rest) s s' key (fresh, u) h =
      elim (Option-cases (lookup k s.collection)) [
        | inr (old, there) ↦ ground (arith, there, register_lem rest s s' key u)
        | inl absent ↦ elim (Option-cases (new_value rt given)) [
          | inl panics ↦ absurd (ground (arith, absent, panics, h))
          | inr (x, made) ↦ ground (
            arith,
            absent,
            made,
            register_lem rest (put k x s) s' key u,
            lookup-insert key k x s.collection,
          )
        ]
      ]

or_else-same : (o : Option Value) → or_else o o ≡ o
or_else-same none = refl
or_else-same (some x) = refl

collect-view :
    (keys : List Key) (s : InMemorySettings) (found : Dict Key Value) (missing : Bool) (key : Key)
    → lookup key (collect keys s found missing).0 ≡ (
        if contains keys key
        then or_else (lookup key s.collection) (lookup key found)
        else lookup key found)
unfolding collect
collect-view [] s found missing key = refl
collect-view (k ∷ keys) s found missing key = elim (Option-cases (lookup k s.collection)) [
  | inl absent ↦ rw (absent, collect) (ground (arith, absent, collect-view keys s found true key))
  | inr (x, there) ↦
      rw (there, collect)
        (ground (
          arith,
          there,
          collect-view keys s (insert k x found) missing key,
          lookup-insert key k x found,
        ))
]

-- Whether one of the keys is not there.
abbrev pub some_missing : List Key → InMemorySettings → Bool
some_missing [] s = false
some_missing (k ∷ keys) s = not (is_some (lookup k s.collection)) || some_missing keys s

collect-missing :
    (keys : List Key) (s : InMemorySettings) (found : Dict Key Value) (missing : Bool)
    → (collect keys s found missing).1 ≡ (missing || some_missing keys s)
unfolding collect
collect-missing [] s found missing = ground arith
collect-missing (k ∷ keys) s found missing = elim (Option-cases (lookup k s.collection)) [
  | inl absent ↦ rw absent (ground (arith, absent, collect-missing keys s found true))
  | inr (x, there) ↦
      rw there (ground (arith, there, collect-missing keys s (insert k x found) missing))
]

-- Settings returns, for each of the keys and no other, the value that the store has for it, and
-- reports ErrNotFound exactly when one of the keys is not there.
settings_lem :
    (keys : List Key) (s : InMemorySettings) (key : Key)
    → (lookup key (settings keys s).0
        ≡ (if contains keys key then lookup key s.collection else none))
      × ((settings keys s).1 ≡ some_missing keys s)
unfolding settings
settings_lem keys s key = (
  ground (arith, collect-view keys s [] false key, lookup-nil {V = Value} key),
  collect-missing keys s [] false,
)

-- Saving, then reading: a key that was saved last has its value, until it is deleted.
setting_lem :
    (key j : Key) (x : Value) (s : InMemorySettings)
    → (setting j (put key x s) ≡ (if j == key then some x else setting j s))
      × (setting j (delete key s) ≡ (if j == key then none else setting j s))
unfolding setting put delete
setting_lem key j x s = (
  ground (arith, lookup-insert j key x s.collection),
  ground (arith, delete_by_ids_removes (key ∷ []) s j refl),
)
