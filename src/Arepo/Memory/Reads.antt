-- ===== src/Arepo/Memory/Reads.antt =====
-- arepo/inmemory.repository.go: the methods of `MemoryRepository` that only read.
use arrower.Base.{
  ℕ, ◌==◌, Eq, nat_eq, if◌then◌else◌, is_some, length, Bool, true, false, none, some, List, [], ◌∷◌,
  ◌++◌,
}
use arrower.Base.Dict.{lookup, values}
use arrower.Arepo.Errors.{not_found, some_not_found, Result, ok, err}
use arrower.Arepo.Memory.State.{Schema, MemoryRepository}

module _ {E ID S : Type 0} where
  unfoldable pub count : MemoryRepository E ID S → ℕ
  count r = length r.collection

  unfoldable pub all : MemoryRepository E ID S → List E
  all r = values r.collection

module _ {E ID S : Type 0} ⦃eq : Eq ID⦄ where
  unfoldable pub exist : ID → MemoryRepository E ID S → Bool
  exist id r = is_some (lookup id r.collection)

  unfoldable pub all_found : List ID → MemoryRepository E ID S → Bool
  all_found [] r = true
  all_found (id ∷ ids) r =
      let rest = all_found ids r in if is_some (lookup id r.collection) then rest else false

  unfoldable pub exist_all : List ID → MemoryRepository E ID S → Bool
  unfolding all_found
  exist_all [] r = false
  exist_all ids r = all_found ids r

  unfoldable pub find_by_id : ID → MemoryRepository E ID S → Result E
  find_by_id id r = elim (lookup id r.collection) [ some e ↦ ok e | none ↦ err not_found ]

module _ {E ID : Type 0} ⦃eq : Eq ID⦄ ⦃sch : Schema E ID⦄ where
  -- The inner loop of `AllByIDs`: the entity once for each of the ids that is its own.
  unfoldable pub matches_of : E → List ID → List E
  matches_of v [] = []
  matches_of v (id ∷ ids) =
      let rest = matches_of v ids in if sch.get_id v == id then v ∷ rest else rest

  unfoldable pub select : List E → List ID → List E
  unfolding matches_of
  select [] ids = []
  select (v ∷ vs) ids = matches_of v ids ++ select vs ids

module _ {E ID S : Type 0} ⦃eq : Eq ID⦄ ⦃sch : Schema E ID⦄ where
  unfoldable pub all_by_ids : List ID → MemoryRepository E ID S → Result (List E)
  unfolding select
  all_by_ids ids r =
      let result = select (values r.collection) ids in
      if length result == length ids then ok result else err some_not_found
