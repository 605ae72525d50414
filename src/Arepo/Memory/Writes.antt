-- ===== src/Arepo/Memory/Writes.antt =====
-- arepo/inmemory.repository.go: the methods of `MemoryRepository` that write one entity.
use arrower.Base.{◌==◌, Eq, if◌then◌else◌, is_some, get_or, none, some}
use arrower.Base.Dict.{lookup, insert, erase}
use arrower.Arepo.Errors.{
  creating, updating, deleting, saving, already_exists, empty_id, missing, err,
}
use arrower.Arepo.Memory.State.{Schema, Store, MemoryRepository, Outcome, commit}

module _ {E ID S : Type 0} ⦃eq : Eq ID⦄ ⦃sch : Schema E ID⦄ ⦃st : Store E ID S⦄ where
  unfoldable pub create : E → MemoryRepository E ID S → Outcome E ID S
  unfolding commit
  create e r =
      let id = sch.get_id e in
      if id == sch.zero_id
      then (err (empty_id creating), r)
      else if is_some (lookup id r.collection)
      then (err already_exists, r)
      else commit creating r (λ d. erase id d) (insert id e r.collection)

  unfoldable pub update : E → MemoryRepository E ID S → Outcome E ID S
  unfolding commit
  update e r =
      let id = sch.get_id e in
      if id == sch.zero_id then (err (empty_id updating), r) else elim (lookup id r.collection) [
        | none ↦ (err (missing updating), r)
        | some old ↦ commit updating r (λ d. insert id old d) (insert id e r.collection)
      ]

  -- Reading a missing key of a Go map gives the zero entity.
  unfoldable pub delete : E → MemoryRepository E ID S → Outcome E ID S
  unfolding commit
  delete e r =
      let id = sch.get_id e in
      let old = get_or sch.zero_entity (lookup id r.collection) in
      commit deleting r (λ d. insert id old d) (erase id r.collection)

  unfoldable pub save : E → MemoryRepository E ID S → Outcome E ID S
  unfolding commit
  save e r =
      let id = sch.get_id e in
      if id == sch.zero_id
      then (err (empty_id saving), r)
      else commit saving r (λ d. erase id d) (insert id e r.collection)
