-- ===== src/Arepo/Memory/Batch.antt =====
-- arepo/inmemory.repository.go: the methods of `MemoryRepository` that write many entities.
use arrower.Base.{
  ◌==◌, Eq, if◌then◌else◌, get_or, Bool, true, false, Option, none, some, List, [], ◌∷◌, ◌++◌,
}
use arrower.Base.Dict.{Dict, lookup, insert, erase, values}
use arrower.Arepo.Errors.{updating, deleting, saving, some_already_exist, empty_id, missing, err}
use arrower.Arepo.Memory.State.{Schema, Store, MemoryRepository, Outcome, commit}
use arrower.Arepo.Memory.Reads.{exist}

module _ {E : Type 0} (ID : Type 0) ⦃eq : Eq ID⦄ ⦃sch : Schema E ID⦄ where
  -- for _, e := range entities { if repo.getID(e) == *new(ID) { … } }
  unfoldable pub some_id_empty : List E → Bool
  some_id_empty [] = false
  some_id_empty (e ∷ es) =
      let rest = some_id_empty es in if sch.get_id e == sch.zero_id then true else rest

module _ {E ID : Type 0} ⦃eq : Eq ID⦄ ⦃sch : Schema E ID⦄ where
  -- for _, e := range entities { repo.Data[repo.getID(e)] = e }
  unfoldable pub put_all : List E → Dict ID E → Dict ID E
  put_all [] d = d
  put_all (e ∷ es) d = put_all es (insert (sch.get_id e) e d)

  -- The loop of `SaveAll`, which reads the old entity, then writes the new one.
  unfoldable pub replace_all : List E → List E → Dict ID E → List E × Dict ID E
  replace_all [] olds d = (olds, d)
  replace_all (e ∷ es) olds d =
      replace_all es (olds ++ (get_or sch.zero_entity (lookup (sch.get_id e) d) ∷ []))
        (insert (sch.get_id e) e d)

  -- The first loop of `UpdateAll`: the old entities, or `none` at the first that is missing.
  unfoldable pub olds_of : List E → Dict ID E → Option (List E)
  olds_of [] d = some []
  olds_of (e ∷ es) d =
      let rest = olds_of es d in
      elim (lookup (sch.get_id e) d) [
        | none ↦ none
        | some old ↦ elim rest [ none ↦ none | some olds ↦ some (old ∷ olds) ]
      ]

  -- The loop of `DeleteByIDs`.
  unfoldable pub remove_all : List ID → List E → Dict ID E → List E × Dict ID E
  remove_all [] olds d = (olds, d)
  remove_all (id ∷ ids) olds d =
      remove_all ids (olds ++ (get_or sch.zero_entity (lookup id d) ∷ [])) (erase id d)

module _ {E ID S : Type 0} ⦃eq : Eq ID⦄ ⦃sch : Schema E ID⦄ where
  -- The loop of `AddAll`.
  unfoldable pub some_exist : List E → MemoryRepository E ID S → Bool
  unfolding exist
  some_exist [] r = false
  some_exist (e ∷ es) r =
      let rest = some_exist es r in if exist (sch.get_id e) r then true else rest

module _ {E ID S : Type 0} ⦃eq : Eq ID⦄ ⦃sch : Schema E ID⦄ ⦃st : Store E ID S⦄ where
  unfoldable pub save_all : List E → MemoryRepository E ID S → Outcome E ID S
  unfolding commit some_id_empty put_all replace_all
  save_all es r =
      if some_id_empty ID es
      then (err (empty_id saving), r)
      else let (olds, written) = replace_all es [] r.collection in
        commit saving r (λ d. put_all olds d) written

  unfoldable pub update_all : List E → MemoryRepository E ID S → Outcome E ID S
  unfolding commit some_id_empty put_all olds_of
  update_all es r =
      if some_id_empty ID es then (err (empty_id updating), r) else elim (olds_of es r.collection) [
        | none ↦ (err (missing updating), r)
        | some olds ↦ commit updating r (λ d. put_all olds d) (put_all es r.collection)
      ]

  unfoldable pub add_all : List E → MemoryRepository E ID S → Outcome E ID S
  unfolding some_exist save_all
  add_all es r = if some_exist es r then (err some_already_exist, r) else save_all es r

  unfoldable pub delete_by_ids : List ID → MemoryRepository E ID S → Outcome E ID S
  unfolding commit put_all remove_all
  delete_by_ids ids r =
      let (olds, written) = remove_all ids [] r.collection in
      commit deleting r (λ d. put_all olds d) written

  unfoldable pub delete_by_id : ID → MemoryRepository E ID S → Outcome E ID S
  unfolding delete_by_ids
  delete_by_id id r = delete_by_ids (id ∷ []) r

  -- `oldEntities` is a copy of the map; the rollback ranges over its values.
  unfoldable pub delete_all : MemoryRepository E ID S → Outcome E ID S
  unfolding commit put_all
  delete_all r = commit deleting r (λ d. put_all (values r.collection) d) []
