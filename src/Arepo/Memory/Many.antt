-- ===== src/Arepo/Memory/Many.antt =====
-- arepo/inmemory.repository.go: what the methods on many entities do to the collection.
use arrower.Base.{
  ◌≡◌, ◌≢◌, ◌&&◌, Eq, if◌then◌else◌, contains, true, false, none, some, List, [], String, arith,
}
use arrower.Base.Dict.{Dict, lookup, values}
use arrower.Arepo.Errors.{err, saving, not_stored, is_ok}
use arrower.Arepo.Memory.State.{Schema, Store, MemoryRepository, commit}
use arrower.Arepo.Memory.Batch.{
  some_id_empty, put_all, olds_of, remove_all, replace_all, save_all, delete_by_ids, delete_all,
}
use arrower.Arepo.Memory.Valid.{
  or_else, IsValid, Removable, last_of, lookup-put_all, replace_all-eq-put_all, lookup-remove_all,
  last_of-olds_of, olds_of-found, last_of-remove_all, last_of-values,
}

module _ {E ID : Type 0} ⦃eq : Eq ID⦄ ⦃sch : Schema E ID⦄ where
  -- The rollbacks that give back what each key held.
  pub update_all_rollback :
      (es olds : List E) (d : Dict ID E) (j : ID)
      → IsValid d
      → olds_of es d ≡ some olds
      → lookup j (put_all olds (put_all es d)) ≡ lookup j d
  update_all_rollback es olds d j v found = ground (
    arith,
    lookup-put_all j es d,
    lookup-put_all j olds (put_all es d),
    last_of-olds_of j es olds d v found,
    olds_of-found j es olds d found,
  )

  pub delete_by_ids_rollback :
      (ids : List ID) (d : Dict ID E) (j : ID)
      → IsValid d
      → Removable ids d
      → lookup j (put_all (remove_all ids [] d).0 (remove_all ids [] d).1) ≡ lookup j d
  unfolding last_of
  delete_by_ids_rollback ids d j v rem = ground (
    arith,
    lookup-remove_all j ids [] d,
    lookup-put_all j (remove_all ids [] d).0 (remove_all ids [] d).1,
    last_of-remove_all j ids [] d v rem,
  )

  pub delete_all_rollback :
      (d : Dict ID E) (j : ID) → IsValid d → lookup j (put_all (values d) []) ≡ lookup j d
  unfolding lookup
  delete_all_rollback d j v = ground (arith, lookup-put_all j (values d) [], last_of-values j d v)

module _ {E ID S : Type 0} ⦃eq : Eq ID⦄ ⦃sch : Schema E ID⦄ ⦃st : Store E ID S⦄ where
  -- After a SaveAll that succeeds each key holds the last entity of the batch with that ID, and what
  -- it held before if there is none; and no entity of the batch has an empty ID.
  save_all_lem :
      (es : List E) (r : MemoryRepository E ID S) (j : ID)
      → is_ok (save_all es r).0 ≡ true
      → (lookup j (save_all es r).1.collection ≡ or_else (last_of j es) (lookup j r.collection))
        × (some_id_empty ID es ≡ false)
  unfolding commit save_all
  save_all_lem es r j h = (
    ground (arith, replace_all-eq-put_all es [] r.collection, lookup-put_all j es r.collection),
    ground arith,
  )

  -- A SaveAll that the store refuses leaves a key for every entity of the batch in the collection.
  save_all_keeps :
      (es : List E) (r : MemoryRepository E ID S) (j : ID) (cause : String)
      → (save_all es r).0 ≡ err (not_stored saving cause)
      → last_of j es ≢ none
      → lookup j (save_all es r).1.collection ≢ none
  unfolding commit save_all
  save_all_keeps es r j cause f h = ground (
    arith,
    replace_all-eq-put_all es [] r.collection,
    lookup-put_all j es r.collection,
    lookup-put_all j (replace_all es [] r.collection).0 (replace_all es [] r.collection).1,
  )

  -- A DeleteByIDs that succeeds removes the keys that it was given and no other.
  pub delete_by_ids_removes :
      (ids : List ID) (r : MemoryRepository E ID S) (j : ID)
      → is_ok (delete_by_ids ids r).0 ≡ true
      → lookup j (delete_by_ids ids r).1.collection
        ≡ (if contains ids j then none else lookup j r.collection)
  unfolding commit delete_by_ids
  delete_by_ids_removes ids r j h = ground (arith, lookup-remove_all j ids [] r.collection)

  -- DeleteByIDs of distinct keys of a valid collection is all or nothing: if it succeeds it removes
  -- those keys and no other, and if the store refuses it every key holds what it held.
  delete_by_ids_lem :
      (ids : List ID) (r : MemoryRepository E ID S) (j : ID)
      → IsValid r.collection
      → Removable ids r.collection
      → lookup j (delete_by_ids ids r).1.collection
        ≡ (if is_ok (delete_by_ids ids r).0 && contains ids j then none else lookup j r.collection)
  unfolding commit delete_by_ids
  delete_by_ids_lem ids r j v rem = ground (
    arith,
    lookup-remove_all j ids [] r.collection,
    delete_by_ids_rollback ids r.collection j v rem,
  )

  -- A DeleteAll that succeeds leaves no entity; one that the store refuses leaves a valid collection
  -- as it was.
  delete_all_lem :
      (r : MemoryRepository E ID S) (j : ID)
      → IsValid r.collection
      → lookup j (delete_all r).1.collection
        ≡ (if is_ok (delete_all r).0 then none else lookup j r.collection)
  unfolding commit delete_all lookup
  delete_all_lem r j v = ground (arith, delete_all_rollback r.collection j v)
