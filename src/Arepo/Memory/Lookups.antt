-- ===== src/Arepo/Memory/Lookups.antt =====
-- arepo/inmemory.repository.go: AllByIDs and ExistAll on a valid collection.
use arrower.Base.{
  ℕ, ◌+◌, ◌≤◌, ◌≡◌, refl, ◌==◌, Eq, nat_eq, if◌then◌else◌, contains, ◌&&◌, is_some, length,
  length-append, none, some, List, [], ◌∷◌, arith,
}
use arrower.Base.Dict.{Dict, lookup, values, NodupKeys}
use arrower.Arepo.Errors.{is_ok, entities_of}
use arrower.Arepo.Memory.State.{Schema, MemoryRepository}
use arrower.Arepo.Memory.Reads.{all_found, matches_of, select, all_by_ids}
use arrower.Arepo.Memory.Valid.{IsValid, last_of, last_of-append}

module _ {E ID : Type 0} ⦃eq : Eq ID⦄ where
  -- How many of the ids are keys.
  found_count : List ID → Dict ID E → ℕ
  found_count [] d = 0
  found_count (id ∷ ids) d = (if is_some (lookup id d) then 1 else 0) + found_count ids d

  found_count-le-length : (ids : List ID) (d : Dict ID E) → found_count ids d ≤ length ids
  unfolding found_count
  found_count-le-length [] d = omega arith
  found_count-le-length (id ∷ ids) d = ground (arith, found_count-le-length ids d)

found_count-nil :
    (E : Type 0) {ID : Type 0} ⦃eq : Eq ID⦄ (ids : List ID) → found_count {E = E} ids [] ≡ 0
unfolding found_count lookup
found_count-nil E [] = refl
found_count-nil E (id ∷ ids) = ground (arith, found_count-nil E ids)

module _ {E ID : Type 0} ⦃eq : Eq ID⦄ ⦃sch : Schema E ID⦄ where
  last_of-matches_of :
      (j : ID) (v : E) (ids : List ID)
      → last_of j (matches_of v ids)
        ≡ (if j == sch.get_id v then (if contains ids j then some v else none) else none)
  unfolding last_of matches_of
  last_of-matches_of j v [] = ground arith
  last_of-matches_of j v (id ∷ ids) = ground (arith, last_of-matches_of j v ids)

  found_count-cons :
      (ids : List ID) (k : ID) (v : E) (d : Dict ID E)
      → lookup k d ≡ none
      → sch.get_id v ≡ k
      → found_count ids ((k, v) ∷ d) ≡ length (matches_of v ids) + found_count ids d
  unfolding found_count matches_of lookup
  found_count-cons [] k v d fresh own = omega arith
  found_count-cons (id ∷ ids) k v d fresh own = ground (arith, found_count-cons ids k v d fresh own)

  length-select :
      (ids : List ID) (d : Dict ID E)
      → ((id : ID) (e : E) → lookup id d ≡ some e → sch.get_id e ≡ id)
      → NodupKeys d
      → length (select (values d) ids) ≡ found_count ids d
  unfolding select values lookup
  length-select ids [] own _ = ground (arith, found_count-nil E ids)
  length-select ids ((k, v) ∷ d) own (fresh, u) = ground (
    arith,
    length-append (matches_of v ids) (select (values d) ids),
    length-select ids d (λ id o h. own id o (ground arith)) u,
    found_count-cons ids k v d fresh (own k v (ground arith)),
  )

  last_of-select :
      (j : ID) (ids : List ID) (d : Dict ID E)
      → ((id : ID) (e : E) → lookup id d ≡ some e → sch.get_id e ≡ id)
      → NodupKeys d
      → last_of j (select (values d) ids) ≡ (if contains ids j then lookup j d else none)
  unfolding select values lookup last_of
  last_of-select j ids [] own _ = ground arith
  last_of-select j ids ((k, v) ∷ d) own (fresh, u) = ground (
    arith,
    last_of-append j (matches_of v ids) (select (values d) ids),
    last_of-matches_of j v ids,
    last_of-select j ids d (λ id o h. own id o (ground arith)) u,
    own k v (ground arith),
  )

module _ {E ID S : Type 0} ⦃eq : Eq ID⦄ ⦃sch : Schema E ID⦄ where
  all_found-found_count :
      (ids : List ID) (r : MemoryRepository E ID S)
      → all_found ids r ≡ (found_count ids r.collection == length ids)
  unfolding all_found found_count nat_eq
  all_found-found_count [] r = refl
  all_found-found_count (id ∷ ids) r =
      ground (arith, all_found-found_count ids r, found_count-le-length ids r.collection)

  -- On a valid collection AllByIDs succeeds exactly when every one of the ids is there, and then it
  -- returns the entities under those ids and no other.
  all_by_ids_lem :
      (ids : List ID) (r : MemoryRepository E ID S) (j : ID)
      → IsValid r.collection
      → (is_ok (all_by_ids ids r) ≡ all_found ids r)
        × (last_of j (entities_of (all_by_ids ids r))
            ≡ (if all_found ids r && contains ids j then lookup j r.collection else none))
  unfolding all_by_ids last_of
  all_by_ids_lem ids r j v =
      let found = all_found-found_count ids r in
      let size = length-select ids r.collection v.own v.nodup in
      (
        ground (arith, found, size),
        ground (arith, found, size, last_of-select j ids r.collection v.own v.nodup),
      )
