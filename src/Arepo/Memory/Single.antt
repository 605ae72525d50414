-- ===== src/Arepo/Memory/Single.antt =====
-- arepo/inmemory.repository.go: what Create, Update, Save and Delete do to the collection, on every
-- branch, a failing store included.
use arrower.Base.{
  ◌≡◌, ◌≢◌, ◌↔◌, Option-cases, inl, inr, ◌==◌, ◌&&◌, Eq, if◌then◌else◌, is_some, true, none, some,
  String, arith,
}
use arrower.Base.Dict.{lookup, insert, erase, lookup-insert, lookup-erase}
use arrower.Arepo.Errors.{saving, not_stored, err, is_ok}
use arrower.Arepo.Memory.State.{Schema, Store, MemoryRepository}
use arrower.Arepo.Memory.Writes.{create, update, delete, save}

module _ {E ID S : Type 0} ⦃eq : Eq ID⦄ ⦃sch : Schema E ID⦄ ⦃st : Store E ID S⦄ where
  -- Create adds the entity under its ID if it succeeds, and otherwise, also where the store fails,
  -- every key holds what it held. It succeeds exactly when the ID is not the zero value, the key is
  -- free, and the store accepts the new collection.
  create_lem :
      (e : E) (r : MemoryRepository E ID S) (j : ID)
      → (lookup j (create e r).1.collection
          ≡ (if is_ok (create e r).0 && j == sch.get_id e then some e else lookup j r.collection))
        × ((is_ok (create e r).0 ≡ true) ↔ (
            (sch.get_id e ≢ sch.zero_id)
            × (lookup (sch.get_id e) r.collection ≡ none)
            × ((st.store r.state (insert (sch.get_id e) e r.collection)).0 ≡ none)))
  unfolding create
  create_lem e r j = (
    ground (
      arith,
      lookup-insert j (sch.get_id e) e r.collection,
      lookup-erase j (sch.get_id e) (insert (sch.get_id e) e r.collection),
    ),
    ground arith,
  )

  -- Update replaces the entity of its ID if it succeeds, and otherwise, also where the store fails,
  -- every key holds what it held. It succeeds exactly when the ID is not the zero value, the key is
  -- there, and the store accepts the new collection.
  update_lem :
      (e : E) (r : MemoryRepository E ID S) (j : ID)
      → (lookup j (update e r).1.collection
          ≡ (if is_ok (update e r).0 && j == sch.get_id e then some e else lookup j r.collection))
        × ((is_ok (update e r).0 ≡ true) ↔ (
            (sch.get_id e ≢ sch.zero_id)
            × (lookup (sch.get_id e) r.collection ≢ none)
            × ((st.store r.state (insert (sch.get_id e) e r.collection)).0 ≡ none)))
  unfolding update
  update_lem e r j = (
    elim (Option-cases (lookup (sch.get_id e) r.collection)) [
      | inl h ↦ ground arith
      | inr (old, h) ↦ ground (
        arith,
        lookup-insert j (sch.get_id e) e r.collection,
        lookup-insert j (sch.get_id e) old (insert (sch.get_id e) e r.collection),
      )
    ],
    ground arith,
  )

  -- Save writes the entity under its ID if it succeeds. If the ID is the zero value nothing changes;
  -- if the store fails the key is removed. No other key is touched.
  save_lem :
      (e : E) (r : MemoryRepository E ID S) (j : ID)
      → lookup j (save e r).1.collection ≡ (
          if sch.get_id e == sch.zero_id
          then lookup j r.collection
          else if j == sch.get_id e
          then (if is_ok (save e r).0 then some e else none)
          else lookup j r.collection)
  unfolding save
  save_lem e r j = ground (
    arith,
    lookup-insert j (sch.get_id e) e r.collection,
    lookup-erase j (sch.get_id e) (insert (sch.get_id e) e r.collection),
  )

  -- A Save that the store refuses loses the entity that was stored under that ID before.
  save_forgets :
      (e old : E) (r : MemoryRepository E ID S) (cause : String)
      → lookup (sch.get_id e) r.collection ≡ some old
      → (save e r).0 ≡ err (not_stored saving cause)
      → lookup (sch.get_id e) (save e r).1.collection ≡ none
  unfolding save
  save_forgets e old r cause h f =
      ground
        (arith, lookup-erase (sch.get_id e) (sch.get_id e) (insert (sch.get_id e) e r.collection))

  -- Delete always answers as the store does. It removes the key of the entity's ID; where the store
  -- fails the key holds what it held, but the zero entity if it held nothing. No other key is
  -- touched.
  delete_lem :
      (e : E) (r : MemoryRepository E ID S) (j : ID)
      → lookup j (delete e r).1.collection ≡ (
          if j == sch.get_id e
          then (if is_ok (delete e r).0
              then none
              else (if is_some (lookup j r.collection)
                  then lookup j r.collection
                  else some sch.zero_entity))
          else lookup j r.collection)
  unfolding delete
  delete_lem e r j = elim (Option-cases (lookup (sch.get_id e) r.collection)) [
    | inl h ↦ ground (
      arith,
      lookup-erase j (sch.get_id e) r.collection,
      lookup-insert j (sch.get_id e) sch.zero_entity (erase (sch.get_id e) r.collection),
    )
    | inr (old, h) ↦ ground (
      arith,
      lookup-erase j (sch.get_id e) r.collection,
      lookup-insert j (sch.get_id e) old (erase (sch.get_id e) r.collection),
    )
  ]
