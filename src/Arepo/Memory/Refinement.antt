-- ===== src/Arepo/Memory/Refinement.antt =====
-- What a client of a `MemoryRepository` may rely on: a finite map, and what each command does to it.
use arrower.Base.{
  ◌≡◌, refl, ◌∙◌, ◌==◌, ◌&&◌, Eq, if◌then◌else◌, contains, is_some, Bool, true, false, Option, none,
  some, List, [], ◌∷◌, arith, ap,
}
use mathlib.Core.Path.{fun_ext}
use arrower.Base.Dict.{Dict, lookup, insert, erase, lookup-insert, lookup-erase, lookup-nil}
use arrower.Arepo.Memory.State.{Schema, Store, MemoryRepository, commit}
use arrower.Arepo.Memory.Batch.{
  some_id_empty, some_exist, olds_of, put_all, replace_all, remove_all,
}
use arrower.Arepo.Memory.Batch
use arrower.Arepo.Memory.Writes
use arrower.Arepo.Memory.Valid.{
  or_else, last_of, lookup-put_all, replace_all-eq-put_all, lookup-remove_all,
}
use arrower.Arepo.Memory.Invariant.{
  Command, create, update, delete, save, save_all, update_all, add_all, delete_by_ids, delete_all,
  apply,
}

module _ {E ID : Type 0} ⦃eq : Eq ID⦄ ⦃sch : Schema E ID⦄ where
  -- Every entity of the list, or none, has an entity under its ID.
  unfoldable pub all_known : List E → (ID → Option E) → Bool
  all_known [] m = true
  all_known (e ∷ es) m = is_some (m (sch.get_id e)) && all_known es m

  unfoldable pub some_known : List E → (ID → Option E) → Bool
  some_known [] m = false
  some_known (e ∷ es) m =
      let rest = some_known es m in if is_some (m (sch.get_id e)) then true else rest

  -- What the command does to the map, with no regard to how the repository does it.
  unfoldable pub spec : Command E ID → (ID → Option E) → ID → Option E
  spec (create e) m j =
      if sch.get_id e == sch.zero_id
      then m j
      else if is_some (m (sch.get_id e))
      then m j
      else if j == sch.get_id e
      then some e
      else m j
  spec (update e) m j =
      if sch.get_id e == sch.zero_id
      then m j
      else if is_some (m (sch.get_id e))
      then (if j == sch.get_id e then some e else m j)
      else m j
  spec (delete e) m j = if j == sch.get_id e then none else m j
  spec (save e) m j =
      if sch.get_id e == sch.zero_id then m j else if j == sch.get_id e then some e else m j
  spec (save_all es) m j = if some_id_empty ID es then m j else or_else (last_of j es) (m j)
  spec (update_all es) m j =
      if some_id_empty ID es
      then m j
      else if all_known es m
      then or_else (last_of j es) (m j)
      else m j
  spec (add_all es) m j =
      if some_known es m
      then m j
      else if some_id_empty ID es
      then m j
      else or_else (last_of j es) (m j)
  spec (delete_by_ids ids) m j = if contains ids j then none else m j
  spec delete_all m j = none

  unfoldable pub spec_run : List (Command E ID) → (ID → Option E) → ID → Option E
  spec_run [] m = m
  spec_run (c ∷ cs) m = spec_run cs (spec c m)

  olds_of-all_known :
      (es : List E) (d : Dict ID E) → is_some (olds_of es d) ≡ all_known es (λ j. lookup j d)
  unfolding olds_of all_known
  olds_of-all_known [] d = refl
  olds_of-all_known (e ∷ es) d = ground (arith, olds_of-all_known es d)

module _ {E ID S : Type 0} ⦃eq : Eq ID⦄ ⦃sch : Schema E ID⦄ where
  abbrev pub view : MemoryRepository E ID S → ID → Option E
  view r j = lookup j r.collection

  some_exist-some_known :
      (es : List E) (r : MemoryRepository E ID S) → some_exist es r ≡ some_known es (view r)
  unfolding some_exist some_known
  some_exist-some_known [] r = refl
  some_exist-some_known (e ∷ es) r = ground (arith, some_exist-some_known es r)

module _ {E ID S : Type 0} ⦃eq : Eq ID⦄ ⦃sch : Schema E ID⦄ ⦃st : Store E ID S⦄ where
  -- The commands one after another, whatever each of them answers.
  unfoldable pub run : List (Command E ID) → MemoryRepository E ID S → MemoryRepository E ID S
  run [] r = r
  run (c ∷ cs) r = run cs (apply c r).1

-- Over a store that accepts every write, as `noopStore` does.
module _ {E ID S : Type 0} ⦃eq : Eq ID⦄ ⦃sch : Schema E ID⦄ ⦃st : Store E ID S⦄
    (accepts : (s : S) (d : Dict ID E) → (st.store s d).0 ≡ none) where
  -- One command.
  apply-spec :
      (c : Command E ID) (r : MemoryRepository E ID S) (j : ID)
      → lookup j (apply c r).1.collection ≡ spec c (view r) j
  unfolding apply spec commit Writes.create Writes.update Writes.delete Writes.save Batch.save_all
      Batch.update_all Batch.add_all Batch.delete_by_ids Batch.delete_all
  apply-spec (create e) r j = ground (
    arith,
    accepts r.state (insert (sch.get_id e) e r.collection),
    lookup-insert j (sch.get_id e) e r.collection,
  )
  apply-spec (update e) r j = ground (
    arith,
    accepts r.state (insert (sch.get_id e) e r.collection),
    lookup-insert j (sch.get_id e) e r.collection,
  )
  apply-spec (delete e) r j = ground (
    arith,
    accepts r.state (erase (sch.get_id e) r.collection),
    lookup-erase j (sch.get_id e) r.collection,
  )
  apply-spec (save e) r j = ground (
    arith,
    accepts r.state (insert (sch.get_id e) e r.collection),
    lookup-insert j (sch.get_id e) e r.collection,
  )
  apply-spec (save_all es) r j =
      rw replace_all-eq-put_all (
        ground (arith, accepts r.state (put_all es r.collection), lookup-put_all j es r.collection))
  apply-spec (update_all es) r j = ground (
    arith,
    accepts r.state (put_all es r.collection),
    lookup-put_all j es r.collection,
    olds_of-all_known es r.collection,
  )
  apply-spec (add_all es) r j = rw replace_all-eq-put_all (
      ground (
        arith,
        accepts r.state (put_all es r.collection),
        lookup-put_all j es r.collection,
        some_exist-some_known es r,
      ))
  apply-spec (delete_by_ids ids) r j = ground (
    arith,
    accepts r.state (remove_all ids [] r.collection).1,
    lookup-remove_all j ids [] r.collection,
  )
  apply-spec delete_all r j = ground (arith, accepts r.state [], lookup-nil {V = E} j)

  -- With a store that accepts every write, a sequence of commands changes what is stored under each
  -- key as the specification says.
  pub lookup-run :
      (cs : List (Command E ID)) (r : MemoryRepository E ID S) (j : ID)
      → lookup j (run cs r).collection ≡ spec_run cs (view r) j
  unfolding run spec_run
  lookup-run [] r j = refl
  lookup-run (c ∷ cs) r j =
      lookup-run cs (apply c r).1 j ∙ ap (λ m. spec_run cs m j) (fun_ext (apply-spec c r))
