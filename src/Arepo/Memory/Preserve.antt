-- ===== src/Arepo/Memory/Preserve.antt =====
-- Every method of `MemoryRepository` keeps the invariant of its collection.
use arrower.Base.{
  ◌≡◌, ◌≢◌, ◌⊎◌, sym, ◌==◌, is_some, Eq, if_intro, option_intro, Option-cases, Bool-cases, true,
  false, none, some, inl, inr, List, [], arith, get_or,
}
use arrower.Base.Dict.{Dict, lookup, insert, erase, values, lookup-nil}
use arrower.Arepo.Errors.{is_ok, creating, updating, deleting, saving}
use arrower.Arepo.Memory.State.{Schema, Store, MemoryRepository, Outcome}
use arrower.Arepo.Memory.Writes
use arrower.Arepo.Memory.Batch
use arrower.Arepo.Memory.Batch.{some_id_empty, put_all, replace_all, remove_all, olds_of}
use arrower.Arepo.Memory.Valid.{
  IsValid, Removable, insert-IsValid, erase-IsValid, replace_all-eq-put_all,
}
use arrower.Arepo.Memory.Many.{update_all_rollback, delete_by_ids_rollback, delete_all_rollback}
use arrower.Arepo.Memory.Invariant.{
  Command, create, update, delete, save, save_all, update_all, add_all, delete_by_ids, delete_all,
  apply, Recovers, put_all-NodupKeys, put_all-IsValid, remove_all-IsValid, same_view-IsValid,
  commit-IsValid,
}

module _ {E ID : Type 0} ⦃eq : Eq ID⦄ ⦃sch : Schema E ID⦄ where
  ne_zero : (e : E) → (sch.get_id e == sch.zero_id) ≡ false → sch.get_id e ≢ sch.zero_id
  ne_zero e h z = ground arith

  -- Putting an entity back under the key that it was stored under.
  put_back-IsValid :
      (id : ID) (old : E) (c : Dict ID E) {d : Dict ID E}
      → IsValid c
      → lookup id c ≡ some old
      → IsValid d
      → IsValid (insert id old d)
  put_back-IsValid id old c {d} v found w =
      rw (sym (v.own id old found))
        (insert-IsValid old (λ z. ground (arith, z, v.own id old found, v.none_at_zero)) w)

module _ {E ID S : Type 0} ⦃eq : Eq ID⦄ ⦃sch : Schema E ID⦄ ⦃st : Store E ID S⦄ where
  -- The invariant of the collection that an outcome has.
  abbrev HasValid : Outcome E ID S → Type 0
  HasValid o = IsValid o.1.collection

  create-IsValid :
      (e : E) (r : MemoryRepository E ID S) → IsValid r.collection → HasValid (Writes.create e r)
  unfolding Writes.create
  create-IsValid e r v =
      if_intro HasValid (sch.get_id e == sch.zero_id) (λ _. v)
        λ nz.
          if_intro HasValid (is_some (lookup (sch.get_id e) r.collection)) (λ _. v)
            λ _.
              let w = insert-IsValid e (ne_zero e nz) v in
              commit-IsValid creating r (λ d. erase (sch.get_id e) d) _ w
                (λ _. erase-IsValid (sch.get_id e) w)

  save-IsValid :
      (e : E) (r : MemoryRepository E ID S) → IsValid r.collection → HasValid (Writes.save e r)
  unfolding Writes.save
  save-IsValid e r v =
      if_intro HasValid (sch.get_id e == sch.zero_id) (λ _. v)
        λ nz.
          let w = insert-IsValid e (ne_zero e nz) v in
          commit-IsValid saving r (λ d. erase (sch.get_id e) d) _ w
            (λ _. erase-IsValid (sch.get_id e) w)

  update-IsValid :
      (e : E) (r : MemoryRepository E ID S) → IsValid r.collection → HasValid (Writes.update e r)
  unfolding Writes.update
  update-IsValid e r v =
      if_intro HasValid (sch.get_id e == sch.zero_id) (λ _. v)
        λ nz.
          option_intro HasValid (lookup (sch.get_id e) r.collection) (λ _. v)
            λ old found.
              let w = insert-IsValid e (ne_zero e nz) v in
              commit-IsValid updating r (λ d. insert (sch.get_id e) old d) _ w
                (λ _. put_back-IsValid (sch.get_id e) old r.collection v found w)

  -- The rollback of a Delete is only right where the key was there.
  delete-IsValid :
      (e : E) (r : MemoryRepository E ID S)
      → (is_ok (Writes.delete e r).0 ≡ true) ⊎ (lookup (sch.get_id e) r.collection ≢ none)
      → IsValid r.collection
      → HasValid (Writes.delete e r)
  unfolding Writes.delete
  delete-IsValid e r h v =
      commit-IsValid deleting r
        (λ d. insert (sch.get_id e) (get_or sch.zero_entity (lookup (sch.get_id e) r.collection)) d)
        _ (erase-IsValid (sch.get_id e) v)
        λ failed. elim h [
          | inl fine ↦ absurd (ground (arith, fine, failed))
          | inr there ↦ elim (Option-cases (lookup (sch.get_id e) r.collection)) [
            | inl absent ↦ absurd (there absent)
            | inr (old, found) ↦ rw found (
                put_back-IsValid (sch.get_id e) old r.collection v found
                  (erase-IsValid (sch.get_id e) v))
          ]
        ]

  save_all-IsValid :
      (es : List E) (r : MemoryRepository E ID S)
      → is_ok (Batch.save_all es r).0 ≡ true
      → IsValid r.collection
      → HasValid (Batch.save_all es r)
  unfolding Batch.save_all
  save_all-IsValid es r h v =
      if_intro HasValid (some_id_empty ID es) (λ _. v)
        λ filled.
          commit-IsValid saving r (λ d. put_all (replace_all es [] r.collection).0 d) _
            (rw replace_all-eq-put_all (put_all-IsValid es r.collection filled v))
            (λ failed. absurd (ground (arith, h, failed, filled)))

  add_all-IsValid :
      (es : List E) (r : MemoryRepository E ID S)
      → is_ok (Batch.add_all es r).0 ≡ true
      → IsValid r.collection
      → HasValid (Batch.add_all es r)
  unfolding Batch.add_all
  add_all-IsValid es r h v = elim (Bool-cases (Batch.some_exist es r)) [
    | inl taken ↦ rw (taken, Batch.add_all) v
    | inr free ↦ rw (free, Batch.add_all) (save_all-IsValid es r (rw (free, Batch.add_all) at h) v)
  ]

  -- What rolls back to the view that it had keeps the invariant.
  update_all-IsValid :
      (es : List E) (r : MemoryRepository E ID S)
      → IsValid r.collection
      → HasValid (Batch.update_all es r)
  unfolding Batch.update_all
  update_all-IsValid es r v =
      if_intro HasValid (some_id_empty ID es) (λ _. v)
        λ filled.
          option_intro HasValid (olds_of es r.collection) (λ _. v)
            λ olds found.
              commit-IsValid updating r (λ d. put_all olds d) _
                (put_all-IsValid es r.collection filled v)
                λ failed.
                  same_view-IsValid v
                    (put_all-NodupKeys olds _ (put_all-NodupKeys es r.collection v.nodup))
                    (λ j. update_all_rollback es olds r.collection j v found)

  delete_by_ids-IsValid :
      (ids : List ID) (r : MemoryRepository E ID S)
      → (is_ok (Batch.delete_by_ids ids r).0 ≡ true) ⊎ Removable ids r.collection
      → IsValid r.collection
      → HasValid (Batch.delete_by_ids ids r)
  unfolding Batch.delete_by_ids
  delete_by_ids-IsValid ids r h v =
      let w = remove_all-IsValid ids [] r.collection v in
      commit-IsValid deleting r (λ d. put_all (remove_all ids [] r.collection).0 d) _ w
        λ failed. elim h [
          | inl fine ↦ absurd (ground (arith, fine, failed))
          | inr rem ↦
              same_view-IsValid v (put_all-NodupKeys (remove_all ids [] r.collection).0 _ w.nodup)
                (λ j. delete_by_ids_rollback ids r.collection j v rem)
        ]

  delete_all-IsValid :
      (r : MemoryRepository E ID S) → IsValid r.collection → HasValid (Batch.delete_all r)
  unfolding Batch.delete_all
  delete_all-IsValid r v =
      commit-IsValid deleting r (λ d. put_all (values r.collection) d) []
        (record {
          own = λ j e h. absurd (cc (h, lookup-nil {V = E} j));
          none_at_zero = lookup-nil _;
          nodup = tt;
        })
        λ failed.
          same_view-IsValid v (put_all-NodupKeys (values r.collection) [] tt)
            (λ j. delete_all_rollback r.collection j v)

  -- Every method that succeeds keeps a valid collection valid. One that fails does too, if it is
  -- Create, Update, Save, UpdateAll or DeleteAll, or if it is Delete or DeleteByIDs and the keys were
  -- there, each when its turn came.
  pub apply-IsValid :
      (c : Command E ID) (r : MemoryRepository E ID S)
      → IsValid r.collection
      → (is_ok (apply c r).0 ≡ true) ⊎ Recovers c r.collection
      → IsValid (apply c r).1.collection
  unfolding apply
  apply-IsValid (create e) r v h = create-IsValid e r v
  apply-IsValid (update e) r v h = update-IsValid e r v
  apply-IsValid (delete e) r v h = delete-IsValid e r h v
  apply-IsValid (save e) r v h = save-IsValid e r v
  apply-IsValid (save_all es) r v (inl h) = save_all-IsValid es r h v
  apply-IsValid (save_all es) r v (inr h) = absurd h
  apply-IsValid (update_all es) r v h = update_all-IsValid es r v
  apply-IsValid (add_all es) r v (inl h) = add_all-IsValid es r h v
  apply-IsValid (add_all es) r v (inr h) = absurd h
  apply-IsValid (delete_by_ids ids) r v h = delete_by_ids-IsValid ids r h v
  apply-IsValid delete_all r v h = delete_all-IsValid r v
