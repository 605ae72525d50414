-- ===== src/Arepo/Memory/Invariant.antt =====
-- The methods of `MemoryRepository` as commands, and the invariant that they keep: every entity is
-- stored once, under its own ID, which is not the zero value.
use arrower.Base.{◌≡◌, ◌≢◌, Eq, false, Option-cases, none, inl, inr, List, [], ◌∷◌, arith}
use arrower.Base.Dict.{Dict, lookup, insert, erase, NodupKeys, insert-NodupKeys}
use arrower.Arepo.Errors.{Operation, is_ok}
use arrower.Arepo.Memory.State.{Schema, Store, MemoryRepository, Outcome, commit}
use arrower.Arepo.Memory.Writes
use arrower.Arepo.Memory.Batch
use arrower.Arepo.Memory.Batch.{some_id_empty, put_all, replace_all, remove_all, olds_of}
use arrower.Arepo.Memory.Valid.{IsValid, Removable, insert-IsValid, erase-IsValid}

-- `Add` is `Create`, `CreateAll` is `AddAll`, `Clear` is `DeleteAll`.
pub data Command (E ID : Type 0) : Type 0 where
  create update delete save : E → Command E ID
  save_all update_all add_all : List E → Command E ID
  delete_by_ids : List ID → Command E ID
  delete_all : Command E ID

module _ {E ID S : Type 0} ⦃eq : Eq ID⦄ ⦃sch : Schema E ID⦄ ⦃st : Store E ID S⦄ where
  unfoldable pub apply : Command E ID → MemoryRepository E ID S → Outcome E ID S
  apply (create e) r = Writes.create e r
  apply (update e) r = Writes.update e r
  apply (delete e) r = Writes.delete e r
  apply (save e) r = Writes.save e r
  apply (save_all es) r = Batch.save_all es r
  apply (update_all es) r = Batch.update_all es r
  apply (add_all es) r = Batch.add_all es r
  apply (delete_by_ids ids) r = Batch.delete_by_ids ids r
  apply delete_all r = Batch.delete_all r

module _ {E ID : Type 0} ⦃eq : Eq ID⦄ ⦃sch : Schema E ID⦄ where
  -- The commands whose rollback leaves a valid collection valid.
  abbrev pub Recovers : Command E ID → Dict ID E → Type 0
  Recovers (delete e) d = lookup (sch.get_id e) d ≢ none
  Recovers (delete_by_ids ids) d = Removable ids d
  Recovers (save_all es) d = ⊥
  Recovers (add_all es) d = ⊥
  Recovers _ d = Unit

  pub put_all-NodupKeys : (es : List E) (d : Dict ID E) → NodupKeys d → NodupKeys (put_all es d)
  unfolding put_all
  put_all-NodupKeys [] d u = u
  put_all-NodupKeys (e ∷ es) d u =
      put_all-NodupKeys es (insert (sch.get_id e) e d) (insert-NodupKeys (sch.get_id e) e d u)

  pub put_all-IsValid :
      (es : List E) (d : Dict ID E)
      → some_id_empty ID es ≡ false
      → IsValid d
      → IsValid (put_all es d)
  unfolding put_all some_id_empty
  put_all-IsValid [] d h v = v
  put_all-IsValid (e ∷ es) d h v =
      put_all-IsValid es (insert (sch.get_id e) e d) (ground arith)
        (insert-IsValid e (λ z. ground (arith, z)) v)

  pub remove_all-IsValid :
      (ids : List ID) (olds : List E) (d : Dict ID E)
      → IsValid d
      → IsValid (remove_all ids olds d).1
  unfolding remove_all
  remove_all-IsValid [] olds d v = v
  remove_all-IsValid (id ∷ ids) olds d v =
      remove_all-IsValid ids _ (erase id d) (erase-IsValid id v)

  -- What keeps every lookup keeps the invariant.
  pub same_view-IsValid :
      {c d : Dict ID E} → IsValid c → NodupKeys d → ((j : ID) → lookup j d ≡ lookup j c) → IsValid d
  same_view-IsValid v u same = record {
    own = λ j e h. v.own j e (ground (arith, same j));
    none_at_zero = ground (arith, same sch.zero_id, v.none_at_zero);
    nodup = u;
  }

module _ {E ID S : Type 0} ⦃eq : Eq ID⦄ ⦃sch : Schema E ID⦄ ⦃st : Store E ID S⦄ where
  -- A write keeps the invariant if what it has written is valid, and the rollback too where the
  -- store fails.
  pub commit-IsValid :
      (op : Operation) (r : MemoryRepository E ID S) (rollback : Dict ID E → Dict ID E)
      (written : Dict ID E)
      → IsValid written
      → (is_ok (commit op r rollback written).0 ≡ false → IsValid (rollback written))
      → IsValid (commit op r rollback written).1.collection
  unfolding commit
  commit-IsValid op r rollback written v w = elim (Option-cases (st.store r.state written).0) [
    | inl fine ↦ rw (fine, commit) v
    | inr (cause, failed) ↦ rw (failed, commit) (w (rw (failed, commit)))
  ]
