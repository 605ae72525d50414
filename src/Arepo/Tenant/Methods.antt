-- ===== src/Arepo/Tenant/Methods.antt =====
-- arepo/inmemory-tenant.repository.go: the methods of `MemoryTenantRepository`. Each takes the
-- repository last, and returns it with its answer where it writes.
use arrower.Base.{
  ℕ, ◌+◌, ◌==◌, Eq, nat_eq, if◌then◌else◌, is_some, length, Bool, true, false, not, none, some,
  List, [], ◌∷◌, ◌++◌,
}
use arrower.Base.Dict.{Dict, lookup, insert, erase, values}
use arrower.Arepo.Memory.State.{Schema, Store}
use arrower.Arepo.Memory.Reads.{select}
use arrower.Arepo.Memory.Batch.{some_id_empty, put_all}
use arrower.Arepo.Tenant.State.{
  missing_id, already_exists, not_found, not_existing, Answer, ok, err, TenantRepository, Outcome,
  map_of, changed, ensure_tenant_initialised, stored,
}

module _ {E ID : Type 0} ⦃eq : Eq ID⦄ where
  -- for _, id := range ids { delete(repo.Data[tenantID], id) }
  unfoldable pub erase_all : List ID → Dict ID E → Dict ID E
  erase_all [] d = d
  erase_all (id ∷ ids) d = erase_all ids (erase id d)

module _ {T E ID : Type 0} where
  unfoldable pub all_of_maps : Dict T (Dict ID E) → List E
  all_of_maps [] = []
  all_of_maps ((_, d) ∷ rest) = values d ++ all_of_maps rest

  unfoldable pub count_of_maps : Dict T (Dict ID E) → ℕ
  count_of_maps [] = 0
  count_of_maps ((_, d) ∷ rest) = length d + count_of_maps rest

module _ {T E ID S : Type 0} where
  unfoldable pub all : TenantRepository T E ID S → List E
  unfolding all_of_maps
  all r = all_of_maps r.collection

  unfoldable pub count : TenantRepository T E ID S → ℕ
  unfolding count_of_maps
  count r = count_of_maps r.collection

module _ {T E ID S : Type 0} ⦃teq : Eq T⦄ where
  unfoldable pub all_of_tenant : T → TenantRepository T E ID S → List E
  all_of_tenant t r = values (map_of t r.collection)

  unfoldable pub count_of_tenant : T → TenantRepository T E ID S → ℕ
  count_of_tenant t r = length (map_of t r.collection)

module _ {T E ID S : Type 0} ⦃teq : Eq T⦄ ⦃eq : Eq ID⦄ where
  unfoldable pub read : T → ID → TenantRepository T E ID S → Answer E
  read t id r = elim (lookup id (map_of t r.collection)) [ some e ↦ ok e | none ↦ err not_found ]

  unfoldable pub exists : T → ID → TenantRepository T E ID S → Bool
  exists t id r = is_some (lookup id (map_of t r.collection))

  unfoldable pub all_exist : T → List ID → TenantRepository T E ID S → Bool
  all_exist t [] r = true
  all_exist t (id ∷ ids) r =
      let rest = all_exist t ids r in
      if is_some (lookup id (map_of t r.collection)) then rest else false

  unfoldable pub exist_all : T → List ID → TenantRepository T E ID S → Bool
  unfolding all_exist
  exist_all t [] r = false
  exist_all t (id ∷ ids) r = all_exist t (id ∷ ids) r

module _ {T E ID S : Type 0} ⦃teq : Eq T⦄ ⦃eq : Eq ID⦄ ⦃sch : Schema E ID⦄ where
  unfoldable pub all_by_ids : T → List ID → TenantRepository T E ID S → Answer (List E)
  unfolding select
  all_by_ids t ids r =
      let result = select (values (map_of t r.collection)) ids in
      if length result == length ids then ok result else err not_found

  -- The loop of `AddAll`.
  unfoldable pub some_exist : T → List E → TenantRepository T E ID S → Bool
  unfolding exists
  some_exist t [] r = false
  some_exist t (e ∷ es) r =
      let rest = some_exist t es r in if exists t (sch.get_id e) r then true else rest

module _ {T E ID S : Type 0} ⦃teq : Eq T⦄ ⦃eq : Eq ID⦄ ⦃sch : Schema E ID⦄
    ⦃st : Store (Dict ID E) T S⦄ where
  unfoldable pub create : T → E → TenantRepository T E ID S → Outcome T E ID S
  unfolding stored ensure_tenant_initialised
  create t e r =
      let id = sch.get_id e in
      if id == sch.zero_id
      then (err missing_id, r)
      else let d = ensure_tenant_initialised t r.collection in
        if is_some (lookup id (map_of t d))
        then (err already_exists, record r { collection = d })
        else stored (insert t (insert id e (map_of t d)) d) r

  unfoldable pub update : T → E → TenantRepository T E ID S → Outcome T E ID S
  unfolding stored
  update t e r =
      let id = sch.get_id e in
      if id == sch.zero_id
      then (err missing_id, r)
      else if not (is_some (lookup id (map_of t r.collection)))
      then (err not_existing, r)
      else stored (insert t (insert id e (map_of t r.collection)) r.collection) r

  unfoldable pub delete : T → E → TenantRepository T E ID S → Outcome T E ID S
  unfolding stored
  delete t e r = stored (changed (λ d. erase (sch.get_id e) d) t r.collection) r

  unfoldable pub save : T → E → TenantRepository T E ID S → Outcome T E ID S
  unfolding stored ensure_tenant_initialised
  save t e r =
      let id = sch.get_id e in
      if id == sch.zero_id
      then (err missing_id, r)
      else let d = ensure_tenant_initialised t r.collection in
        stored (insert t (insert id e (map_of t d)) d) r

  -- `UpdateAll` is the same.
  unfoldable pub save_all : T → List E → TenantRepository T E ID S → Outcome T E ID S
  unfolding stored ensure_tenant_initialised some_id_empty put_all
  save_all t es r =
      if some_id_empty ID es
      then (err missing_id, r)
      else let d = ensure_tenant_initialised t r.collection in
        stored (insert t (put_all es (map_of t d)) d) r

  unfoldable pub add_all : T → List E → TenantRepository T E ID S → Outcome T E ID S
  unfolding save_all some_exist
  add_all t es r = if some_exist t es r then (err already_exists, r) else save_all t es r

  unfoldable pub delete_by_ids : T → List ID → TenantRepository T E ID S → Outcome T E ID S
  unfolding stored erase_all
  delete_by_ids t ids r = stored (changed (erase_all ids) t r.collection) r

  unfoldable pub delete_all : TenantRepository T E ID S → Outcome T E ID S
  unfolding stored
  delete_all r = stored [] r

  unfoldable pub delete_all_of_tenant : T → TenantRepository T E ID S → Outcome T E ID S
  unfolding stored
  delete_all_of_tenant t r = stored (changed (λ _. []) t r.collection) r
