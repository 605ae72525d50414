-- ===== src/Arepo/Tenant/State.antt =====
-- arepo/inmemory-tenant.repository.go: the state of `MemoryTenantRepository` and how its methods read
-- and write the two levels of its map. The store and what reflection reads of an entity are those of
-- the plain repository; the map that is stored has the tenants' maps as its values.
use arrower.Base.{Eq, get_or, is_some, if◌then◌else◌, String, Bool, true, false, none, some, []}
use arrower.Base.Dict.{Dict, lookup, insert}
use arrower.Arepo.Memory.State.{Store}

pub data TenantError : Type 0 where
  missing_id : TenantError
  already_exists : TenantError
  not_found : TenantError
  not_existing : TenantError
  not_saved : String → TenantError

pub data Answer (A : Type 0) : Type 0 where
  ok : A → Answer A
  err : TenantError → Answer A

abbrev pub is_ok : {A : Type 0} → Answer A → Bool
is_ok (ok _) = true
is_ok (err _) = false

-- `collection` is the field `Data`.
pub record TenantRepository (T E ID S : Type 0) : Type 0 where
  pub collection : Dict T (Dict ID E)
  pub current_int_id : ID
  pub state : S

abbrev pub Outcome : Type 0 → Type 0 → Type 0 → Type 0 → Type 0
Outcome T E ID S = Answer Unit × TenantRepository T E ID S

module _ {T E ID : Type 0} ⦃teq : Eq T⦄ where
  -- repo.Data[tenantID], which reads as an empty map where it is nil
  abbrev pub map_of : T → Dict T (Dict ID E) → Dict ID E
  map_of t d = get_or [] (lookup t d)

  -- A change of a tenant's map, which is none where that map is nil: delete and clear do nothing.
  abbrev pub changed : (Dict ID E → Dict ID E) → T → Dict T (Dict ID E) → Dict T (Dict ID E)
  changed change t d = elim (lookup t d) [ none ↦ d | some entities ↦ insert t (change entities) d ]

  unfoldable pub ensure_tenant_initialised : T → Dict T (Dict ID E) → Dict T (Dict ID E)
  ensure_tenant_initialised t d = if is_some (lookup t d) then d else insert t [] d

module _ {T E ID S : Type 0} ⦃st : Store (Dict ID E) T S⦄ where
  -- The last part of each method that writes. There is no rollback.
  unfoldable pub stored :
      Dict T (Dict ID E) → TenantRepository T E ID S → Answer Unit × TenantRepository T E ID S
  stored written r =
      let (failure, s) = st.store r.state written in
      let r' = record r { collection = written; state = s } in
      elim failure [ none ↦ (ok tt, r') | some cause ↦ (err (not_saved cause), r') ]
