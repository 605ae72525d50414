-- ===== src/Arepo/Tenant/Commands.antt =====
-- arepo/inmemory-tenant.repository.go: the methods of `MemoryTenantRepository` as commands, what a
-- tenant sees, and what a command does to it.
use arrower.Base.{◌==◌, Eq, if◌then◌else◌, Option, none, List, [], ◌∷◌}
use arrower.Base.Dict.{Dict, lookup}
use arrower.Arepo.Memory.State.{Schema, Store}
use arrower.Arepo.Memory.Invariant.{
  Command, create, update, delete, save, save_all, update_all, add_all, delete_by_ids, delete_all,
}
use arrower.Arepo.Memory.Refinement.{spec}
use arrower.Arepo.Tenant.State.{TenantRepository, Outcome, map_of}
use arrower.Arepo.Tenant.Methods
use arrower.Arepo.Tenant.Methods.{erase_all, some_exist}

-- `all_tenants` is `DeleteAll`, of every tenant. The plain command `delete_all` is
-- `DeleteAllOfTenant`, and `update_all` is `UpdateAll`, which calls `SaveAll`.
pub data TenantCommand (T E ID : Type 0) : Type 0 where
  of_tenant : T → Command E ID → TenantCommand T E ID
  all_tenants : TenantCommand T E ID

-- The plain command that does the same: `UpdateAll` saves what is not there yet.
unfoldable pub plain : {E ID : Type 0} → Command E ID → Command E ID
plain (update_all es) = save_all es
plain c = c

module _ {T E ID S : Type 0} ⦃teq : Eq T⦄ ⦃eq : Eq ID⦄ ⦃sch : Schema E ID⦄
    ⦃st : Store (Dict ID E) T S⦄ where
  unfoldable pub apply_to : T → Command E ID → TenantRepository T E ID S → Outcome T E ID S
  apply_to t (create e) r = Methods.create t e r
  apply_to t (update e) r = Methods.update t e r
  apply_to t (delete e) r = Methods.delete t e r
  apply_to t (save e) r = Methods.save t e r
  apply_to t (save_all es) r = Methods.save_all t es r
  apply_to t (update_all es) r = Methods.save_all t es r
  apply_to t (add_all es) r = Methods.add_all t es r
  apply_to t (delete_by_ids ids) r = Methods.delete_by_ids t ids r
  apply_to t delete_all r = Methods.delete_all_of_tenant t r

  unfoldable pub apply_command : TenantCommand T E ID → TenantRepository T E ID S → Outcome T E ID S
  unfolding apply_to
  apply_command (of_tenant t c) r = apply_to t c r
  apply_command all_tenants r = Methods.delete_all r

  -- The commands one after another, whatever each of them answers.
  unfoldable pub run_commands :
      List (TenantCommand T E ID) → TenantRepository T E ID S → TenantRepository T E ID S
  run_commands [] r = r
  run_commands (c ∷ cs) r = run_commands cs (apply_command c r).1

module _ {T E ID : Type 0} ⦃teq : Eq T⦄ ⦃eq : Eq ID⦄ ⦃sch : Schema E ID⦄ where
  -- What a command does to the map of one tenant.
  unfoldable pub tenant_spec : T → TenantCommand T E ID → (ID → Option E) → ID → Option E
  unfolding plain
  tenant_spec u (of_tenant t c) m = if u == t then spec (plain c) m else m
  tenant_spec u all_tenants m = λ j. none

  unfoldable pub tenant_spec_run : T → List (TenantCommand T E ID) → (ID → Option E) → ID → Option E
  tenant_spec_run u [] m = m
  tenant_spec_run u (c ∷ cs) m = tenant_spec_run u cs (tenant_spec u c m)

module _ {T E ID S : Type 0} ⦃teq : Eq T⦄ ⦃eq : Eq ID⦄ where
  -- What the tenant sees.
  abbrev pub tenant_view : T → TenantRepository T E ID S → ID → Option E
  tenant_view u r j = lookup j (map_of u r.collection)
