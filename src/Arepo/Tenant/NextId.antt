-- ===== src/Arepo/Tenant/NextId.antt =====
-- arepo/inmemory-tenant.repository.go: `NextID`. Unlike that of the plain repository it starts from
-- the number of entities, where no ID was drawn before.
use arrower.Base.{ℕ, ◌+◌, ◌%◌, ◌^◌, ◌==◌, nat_eq, if◌then◌else◌, String}
use arrower.Base.Int.{ℤ, pos, int_eq, wrap_int64, ◌+ℤ◌}
use arrower.Arepo.Memory.NextId.{IdKind, string_kind, int_kind, uint_kind}
use arrower.Arepo.Tenant.State.{TenantRepository}
use arrower.Arepo.Tenant.Methods.{count}

module _ {T E ID S : Type 0} where
  -- `currentIDValue` after the loop over the tenants, for the unsigned kinds
  unfoldable pub last_uint : (ID → ℕ) → TenantRepository T E ID S → ℕ
  last_uint uint r = if uint r.current_int_id == 0 then count r % 2 ^ 64 else uint r.current_int_id

  unfoldable pub last_int : (ID → ℤ) → TenantRepository T E ID S → ℤ
  last_int int r =
      if int r.current_int_id == pos 0 then wrap_int64 (pos (count r)) else int r.current_int_id

  -- `uuid` is what `uuid.New().String()` gives.
  unfoldable pub tenant_next_id :
      IdKind ID → String → TenantRepository T E ID S → ID × TenantRepository T E ID S
  unfolding last_uint last_int
  tenant_next_id (string_kind set_string) uuid r = (set_string uuid, r)
  tenant_next_id (int_kind int set_int) uuid r =
      let id = set_int (wrap_int64 (last_int int r +ℤ pos 1)) in
      (id, record r { current_int_id = id })
  tenant_next_id (uint_kind uint set_uint) uuid r =
      let id = set_uint ((last_uint uint r + 1) % 2 ^ 64) in (id, record r { current_int_id = id })
