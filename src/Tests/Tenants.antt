-- ===== src/Tests/Tenants.antt =====
-- Two tenants with numbered items, and the theorems on their repository.
use arrower.Base.{map, ℕ, ◌%◌, ◌^◌, ◌≡◌, refl, String, nat_eq, some, List, [], ◌∷◌, arith}
use arrower.Base.Dict.{Dict}
use arrower.Arepo.Memory.State.{Schema, Store}
use arrower.Arepo.Memory.Invariant
use arrower.Arepo.Tenant.State.{TenantRepository}
use arrower.Arepo.Tenant.Methods.{count}
use arrower.Arepo.Tenant.Commands.{
  TenantCommand, of_tenant, all_tenants, run_commands, tenant_spec_run, tenant_view,
}
use arrower.Arepo.Tenant.Refinement.{tenant_view-run_commands}
use arrower.Arepo.Tenant.Isolation.{own_commands, tenant_view_own}
use arrower.Arepo.Tenant.Drawn.{Use, draw, call, draws, count_up, drawn, drawn-consecutive}

abbrev Item : Type 0
Item = ℕ × String

instance abbrev item_schema : Schema Item ℕ
item_schema = record { get_id = λ e. e.0; zero_id = 0; zero_entity = (0, "") }

-- A store that refuses everything.
instance abbrev refusing : Store (Dict ℕ Item) ℕ (Unit {0})
refusing = record { store = λ s _. (some "disk full", s) }

abbrev two_tenants : TenantRepository ℕ Item ℕ (Unit {0})
two_tenants = record {
  collection = (7, (1, (1, "a")) ∷ []) ∷ (8, (1, (1, "b")) ∷ (2, (2, "c")) ∷ []) ∷ [];
  current_int_id = 0;
  state = tt;
}

abbrev tenant_script : List (TenantCommand ℕ Item ℕ)
tenant_script =
    of_tenant 7 (Invariant.save (1, "new"))
    ∷ of_tenant 8 Invariant.delete_all
    ∷ of_tenant 9 (Invariant.update_all ((4, "d") ∷ []))
    ∷ []

tenant_view-run_commands_example :
    tenant_view 7 (run_commands tenant_script two_tenants) 1
    ≡ tenant_spec_run 7 tenant_script (tenant_view 7 two_tenants) 1
tenant_view-run_commands_example = tenant_view-run_commands tenant_script two_tenants 7 1

tenant_view_own_example :
    tenant_view 8 (run_commands tenant_script two_tenants) 2
    ≡ tenant_view 8 (run_commands (own_commands 8 tenant_script) two_tenants) 2
tenant_view_own_example = tenant_view_own tenant_script two_tenants 8 2

-- IDs of eight bits.
abbrev low_byte : ℕ → ℕ
low_byte n = n % 2 ^ 8

-- An ID is drawn, an entity is saved and all are deleted, and another ID is drawn.
abbrev uses : List (Use ℕ Item ℕ)
uses = call (of_tenant 7 (Invariant.save (4, "d"))) ∷ call all_tenants ∷ draw "" ∷ []

drawn-consecutive_example :
    map (λ (n : ℕ). n) (drawn (λ n. n) low_byte (draw "" ∷ uses) two_tenants) ≡ 4 ∷ 5 ∷ []
unfolding draws count_up count nat_eq
drawn-consecutive_example =
    drawn-consecutive (λ n. n) low_byte 8 (omega arith) (λ n. refl) "" uses two_tenants 3 refl
      (omega arith)
