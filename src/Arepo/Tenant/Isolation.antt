-- ===== src/Arepo/Tenant/Isolation.antt =====
-- arepo/inmemory-tenant.repository.go: tenants do not interfere, and what becomes of a write that the
-- store refuses.
use arrower.Base.{
  ◌≡◌, refl, sym, ◌∙◌, ap, ◌==◌, Eq, if◌then◌else◌, false, Option, none, some, List, [], ◌∷◌,
  String, arith, Bool-cases, inl, inr,
}
use arrower.Base.Dict.{Dict, lookup, insert, lookup-insert}
use arrower.Arepo.Memory.State.{Schema, Store}
use arrower.Arepo.Memory.Invariant.{Command}
use arrower.Arepo.Tenant.State.{
  TenantRepository, map_of, ensure_tenant_initialised, stored, err, already_exists, not_saved,
}
use arrower.Arepo.Tenant.Methods.{create}
use arrower.Arepo.Tenant.Commands.{
  TenantCommand, of_tenant, all_tenants, run_commands, tenant_spec, tenant_spec_run, tenant_view,
}
use arrower.Arepo.Tenant.Refinement.{tenant_view-run_commands, map_of-insert, map_of-ensure}

module _ {T E ID : Type 0} ⦃teq : Eq T⦄ where
  -- The commands that are for the tenant or for all.
  unfoldable pub own_commands : T → List (TenantCommand T E ID) → List (TenantCommand T E ID)
  own_commands u [] = []
  own_commands u (of_tenant t c ∷ cs) =
      let rest = own_commands u cs in if u == t then of_tenant t c ∷ rest else rest
  own_commands u (all_tenants ∷ cs) = all_tenants ∷ own_commands u cs

module _ {T E ID : Type 0} ⦃teq : Eq T⦄ ⦃eq : Eq ID⦄ ⦃sch : Schema E ID⦄ where
  tenant_spec_other :
      (u t : T) (c : Command E ID) (m : ID → Option E)
      → (u == t) ≡ false
      → tenant_spec u (of_tenant t c) m ≡ m
  unfolding tenant_spec
  tenant_spec_other u t c m h = rw h

  tenant_spec_run_own :
      (u : T) (cs : List (TenantCommand T E ID)) (m : ID → Option E)
      → tenant_spec_run u cs m ≡ tenant_spec_run u (own_commands u cs) m
  unfolding tenant_spec_run own_commands
  tenant_spec_run_own u [] m = refl
  tenant_spec_run_own u (of_tenant t c ∷ cs) m = elim (Bool-cases (u == t)) [
    | inl own ↦ rw own (tenant_spec_run_own u cs (tenant_spec u (of_tenant t c) m))
    | inr other ↦ rw other (rw (tenant_spec_other u t c m other) (tenant_spec_run_own u cs m))
  ]
  tenant_spec_run_own u (all_tenants ∷ cs) m = tenant_spec_run_own u cs _

module _ {T E ID S : Type 0} ⦃teq : Eq T⦄ ⦃eq : Eq ID⦄ ⦃sch : Schema E ID⦄
    ⦃st : Store (Dict ID E) T S⦄ where
  -- What a tenant sees after a sequence of commands is what it would see had only its own commands
  -- and those for all been run, whatever the other tenants did and whatever the store answered.
  pub tenant_view_own :
      (cs : List (TenantCommand T E ID)) (r : TenantRepository T E ID S) (u : T) (j : ID)
      → tenant_view u (run_commands cs r) j ≡ tenant_view u (run_commands (own_commands u cs) r) j
  tenant_view_own cs r u j =
      tenant_view-run_commands cs r u j
      ∙ ap (λ m. m j) (tenant_spec_run_own u cs (tenant_view u r))
      ∙ sym (tenant_view-run_commands (own_commands u cs) r u j)

  -- A Create that the store refuses has written the entity all the same: the same Create, tried
  -- again, finds that it already exists.
  create_retry :
      (t : T) (e : E) (r : TenantRepository T E ID S) (cause : String)
      → (create t e r).0 ≡ err (not_saved cause)
      → (lookup (sch.get_id e) (map_of t r.collection) ≡ none)
        × (tenant_view t (create t e r).1 (sch.get_id e) ≡ some e)
        × ((create t e (create t e r).1).0 ≡ err already_exists)
  unfolding create stored
  create_retry t e r cause h =
      let d = ensure_tenant_initialised t r.collection in
      let m = insert (sch.get_id e) e (map_of t d) in
      ground (
        arith,
        map_of-ensure t t r.collection,
        map_of-insert t t m d,
        map_of-ensure t t (insert t m d),
        lookup-insert (sch.get_id e) (sch.get_id e) e (map_of t d),
      )
