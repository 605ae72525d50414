-- ===== src/Arepo/Tenant/Refinement.antt =====
-- What a client of a `MemoryTenantRepository` may rely on: each tenant has a finite map of its own,
-- which the commands for that tenant change as they change the map of a plain repository.
use arrower.Base.{◌≡◌, refl, ◌∙◌, ap, ◌==◌, Eq, if◌then◌else◌, contains, none, List, [], ◌∷◌, arith}
use mathlib.Core.Path.{fun_ext}
use arrower.Base.Dict.{Dict, lookup, insert, erase, lookup-insert, lookup-erase, lookup-nil}
use arrower.Arepo.Memory.State.{Schema, Store}
use arrower.Arepo.Memory.Batch.{put_all}
use arrower.Arepo.Memory.Valid.{lookup-put_all}
use arrower.Arepo.Memory.Invariant.{
  Command, create, update, delete, save, save_all, update_all, add_all, delete_by_ids, delete_all,
}
use arrower.Arepo.Memory.Refinement.{spec, some_known}
use arrower.Arepo.Tenant.State.{
  TenantRepository, map_of, changed, ensure_tenant_initialised, stored,
}
use arrower.Arepo.Tenant.Methods
use arrower.Arepo.Tenant.Commands.{
  TenantCommand, of_tenant, all_tenants, plain, apply_to, apply_command, run_commands, tenant_spec,
  tenant_spec_run, tenant_view,
}
use arrower.Arepo.Tenant.Methods.{erase_all, some_exist}

module _ {E ID : Type 0} ⦃eq : Eq ID⦄ where
  lookup-erase_all :
      (j : ID) (ids : List ID) (d : Dict ID E)
      → lookup j (erase_all ids d) ≡ (if contains ids j then none else lookup j d)
  unfolding erase_all
  lookup-erase_all j [] d = refl
  lookup-erase_all j (id ∷ ids) d =
      ground (arith, lookup-erase_all j ids (erase id d), lookup-erase j id d)

module _ {T E ID : Type 0} ⦃teq : Eq T⦄ where
  pub map_of-insert :
      (u t : T) (m : Dict ID E) (d : Dict T (Dict ID E))
      → map_of u (insert t m d) ≡ (if u == t then m else map_of u d)
  map_of-insert u t m d = ground (arith, lookup-insert u t m d)

  pub map_of-ensure :
      (u t : T) (d : Dict T (Dict ID E)) → map_of u (ensure_tenant_initialised t d) ≡ map_of u d
  unfolding ensure_tenant_initialised
  map_of-ensure u t d = ground (arith, lookup-insert u t [] d)

module _ {T E ID S : Type 0} ⦃teq : Eq T⦄ ⦃eq : Eq ID⦄ ⦃sch : Schema E ID⦄ where
  some_exist-some_known :
      (t : T) (es : List E) (r : TenantRepository T E ID S)
      → some_exist t es r ≡ some_known es (tenant_view t r)
  unfolding some_exist some_known
  some_exist-some_known t [] r = refl
  some_exist-some_known t (e ∷ es) r = ground (arith, some_exist-some_known t es r)

module _ {T E ID S : Type 0} ⦃teq : Eq T⦄ ⦃eq : Eq ID⦄ ⦃sch : Schema E ID⦄
    ⦃st : Store (Dict ID E) T S⦄ where
  stored-collection :
      (written : Dict T (Dict ID E)) (r : TenantRepository T E ID S)
      → (stored written r).1.collection ≡ written
  unfolding stored
  stored-collection written r = ground arith

  -- What each tenant sees after a write to the map of one, and after a change of it.
  view-insert :
      (u t : T) (m : Dict ID E) (d : Dict T (Dict ID E)) (r : TenantRepository T E ID S) (j : ID)
      → tenant_view u (stored (insert t m d) r).1 j
        ≡ (if u == t then lookup j m else lookup j (map_of u d))
  view-insert u t m d r j =
      ground (arith, stored-collection (insert t m d) r, map_of-insert u t m d)

  view-changed :
      (u t : T) (change : Dict ID E → Dict ID E) (r : TenantRepository T E ID S) (j : ID)
      → lookup j (change []) ≡ none
      → tenant_view u (stored (changed change t r.collection) r).1 j
        ≡ (if u == t then lookup j (change (map_of t r.collection)) else tenant_view u r j)
  view-changed u t change r j h = ground (
    arith,
    stored-collection (changed change t r.collection) r,
    lookup-nil {V = E} j,
    lookup-insert u t (change (map_of t r.collection)) r.collection,
  )

  -- A write under the map of the tenant, made where it is nil.
  view-ensured :
      (u t : T) (m : Dict ID E) (r : TenantRepository T E ID S) (j : ID)
      → tenant_view u (stored (insert t m (ensure_tenant_initialised t r.collection)) r).1 j
        ≡ (if u == t then lookup j m else tenant_view u r j)
  view-ensured u t m r j = ground (
    arith,
    view-insert u t m (ensure_tenant_initialised t r.collection) r j,
    map_of-ensure u t r.collection,
  )

  save_all-spec :
      (t u : T) (es : List E) (r : TenantRepository T E ID S) (j : ID)
      → tenant_view u (Methods.save_all t es r).1 j
        ≡ (if u == t then spec (save_all es) (tenant_view u r) j else tenant_view u r j)
  unfolding Methods.save_all spec
  save_all-spec t u es r j = ground (
    arith,
    view-ensured u t (put_all es (map_of t (ensure_tenant_initialised t r.collection))) r j,
    map_of-ensure t t r.collection,
    lookup-put_all j es (map_of t r.collection),
  )

  apply_to-spec :
      (t u : T) (c : Command E ID) (r : TenantRepository T E ID S) (j : ID)
      → tenant_view u (apply_to t c r).1 j
        ≡ (if u == t then spec (plain c) (tenant_view u r) j else tenant_view u r j)
  unfolding apply_to spec plain Methods.create Methods.update Methods.delete Methods.save
      Methods.add_all Methods.delete_by_ids Methods.delete_all_of_tenant
  apply_to-spec t u (create e) r j = ground (
    arith,
    view-ensured u t (insert (sch.get_id e) e (map_of t (ensure_tenant_initialised t r.collection)))
        r j,
    map_of-ensure u t r.collection,
    map_of-ensure t t r.collection,
    lookup-insert j (sch.get_id e) e (map_of t r.collection),
  )
  apply_to-spec t u (update e) r j = ground (
    arith,
    view-insert u t (insert (sch.get_id e) e (map_of t r.collection)) r.collection r j,
    lookup-insert j (sch.get_id e) e (map_of t r.collection),
  )
  apply_to-spec t u (delete e) r j = ground (
    arith,
    view-changed u t (λ d. erase (sch.get_id e) d) r j
        (rw (lookup-erase j (sch.get_id e) []) (ground (arith, lookup-nil {V = E} j))),
    lookup-erase j (sch.get_id e) (map_of t r.collection),
  )
  apply_to-spec t u (save e) r j = ground (
    arith,
    view-ensured u t (insert (sch.get_id e) e (map_of t (ensure_tenant_initialised t r.collection)))
        r j,
    map_of-ensure t t r.collection,
    lookup-insert j (sch.get_id e) e (map_of t r.collection),
  )
  apply_to-spec t u (save_all es) r j = save_all-spec t u es r j
  apply_to-spec t u (update_all es) r j = save_all-spec t u es r j
  apply_to-spec t u (add_all es) r j =
      ground (arith, save_all-spec t u es r j, some_exist-some_known t es r)
  apply_to-spec t u (delete_by_ids ids) r j = ground (
    arith,
    view-changed u t (erase_all ids) r j
        (rw (lookup-erase_all j ids []) (ground (arith, lookup-nil {V = E} j))),
    lookup-erase_all j ids (map_of t r.collection),
  )
  apply_to-spec t u delete_all r j =
      ground (arith, view-changed u t (λ _. []) r j (lookup-nil j), lookup-nil {V = E} j)

  apply_command-spec :
      (u : T) (c : TenantCommand T E ID) (r : TenantRepository T E ID S) (j : ID)
      → tenant_view u (apply_command c r).1 j ≡ tenant_spec u c (tenant_view u r) j
  unfolding apply_command tenant_spec Methods.delete_all
  apply_command-spec u (of_tenant t c) r j = ground (arith, apply_to-spec t u c r j)
  apply_command-spec u all_tenants r j =
      ground (arith, stored-collection [] r, lookup-nil {V = Dict ID E} u, lookup-nil {V = E} j)

  -- A sequence of commands, whatever the store answers to each, changes what a tenant sees under each
  -- key as the plain repository's specification says, where only the commands for that tenant and
  -- those for all count.
  pub tenant_view-run_commands :
      (cs : List (TenantCommand T E ID)) (r : TenantRepository T E ID S) (u : T) (j : ID)
      → tenant_view u (run_commands cs r) j ≡ tenant_spec_run u cs (tenant_view u r) j
  unfolding run_commands tenant_spec_run
  tenant_view-run_commands [] r u j = refl
  tenant_view-run_commands (c ∷ cs) r u j =
      tenant_view-run_commands cs (apply_command c r).1 u j
      ∙ ap (λ m. tenant_spec_run u cs m j) (fun_ext (apply_command-spec u c r))
