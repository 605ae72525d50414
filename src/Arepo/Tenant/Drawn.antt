-- ===== src/Arepo/Tenant/Drawn.antt =====
-- arepo/inmemory-tenant.repository.go: the IDs that `NextID` draws while other methods are called.
use native.Mathlib.Nat.{mod-eq_of_lt}
use arrower.Base.{
  ℕ, zero, suc, ◌+◌, ◌%◌, ◌^◌, ◌<◌, ◌≤◌, ◌≡◌, ◌≢◌, refl, ap, ◌∙◌, ◌==◌, Eq, nat_eq, if◌then◌else◌,
  String, List, [], ◌∷◌, map, arith,
}
use arrower.Base.Dict.{Dict}
use arrower.Arepo.Memory.State.{Schema, Store}
use arrower.Arepo.Memory.Invariant.{
  Command, create, update, delete, save, save_all, update_all, add_all, delete_by_ids, delete_all,
}
use arrower.Arepo.Memory.NextId.{uint_kind}
use arrower.Arepo.Tenant.State.{TenantRepository, stored}
use arrower.Arepo.Tenant.Methods
use arrower.Arepo.Tenant.Methods.{count}
use arrower.Arepo.Tenant.Commands.{TenantCommand, of_tenant, all_tenants, apply_to, apply_command}
use arrower.Arepo.Tenant.NextId.{last_uint, tenant_next_id}

-- A call of NextID, with the UUID that would be drawn, or of a method that writes.
pub data Use (T E ID : Type 0) : Type 0 where
  draw : String → Use T E ID
  call : TenantCommand T E ID → Use T E ID

unfoldable pub draws : {T E ID : Type 0} → List (Use T E ID) → ℕ
draws [] = 0
draws (draw uuid ∷ uses) = suc (draws uses)
draws (call c ∷ uses) = draws uses

-- The numbers from `n` on, so many.
unfoldable pub count_up : ℕ → ℕ → List ℕ
count_up n zero = []
count_up n (suc k) = n ∷ count_up (n + 1) k

module _ {ID : Type 0} (uint : ID → ℕ) (set_uint : ℕ → ID) (bits : ℕ) (small : 2 ^ bits ≤ 2 ^ 64)
    (uint-set_uint : (n : ℕ) → uint (set_uint n) ≡ n % 2 ^ bits) where
  next_number : (n : ℕ) → n < 2 ^ bits → uint (set_uint (n % 2 ^ 64)) ≡ n
  next_number n fits =
      uint-set_uint (n % 2 ^ 64)
      ∙ ap (λ m. m % 2 ^ bits) (mod-eq_of_lt {n = n} {m = 2 ^ 64} (omega arith))
      ∙ mod-eq_of_lt fits

module _ {T E ID S : Type 0} ⦃teq : Eq T⦄ ⦃eq : Eq ID⦄ ⦃sch : Schema E ID⦄
    ⦃st : Store (Dict ID E) T S⦄ where
  apply_to-current_int_id :
      (t : T) (c : Command E ID) (r : TenantRepository T E ID S)
      → (apply_to t c r).1.current_int_id ≡ r.current_int_id
  unfolding apply_to stored Methods.create Methods.update Methods.delete Methods.save
      Methods.save_all Methods.add_all Methods.delete_by_ids Methods.delete_all_of_tenant
  apply_to-current_int_id t (create e) r = ground arith
  apply_to-current_int_id t (update e) r = ground arith
  apply_to-current_int_id t (delete e) r = ground arith
  apply_to-current_int_id t (save e) r = ground arith
  apply_to-current_int_id t (save_all es) r = ground arith
  apply_to-current_int_id t (update_all es) r = ground arith
  apply_to-current_int_id t (add_all es) r = ground arith
  apply_to-current_int_id t (delete_by_ids ids) r = ground arith
  apply_to-current_int_id t delete_all r = ground arith

  apply_command-current_int_id :
      (c : TenantCommand T E ID) (r : TenantRepository T E ID S)
      → (apply_command c r).1.current_int_id ≡ r.current_int_id
  unfolding apply_command stored Methods.delete_all
  apply_command-current_int_id (of_tenant t c) r = apply_to-current_int_id t c r
  apply_command-current_int_id all_tenants r = ground arith

  module _ (uint : ID → ℕ) (set_uint : ℕ → ID) where
    -- The IDs that are drawn, in their order.
    unfoldable pub drawn : List (Use T E ID) → TenantRepository T E ID S → List ID
    unfolding apply_command tenant_next_id
    drawn [] r = []
    drawn (call c ∷ uses) r = drawn uses (apply_command c r).1
    drawn (draw uuid ∷ uses) r =
        let (id, r') = tenant_next_id (uint_kind uint set_uint) uuid r in id ∷ drawn uses r'

    module _ (bits : ℕ) (small : 2 ^ bits ≤ 2 ^ 64)
        (uint-set_uint : (n : ℕ) → uint (set_uint n) ≡ n % 2 ^ bits) where
      -- Once a number was drawn, the counter alone decides.
      drawn-counter :
          (uses : List (Use T E ID)) (r : TenantRepository T E ID S) (c : ℕ)
          → uint r.current_int_id ≡ c
          → c ≢ 0
          → c + draws uses < 2 ^ bits
          → map uint (drawn uses r) ≡ count_up (c + 1) (draws uses)
      unfolding drawn draws count_up tenant_next_id
      drawn-counter [] r c at named fits = refl
      drawn-counter (call x ∷ uses) r c at named fits =
          drawn-counter uses (apply_command x r).1 c
            (ap uint (apply_command-current_int_id x r) ∙ at) named fits
      drawn-counter (draw uuid ∷ uses) r c at named fits =
          let last : last_uint uint r ≡ c = unfold last_uint nat_eq in ground (arith, at, named) in
          let r' = (tenant_next_id (uint_kind uint set_uint) uuid r).1 in
          let id : uint r'.current_int_id ≡ c + 1 =
            ap (λ m. uint (set_uint ((m + 1) % 2 ^ 64))) last
            ∙ next_number uint set_uint bits small uint-set_uint (c + 1) (omega arith) in
          ap (λ m. m ∷ map uint (drawn uses r')) id
          ∙ ap (λ ms. (c + 1) ∷ ms) (drawn-counter uses r' (c + 1) id (omega arith) (omega arith))

      -- For unsigned IDs of so many bits: NextID is called, and then again in between any calls of methods
      -- that write, whatever the store answers, for so few times that the numbers fit the type. The
      -- IDs are the numbers one after the other, from the one behind the counter on, or from the one
      -- behind the number of entities of all tenants at first, where no ID was drawn before.
      pub drawn-consecutive :
          (uuid : String) (uses : List (Use T E ID)) (r : TenantRepository T E ID S) (start : ℕ)
          → start ≡ (if uint r.current_int_id == 0 then count r else uint r.current_int_id)
          → start + 1 + draws uses < 2 ^ bits
          → map uint (drawn (draw uuid ∷ uses) r) ≡ count_up (start + 1) (suc (draws uses))
      unfolding drawn count_up tenant_next_id
      drawn-consecutive uuid uses r start first fits =
          let last : last_uint uint r ≡ start =
            unfold last_uint nat_eq in
            ground (arith, first, mod-eq_of_lt {n = start} {m = 2 ^ 64} (omega arith)) in
          let r' = (tenant_next_id (uint_kind uint set_uint) uuid r).1 in
          let id : uint r'.current_int_id ≡ start + 1 =
            ap (λ m. uint (set_uint ((m + 1) % 2 ^ 64))) last
            ∙ next_number uint set_uint bits small uint-set_uint (start + 1) (omega arith) in
          ap (λ m. m ∷ map uint (drawn uses r')) id
          ∙ ap (λ ms. (start + 1) ∷ ms)
              (drawn-counter uses r' (start + 1) id (omega arith) (omega arith))
