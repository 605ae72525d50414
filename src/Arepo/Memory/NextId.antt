-- ===== src/Arepo/Memory/NextId.antt =====
-- arepo/inmemory.repository.go: `NextID`, for each kind of ID that the constraint `id` allows.
use arrower.Base.{ℕ, ◌+◌, ◌%◌, ◌^◌, ◌<◌, ◌≤◌, zero, suc, ◌≡◌, Eq, String, some, arith, ◌≢◌, ◌∙◌, ap}
use native.Mathlib.Nat.{mod-eq_of_lt}
use arrower.Base.Int.{ℤ, pos, wrap_int64, ◌+ℤ◌}
use arrower.Base.Dict.{lookup}
use arrower.Arepo.Errors.{err, already_exists}
use arrower.Arepo.Memory.State.{Schema, Store, MemoryRepository}
use arrower.Arepo.Memory.Writes.{create}

-- The three cases of the switch on `reflect.Kind`, with what `reflect` reads and writes an ID by:
-- `SetString`, `Int` with `SetInt`, and `Uint` with `SetUint`.
pub data IdKind (ID : Type 0) : Type 0 where
  string_kind : (String → ID) → IdKind ID
  int_kind : (ID → ℤ) → (ℤ → ID) → IdKind ID
  uint_kind : (ID → ℕ) → (ℕ → ID) → IdKind ID

module _ {E ID S : Type 0} where
  -- `uuid` is what `uuid.New().String()` gives. The sum is that of `int64` or `uint64`.
  unfoldable pub next_id :
      IdKind ID → String → MemoryRepository E ID S → ID × MemoryRepository E ID S
  next_id (string_kind set_string) uuid r = (set_string uuid, r)
  next_id (int_kind int set_int) uuid r =
      let id = set_int (wrap_int64 (int r.current_int_id +ℤ pos 1)) in
      (id, record r { current_int_id = id })
  next_id (uint_kind uint set_uint) uuid r =
      let id = set_uint ((uint r.current_int_id + 1) % 2 ^ 64) in
      (id, record r { current_int_id = id })

  -- The repository after so many calls.
  unfoldable pub draw : IdKind ID → String → ℕ → MemoryRepository E ID S → MemoryRepository E ID S
  unfolding next_id
  draw kind uuid zero r = r
  draw kind uuid (suc n) r = draw kind uuid n (next_id kind uuid r).1

module _ {ID : Type 0} (bits : ℕ) (uint : ID → ℕ) (set_uint : ℕ → ID) (small : 2 ^ bits ≤ 2 ^ 64)
    (uint-set_uint : (n : ℕ) → uint (set_uint n) ≡ n % 2 ^ bits) where
  count_step : (c : ℕ) → c + 1 < 2 ^ bits → uint (set_uint ((c + 1) % 2 ^ 64)) ≡ c + 1
  count_step c h =
      uint-set_uint ((c + 1) % 2 ^ 64)
      ∙ ap (λ t. t % 2 ^ bits) (mod-eq_of_lt {n = c + 1} {m = 2 ^ 64} (omega arith))
      ∙ mod-eq_of_lt h

module _ {E ID S : Type 0} (bits : ℕ) (uint : ID → ℕ) (set_uint : ℕ → ID)
    (small : 2 ^ bits ≤ 2 ^ 64) (uint-set_uint : (n : ℕ) → uint (set_uint n) ≡ n % 2 ^ bits) where
  uint-draw :
      (uuid : String) (n : ℕ) (r : MemoryRepository E ID S)
      → uint r.current_int_id + n < 2 ^ bits
      → uint (draw (uint_kind uint set_uint) uuid n r).current_int_id ≡ uint r.current_int_id + n
  unfolding draw
  uint-draw uuid zero r h = omega arith
  uint-draw uuid (suc n) r h =
      let step =
        count_step bits uint set_uint small uint-set_uint (uint r.current_int_id) (omega arith) in
      omega (
        arith,
        step,
        uint-draw uuid n
            (record r { current_int_id = set_uint ((uint r.current_int_id + 1) % 2 ^ 64) })
            (omega (arith, step)),
      )

  -- For unsigned IDs of so many bits, the ID drawn after n others is n + 1 more than the counter,
  -- while that fits the type: none repeats an earlier one, and none is the zero value.
  next_id_counts :
      (uuid : String) (n : ℕ) (r : MemoryRepository E ID S)
      → uint r.current_int_id + n + 1 < 2 ^ bits
      → uint (next_id (uint_kind uint set_uint) uuid (draw (uint_kind uint set_uint) uuid n r)).0
        ≡ uint r.current_int_id + n + 1
  unfolding next_id
  next_id_counts uuid n r h =
      let drawn = uint-draw uuid n r (omega arith) in
      count_step bits uint set_uint small uint-set_uint _ (omega (arith, drawn))
      ∙ omega (arith, drawn)

module _ {E ID S : Type 0} ⦃eq : Eq ID⦄ ⦃sch : Schema E ID⦄ ⦃st : Store E ID S⦄ where
  -- NextID does not look at the collection: where an entity is stored under the next ID already,
  -- creating one with the ID that it gives fails.
  next_id_collides :
      (kind : IdKind ID) (uuid : String) (e old : E) (r : MemoryRepository E ID S)
      → sch.get_id e ≡ (next_id kind uuid r).0
      → sch.get_id e ≢ sch.zero_id
      → lookup (next_id kind uuid r).0 r.collection ≡ some old
      → (create e (next_id kind uuid r).1).0 ≡ err already_exists
  unfolding create next_id
  next_id_collides (string_kind f) uuid e old r g nz h = ground arith
  next_id_collides (int_kind f g') uuid e old r g nz h = ground arith
  next_id_collides (uint_kind f g') uuid e old r g nz h = ground arith
