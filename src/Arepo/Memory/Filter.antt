-- ===== src/Arepo/Memory/Filter.antt =====
-- arepo/inmemory.repository.go: AllBy and FindBy.
use arrower.Base.{
  ℕ, ◌+◌, ◌==◌, Eq, nat_eq, if◌then◌else◌, length, Bool, ◌&&◌, not, Option, none, some, List, [],
  ◌∷◌, Bytes,
}
use arrower.Base.Dict.{values}
use arrower.Arepo.Errors.{
  Result, ok, err, invalid_query, nil_value, unknown_field, kind_mismatch, query_failed, not_unique,
}
use arrower.Arepo.Memory.State.{MemoryRepository}
use arrower.Arepo.Query.{Condition, StructField, field_name}

-- What reflection reads of an entity: the fields of its type and which of them are exported, the value
-- of the field of a name if there is one, the kind of a value, and whether two values are of one type
-- that cannot be compared.
pub record Reflection (E V : Type 0) : Type 0 where
  pub snake_case : Bytes → Bytes
  pub fields : List StructField
  pub is_exported : Bytes → Bool
  pub value : E → Bytes → Option V
  pub kind : V → ℕ
  pub is_uncomparable : V → V → Bool

module _ {E V : Type 0} ⦃veq : Eq V⦄ ⦃rf : Reflection E V⦄ where
  -- One round of the loop over the conditions: whether the entity meets the condition. Interface()
  -- panics on a field that is not exported, and == on values that cannot be compared; `none` is a
  -- panic here and below.
  unfoldable pub check : E → Condition V → Option (Result Bool)
  check e cond = elim cond.value [
    | none ↦ some (err (invalid_query nil_value))
    | some wanted ↦
        let name = field_name rf.snake_case rf.fields cond.field in
        elim (rf.value e name) [
          | none ↦ some (err (invalid_query unknown_field))
          | some found ↦
              if rf.kind wanted == rf.kind found
              then if rf.is_exported name && not (rf.is_uncomparable found wanted)
                then some (ok (found == wanted))
                else none
              else some (err (invalid_query kind_mismatch))
        ]
  ]

  -- The loop, with the count `fieldsThatMatch`.
  unfoldable pub count_matches : E → List (Condition V) → ℕ → Option (Result ℕ)
  unfolding check
  count_matches e [] n = some (ok n)
  count_matches e (cond ∷ conds) n = elim (check e cond) [
    | none ↦ none
    | some (err x) ↦ some (err x)
    | some (ok hit) ↦ count_matches e conds (if hit then n + 1 else n)
  ]

  unfoldable pub filter_entities : List (Condition V) → List E → Option (Result (List E))
  unfolding count_matches
  filter_entities conds [] = some (ok [])
  filter_entities conds (e ∷ es) = elim (count_matches e conds 0) [
    | none ↦ none
    | some (err x) ↦ some (err x)
    | some (ok n) ↦ elim (filter_entities conds es) [
      | none ↦ none
      | some (err x) ↦ some (err x)
      | some (ok rest) ↦ some (ok (if n == length conds then e ∷ rest else rest))
    ]
  ]

module _ {E V ID S : Type 0} ⦃veq : Eq V⦄ ⦃rf : Reflection E V⦄ where
  unfoldable pub all_by : List (Condition V) → MemoryRepository E ID S → Option (Result (List E))
  unfolding filter_entities
  all_by conds r = filter_entities conds (values r.collection)

  unfoldable pub find_by : List (Condition V) → MemoryRepository E ID S → Option (Result E)
  unfolding all_by
  find_by conds r = elim (all_by conds r) [
    | none ↦ none
    | some (err x) ↦ some (err (query_failed x))
    | some (ok []) ↦ some (err (not_unique 0))
    | some (ok (e ∷ [])) ↦ some (ok e)
    | some (ok (e ∷ e' ∷ es)) ↦ some (err (not_unique (length (e ∷ e' ∷ es))))
  ]
