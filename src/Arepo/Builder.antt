-- ===== src/Arepo/Builder.antt =====
-- arepo/q/query.go: the queries that `Where` and `Is` build. A query is copied, but its conditions are
-- a slice, and copies share the array behind it.
use arrower.Base.{
  ℕ, zero, suc, ◌+◌, ◌≤◌, ◌<◌, nat_eq, ltb, if◌then◌else◌, length, get_or, Bytes, Bool, Option,
  none, some, List, [], ◌∷◌, ◌++◌,
}
use arrower.Arepo.Query.{Condition, equal}
use arrower.Base.Dict.{Dict, lookup, insert}

-- Go's slices: where the array is, how many elements are in use, and how many there is room for.
pub record Slice : Type 0 where
  pub at : ℕ
  pub len : ℕ
  pub cap : ℕ

-- The arrays, and the first place that is free.
pub record Arrays (C : Type 0) : Type 0 where
  pub arrays : Dict ℕ (List C)
  pub free : ℕ

unfoldable pub take {ℓ} : {A : Type ℓ} → ℕ → List A → List A
take zero xs = []
take (suc n) [] = []
take (suc n) (x ∷ xs) = x ∷ take n xs

-- xs[n] = x, or one element more at the end
unfoldable pub write_at {ℓ} : {A : Type ℓ} → ℕ → A → List A → List A
write_at n x [] = x ∷ []
write_at zero x (y ∷ ys) = x ∷ ys
write_at (suc n) x (y ∷ ys) = y ∷ write_at n x ys

module _ {C : Type 0} where
  unfoldable pub array_of : Slice → Arrays C → List C
  array_of s h = get_or [] (lookup s.at h.arrays)

  unfoldable pub read_slice : Slice → Arrays C → List C
  unfolding take array_of
  read_slice s h = take s.len (array_of s h)

  -- append(s, c); `grow` is the room that Go makes where there is none.
  unfoldable pub append : (ℕ → ℕ) → C → Slice → Arrays C → Slice × Arrays C
  unfolding write_at array_of read_slice
  append grow c s h =
      if ltb s.len s.cap
      then (
        record s { len = suc s.len },
        record h { arrays = insert s.at (write_at s.len c (array_of s h)) h.arrays },
      )
      else (
        record { at = h.free; len = suc s.len; cap = grow (suc s.len) },
        record { arrays = insert h.free (read_slice s h ++ (c ∷ [])) h.arrays; free = h.free + 1 },
      )

  -- The slice is in an array that is there.
  abbrev pub IsAllocated : Slice → Arrays C → Type 0
  IsAllocated s h = (s.at < h.free) × (s.len ≤ length (array_of s h))

-- Query. Where and Or copy it; groups are left out.
pub record Query : Type 0 where
  pub conditions : Slice
  pub ordering : Option (Bytes × Bool)

module _ {V : Type 0} (grow : ℕ → ℕ) where
  -- q.Where(field).Is(value)
  unfoldable pub where_is :
      Bytes → Option V → Query → Arrays (Condition V) → Query × Arrays (Condition V)
  unfolding append
  where_is field value q h =
      let (s, h') =
        append grow (record { field = field; operator = equal; value = value; second_value = none })
          q.conditions h in
      (record q { conditions = s }, h')

-- q.OrderBy(field).Ascending(), or Descending()
unfoldable pub order_by : Bytes → Bool → Query → Query
order_by field ascending q = record q { ordering = some (field, ascending) }
