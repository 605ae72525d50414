-- ===== src/Tests/Builder.antt =====
-- Queries of three and four conditions, and the theorem on their slices.
use arrower.Base.{ℕ, nat_eq, ltb, ◌≡◌, if◌then◌else◌, Bytes, none, some, [], ◌∷◌, ◌++◌, arith}
use arrower.Base.Dict.{lookup}
use arrower.Arepo.Query.{Condition, equal}
use arrower.Arepo.Builder.{Arrays, array_of, read_slice, IsAllocated, Query, where_is}
use arrower.Arepo.Aliasing.{where_is-where_is}

-- Room for four elements behind a slice of three, as Go makes it.
abbrev four : ℕ → ℕ
four n = 4

abbrev is : Bytes → ℕ → Condition ℕ
is field value = record { field = field; operator = equal; value = some value; second_value = none }

abbrev three_conditions : Query
three_conditions = record { conditions = record { at = 0; len = 3; cap = 4 }; ordering = none }

abbrev three_stored : Arrays (Condition ℕ)
three_stored = record {
  arrays = (0, is (b'a' ∷ []) 1 ∷ is (b'b' ∷ []) 2 ∷ is (b'c' ∷ []) 3 ∷ []) ∷ [];
  free = 1;
}

three-IsAllocated : IsAllocated three_conditions.conditions three_stored
unfolding array_of lookup nat_eq
three-IsAllocated = ground arith

where_is-where_is_example :
    (read_slice
        (where_is four
          (b'y' ∷ [])
          (some 5)
          three_conditions
          (where_is four (b'x' ∷ []) (some 4) three_conditions three_stored).1).0.conditions
        (where_is four
          (b'y' ∷ [])
          (some 5)
          three_conditions
          (where_is four (b'x' ∷ []) (some 4) three_conditions three_stored).1).1
      ≡ read_slice three_conditions.conditions three_stored ++ (is (b'y' ∷ []) 5 ∷ []))
    × (read_slice
          (where_is four (b'x' ∷ []) (some 4) three_conditions three_stored).0.conditions
          (where_is four
            (b'y' ∷ [])
            (some 5)
            three_conditions
            (where_is four (b'x' ∷ []) (some 4) three_conditions three_stored).1).1
        ≡ read_slice three_conditions.conditions three_stored
          ++ ((if ltb 3 4 then is (b'y' ∷ []) 5 else is (b'x' ∷ []) 4) ∷ []))
where_is-where_is_example =
    where_is-where_is four (b'x' ∷ []) (b'y' ∷ []) (some 4) (some 5) three_conditions three_stored
      three-IsAllocated
