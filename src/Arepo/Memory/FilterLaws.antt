-- ===== src/Arepo/Memory/FilterLaws.antt =====
-- AllBy and FindBy against a plain description of which entities a query is about.
use arrower.Base.{
  ℕ, ◌+◌, ◌≤◌, ◌≡◌, ◌↔◌, refl, ◌==◌, Eq, nat_eq, if◌then◌else◌, length, Bool, true, false, ◌&&◌,
  ◌||◌, is_some, not, Option, none, some, List, [], ◌∷◌, arith,
}
use arrower.Base.Dict.{values}
use arrower.Arepo.Errors.{Result, Error, ok, is_ok, is_not_found, fails_as}
use arrower.Arepo.Memory.State.{MemoryRepository}
use arrower.Arepo.Query.{Condition, field_name}
use arrower.Arepo.Memory.Filter.{Reflection, check, count_matches, filter_entities, all_by, find_by}

-- The method returns, and without an error.
abbrev pub answers_ok : {A : Type 0} → Option (Result A) → Bool
answers_ok none = false
answers_ok (some x) = is_ok x

-- The method returns with an error that the test accepts.
abbrev pub fails_with : {A : Type 0} → (Error → Bool) → Option (Result A) → Bool
fails_with test none = false
fails_with test (some x) = fails_as test x

module _ {E V : Type 0} ⦃veq : Eq V⦄ ⦃rf : Reflection E V⦄ where
  -- The entity has the field, which is exported, and the value that is looked for is not nil, of the
  -- field's kind, and can be compared with the field's.
  abbrev pub fits : E → Condition V → Bool
  fits e cond = elim cond.value [
    | none ↦ false
    | some wanted ↦
        let name = field_name rf.snake_case rf.fields cond.field in
        elim (rf.value e name) [
          | none ↦ false
          | some found ↦
              rf.kind wanted == rf.kind found
              && (rf.is_exported name && not (rf.is_uncomparable found wanted))
        ]
  ]

  -- The entity has the field and the value that is looked for is of its kind, but the field is not
  -- exported or the two cannot be compared.
  abbrev pub panics : E → Condition V → Bool
  panics e cond = elim cond.value [
    | none ↦ false
    | some wanted ↦
        let name = field_name rf.snake_case rf.fields cond.field in
        elim (rf.value e name) [
          | none ↦ false
          | some found ↦
              rf.kind wanted == rf.kind found
              && not (rf.is_exported name && not (rf.is_uncomparable found wanted))
        ]
  ]

  unfoldable pub some_panics : E → List (Condition V) → Bool
  some_panics e [] = false
  some_panics e (c ∷ cs) = panics e c || some_panics e cs

  unfoldable pub any_panics : List (Condition V) → List E → Bool
  unfolding some_panics
  any_panics cs [] = false
  any_panics cs (e ∷ es) = some_panics e cs || any_panics cs es

  -- The entity's field has the value that is looked for.
  abbrev pub meets : E → Condition V → Bool
  meets e cond = elim cond.value [
    | none ↦ false
    | some wanted ↦ elim (rf.value e (field_name rf.snake_case rf.fields cond.field)) [
      | none ↦ false
      | some found ↦ found == wanted
    ]
  ]

  unfoldable pub fits_all : E → List (Condition V) → Bool
  fits_all e [] = true
  fits_all e (c ∷ cs) = fits e c && fits_all e cs

  unfoldable pub meets_all : E → List (Condition V) → Bool
  meets_all e [] = true
  meets_all e (c ∷ cs) = meets e c && meets_all e cs

  unfoldable pub all_fit : List (Condition V) → List E → Bool
  unfolding fits_all
  all_fit cs [] = true
  all_fit cs (e ∷ es) = fits_all e cs && all_fit cs es

  unfoldable pub matching : List (Condition V) → List E → List E
  unfolding meets_all
  matching cs [] = []
  matching cs (e ∷ es) = let rest = matching cs es in if meets_all e cs then e ∷ rest else rest

  -- How many of the conditions the entity meets.
  met : E → List (Condition V) → ℕ
  met e [] = 0
  met e (c ∷ cs) = (if meets e c then 1 else 0) + met e cs

  check_lem :
      (e : E) (c : Condition V)
      → (answers_ok (check e c) ≡ fits e c)
        × (fits e c ≡ true → check e c ≡ some (ok (meets e c)))
        × (is_some (check e c) ≡ not (panics e c))
  unfolding check
  check_lem e c = ground arith

  count_matches_lem :
      (e : E) (cs : List (Condition V)) (n : ℕ)
      → (answers_ok (count_matches e cs n) ≡ fits_all e cs)
        × (fits_all e cs ≡ true → count_matches e cs n ≡ some (ok (n + met e cs)))
        × ((is_some (count_matches e cs n) || some_panics e cs) ≡ true)
  unfolding count_matches fits_all met some_panics
  count_matches_lem e [] n = ground arith
  count_matches_lem e (c ∷ cs) n =
      ground (arith, check_lem e c, count_matches_lem e cs n, count_matches_lem e cs (n + 1))

  met-le : (e : E) (cs : List (Condition V)) → met e cs ≤ length cs
  unfolding met
  met-le e [] = omega arith
  met-le e (c ∷ cs) = ground (arith, met-le e cs)

  met-eq-length : (e : E) (cs : List (Condition V)) → (met e cs == length cs) ≡ meets_all e cs
  unfolding met meets_all nat_eq
  met-eq-length e [] = refl
  met-eq-length e (c ∷ cs) = ground (arith, met-le e cs, met-eq-length e cs)

  filter_entities_lem :
      (cs : List (Condition V)) (es : List E)
      → (answers_ok (filter_entities cs es) ≡ all_fit cs es)
        × (all_fit cs es ≡ true → filter_entities cs es ≡ some (ok (matching cs es)))
        × ((is_some (filter_entities cs es) || any_panics cs es) ≡ true)
  unfolding filter_entities all_fit matching any_panics
  filter_entities_lem cs [] = ground arith
  filter_entities_lem cs (e ∷ es) =
      ground (arith, count_matches_lem e cs 0, filter_entities_lem cs es, met-eq-length e cs)

module _ {E V ID S : Type 0} ⦃veq : Eq V⦄ ⦃rf : Reflection E V⦄ where
  -- AllBy returns entities exactly when each condition fits each entity that is stored, and they are
  -- then those that meet every condition.
  all_by_lem :
      (cs : List (Condition V)) (r : MemoryRepository E ID S) (es : List E)
      → (all_by cs r ≡ some (ok es))
        ↔ ((all_fit cs (values r.collection) ≡ true) × (matching cs (values r.collection) ≡ es))
  unfolding all_by
  all_by_lem cs r es = ground (arith, filter_entities_lem cs (values r.collection))

  -- FindBy returns an entity exactly when each condition fits each entity that is stored and it is
  -- the only one that meets them all; every error that it returns is ErrNotFound; and it panics only
  -- if a condition is about a field of a stored entity that is not exported, or whose value cannot be
  -- compared with the one that is looked for.
  pub find_by_lem :
      (cs : List (Condition V)) (r : MemoryRepository E ID S) (e : E)
      → ((find_by cs r ≡ some (ok e)) ↔ (
          (all_fit cs (values r.collection) ≡ true) × (matching cs (values r.collection) ≡ e ∷ [])))
        × (fails_with is_not_found (find_by cs r)
            ≡ (is_some (find_by cs r) && not (answers_ok (find_by cs r))))
        × ((is_some (find_by cs r) || any_panics cs (values r.collection)) ≡ true)
  unfolding find_by is_not_found all_by
  find_by_lem cs r e = ground (arith, filter_entities_lem cs (values r.collection))
