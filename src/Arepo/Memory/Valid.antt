-- ===== src/Arepo/Memory/Valid.antt =====
-- The well-formed collections of a `MemoryRepository`, and the loops of the methods on many
-- entities against a description of what they leave under a key.
use arrower.Base.{
  ◌≡◌, refl, true, ap, ◌≢◌, ◌==◌, Eq, if◌then◌else◌, contains, Option, none, some, List, [], ◌∷◌,
  ◌++◌, arith, get_or, Option-cases, inl, inr,
}
use arrower.Base.Dict.{
  Dict, lookup, insert, erase, values, NodupKeys, lookup-insert, lookup-erase, insert-NodupKeys,
  erase-NodupKeys,
}
use arrower.Arepo.Memory.State.{Schema}
use arrower.Arepo.Memory.Batch.{put_all, replace_all, olds_of, remove_all}

abbrev pub or_else : {A : Type 0} → Option A → Option A → Option A
or_else none b = b
or_else (some a) _ = some a

module _ {E ID : Type 0} ⦃eq : Eq ID⦄ ⦃sch : Schema E ID⦄ where
  -- Every entity is stored once, under its own ID, and never under the zero ID.
  pub record IsValid (d : Dict ID E) : Type 0 where
    pub own : (id : ID) (e : E) → lookup id d ≡ some e → sch.get_id e ≡ id
    pub none_at_zero : lookup sch.zero_id d ≡ none
    pub nodup : NodupKeys d

  -- The last of the entities that has this ID.
  unfoldable pub last_of : ID → List E → Option E
  last_of j [] = none
  last_of j (e ∷ es) = or_else (last_of j es) (if j == sch.get_id e then some e else none)

  pub lookup-put_all :
      (j : ID) (es : List E) (d : Dict ID E)
      → lookup j (put_all es d) ≡ or_else (last_of j es) (lookup j d)
  unfolding put_all last_of
  lookup-put_all j [] d = refl
  lookup-put_all j (e ∷ es) d =
      ground
        (arith, lookup-put_all j es (insert (sch.get_id e) e d), lookup-insert j (sch.get_id e) e d)

  pub replace_all-eq-put_all :
      (es olds : List E) (d : Dict ID E) → (replace_all es olds d).1 ≡ put_all es d
  unfolding replace_all put_all
  replace_all-eq-put_all [] olds d = refl
  replace_all-eq-put_all (e ∷ es) olds d = replace_all-eq-put_all es _ _

  pub lookup-remove_all :
      (j : ID) (ids : List ID) (olds : List E) (d : Dict ID E)
      → lookup j (remove_all ids olds d).1 ≡ (if contains ids j then none else lookup j d)
  unfolding remove_all
  lookup-remove_all j [] olds d = refl
  lookup-remove_all j (id ∷ ids) olds d = ground (
    arith,
    lookup-remove_all j ids (olds ++ (get_or sch.zero_entity (lookup id d) ∷ [])) (erase id d),
    lookup-erase j id d,
  )

  -- The old entities that `UpdateAll` collects are, under each key that it writes, what was there.
  pub last_of-olds_of :
      (j : ID) (es olds : List E) (d : Dict ID E)
      → IsValid d
      → olds_of es d ≡ some olds
      → last_of j olds ≡ elim (last_of j es) [ none ↦ none | some _ ↦ lookup j d ]
  unfolding olds_of last_of
  last_of-olds_of j [] [] d v h = refl
  last_of-olds_of j [] (o ∷ olds) d v h = ground arith
  last_of-olds_of j (e ∷ es) [] d v h = ground arith
  last_of-olds_of j (e ∷ es) (o ∷ olds) d v h =
      ground (arith, last_of-olds_of j es olds d v, v.own (sch.get_id e) o)

  pub last_of-append :
      (j : ID) (es fs : List E) → last_of j (es ++ fs) ≡ or_else (last_of j fs) (last_of j es)
  unfolding last_of
  last_of-append j [] fs = ground arith
  last_of-append j (e ∷ es) fs = ground (arith, last_of-append j es fs)

  -- Each of the ids is there when its turn to be removed comes.
  abbrev pub Removable : List ID → Dict ID E → Type 0
  Removable [] d = Unit
  Removable (id ∷ ids) d = (lookup id d ≢ none) × Removable ids (erase id d)

  pub erase-IsValid : (id : ID) {d : Dict ID E} → IsValid d → IsValid (erase id d)
  erase-IsValid id {d} v = record {
    own = λ j e h. v.own j e (ground (arith, lookup-erase j id d));
    none_at_zero = ground (arith, lookup-erase sch.zero_id id d, v.none_at_zero);
    nodup = erase-NodupKeys id d v.nodup;
  }

  pub insert-IsValid :
      (e : E) {d : Dict ID E}
      → sch.get_id e ≢ sch.zero_id
      → IsValid d
      → IsValid (insert (sch.get_id e) e d)
  insert-IsValid e {d} h v = record {
    own = λ j o p. ground (arith, lookup-insert j (sch.get_id e) e d, v.own j o);
    none_at_zero = ground (arith, lookup-insert sch.zero_id (sch.get_id e) e d, v.none_at_zero);
    nodup = insert-NodupKeys (sch.get_id e) e d v.nodup;
  }

  Removable-found :
      (j : ID) (ids : List ID) (d : Dict ID E)
      → Removable ids d
      → contains ids j ≡ true
      → lookup j d ≢ none
  Removable-found j [] d _ h = cc
  Removable-found j (id ∷ ids) d (there, rem) h =
      ground (arith, Removable-found j ids (erase id d) rem, lookup-erase j id d)

  -- What `UpdateAll` writes was there.
  pub olds_of-found :
      (j : ID) (es olds : List E) (d : Dict ID E)
      → olds_of es d ≡ some olds
      → last_of j es ≢ none
      → lookup j d ≢ none
  unfolding olds_of last_of
  olds_of-found j [] olds d h n = ground arith
  olds_of-found j (e ∷ es) [] d h n = ground arith
  olds_of-found j (e ∷ es) (o ∷ olds) d h n = ground (arith, olds_of-found j es olds d)

  pub last_of-remove_all :
      (j : ID) (ids : List ID) (olds : List E) (d : Dict ID E)
      → IsValid d
      → Removable ids d
      → last_of j (remove_all ids olds d).0
        ≡ (if contains ids j then lookup j d else last_of j olds)
  unfolding remove_all last_of
  last_of-remove_all j [] olds d v h = refl
  last_of-remove_all j (id ∷ ids) olds d v (there, h) = elim (Option-cases (lookup id d)) [
    | inl absent ↦ absurd (there absent)
    | inr (old, found) ↦ ground (
      arith,
      ap (get_or sch.zero_entity) found,
      Removable-found j ids (erase id d) h,
      last_of-remove_all j ids (olds ++ (get_or sch.zero_entity (lookup id d) ∷ [])) (erase id d)
          (erase-IsValid id v) h,
      lookup-erase j id d,
      last_of-append j olds (get_or sch.zero_entity (lookup id d) ∷ []),
      v.own id old found,
    )
  ]

  last_of-values_of_own :
      (j : ID) (d : Dict ID E)
      → ((id : ID) (e : E) → lookup id d ≡ some e → sch.get_id e ≡ id)
      → NodupKeys d
      → last_of j (values d) ≡ lookup j d
  unfolding last_of values lookup
  last_of-values_of_own j [] own _ = refl
  last_of-values_of_own j ((k, e) ∷ d) own (fresh, u) = ground (
    arith,
    own k e (ground arith),
    last_of-values_of_own j d (λ id o h. own id o (ground arith)) u,
  )

  pub last_of-values : (j : ID) (d : Dict ID E) → IsValid d → last_of j (values d) ≡ lookup j d
  last_of-values j d v = last_of-values_of_own j d v.own v.nodup
