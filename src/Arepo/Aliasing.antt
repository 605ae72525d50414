-- ===== src/Arepo/Aliasing.antt =====
-- arepo/q/query.go: what a query that is built from another has of conditions, and when it loses one.
use arrower.Base.{
  ℕ, zero, suc, ◌+◌, ◌≤◌, ◌<◌, ◌≡◌, refl, ap, ◌∙◌, ◌==◌, nat_eq, ltb, if◌then◌else◌, length, get_or,
  Bytes, true, false, Option, none, List, [], ◌∷◌, ◌++◌, arith, inl, inr, Bool-cases,
}
use arrower.Base.Dict.{Dict, lookup, insert, lookup-insert}
use arrower.Arepo.Builder.{
  Slice, Arrays, take, write_at, array_of, read_slice, append, IsAllocated, Query, where_is,
}
use arrower.Arepo.Query.{Condition, equal}

same_place : (n : ℕ) → (n == n) ≡ true
same_place n = ground arith

other_place : (m n : ℕ) → m < n → (m == n) ≡ false
other_place m n less = ground (arith, less)

module _ {C : Type 0} where
  take-write_at :
      (n : ℕ) (c : C) (xs : List C)
      → n ≤ length xs
      → take (suc n) (write_at n c xs) ≡ take n xs ++ (c ∷ [])
  unfolding take write_at
  take-write_at zero c [] h = refl
  take-write_at zero c (x ∷ xs) h = refl
  take-write_at (suc n) c [] h = absurd (ground (arith, h))
  take-write_at (suc n) c (x ∷ xs) h = ap (λ l. x ∷ l) (take-write_at n c xs (ground (arith, h)))

  take-append :
      (n : ℕ) (c : C) (xs : List C)
      → n ≤ length xs
      → take (suc n) (take n xs ++ (c ∷ [])) ≡ take n xs ++ (c ∷ [])
  unfolding take
  take-append zero c xs h = refl
  take-append (suc n) c [] h = absurd (ground (arith, h))
  take-append (suc n) c (x ∷ xs) h = ap (λ l. x ∷ l) (take-append n c xs (ground (arith, h)))

  length-write_at : (n : ℕ) (c : C) (xs : List C) → n ≤ length xs → suc n ≤ length (write_at n c xs)
  unfolding write_at
  length-write_at zero c [] h = ground arith
  length-write_at zero c (x ∷ xs) h = ground arith
  length-write_at (suc n) c [] h = absurd (ground (arith, h))
  length-write_at (suc n) c (x ∷ xs) h = ground (arith, length-write_at n c xs (ground (arith, h)))

  abbrev in_place : C → Slice → Arrays C → Slice × Arrays C
  in_place c s h = (
    record s { len = suc s.len },
    record h { arrays = insert s.at (write_at s.len c (array_of s h)) h.arrays },
  )

  abbrev moved : (ℕ → ℕ) → C → Slice → Arrays C → Slice × Arrays C
  moved grow c s h = (
    record { at = h.free; len = suc s.len; cap = grow (suc s.len) },
    record { arrays = insert h.free (read_slice s h ++ (c ∷ [])) h.arrays; free = h.free + 1 },
  )

  append-in_place :
      (grow : ℕ → ℕ) (c : C) (s : Slice) (h : Arrays C)
      → ltb s.len s.cap ≡ true
      → append grow c s h ≡ in_place c s h
  unfolding append
  append-in_place grow c s h spare = rw (append, spare) refl

  append-moved :
      (grow : ℕ → ℕ) (c : C) (s : Slice) (h : Arrays C)
      → ltb s.len s.cap ≡ false
      → append grow c s h ≡ moved grow c s h
  unfolding append
  append-moved grow c s h none_left = rw (append, none_left) refl

  read_slice-insert :
      (s : Slice) (b free : ℕ) (xs : List C) (d : Dict ℕ (List C))
      → read_slice s (record { arrays = insert b xs d; free = free })
        ≡ take s.len (if s.at == b then xs else get_or [] (lookup s.at d))
  unfolding read_slice array_of
  read_slice-insert s b free xs d = ground (arith, lookup-insert s.at b xs d)

  read_slice-in_place :
      (c : C) (s : Slice) (h : Arrays C)
      → s.len ≤ length (array_of s h)
      → read_slice (in_place c s h).0 (in_place c s h).1 ≡ read_slice s h ++ (c ∷ [])
  read_slice-in_place c s h fits =
      read_slice-insert (in_place c s h).0 s.at h.free (write_at s.len c (array_of s h)) h.arrays
      ∙ rw (same_place s.at) (unfold read_slice in take-write_at s.len c (array_of s h) fits)

  read_slice-moved :
      (grow : ℕ → ℕ) (c : C) (s : Slice) (h : Arrays C)
      → s.len ≤ length (array_of s h)
      → read_slice (moved grow c s h).0 (moved grow c s h).1 ≡ read_slice s h ++ (c ∷ [])
  read_slice-moved grow c s h fits =
      read_slice-insert (moved grow c s h).0 h.free (h.free + 1) (read_slice s h ++ (c ∷ []))
        h.arrays
      ∙ rw (same_place h.free) (unfold read_slice in take-append s.len c (array_of s h) fits)

  take-write_at-below :
      (n : ℕ) (c : C) (xs : List C) → n ≤ length xs → take n (write_at n c xs) ≡ take n xs
  unfolding take write_at
  take-write_at-below zero c xs h = refl
  take-write_at-below (suc n) c [] h = absurd (ground (arith, h))
  take-write_at-below (suc n) c (x ∷ xs) h =
      ap (λ l. x ∷ l) (take-write_at-below n c xs (ground (arith, h)))

  read_slice-elsewhere :
      (s : Slice) (b free : ℕ) (xs : List C) (h : Arrays C)
      → s.at < b
      → read_slice s (record { arrays = insert b xs h.arrays; free = free }) ≡ read_slice s h
  unfolding read_slice array_of
  read_slice-elsewhere s b free xs h less =
      read_slice-insert s b free xs h.arrays ∙ rw (other_place s.at b less) refl

  array-in_place :
      (c : C) (s : Slice) (h : Arrays C)
      → array_of s (in_place c s h).1 ≡ write_at s.len c (array_of s h)
  unfolding array_of
  array-in_place c s h =
      ground
        (arith, same_place s.at, lookup-insert s.at s.at (write_at s.len c (array_of s h)) h.arrays)

  array-moved :
      (grow : ℕ → ℕ) (c : C) (s : Slice) (h : Arrays C)
      → s.at < h.free
      → array_of s (moved grow c s h).1 ≡ array_of s h
  unfolding array_of
  array-moved grow c s h less = ground (
    arith,
    other_place s.at h.free less,
    lookup-insert s.at h.free (read_slice s h ++ (c ∷ [])) h.arrays,
  )

  length-below : (n : ℕ) (c : C) (xs : List C) → n ≤ length xs → n ≤ length (write_at n c xs)
  length-below n c xs h = ground (arith, length-write_at n c xs h)

  read_slice-below :
      (c : C) (s : Slice) (h : Arrays C)
      → s.len ≤ length (array_of s h)
      → read_slice s (in_place c s h).1 ≡ read_slice s h
  unfolding read_slice
  read_slice-below c s h fits =
      ap (take s.len) (array-in_place c s h) ∙ take-write_at-below s.len c (array_of s h) fits

  append-append :
      (grow : ℕ → ℕ) (c d : C) (s : Slice) (h : Arrays C)
      → IsAllocated s h
      → (read_slice
            (append grow d s (append grow c s h).1).0
            (append grow d s (append grow c s h).1).1
          ≡ read_slice s h ++ (d ∷ []))
        × (read_slice (append grow c s h).0 (append grow d s (append grow c s h).1).1
            ≡ read_slice s h ++ ((if ltb s.len s.cap then d else c) ∷ []))
  append-append grow c d s h (there, fits) = elim (Bool-cases (ltb s.len s.cap)) [
    | inl spare ↦
        let (first, h1) = in_place c s h in
        let kept = array-in_place c s h in
        let one = append-in_place grow c s h spare in
        let two = append-in_place grow d s h1 spare in
        let last : read_slice (in_place d s h1).0 (in_place d s h1).1 ≡ read_slice s h ++ (d ∷ []) =
          read_slice-in_place d s h1 (rw kept (length-below s.len c (array_of s h) fits))
          ∙ ap (λ l. l ++ (d ∷ [])) (read_slice-below c s h fits) in
        (rw (one, two) last, rw (one, two, spare) last)
    | inr none_left ↦
        let (first, h1) = moved grow c s h in
        let one = append-moved grow c s h none_left in
        let two = append-moved grow d s h1 none_left in
        let same : array_of s h1 ≡ array_of s h = array-moved grow c s h there in
        (
          rw (one, two)
              (read_slice-moved grow d s h1 (rw same fits)
                ∙ ap (λ l. l ++ (d ∷ []))
                    (read_slice-elsewhere s h.free (h.free + 1) (read_slice s h ++ (c ∷ [])) h
                      there)),
          rw (one, two, none_left)
              (read_slice-elsewhere first (h.free + 1) (h.free + 1 + 1)
                  (read_slice s h1 ++ (d ∷ [])) h1 (ground arith)
                ∙ read_slice-moved grow c s h fits),
        )
  ]

module _ {V : Type 0} (grow : ℕ → ℕ) where
  abbrev is_value : Bytes → Option V → Condition V
  is_value field value = record {
    field = field;
    operator = equal;
    value = value;
    second_value = none;
  }

  -- Two queries that are built from the same one by a further condition each: the second has its own
  -- condition last. The first has its own only if there was no room behind the conditions that they
  -- share; with room it has that of the second.
  pub where_is-where_is :
      (f g : Bytes) (v w : Option V) (q : Query) (h : Arrays (Condition V))
      → IsAllocated q.conditions h
      → (read_slice
            (where_is grow g w q (where_is grow f v q h).1).0.conditions
            (where_is grow g w q (where_is grow f v q h).1).1
          ≡ read_slice q.conditions h
            ++ (record { field = g; operator = equal; value = w; second_value = none } ∷ []))
        × (read_slice
              (where_is grow f v q h).0.conditions
              (where_is grow g w q (where_is grow f v q h).1).1
            ≡ read_slice q.conditions h
              ++ ((if ltb q.conditions.len q.conditions.cap
                    then record { field = g; operator = equal; value = w; second_value = none }
                    else record { field = f; operator = equal; value = v; second_value = none })
                  ∷ []))
  unfolding where_is
  where_is-where_is f g v w q h there =
      append-append grow (is_value f v) (is_value g w) q.conditions h there
