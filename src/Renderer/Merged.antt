-- ===== src/Renderer/Merged.antt =====
-- renderer/renderer.go: which value a page finds under a name.
use arrower.Base.{
  ◌≡◌, refl, sym, ap, ◌∙◌, bytes_eq, Bytes, Option, none, some, List, [], ◌∷◌, ◌++◌, arith, ◌⊎◌,
  inl, inr, Sum-cases,
}
use arrower.Base.Dict.{Dict, lookup, lookup-insert}
use arrower.Renderer.Name.{ParsedTemplate}
use arrower.Renderer.Views.{Renderer}
use arrower.Renderer.Data.{
  PageData, insert_all, page_values, merge_results, merge_more, merge_functions, merge_page,
  base_functions, layout_functions, get_merged_data,
}

abbrev or_else : {V : Type 0} → Option V → Option V → Option V
or_else (some v) o = some v
or_else none o = o

module _ {V : Type 0} where
  lookup-insert_all :
      (k : Bytes) (d m : Dict Bytes V)
      → lookup k (insert_all d m) ≡ or_else (lookup k d) (lookup k m)
  unfolding insert_all lookup
  lookup-insert_all k [] m = refl
  lookup-insert_all k ((j, v) ∷ d) m =
      ground (arith, lookup-insert k j v (insert_all d m), lookup-insert_all k d m)

  -- The value of the last map that has one.
  abbrev pub last_value : Bytes → List (Dict Bytes V) → Option V
  last_value k [] = none
  last_value k (d ∷ ds) = or_else (last_value k ds) (lookup k d)

  last_value-append :
      (k : Bytes) (ds : List (Dict Bytes V)) (d : Dict Bytes V)
      → last_value k (ds ++ (d ∷ [])) ≡ or_else (lookup k d) (last_value k ds)
  last_value-append k [] d = ground arith
  last_value-append k (c ∷ ds) d = ground (arith, last_value-append k ds d)

module _ {F V Er S : Type 0} (call : F → S → (Dict Bytes V ⊎ Er) × S) where
  -- The functions called in their order, up to the first that fails.
  unfoldable pub call_all : List F → S → (List (Dict Bytes V) ⊎ Er) × S
  call_all [] s = (inl [], s)
  call_all (f ∷ fs) s =
      let (result, s1) = call f s in
      elim result [
        | inr e ↦ (inr e, s1)
        | inl d ↦
            let (rest, s2) = call_all fs s1 in
            (elim rest [ inr e ↦ inr e | inl ds ↦ inl (d ∷ ds) ], s2)
      ]

  -- A result has the last value of each name, after `m`, or it is the same error.
  abbrev pub HasLast : (Bytes → Option V) → List (Dict Bytes V) ⊎ Er → Dict Bytes V ⊎ Er → Type 0
  HasLast before (inr e) result = result ≡ inr e
  HasLast before (inl ds) result =
      (m : Dict Bytes V) × (result ≡ inl m)
      × ((k : Bytes) → lookup k m ≡ or_else (last_value k ds) (before k))

  -- One more map at the front.
  HasLast-cons :
      (d m : Dict Bytes V) (rest : List (Dict Bytes V) ⊎ Er) (result : Dict Bytes V ⊎ Er)
      → HasLast (λ k. lookup k (insert_all d m)) rest result
      → HasLast (λ k. lookup k m) (elim rest [ inr e ↦ inr e | inl ds ↦ inl (d ∷ ds) ]) result
  HasLast-cons d m (inr e) result same = same
  HasLast-cons d m (inl ds) result (m', same, last) =
      (m', same, λ k. last k ∙ ground (arith, lookup-insert_all k d m))

  merge_results_lem :
      (fs : List F) (m : Dict Bytes V) (s : S)
      → HasLast (λ k. lookup k m) (call_all fs s).0 (merge_results call fs m s).0
        × ((merge_results call fs m s).1 ≡ (call_all fs s).1)
  unfolding merge_results call_all
  merge_results_lem [] m s = ((m, refl, λ k. refl), refl)
  merge_results_lem (f ∷ fs) m s = elim (Sum-cases (call f s).0) [
    | inr (e, failed) ↦ rw (failed, merge_results, call_all) (refl, refl)
    | inl (d, given) ↦
        let (last, world) = merge_results_lem fs (insert_all d m) (call f s).1 in
        rw (given, merge_results, call_all) (HasLast-cons d m _ _ last, world)
  ]

  merge_results-append :
      (fs gs : List F) (m : Dict Bytes V) (s : S)
      → merge_results call (fs ++ gs) m s ≡ merge_more call gs (merge_results call fs m s)
  unfolding merge_results merge_more
  merge_results-append [] gs m s = refl
  merge_results-append (f ∷ fs) gs m s = elim (Sum-cases (call f s).0) [
    | inr (e, failed) ↦ rw (failed, merge_results) refl
    | inl (d, given) ↦
        rw (given, merge_results) (merge_results-append fs gs (insert_all d m) (call f s).1)
  ]

  -- What getMergedData returns after its functions and the page's own data.
  HasLast-page :
      (of_text : Bytes → V) (page : PageData V) (ds : List (Dict Bytes V) ⊎ Er)
      (result : Dict Bytes V ⊎ Er) (s : S)
      → HasLast (λ k. none) ds result
      → HasLast
          (λ k. none)
          (elim ds [ inr e ↦ inr e | inl ds ↦ inl (ds ++ (page_values of_text page ∷ [])) ])
          (merge_page call of_text page (result, s)).0
        × ((merge_page call of_text page (result, s)).1 ≡ s)
  unfolding merge_page
  HasLast-page of_text page (inr e) result s same = rw same (refl, refl)
  HasLast-page of_text page (inl ds) result s (m, same, last) = rw same (
    (
      insert_all (page_values of_text page) m,
      refl,
      λ k. ground (
        arith,
        lookup-insert_all k (page_values of_text page) m,
        last k,
        last_value-append k ds (page_values of_text page),
      ),
    ),
    refl,
  )

  get_merged_data-one :
      {Set : Type 0} (of_text : Bytes → V) (r : Renderer Set F) (t : ParsedTemplate)
      (page : PageData V) (s : S)
      → get_merged_data call of_text r t page s
        ≡ merge_page call of_text page
            (merge_results call (base_functions r t ++ layout_functions r t) [] s)
  unfolding get_merged_data merge_functions
  get_merged_data-one of_text r t page s =
      ap (merge_page call of_text page)
        (sym (merge_results-append (base_functions r t) (layout_functions r t) [] s))

  -- The data functions of the base layout are called in the order in which they were added, then those
  -- of the context's layout, until one fails, and then its error is returned. If none fails, each name
  -- has the value that the page's own data gives it, or else the last function that gives it one; a
  -- name that none of them gives a value has none.
  pub get_merged_data_lem :
      {Set : Type 0} (of_text : Bytes → V) (r : Renderer Set F) (t : ParsedTemplate)
      (page : PageData V) (s : S)
      → let called = call_all (base_functions r t ++ layout_functions r t) s in
        let got = get_merged_data call of_text r t page s in
        HasLast
          (λ k. none)
          (elim called.0 [ inr e ↦ inr e | inl ds ↦ inl (ds ++ (page_values of_text page ∷ [])) ])
          got.0
        × (got.1 ≡ called.1)
  unfolding lookup
  get_merged_data_lem of_text r t page s =
      let fs = base_functions r t ++ layout_functions r t in
      let (last, world) = merge_results_lem fs [] s in
      let (page_last, page_world) =
        HasLast-page of_text page (call_all fs s).0 (merge_results call fs [] s).0
          (merge_results call fs [] s).1 last in
      rw (get_merged_data-one of_text r t page s) (page_last, page_world ∙ world)
