-- ===== src/Renderer/Data.antt =====
-- renderer/renderer.go: the data of a page, from the functions that are added for its layouts
-- (`AddBaseData`, `AddLayoutData`) and from the caller (`getMergedData`).
use arrower.Base.{
  ◌==◌, bytes_eq, if◌then◌else◌, get_or, is_some, Bytes, Bool, true, false, none, some, ◌⊎◌, inl,
  inr, List, [], ◌∷◌, ◌++◌,
}
use arrower.Base.Dict.{Dict, lookup, insert}
use arrower.Renderer.Name.{ParsedTemplate}
use arrower.Renderer.Views.{Renderer, default_name, shared_views}

-- What `reflect` says of the data that the caller gives: a map to any values or to texts, a struct or
-- a slice with the name of its type or of its elements' type, or anything else.
pub data PageData (V : Type 0) : Type 0 where
  nil : PageData V
  any_map : Dict Bytes V → PageData V
  string_map : Dict Bytes Bytes → PageData V
  struct : Bytes → V → PageData V
  slice : Bytes → V → PageData V
  other : V → PageData V

module _ {V : Type 0} where
  -- for k, v := range d { data[k] = v }
  unfoldable pub insert_all : Dict Bytes V → Dict Bytes V → Dict Bytes V
  unfolding insert
  insert_all [] m = m
  insert_all ((k, v) ∷ d) m = insert k v (insert_all d m)

  unfoldable pub texts : (Bytes → V) → Dict Bytes Bytes → Dict Bytes V
  texts of_text [] = []
  texts of_text ((k, s) ∷ d) = (k, of_text s) ∷ texts of_text d

  -- What getMergedData takes from the caller's data.
  unfoldable pub page_values : (Bytes → V) → PageData V → Dict Bytes V
  unfolding texts
  page_values of_text nil = []
  page_values of_text (any_map d) = d
  page_values of_text (string_map d) = texts of_text d
  page_values of_text (struct name v) = (name, v) ∷ []
  page_values of_text (slice name v) = (name ++ (b's' ∷ []), v) ∷ []
  page_values of_text (other v) = []

-- `call` is the call of a data function in a context, over the world.
module _ {F V Er S : Type 0} (call : F → S → (Dict Bytes V ⊎ Er) × S) where
  -- A loop of getMergedData, which ends at the first error.
  unfoldable pub merge_results : List F → Dict Bytes V → S → (Dict Bytes V ⊎ Er) × S
  unfolding insert_all
  merge_results [] m s = (inl m, s)
  merge_results (f ∷ fs) m s =
      let (result, s') = call f s in
      elim result [ inr e ↦ (inr e, s') | inl d ↦ merge_results fs (insert_all d m) s' ]

  unfoldable pub merge_page :
      (Bytes → V) → PageData V → (Dict Bytes V ⊎ Er) × S → (Dict Bytes V ⊎ Er) × S
  unfolding insert_all page_values
  merge_page of_text page (inr e, s) = (inr e, s)
  merge_page of_text page (inl m, s) = (inl (insert_all (page_values of_text page) m), s)

  -- The second loop, if the first came to its end.
  unfoldable pub merge_more : List F → (Dict Bytes V ⊎ Er) × S → (Dict Bytes V ⊎ Er) × S
  unfolding merge_results
  merge_more fs (inr e, s) = (inr e, s)
  merge_more fs (inl m, s) = merge_results fs m s

  -- The functions of the base layout and those of the context's layout.
  unfoldable pub merge_functions : List F → List F → S → (Dict Bytes V ⊎ Er) × S
  unfolding merge_results merge_more
  merge_functions base layout s = merge_more layout (merge_results base [] s)

abbrev or_default : Bytes → Bytes
or_default name = if name == [] then default_name else name

module _ {Set F : Type 0} where
  unfoldable pub base_functions : Renderer Set F → ParsedTemplate → List F
  unfolding lookup
  base_functions r t = get_or [] (lookup t.base_layout r.base_data)

  unfoldable pub layout_functions : Renderer Set F → ParsedTemplate → List F
  unfolding lookup
  layout_functions r t =
      get_or [] (lookup t.context_layout (get_or [] (lookup t.context r.context_data)))

  -- The layouts of a context; a context that was not added has none.
  unfoldable pub layouts_of : Bytes → Renderer Set F → Dict Bytes Bytes
  unfolding lookup
  layouts_of name r = elim (lookup name r.views) [ none ↦ [] | some view ↦ view.raw_layouts ]

  -- AddBaseData; the result says whether it succeeds.
  unfoldable pub add_base_data : Bytes → F → Renderer Set F → Bool × Renderer Set F
  unfolding layouts_of lookup insert
  add_base_data name f r =
      let base = or_default name in
      if is_some (lookup base (layouts_of shared_views r))
      then (
        true,
        record r {
          base_data = insert base (get_or [] (lookup base r.base_data) ++ (f ∷ [])) r.base_data;
        },
      )
      else (false, r)

  -- AddLayoutData
  unfoldable pub add_layout_data : Bytes → Bytes → F → Renderer Set F → Bool × Renderer Set F
  unfolding layouts_of lookup insert
  add_layout_data context name f r =
      let layout = or_default name in
      let of_context = get_or [] (lookup context r.context_data) in
      if context == shared_views
      then (false, r)
      else if is_some (lookup layout (layouts_of context r))
      then (
        true,
        record r {
          context_data =
              insert context
                (insert layout (get_or [] (lookup layout of_context) ++ (f ∷ [])) of_context)
                r.context_data;
        },
      )
      else (false, r)

-- getMergedData
module _ {Set F V Er S : Type 0} (call : F → S → (Dict Bytes V ⊎ Er) × S)
    (of_text : Bytes → V) where
  unfoldable pub get_merged_data :
      Renderer Set F → ParsedTemplate → PageData V → S → (Dict Bytes V ⊎ Er) × S
  unfolding merge_page merge_functions base_functions layout_functions
  get_merged_data r t page s =
      merge_page call of_text page
        (merge_functions call (base_functions r t) (layout_functions r t) s)
