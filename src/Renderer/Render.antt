-- ===== src/Renderer/Render.antt =====
-- renderer/renderer.go: `Render`, with the cache of templates, `getParsedTemplate` and
-- `buildPageTemplate`. `Must` panics on an error, and so does a call of a template that is nil.
use arrower.Base.{
  ◌==◌, bytes_eq, ◌&&◌, not, if◌then◌else◌, get_or, Bytes, Bool, true, false, Option, none, some,
  ◌⊎◌, inl, inr, [], ◌∷◌,
}
use arrower.Base.Dict.{Dict, lookup, insert}
use arrower.Base.Text.{is_prefix, trim_prefix}
use arrower.Renderer.Name.{ParsedTemplate, parse_template_name, key, template_name}
use arrower.Renderer.Views.{Engine, View, Renderer, shared_views}
use arrower.Renderer.Data.{PageData, get_merged_data}

pub data RenderError : Type 0 where
  render_failed not_exists_component not_exists_page not_exists_fragment not_exists_layout :
      RenderError

pub data Outcome (A : Type 0) : Type 0 where
  ok : A → Outcome A
  failed : RenderError → Outcome A
  panic : Outcome A

abbrev pub admin : Bytes
admin = b'a' ∷ b'd' ∷ b'm' ∷ b'i' ∷ b'n' ∷ []

abbrev slash : Bytes
slash = b'/' ∷ []

abbrev pub admin_dir : Bytes
admin_dir = b'a' ∷ b'd' ∷ b'm' ∷ b'i' ∷ b'n' ∷ b'/' ∷ []

-- isContext: whether it is a context, whether it is shown in the admin's layout, and its name.
unfoldable pub is_context : Bytes → Bool × Bool × Bytes
unfolding is_prefix trim_prefix
is_context [] = (false, false, shared_views)
is_context (c ∷ context) =
    let name = trim_prefix slash (c ∷ context) in
    if is_prefix admin_dir name
    then (true, true, trim_prefix admin_dir name)
    else (true, false, c ∷ context)

module _ {Set : Type 0} where
  -- A context that was not added has no default layout.
  unfoldable pub default_layout_of : Bytes → Dict Bytes (View Set) → Bytes
  unfolding lookup
  default_layout_of name views = elim (lookup name views) [
    | none ↦ []
    | some view ↦ view.default_layout
  ]

  -- getParsedTemplate, once the name is parsed.
  unfoldable pub complete :
      Dict Bytes (View Set) → Bool × Bool × Bytes → ParsedTemplate → ParsedTemplate
  unfolding default_layout_of
  complete views (is_context', is_admin, name) t =
      let layout =
        if is_context' && t.context_layout == []
        then default_layout_of name views
        else t.context_layout in
      let is_shared = name == shared_views in
      let base = if is_shared then layout else t.base_layout in
      record t {
        context = name;
        render_as_admin_page = is_admin;
        context_layout = if is_shared then [] else layout;
        base_layout =
            if not t.is_component && base == [] then default_layout_of shared_views views else base;
      }

  unfoldable pub get_parsed_template : Dict Bytes (View Set) → Bytes → Bytes → Option ParsedTemplate
  unfolding complete is_context parse_template_name
  get_parsed_template views context name = elim (parse_template_name name) [
    | none ↦ none
    | some t ↦ some (complete views (is_context context) t)
  ]

-- {{block "content" .}}{{end}}
abbrev content_block : Bytes
content_block =
    b'{' ∷ b'{' ∷ b'b' ∷ b'l' ∷ b'o' ∷ b'c' ∷ b'k' ∷ b' ' ∷ b'"' ∷ b'c' ∷ b'o' ∷ b'n' ∷ b't' ∷ b'e'
    ∷ b'n' ∷ b't' ∷ b'"' ∷ b' ' ∷ b'.' ∷ b'}' ∷ b'}' ∷ b'{' ∷ b'{' ∷ b'e' ∷ b'n' ∷ b'd' ∷ b'}'
    ∷ b'}' ∷ []

abbrev content : Bytes
content = b'c' ∷ b'o' ∷ b'n' ∷ b't' ∷ b'e' ∷ b'n' ∷ b't' ∷ []

abbrev layout : Bytes
layout = b'l' ∷ b'a' ∷ b'y' ∷ b'o' ∷ b'u' ∷ b't' ∷ []

-- The rest after an error that is wrapped in ErrRenderFailed.
abbrev pub then_parse : {A B : Type 0} → Option A → (A → Outcome B) → Outcome B
then_parse none k = failed render_failed
then_parse (some a) k = k a

module _ {Set Lang Data S : Type 0} (engine : Engine Set Lang Data S) where
  -- The page of the context, or else the shared one.
  unfoldable pub parse_page : Bytes → Option (View Set) → View Set → Set → Outcome Set
  unfolding lookup
  parse_page page shared own set = elim (lookup page own.raw_pages) [
    | some text ↦ then_parse (engine.parse content text set) ok
    | none ↦ elim shared [
      | none ↦ failed not_exists_page
      | some view ↦ elim (lookup page view.raw_pages) [
        | none ↦ failed not_exists_page
        | some text ↦ then_parse (engine.parse content text set) ok
      ]
    ]
  ]

  -- The views of the admin context are needed for its layouts only; `base` is the base layout.
  unfoldable pub parse_admin_layout : Bytes → Bytes → Option (View Set) → Set → Outcome Set
  unfolding lookup
  parse_admin_layout base context_layout none set = failed not_exists_layout
  parse_admin_layout base context_layout (some view) set =
      if get_or [] (lookup base view.raw_layouts) == []
      then failed not_exists_layout
      else then_parse (engine.parse layout (get_or [] (lookup context_layout view.raw_layouts)) set)
          ok

  -- `cache_key` is the key of the template.
  unfoldable pub parse_layouts :
      (cache_key context base context_layout : Bytes) (as_admin : Bool)
      → Option (View Set)
      → View Set
      → Option (View Set)
      → Set
      → Outcome Set
  unfolding lookup parse_admin_layout
  parse_layouts cache_key context base context_layout as_admin shared own of_admin set =
      let layouts : Dict Bytes Bytes = elim shared [ none ↦ [] | some view ↦ view.raw_layouts ] in
      elim (lookup base layouts) [
        | none ↦ failed not_exists_layout
        | some text ↦ then_parse (engine.parse cache_key text set) λ with_base.
            then_parse
              (if context == []
                then some with_base
                else engine.parse layout (get_or [] (lookup context_layout own.raw_layouts))
                    with_base)
              λ with_layout.
                if as_admin
                then parse_admin_layout base context_layout of_admin with_layout
                else ok with_layout
      ]

  unfoldable pub build_with :
      (cache_key context base context_layout page : Bytes) (as_admin : Bool)
      → Option (View Set)
      → Option (View Set)
      → Option (View Set)
      → Outcome Set
  unfolding parse_page parse_layouts
  build_with cache_key context base context_layout page as_admin shared none of_admin = panic
  build_with cache_key context base context_layout page as_admin shared (some own) of_admin =
      then_parse (engine.clone own.components) λ set.
        let with_layouts : Outcome Set =
          if base == [] && context_layout == []
          then then_parse (engine.parse cache_key content_block set) ok
          else parse_layouts cache_key context base context_layout as_admin shared own of_admin
              set in
        elim with_layouts [
          | ok set' ↦ parse_page page shared own set'
          | failed e ↦ failed e
          | panic ↦ panic
        ]

  -- buildPageTemplate for a page.
  unfoldable pub build_page : ParsedTemplate → Dict Bytes (View Set) → Outcome Set
  unfolding build_with key lookup
  build_page t views =
      build_with (key t) t.context t.base_layout t.context_layout t.page t.render_as_admin_page
        (lookup shared_views views) (lookup t.context views) (lookup admin views)

  -- buildPageTemplate for a component, which gets its key as a second name in the context's views.
  unfoldable pub build_component :
      ParsedTemplate → Dict Bytes (View Set) → Outcome Set × Dict Bytes (View Set)
  unfolding lookup insert key
  build_component t views = elim (lookup t.context views) [
    | none ↦ (panic, views)
    | some view ↦ elim (engine.defined t.fragment view.components) [
      | false ↦ (failed not_exists_component, views)
      | true ↦ elim (engine.add_tree (key t) t.fragment view.components) [
        | none ↦ (failed render_failed, views)
        | some set ↦ (
          then_parse (engine.clone set) ok,
          insert t.context (record view { components = set }) views,
        )
      ]
    ]
  ]

  unfoldable pub build_page_template :
      ParsedTemplate → Dict Bytes (View Set) → Outcome Set × Dict Bytes (View Set)
  unfolding build_component build_page
  build_page_template t views =
      if t.is_component then build_component t views else (build_page t views, views)

  unfoldable pub store_template :
      {F : Type 0}
      → ParsedTemplate
      → Renderer Set F
      → Outcome Set × Dict Bytes (View Set)
      → Outcome (Set × Bool) × Renderer Set F
  unfolding insert key
  store_template t r (ok set, views) =
      (ok (set, false), record r { views = views; cache = insert (key t) (set, false) r.cache })
  store_template t r (failed e, views) = (failed e, record r { views = views })
  store_template t r (panic, views) = (panic, record r { views = views })

  -- The template from the cache, or a new one, which is put there.
  unfoldable pub load_template :
      {F : Type 0} → ParsedTemplate → Renderer Set F → Outcome (Set × Bool) × Renderer Set F
  unfolding lookup build_page_template store_template key
  load_template t r = elim (lookup (key t) r.cache) [
    | some entry ↦ (ok entry, r)
    | none ↦ store_template t r (build_page_template t r.views)
  ]

-- With hot reload each Render deletes all keys of the cache. The views are not read again.
unfoldable pub reload : {Set F : Type 0} → Renderer Set F → Renderer Set F
reload r = if r.hot_reload then record r { cache = [] } else r

-- The data that a template is executed with: that of the caller for a fragment, else the merged map.
pub data Argument (V : Type 0) : Type 0 where
  merged : Dict Bytes V → Argument V
  given : PageData V → Argument V

unfoldable pub as_argument : {V Er S : Type 0} → (Dict Bytes V ⊎ Er) × S → (Argument V ⊎ Er) × S
as_argument (inl values, s) = (inl (merged values), s)
as_argument (inr e, s) = (inr e, s)

module _ {Set Lang F V Er S : Type 0} (engine : Engine Set Lang (Argument V) S)
    (call : F → S → (Dict Bytes V ⊎ Er) × S) (of_text : Bytes → V) where
  unfoldable pub get_data : Renderer Set F → ParsedTemplate → PageData V → S → (Argument V ⊎ Er) × S
  unfolding get_merged_data as_argument
  get_data r t page s =
      if t.fragment == []
      then as_argument (get_merged_data call of_text r t page s)
      else (inl (given page), s)

  -- ExecuteTemplate: with a language a clone is executed, and else the template of the cache itself.
  unfoldable pub execute_template :
      ParsedTemplate
      → Option Lang
      → Set × Bool
      → Argument V
      → Renderer Set F
      → S
      → Outcome (Unit {0}) × Renderer Set F × S
  unfolding insert key template_name
  execute_template t none (set, executed) argument r s =
      let r' = record r { cache = insert (key t) (set, true) r.cache } in
      let (succeeded, s') = engine.execute (template_name t) set none argument s in
      (if succeeded then ok tt else failed render_failed, r', s')
  execute_template t (some lang) (set, true) argument r s = (panic, r, s)
  execute_template t (some lang) (set, false) argument r s = elim (engine.clone set) [
    | none ↦ (panic, r, s)
    | some set' ↦
        let (succeeded, s') = engine.execute (template_name t) set' (some lang) argument s in
        (if succeeded then ok tt else failed render_failed, r, s')
  ]

  unfoldable pub execute_with :
      ParsedTemplate
      → Option Lang
      → Set × Bool
      → Renderer Set F
      → (Argument V ⊎ Er) × S
      → Outcome (Unit {0}) × Renderer Set F × S
  unfolding execute_template
  execute_with t lang entry r (inr e, s) = (failed render_failed, r, s)
  execute_with t lang entry r (inl argument, s) = execute_template t lang entry argument r s

  -- Render, once the template is there.
  unfoldable pub render_template :
      ParsedTemplate
      → Option Lang
      → PageData V
      → Outcome (Set × Bool)
      → Renderer Set F
      → S
      → Outcome (Unit {0}) × Renderer Set F × S
  unfolding get_data execute_with template_name
  render_template t lang page (failed e) r s = (failed e, r, s)
  render_template t lang page panic r s = (panic, r, s)
  render_template t lang page (ok entry) r s =
      if engine.defined (template_name t) entry.0
      then execute_with t lang entry r (get_data r t page s)
      else (failed not_exists_fragment, r, s)

  -- Render, once the cache may be used: in the context `context`, of the template `name`, in the
  -- language of the Go context.
  unfoldable pub render_cached :
      Bytes
      → Bytes
      → Option Lang
      → PageData V
      → Renderer Set F
      → S
      → Outcome (Unit {0}) × Renderer Set F × S
  unfolding get_parsed_template load_template render_template
  render_cached context name lang page r s = elim (get_parsed_template r.views context name) [
    | none ↦ (failed render_failed, r, s)
    | some t ↦ let (out, r') = load_template engine t r in render_template t lang page out r' s
  ]

  unfoldable pub render :
      Bytes
      → Bytes
      → Option Lang
      → PageData V
      → Renderer Set F
      → S
      → Outcome (Unit {0}) × Renderer Set F × S
  unfolding render_cached reload
  render context name lang page r s = render_cached context name lang page (reload r) s
