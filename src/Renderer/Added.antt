-- ===== src/Renderer/Added.antt =====
-- renderer/renderer.go: adding a context leaves the views of the others as they are.
use mathlib.Core.Path.{subst}
use mathlib.Core.Option.{some-injective}
use arrower.Base.{
  ◌≡◌, ◌≢◌, sym, ap, ◌∙◌, ◌==◌, bytes_eq, if◌then◌else◌, is_some, Bytes, Bool, true, false, Option,
  none, some, List, [], ◌∷◌, arith, option_intro, if_intro,
}
use arrower.Base.Chain.{>>=-eq-some}
use arrower.Base.Dict.{Dict, lookup, insert, lookup-insert, lookup-nil}
use arrower.Renderer.Views.{
  Engine, View, Files, Renderer, ContextError, shared_views, add_context, merge_components,
  default_of, default_name, prepare_view_templates, parse_components, read_files, layout_name,
  base_name, page_name,
}
use arrower.Renderer.Keys.{NoArrow}
use arrower.Renderer.Plain.{NoArrow-nil, NoArrow-default}
use arrower.Renderer.Cached.{Grows-IsBuilt, IsSound}

default_of-NoArrow :
    (name : Bytes → Bytes) (files : List (Bytes × Option Bytes)) → NoArrow (default_of name files)
unfolding default_of
default_of-NoArrow name [] = NoArrow-nil
default_of-NoArrow name ((file, text) ∷ files) =
    if_intro NoArrow (name file == default_name) (λ _. NoArrow-default)
      (λ _. default_of-NoArrow name files)

prepare_view_templates-NoArrow :
    {Set Lang Data S : Type 0} (engine : Engine Set Lang Data S) (files : Files) (flag : Bool)
    {view : View Set}
    → prepare_view_templates engine files flag ≡ some view
    → NoArrow view.default_layout
unfolding prepare_view_templates
prepare_view_templates-NoArrow engine files flag e =
    let (components, _, e1) = >>=-eq-some files.components _ e in
    let (set, _, e2) = >>=-eq-some (parse_components engine components engine.empty) _ e1 in
    let (pages, _, e3) = >>=-eq-some files.pages _ e2 in
    let (raw_pages, _, e4) = >>=-eq-some (read_files page_name pages []) _ e3 in
    let (layouts, _, e5) = >>=-eq-some files.layouts _ e4 in
    let (raw_layouts, _, e6) =
      >>=-eq-some (read_files (if flag then layout_name else base_name) layouts []) _ e5 in
    subst NoArrow (ap (λ v. v.default_layout) (some-injective _ _ e6))
      (default_of-NoArrow (if flag then layout_name else base_name) layouts)

-- A view is put under a name.
abbrev Puts :
    {Set : Type 0} → Bytes → View Set → Dict Bytes (View Set) → Dict Bytes (View Set) → Type 0
Puts name view views views' =
    (k : Bytes) → lookup k views' ≡ (if k == name then some view else lookup k views)

-- A name that is not empty, as the test says.
differs : (a b : Bytes) → a == b ≡ false → b ≢ a
differs a b e p = absurd (ground arith)

once :
    {Set : Type 0} (name : Bytes) (view : View Set) (views : Dict Bytes (View Set))
    → Puts name view views (insert name view views)
once name view views k = lookup-insert k name view views

twice :
    {Set : Type 0} (name : Bytes) (view view' : View Set) (views : Dict Bytes (View Set))
    → Puts name view' views (insert name view' (insert name view views))
twice name view view' views k =
    ground
      (arith, lookup-insert k name view' (insert name view views), lookup-insert k name view views)

module _ {Set Lang Data S F : Type 0} (engine : Engine Set Lang Data S) where
  -- What is added to a sound renderer leaves it sound.
  added :
      (name : Bytes) (view : View Set) (r : Renderer Set F) (views : Dict Bytes (View Set))
      → [] ≢ name
      → is_some (lookup name r.views) ≡ false
      → NoArrow view.default_layout
      → Puts name view r.views views
      → IsSound engine r
      → IsSound engine (record r { views = views })
  added name view r views named fresh clean puts sound = record {
    named = λ k v there. elim (bytes_eq.dec k name) [
      | yes same ↦
          let put : some view ≡ some v = sym (ground (arith, puts k)) ∙ there in
          subst NoArrow (ap (λ w. w.default_layout) (some-injective _ _ put)) clean
      | no differ ↦ sound.named k v (sym (ground (arith, puts k)) ∙ there)
    ];
    cached = λ k entry there.
        Grows-IsBuilt engine r.views views k entry.0
          (
            ground (arith, puts []),
            λ j known.
                let differ : j ≢ name =
                  λ p. absurd (cc (ap (λ n. is_some (lookup n r.views)) p, known, fresh)) in
                ground (arith, puts j),
          )
          (sound.cached k entry there);
  }

  abbrev Sound : Option ContextError × Renderer Set F → Type 0
  Sound w = IsSound engine w.1

  merge_components-IsSound :
      (name : Bytes) (view : View Set) (r : Renderer Set F)
      → [] ≢ name
      → is_some (lookup name r.views) ≡ false
      → NoArrow view.default_layout
      → IsSound engine r
      → IsSound engine (merge_components engine name view r).1
  unfolding merge_components
  merge_components-IsSound name view r filled fresh clean sound =
      let first =
        added name view r (insert name view r.views) filled fresh clean (once name view r.views)
          sound in
      option_intro Sound (lookup shared_views (insert name view r.views)) (λ _. first)
        λ shared _.
          option_intro Sound (engine.clone shared.components) (λ _. first)
            λ set _.
              let whole = record view { components = engine.add_all view.components set } in
              added name whole r (insert name whole (insert name view r.views)) filled fresh clean
                (twice name view whole r.views) sound

  -- A renderer with the shared views alone.
  pub started-IsSound :
      (files : Files) (view : View Set) (hot_reload : Bool)
      → prepare_view_templates engine files false ≡ some view
      → IsSound engine {F = F} (record {
        cache = [];
        views = insert shared_views view [];
        base_data = [];
        context_data = [];
        hot_reload = hot_reload;
      })
  started-IsSound files view hot_reload prepared = record {
    named = λ k v there. elim (bytes_eq.dec k shared_views) [
      | yes same ↦
          let put : some view ≡ some v =
            sym (ground (arith, once shared_views view [] k)) ∙ there in
          subst NoArrow (ap (λ w. w.default_layout) (some-injective _ _ put))
            (prepare_view_templates-NoArrow engine files false prepared)
      | no differ ↦
          let never : none ≡ some v =
            sym (ground (arith, once shared_views view [] k, lookup-nil {V = View Set} k))
            ∙ there in
          absurd (ground arith)
    ];
    cached = λ k entry there.
        let never : none ≡ some entry = sym (lookup-nil k) ∙ there in absurd (ground arith);
  }

  pub add_context-IsSound :
      (name : Bytes) (files : Option Files) (r : Renderer Set F)
      → IsSound engine r
      → IsSound engine (add_context engine name files r).1
  unfolding add_context merge_components
  add_context-IsSound name none r sound = sound
  add_context-IsSound name (some files) r sound =
      if_intro Sound (name == []) (λ _. sound)
        λ filled.
          if_intro Sound (is_some (lookup name r.views)) (λ _. sound)
            λ fresh.
              option_intro Sound (prepare_view_templates engine files true) (λ _. sound)
                λ view prepared.
                  merge_components-IsSound name view r (differs name [] filled) fresh
                    (prepare_view_templates-NoArrow engine files true prepared) sound
