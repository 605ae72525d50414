-- ===== src/Renderer/Transparent.antt =====
-- renderer/renderer.go: what is rendered is what would be rendered without the cache.
use mathlib.Core.Path.{subst}
use arrower.Base.{
  ◌≡◌, refl, sym, ◌∙◌, ◌==◌, bytes_eq, Bytes, Bool, true, false, Option, none, some, [], arith, ◌⊎◌,
  inl, inr, Bool-cases, Option-cases, option_intro, if_intro,
}
use arrower.Base.Dict.{Dict, insert, lookup-nil}
use arrower.Renderer.Name.{ParsedTemplate, key, template_name, names_component}
use arrower.Renderer.Views.{Engine, Files, Renderer, add_context, new, prepare_view_templates}
use arrower.Renderer.Data.{
  PageData, add_base_data, add_layout_data, get_merged_data, base_functions, layout_functions,
}
use arrower.Renderer.Render.{
  Outcome, ok, failed, panic, Argument, render, render_cached, reload, build_page, load_template,
  get_parsed_template, render_template, execute_with, execute_template, get_data, store_template,
}
use arrower.Renderer.Keys.{NoSlash, IsPlain}
use arrower.Renderer.Plain.{get_parsed_template-IsPlain}
use arrower.Renderer.Cached.{
  IsSound, IsBuilt, IsLoaded, load_page, load_empty, load_template-IsLoaded, build_page-IsBuilt,
  cached-IsBuilt,
}
use arrower.Renderer.Added.{add_context-IsSound, started-IsSound}

inr-injective : {A B : Type 0} {a b : B} → ◌≡◌ {A = A ⊎ B} (inr a) (inr b) → a ≡ b
inr-injective e = cc

reload-emptied :
    {Set F : Type 0} (r : Renderer Set F)
    → reload (record r { cache = [] }) ≡ record r { cache = [] }
unfolding reload
reload-emptied r = if_intro (λ x. x ≡ record r { cache = [] }) r.hot_reload (λ _. refl) (λ _. refl)

module _ {Set Lang F V Er S : Type 0} (engine : Engine Set Lang (Argument V) S)
    (call : F → S → (Dict Bytes V ⊎ Er) × S) (of_text : Bytes → V) where
  abbrev Sound : Outcome (Unit {0}) × Renderer Set F × S → Type 0
  Sound w = IsSound engine w.1

  execute_with-IsSound :
      (t : ParsedTemplate) (lang : Option Lang) (entry : Set × Bool) (r : Renderer Set F)
      (w : (Argument V ⊎ Er) × S)
      → IsSound engine r
      → IsBuilt engine r.views (key t) entry.0
      → Sound (execute_with engine call of_text t lang entry r w)
  unfolding execute_with execute_template
  execute_with-IsSound t lang entry r (inr e, s) sound built = sound
  execute_with-IsSound t none (set, flag) r (inl argument, s) sound built =
      cached-IsBuilt engine t set true r sound built
  execute_with-IsSound t (some lang) (set, true) r (inl argument, s) sound built = sound
  execute_with-IsSound t (some lang) (set, false) r (inl argument, s) sound built =
      option_intro Sound (engine.clone set) (λ _. sound) (λ set' _. sound)

  render_template-IsSound :
      (t : ParsedTemplate) (lang : Option Lang) (page : PageData V)
      (w : Outcome (Set × Bool) × Renderer Set F) (s : S)
      → IsLoaded engine t w
      → Sound (render_template engine call of_text t lang page w.0 w.1 s)
  unfolding render_template
  render_template-IsSound t lang page (failed e, r) s (sound, _) = sound
  render_template-IsSound t lang page (panic, r) s (sound, _) = sound
  render_template-IsSound t lang page (ok entry, r) s (sound, loaded) =
      if_intro Sound (engine.defined (template_name t) entry.0)
        (λ _.
          execute_with-IsSound t lang entry r (get_data engine call of_text r t page s) sound
            (loaded entry refl))
        (λ _. sound)

  reload-IsSound : (r : Renderer Set F) → IsSound engine r → IsSound engine (reload r)
  unfolding reload
  reload-IsSound r sound =
      let emptied : IsSound engine (record r { cache = [] }) = record {
        named = sound.named;
        cached = λ k entry there.
            let never : none ≡ some entry = sym (lookup-nil k) ∙ there in absurd (ground arith);
      } in
      if_intro (IsSound engine) r.hot_reload (λ _. emptied) (λ _. sound)

  render_cached-IsSound :
      (context name : Bytes) (lang : Option Lang) (page : PageData V) (r : Renderer Set F) (s : S)
      → NoSlash context
      → names_component name ≡ false
      → IsSound engine r
      → Sound (render_cached engine call of_text context name lang page r s)
  unfolding render_cached
  render_cached-IsSound context name lang page r s free is_page sound =
      option_intro Sound (get_parsed_template r.views context name) (λ _. sound)
        λ t parsed.
          let (plain, flag) =
            get_parsed_template-IsPlain r.views context name t sound.named free is_page parsed in
          render_template-IsSound t lang page (load_template engine t r) s
            (load_template-IsLoaded engine t r plain flag sound)

  -- What happens to a renderer that shows no components by themselves, and no context with a slash
  -- in its name or for the admin.
  pub data Step (r : Renderer Set F) : Renderer Set F → Type 0 where
    rendered :
        (context name : Bytes) (lang : Option Lang) (page : PageData V) (s : S)
        → NoSlash context
        → names_component name ≡ false
        → Step r (render engine call of_text context name lang page r s).1
    added : (name : Bytes) (files : Option Files) → Step r (add_context engine name files r).1
    base_data_added : (base : Bytes) (f : F) → Step r (add_base_data base f r).1
    layout_data_added :
        (context layout : Bytes) (f : F) → Step r (add_layout_data context layout f r).1

  pub data Reach (r : Renderer Set F) : Renderer Set F → Type 0 where
    here : Reach r r
    next : {r1 r2 : Renderer Set F} → Reach r r1 → Step r1 r2 → Reach r r2

  abbrev AfterAdding : Bool × Renderer Set F → Type 0
  AfterAdding w = IsSound engine w.1

  Step-IsSound : {r r' : Renderer Set F} → IsSound engine r → Step r r' → IsSound engine r'
  unfolding render add_base_data add_layout_data
  Step-IsSound {r} sound (rendered context name lang page s free is_page) =
      render_cached-IsSound context name lang page (reload r) s free is_page
        (reload-IsSound r sound)
  Step-IsSound {r} sound (added name files) = add_context-IsSound engine name files r sound
  Step-IsSound sound (base_data_added base f) =
      if_intro AfterAdding _ (λ _. record { named = sound.named; cached = sound.cached })
        (λ _. sound)
  Step-IsSound sound (layout_data_added context layout f) =
      if_intro AfterAdding (context == []) (λ _. sound)
        λ _.
          if_intro AfterAdding _ (λ _. record { named = sound.named; cached = sound.cached })
            (λ _. sound)

  pub Reach-IsSound : {r r' : Renderer Set F} → IsSound engine r → Reach r r' → IsSound engine r'
  Reach-IsSound sound here = sound
  Reach-IsSound sound (next reach step) = Step-IsSound (Reach-IsSound sound reach) step

  -- The same result and the same effects on the world.
  abbrev Alike : (a b : Outcome (Unit {0}) × Renderer Set F × S) → Type 0
  Alike a b = (a.0 ≡ b.0) × (a.2 ≡ b.2)

  abbrev emptied : Renderer Set F → Renderer Set F
  emptied r = record r { cache = [] }

  -- Without a language the template is executed alike, wherever it comes from.
  execute_with-Alike :
      (t : ParsedTemplate) (set : Set) (a b : Bool) (r r' : Renderer Set F)
      (w : (Argument V ⊎ Er) × S)
      → Alike
          (execute_with engine call of_text t none (set, a) r w)
          (execute_with engine call of_text t none (set, b) r' w)
  unfolding execute_with execute_template
  execute_with-Alike t set a b r r' (inr e, s) = (refl, refl)
  execute_with-Alike t set a b r r' (inl argument, s) = (refl, refl)

  abbrev finish :
      ParsedTemplate
      → PageData V
      → S
      → Outcome (Set × Bool) × Renderer Set F
      → Outcome (Unit {0}) × Renderer Set F × S
  finish t page s w = render_template engine call of_text t none page w.0 w.1 s

  get_data-cache :
      (t : ParsedTemplate) (page : PageData V) (r : Renderer Set F) (c : Dict Bytes (Set × Bool))
      (s : S)
      → get_data engine call of_text (record r { cache = c }) t page s
        ≡ get_data engine call of_text r t page s
  unfolding get_data get_merged_data base_functions layout_functions
  get_data-cache t page r c s = refl

  finish-Alike :
      (t : ParsedTemplate) (page : PageData V) (s : S) (set : Set) (a b : Bool) (r : Renderer Set F)
      (c d : Dict Bytes (Set × Bool))
      → Alike
          (finish t page s (ok (set, a), record r { cache = c }))
          (finish t page s (ok (set, b), record r { cache = d }))
  unfolding render_template
  finish-Alike t page s set a b r c d = elim (Bool-cases (engine.defined (template_name t) set)) [
    | inl there ↦
        rw (there, get_data-cache t page r c s, get_data-cache t page r d s)
          (execute_with-Alike t set a b (record r { cache = c }) (record r { cache = d })
            (get_data engine call of_text r t page s))
    | inr missing ↦ rw missing (refl, refl)
  ]

  loaded-Alike :
      (t : ParsedTemplate) (page : PageData V) (r : Renderer Set F) (s : S)
      → IsPlain t
      → t.render_as_admin_page ≡ false
      → IsSound engine r
      → Alike
          (finish t page s (load_template engine t r))
          (finish t page s (load_template engine t (emptied r)))
  unfolding render_template store_template
  loaded-Alike t page r s plain flag sound = rw (load_empty engine t (emptied r) plain.0 refl) (
      load_page engine
        (λ w. Alike (finish t page s w) (
          finish t page s
            (store_template engine t (emptied r) (build_page engine t r.views, r.views))))
        t r plain.0
        (λ entry there.
          rw
            (build_page-IsBuilt engine t r.views entry.0 plain flag
              (sound.cached (key t) entry there))
            (finish-Alike t page s entry.0 entry.1 false r r.cache
              (insert (key t) (entry.0, false) [])))
        (λ set built. rw built (
          finish-Alike t page s set false false r (insert (key t) (set, false) r.cache)
            (insert (key t) (set, false) [])))
        (λ e refused. rw refused (refl, refl)) (λ broken. rw broken (refl, refl)))

  render_cached-Alike :
      (context name : Bytes) (page : PageData V) (r : Renderer Set F) (s : S)
      → NoSlash context
      → names_component name ≡ false
      → IsSound engine r
      → Alike
          (render_cached engine call of_text context name none page r s)
          (render_cached engine call of_text context name none page (emptied r) s)
  unfolding render_cached
  render_cached-Alike context name page r s free is_page sound =
      elim (Option-cases (get_parsed_template r.views context name)) [
        | inl invalid ↦ rw (invalid, render_cached) (refl, refl)
        | inr (t, parsed) ↦
            let (plain, flag) =
              get_parsed_template-IsPlain r.views context name t sound.named free is_page parsed in
            rw (parsed, render_cached) (loaded-Alike t page r s plain flag sound)
      ]

  new-IsSound :
      (files : Files) (hot_reload : Bool) (r : Renderer Set F)
      → new engine (some files) hot_reload ≡ inr r
      → IsSound engine r
  unfolding new
  new-IsSound files hot_reload r e =
      elim (Option-cases (prepare_view_templates engine files false)) [
        | inl invalid ↦ absurd (ground arith)
        | inr (view, prepared) ↦
            subst (λ x. IsSound engine x) (inr-injective (rw (prepared, new) at e))
              (started-IsSound engine files view hot_reload prepared)
      ]

  -- In a renderer that is new, or in which contexts and data were added and pages were rendered in
  -- whatever order, in contexts without a slash in their names and not as components by
  -- themselves: such a page, rendered without a language, has the result and the output that it
  -- has with an empty cache.
  pub render-emptied :
      (files : Files) (hot_reload : Bool) (r r' : Renderer Set F) (context name : Bytes)
      (page : PageData V) (s : S)
      → new engine (some files) hot_reload ≡ inr r
      → Reach r r'
      → NoSlash context
      → names_component name ≡ false
      → Alike
          (render engine call of_text context name none page r' s)
          (render engine call of_text context name none page (emptied r') s)
  unfolding render reload
  render-emptied files hot_reload r r' context name page s made reach free is_page =
      let sound = Reach-IsSound (new-IsSound files hot_reload r made) reach in
      if_intro
        (λ (x : Renderer Set F).
          Alike (render_cached engine call of_text context name none page x s)
            (render_cached engine call of_text context name none page (reload (emptied r')) s))
        r'.hot_reload (λ _. rw (reload-emptied r') (refl, refl))
        (λ _.
          rw (reload-emptied r') (render_cached-Alike context name page r' s free is_page sound))
