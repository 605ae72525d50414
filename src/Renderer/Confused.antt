-- ===== src/Renderer/Confused.antt =====
-- renderer/renderer.go: what a page in the cache is wrongly used for. The key of the cache does not
-- say whether the page is shown in the admin's layout, and a template that has been executed cannot
-- be cloned for a language.
use mathlib.Core.Path.{subst}
use arrower.Base.{
  ℕ, ◌≡◌, ◌≢◌, refl, sym, ap, ◌∙◌, nat_eq, bytes_eq, if◌then◌else◌, Bytes, Bool, true, false,
  Option, none, some, [], ◌∷◌, ◌++◌, arith, ◌⊎◌, inl, inr, Option-cases, if_intro,
}
use arrower.Base.Dict.{Dict, lookup, insert, lookup-insert}
use arrower.Base.Text.{is_prefix, trim_prefix}
use arrower.Renderer.Name.{ParsedTemplate, key, template_name, names_component, parse_template_name}
use arrower.Renderer.Views.{Engine, Renderer}
use arrower.Renderer.Data.{PageData, get_merged_data, base_functions, layout_functions}
use arrower.Renderer.Render.{
  Outcome, not_exists_fragment, ok, failed, Argument, render, render_cached, reload, load_template,
  complete, is_context, get_parsed_template, render_template, execute_with, execute_template,
  get_data, admin_dir,
}
use arrower.Renderer.Keys.{NoSlash}
use arrower.Renderer.Plain.{is_context-NoSlash, parse_template_name-is_component}
use arrower.Renderer.Cached.{load_page}

-- The context as the admin sees it: /admin/ and its name.
abbrev pub in_admin : Bytes → Bytes
in_admin context = b'/' ∷ (admin_dir ++ context)

is_context-in_admin : (context : Bytes) → is_context (in_admin context) ≡ (true, true, context)
unfolding is_context is_prefix trim_prefix nat_eq
is_context-in_admin context = refl

module _ {Set Lang F V Er S : Type 0} (engine : Engine Set Lang (Argument V) S)
    (call : F → S → (Dict Bytes V ⊎ Er) × S) (of_text : Bytes → V) where
  abbrev finish :
      ParsedTemplate
      → Option Lang
      → PageData V
      → S
      → Outcome (Set × Bool) × Renderer Set F
      → Outcome (Unit {0}) × Renderer Set F × S
  finish t lang page s w = render_template engine call of_text t lang page w.0 w.1 s

  -- The template is in the cache and was executed; all else is as before.
  IsShown : ParsedTemplate → Renderer Set F → Renderer Set F → Type 0
  IsShown t r r' =
      (set : Set) × (lookup (key t) r'.cache ≡ some (set, true))
      × (r'.views ≡ r.views)
      × (r'.hot_reload ≡ r.hot_reload)

  execute_with-IsShown :
      (t : ParsedTemplate) (set : Set) (flag : Bool) (r : Renderer Set F)
      (w : (Argument V ⊎ Er) × S)
      → (execute_with engine call of_text t none (set, flag) r w).0 ≡ ok tt
      → IsShown t r (execute_with engine call of_text t none (set, flag) r w).1
  unfolding execute_with execute_template IsShown
  execute_with-IsShown t set flag r (inr e, s) shown = absurd (ground arith)
  execute_with-IsShown t set flag r (inl argument, s) shown =
      (set, ground (arith, lookup-insert (key t) (key t) (set, true) r.cache), refl, refl)

  abbrev Shows : ParsedTemplate → Renderer Set F → Outcome (Unit {0}) × Renderer Set F × S → Type 0
  Shows t r x = x.0 ≡ ok tt → IsShown t r x.1

  finish-IsShown :
      (t : ParsedTemplate) (page : PageData V) (entry : Set × Bool) (r : Renderer Set F) (s : S)
      → Shows t r (finish t none page s (ok entry, r))
  unfolding render_template
  finish-IsShown t page entry r s =
      if_intro (Shows t r) (engine.defined (template_name t) entry.0)
        (λ _. execute_with-IsShown t entry.0 entry.1 r (get_data engine call of_text r t page s))
        (λ _ e. absurd (ground arith))

  load-IsShown :
      (t : ParsedTemplate) (page : PageData V) (r : Renderer Set F) (s : S)
      → t.is_component ≡ false
      → Shows t r (finish t none page s (load_template engine t r))
  unfolding IsShown render_template
  load-IsShown t page r s is_page =
      load_page engine (λ w. Shows t r (finish t none page s w)) t r is_page
        (λ entry there. finish-IsShown t page entry r s)
        (λ set built.
          finish-IsShown t page (set, false)
            (record r { cache = insert (key t) (set, false) r.cache }) s)
        (λ e refused shown. absurd (ground arith)) (λ broken shown. absurd (ground arith))

  asked : Bytes → Renderer Set F → ParsedTemplate → ParsedTemplate
  asked context r u = complete r.views (is_context context) u

  -- Without hot reload, a name that can be parsed is looked up or built, and finished.
  render-finish :
      (context name : Bytes) (lang : Option Lang) (page : PageData V) (r : Renderer Set F) (s : S)
      (u : ParsedTemplate)
      → parse_template_name name ≡ some u
      → r.hot_reload ≡ false
      → render engine call of_text context name lang page r s
        ≡ finish (asked context r u) lang page s (load_template engine (asked context r u) r)
  unfolding render reload asked
  render-finish context name lang page r s u parsed cold =
      let same : reload r ≡ r = ap (λ b. if b then record r { cache = [] } else r) cold in
      ap (λ x. render_cached engine call of_text context name lang page x s) same
      ∙ rw (parsed, render_cached, get_parsed_template) refl

  load_found :
      (t : ParsedTemplate) (entry : Set × Bool) (r : Renderer Set F)
      → lookup (key t) r.cache ≡ some entry
      → load_template engine t r ≡ (ok entry, r)
  unfolding load_template
  load_found t entry r there = rw (there, load_template) refl

  asked-is_component :
      (context : Bytes) (r : Renderer Set F) (u : ParsedTemplate)
      → u.is_component ≡ false
      → (asked context r u).is_component ≡ false
  unfolding asked complete
  asked-is_component context r u is_page = is_page

  -- After a page was shown: what it is rendered with, whatever language is asked for.
  render_shown :
      (context name : Bytes) (page : PageData V) (r : Renderer Set F) (s : S) (u : ParsedTemplate)
      → parse_template_name name ≡ some u
      → u.is_component ≡ false
      → r.hot_reload ≡ false
      → (render engine call of_text context name none page r s).0 ≡ ok tt
      → let r' = (render engine call of_text context name none page r s).1 in
        (set : Set) × (r'.hot_reload ≡ false)
        × (lookup (key (asked context r' u)) r'.cache ≡ some (set, true))
  unfolding IsShown asked
  render_shown context name page r s u parsed is_page cold shown =
      let same = render-finish context name none page r s u parsed cold in
      let t = asked context r u in
      let (set, there, views, hot) =
        subst (Shows t r) (sym same)
          (load-IsShown t page r s (asked-is_component context r u is_page)) shown in
      let cache = (render engine call of_text context name none page r s).1.cache in
      (
        set,
        hot ∙ cold,
        ap (λ v. lookup (key (complete v (is_context context) u)) cache) views ∙ there,
      )

  shown_name :
      (context name : Bytes) (page : PageData V) (r : Renderer Set F) (s : S)
      → names_component name ≡ false
      → (render engine call of_text context name none page r s).0 ≡ ok tt
      → (u : ParsedTemplate) × (parse_template_name name ≡ some u) × (u.is_component ≡ false)
  unfolding render
  shown_name context name page r s is_page shown = elim (Option-cases (parse_template_name name)) [
    | inl invalid ↦
        let refused = rw (invalid, render, render_cached, get_parsed_template) at shown in
        absurd (ground arith)
    | inr (u, parsed) ↦ (u, parsed, parse_template_name-is_component name u parsed ∙ is_page)
  ]

  never :
      (t : ParsedTemplate) (lang : Lang) (set : Set) (r : Renderer Set F)
      (w : (Argument V ⊎ Er) × S)
      → (execute_with engine call of_text t (some lang) (set, true) r w).0 ≢ ok tt
  unfolding execute_with execute_template
  never t lang set r (inr e, s) f = absurd (ground arith)
  never t lang set r (inl argument, s) f = absurd (ground arith)

  executed_language :
      (t : ParsedTemplate) (lang : Lang) (page : PageData V) (set : Set) (r : Renderer Set F)
      (s : S)
      → (finish t (some lang) page s (ok (set, true), r)).0 ≢ ok tt
  unfolding render_template
  executed_language t lang page set r s =
      if_intro (λ (x : Outcome (Unit {0}) × Renderer Set F × S). x.0 ≢ ok tt)
        (engine.defined (template_name t) set)
        (λ _. never t lang set r (get_data engine call of_text r t page s))
        (λ _ e. absurd (ground arith))

  -- Without hot reload: after a page, which is not a component by itself, was shown without a
  -- language, the next attempt to show it in a language does not succeed, whatever the data.
  render-language :
      (context name : Bytes) (page page' : PageData V) (lang : Lang) (r : Renderer Set F) (s s' : S)
      → names_component name ≡ false
      → r.hot_reload ≡ false
      → (render engine call of_text context name none page r s).0 ≡ ok tt
      → (render engine call of_text context name
          (some lang)
          page'
          (render engine call of_text context name none page r s).1
          s').0
        ≢ ok tt
  render-language context name page page' lang r s s' is_page cold shown e =
      let (u, parsed, page_type) = shown_name context name page r s is_page shown in
      let (set, cold', there) = render_shown context name page r s u parsed page_type cold shown in
      let r' = (render engine call of_text context name none page r s).1 in
      let t = asked context r' u in
      let found =
        render-finish context name (some lang) page' r' s' u parsed cold'
        ∙ ap (finish t (some lang) page' s') (load_found t (set, true) r' there) in
      executed_language t lang page' set r' s' (sym (ap (λ x. x.0) found) ∙ e)

  -- The same template, but in the admin's layout.
  abbrev for_admin : ParsedTemplate → ParsedTemplate
  for_admin t = record t { render_as_admin_page = true }

  asked-in_admin :
      (c : ℕ) (context : Bytes) (r : Renderer Set F) (u : ParsedTemplate)
      → NoSlash (c ∷ context)
      → asked (in_admin (c ∷ context)) r u ≡ for_admin (asked (c ∷ context) r u)
  unfolding asked complete nat_eq bytes_eq
  asked-in_admin c context r u free =
      rw (is_context-in_admin (c ∷ context), is_context-NoSlash (c ∷ context) free) refl

  execute_with-for_admin :
      (t : ParsedTemplate) (set : Set) (r : Renderer Set F) (w : (Argument V ⊎ Er) × S)
      → execute_with engine call of_text (for_admin t) none (set, true) r w
        ≡ execute_with engine call of_text t none (set, true) r w
  unfolding execute_with execute_template template_name key
  execute_with-for_admin t set r (inr e, s) = refl
  execute_with-for_admin t set r (inl argument, s) = refl

  finish-for_admin :
      (t : ParsedTemplate) (page : PageData V) (set : Set) (r : Renderer Set F) (s : S)
      → finish (for_admin t) none page s (ok (set, true), r)
        ≡ finish t none page s (ok (set, true), r)
  unfolding render_template template_name key get_data get_merged_data base_functions
      layout_functions
  finish-for_admin t page set r s =
      ap
        (λ x.
          if engine.defined (template_name t) set then x else (failed not_exists_fragment, r, s))
        (execute_with-for_admin t set r (get_data engine call of_text r t page s))

  -- Without hot reload: after a page, which is not a component by itself, was shown in its
  -- context, whose name is not empty and has no slash, and without a language, its next rendering
  -- in the context as the admin sees it is the one in its own context, whatever the data: the
  -- result, the renderer and the output are the same.
  pub render-in_admin :
      (c : ℕ) (context name : Bytes) (page page' : PageData V) (r : Renderer Set F) (s s' : S)
      → NoSlash (c ∷ context)
      → names_component name ≡ false
      → r.hot_reload ≡ false
      → (render engine call of_text (c ∷ context) name none page r s).0 ≡ ok tt
      → let r' = (render engine call of_text (c ∷ context) name none page r s).1 in
        render engine call of_text (in_admin (c ∷ context)) name none page' r' s'
        ≡ render engine call of_text (c ∷ context) name none page' r' s'
  unfolding key
  render-in_admin c context name page page' r s s' free is_page cold shown =
      let own = c ∷ context in
      let (u, parsed, page_type) = shown_name own name page r s is_page shown in
      let (set, cold', there) = render_shown own name page r s u parsed page_type cold shown in
      let r' = (render engine call of_text own name none page r s).1 in
      let t = asked own r' u in
      render-finish (in_admin own) name none page' r' s' u parsed cold'
      ∙ ap (λ x. finish x none page' s' (load_template engine x r'))
          (asked-in_admin c context r' u free)
      ∙ ap (finish (for_admin t) none page' s') (load_found (for_admin t) (set, true) r' there)
      ∙ finish-for_admin t page' set r' s'
      ∙ sym (
          render-finish own name none page' r' s' u parsed cold'
          ∙ ap (finish t none page' s') (load_found t (set, true) r' there))
