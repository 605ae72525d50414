-- ===== src/Renderer/Plain.antt =====
-- renderer/renderer.go: the templates that are asked for in a context without a slash in its name are
-- told apart by their keys.
use mathlib.Core.Path.{subst}
use mathlib.Core.Option.{some-injective}
use arrower.Base.{
  ◌≡◌, refl, sym, ap, ◌∙◌, ◌==◌, nat_eq, bytes_eq, ◌&&◌, not, Bytes, Bool, false, some, List, [],
  ◌∷◌, arith, inl, inr, Bool-cases, Option-cases, if_intro, option_intro,
}
use arrower.Base.Dict.{Dict, lookup}
use arrower.Base.Text.{contains_text, is_prefix, trim_prefix, split_by}
use arrower.Renderer.Name.{
  ParsedTemplate, parse_template_name, parse_elements, parse_fragments, checked, is_invalid,
  template_separator, fragment_separator, names_component, trim,
}
use arrower.Renderer.Views.{View, shared_views, default_name}
use arrower.Renderer.Render.{
  is_context, complete, default_layout_of, get_parsed_template, admin_dir,
}
use arrower.Renderer.Keys.{NoSlash, NoArrow, IsPlain}

pub NoArrow-nil : NoArrow []
unfolding contains_text is_prefix
NoArrow-nil = refl

pub NoArrow-default : NoArrow default_name
unfolding contains_text is_prefix nat_eq
NoArrow-default = refl

-- What parseTemplateName checks of the layouts.
abbrev IsChecked : Bool → ParsedTemplate → Type 0
IsChecked component t =
    (t.is_component ≡ component) × NoArrow t.base_layout × NoArrow t.context_layout

checked-IsChecked :
    (base layout page fragment : Bytes) (component : Bool) {t : ParsedTemplate}
    → checked base layout page fragment component ≡ some t
    → IsChecked component t
unfolding checked is_invalid
checked-IsChecked base layout page fragment component e = (ground arith, ground arith, ground arith)

parse_fragments-IsChecked :
    (base layout page : Bytes) (parts : List Bytes) (component : Bool) {t : ParsedTemplate}
    → parse_fragments base layout page parts component ≡ some t
    → IsChecked component t
unfolding parse_fragments
parse_fragments-IsChecked base layout page [] component e =
    checked-IsChecked base layout page [] component e
parse_fragments-IsChecked base layout page (p ∷ []) component e =
    checked-IsChecked base layout page [] component e
parse_fragments-IsChecked base layout page (p ∷ f ∷ []) component e =
    elim (Bool-cases (trim f == [])) [
      | inl empty ↦ absurd (ground arith)
      | inr some_text ↦
          checked-IsChecked base layout (trim p) (trim f) component (sym (rw some_text refl) ∙ e)
    ]
parse_fragments-IsChecked base layout page (p ∷ f ∷ g ∷ more) component e = absurd (ground arith)

parse_elements-IsChecked :
    (parts : List Bytes) (component : Bool) {t : ParsedTemplate}
    → parse_elements parts component ≡ some t
    → IsChecked component t
unfolding parse_elements
parse_elements-IsChecked [] component e = absurd (ground arith)
parse_elements-IsChecked (page ∷ []) component e =
    parse_fragments-IsChecked [] [] (trim page) (split_by fragment_separator 0 (trim page))
      component e
parse_elements-IsChecked (l ∷ page ∷ []) component e =
    parse_fragments-IsChecked [] (trim l) (trim page) (split_by fragment_separator 0 (trim page))
      component e
parse_elements-IsChecked (b ∷ l ∷ page ∷ []) component e =
    parse_fragments-IsChecked (trim b) (trim l) (trim page)
      (split_by fragment_separator 0 (trim page)) component e
parse_elements-IsChecked (b ∷ l ∷ page ∷ p ∷ more) component e = absurd (ground arith)

-- A name of a component is one that starts with the separator.
pub parse_template_name-is_component :
    (name : Bytes) (t : ParsedTemplate)
    → parse_template_name name ≡ some t
    → t.is_component ≡ names_component name
unfolding parse_template_name
parse_template_name-is_component name t e =
    (parse_elements-IsChecked (split_by template_separator 0 name) (names_component name) e).0

admin_dir-NoSlash : (s : Bytes) → NoSlash s → is_prefix admin_dir s ≡ false
unfolding is_prefix
admin_dir-NoSlash [] h = refl
admin_dir-NoSlash (a ∷ []) h = ground arith
admin_dir-NoSlash (a ∷ b ∷ []) h = ground arith
admin_dir-NoSlash (a ∷ b ∷ c ∷ []) h = ground arith
admin_dir-NoSlash (a ∷ b ∷ c ∷ d ∷ []) h = ground arith
admin_dir-NoSlash (a ∷ b ∷ c ∷ d ∷ e ∷ []) h = ground arith
admin_dir-NoSlash (a ∷ b ∷ c ∷ d ∷ e ∷ f ∷ s) h = ground arith

pub is_context-NoSlash :
    (context : Bytes) → NoSlash context → is_context context ≡ (not (context == []), false, context)
unfolding is_context trim_prefix is_prefix
is_context-NoSlash [] h = unfold bytes_eq in refl
is_context-NoSlash (c ∷ context) h = ground (arith, admin_dir-NoSlash (c ∷ context) h)

module _ {Set : Type 0} where
  -- The default layouts have names as they can stand in a key.
  abbrev pub IsNamed : Dict Bytes (View Set) → Type 0
  IsNamed views =
      (name : Bytes) (view : View Set) → lookup name views ≡ some view → NoArrow view.default_layout

  default_layout_of-NoArrow :
      (name : Bytes) (views : Dict Bytes (View Set))
      → IsNamed views
      → NoArrow (default_layout_of name views)
  unfolding default_layout_of
  default_layout_of-NoArrow name views named =
      option_intro NoArrow (lookup name views) (λ _. NoArrow-nil)
        (λ view there. named name view there)

  complete-IsPlain :
      (views : Dict Bytes (View Set)) (flag : Bool) (name : Bytes) (t : ParsedTemplate)
      → IsNamed views
      → NoSlash name
      → IsChecked false t
      → IsPlain (complete views (flag, false, name) t)
  unfolding complete
  complete-IsPlain views flag name t named free (page, base, layout) =
      let shared = default_layout_of-NoArrow shared_views views named in
      let own = default_layout_of-NoArrow name views named in
      let layout' = if_intro NoArrow (flag && t.context_layout == []) (λ _. own) (λ _. layout) in
      (
        page,
        free,
        if_intro NoArrow _ (λ _. shared)
            (λ _. if_intro NoArrow (name == shared_views) (λ _. layout') (λ _. base)),
        if_intro NoArrow (name == shared_views) (λ _. NoArrow-nil) (λ _. layout'),
      )

  -- The template that is asked for by a page's name in such a context.
  pub get_parsed_template-IsPlain :
      (views : Dict Bytes (View Set)) (context name : Bytes) (t : ParsedTemplate)
      → IsNamed views
      → NoSlash context
      → names_component name ≡ false
      → get_parsed_template views context name ≡ some t
      → IsPlain t × (t.render_as_admin_page ≡ false)
  unfolding get_parsed_template parse_template_name
  get_parsed_template-IsPlain views context name t named free page e =
      let parts = split_by template_separator 0 name in
      elim (Option-cases (parse_elements parts (names_component name))) [
        | inl invalid ↦ absurd (ground arith)
        | inr (u, parsed) ↦
            let (component, base, layout) =
              parse_elements-IsChecked parts (names_component name) parsed in
            let plain =
              complete-IsPlain views (not (context == [])) context u named free
                (component ∙ page, base, layout) in
            let same : complete views (not (context == []), false, context) u ≡ t =
              ap (λ c. complete views c u) (sym (is_context-NoSlash context free))
              ∙ some-injective (complete views (is_context context) u) t
                  (rw (parsed, get_parsed_template, parse_template_name) at e) in
            (subst IsPlain same plain, ap (λ w. w.render_as_admin_page) (sym same))
      ]
