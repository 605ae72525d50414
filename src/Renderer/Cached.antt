-- ===== src/Renderer/Cached.antt =====
-- renderer/renderer.go: what the cache of templates has, whatever is rendered and added.
use mathlib.Core.Path.{subst}
use mathlib.Core.Option.{some-injective}
use arrower.Base.{
  ◌≡◌, refl, sym, ap, ◌∙◌, nat_eq, bytes_eq, if◌then◌else◌, is_some, Bytes, Bool, true, false,
  Option, none, some, [], arith, option_intro,
}
use arrower.Base.Dict.{Dict, lookup, insert, lookup-insert, lookup-nil}
use arrower.Renderer.Name.{ParsedTemplate, key}
use arrower.Renderer.Views.{Engine, View, Renderer, shared_views}
use arrower.Renderer.Render.{
  Outcome, RenderError, ok, failed, panic, admin, build_with, build_page, load_template,
  parse_layouts, build_page_template, build_component, store_template,
}
use arrower.Renderer.Keys.{IsPlain, key-injective}
use arrower.Renderer.Plain.{IsNamed}

module _ {Set Lang Data S : Type 0} (engine : Engine Set Lang Data S) where
  -- Only what is rendered for the admin depends on the admin's views.
  build_with-not_admin :
      (k context base layout page : Bytes) (shared own of_admin of_admin' : Option (View Set))
      → build_with engine k context base layout page false shared own of_admin
        ≡ build_with engine k context base layout page false shared own of_admin'
  unfolding build_with parse_layouts
  build_with-not_admin k context base layout page shared none a a' = refl
  build_with-not_admin k context base layout page shared (some own) a a' = refl

  -- A page that is not rendered for the admin, from the shared views and those of its context.
  abbrev pub plain_page : ParsedTemplate → Option (View Set) → Option (View Set) → Outcome Set
  plain_page t shared own =
      build_with engine (key t) t.context t.base_layout t.context_layout t.page false shared own
        none

  pub build_page_lem :
      (t : ParsedTemplate) (views : Dict Bytes (View Set))
      → t.render_as_admin_page ≡ false
      → build_page engine t views
        ≡ plain_page t (lookup shared_views views) (lookup t.context views)
  unfolding build_page
  build_page_lem t views plain =
      let with_flag = λ (b : Bool).
        build_with engine (key t) t.context t.base_layout t.context_layout t.page b
          (lookup shared_views views) (lookup t.context views) (lookup admin views) in
      ap with_flag plain
      ∙ build_with-not_admin (key t) t.context t.base_layout t.context_layout t.page
          (lookup shared_views views) (lookup t.context views) (lookup admin views) none

  -- The page is built of views of its context.
  plain_page-own :
      (t : ParsedTemplate) (shared own : Option (View Set)) {set : Set}
      → plain_page t shared own ≡ ok set
      → is_some own ≡ true
  unfolding build_with
  plain_page-own t shared none e = absurd (ground arith)
  plain_page-own t shared (some own) e = refl

  -- Templates of one key are built alike.
  pub plain_page-key :
      (t u : ParsedTemplate) (views : Dict Bytes (View Set))
      → IsPlain t
      → IsPlain u
      → key t ≡ key u
      → plain_page t (lookup shared_views views) (lookup t.context views)
        ≡ plain_page u (lookup shared_views views) (lookup u.context views)
  plain_page-key t u views pt pu e =
      let (context, base, layout, page) = key-injective t u pt pu e in
      λ i.
        build_with engine (e i) (context i) (base i) (layout i) (page i) false
          (lookup shared_views views) (lookup (context i) views) none

  -- A template with this key that is built of these views.
  abbrev pub IsBuilt : Dict Bytes (View Set) → Bytes → Set → Type 0
  IsBuilt views k set =
      (t : ParsedTemplate) × IsPlain t
      × (key t ≡ k)
      × (plain_page t (lookup shared_views views) (lookup t.context views) ≡ ok set)

  pub build_page-IsBuilt :
      (t : ParsedTemplate) (views : Dict Bytes (View Set)) (set : Set)
      → IsPlain t
      → t.render_as_admin_page ≡ false
      → IsBuilt views (key t) set
      → build_page engine t views ≡ ok set
  build_page-IsBuilt t views set plain flag (u, plain', same, built) =
      build_page_lem t views flag ∙ plain_page-key t u views plain plain' (sym same) ∙ built

  -- The views after a context was added, or not.
  abbrev pub Grows : Dict Bytes (View Set) → Dict Bytes (View Set) → Type 0
  Grows views views' =
      (lookup shared_views views' ≡ lookup shared_views views)
      × ((k : Bytes) → is_some (lookup k views) ≡ true → lookup k views' ≡ lookup k views)

  pub Grows-IsBuilt :
      (views views' : Dict Bytes (View Set)) (k : Bytes) (set : Set)
      → Grows views views'
      → IsBuilt views k set
      → IsBuilt views' k set
  Grows-IsBuilt views views' k set (shared, own) (t, plain, same, built) = (
    t,
    plain,
    same,
    (λ i. plain_page t (shared i) (own t.context (plain_page-own t _ _ built) i)) ∙ built,
  )

  -- Each cached template is built of the views as they are.
  pub record IsSound {F : Type 0} (r : Renderer Set F) : Type 0 where
    pub named : IsNamed r.views
    pub cached :
        (k : Bytes) (entry : Set × Bool) → lookup k r.cache ≡ some entry → IsBuilt r.views k entry.0

ok-injective : {A : Type 0} {a b : A} → ok a ≡ ok b → a ≡ b
ok-injective e = cc

build_page_template_lem :
    {Set Lang Data S : Type 0} (engine : Engine Set Lang Data S) (t : ParsedTemplate)
    (views : Dict Bytes (View Set))
    → t.is_component ≡ false
    → build_page_template engine t views ≡ (build_page engine t views, views)
unfolding build_page_template
build_page_template_lem engine t views page =
    ap (λ b. if b then build_component engine t views else (build_page engine t views, views)) page

module _ {Set Lang Data S F : Type 0} (engine : Engine Set Lang Data S) where
  store_cases {ℓ} :
      (P : Outcome (Set × Bool) × Renderer Set F → Type ℓ) (t : ParsedTemplate) (r : Renderer Set F)
      (o : Outcome Set)
      → ((set : Set)
          → o ≡ ok set
          → P (ok (set, false), record r { cache = insert (key t) (set, false) r.cache }))
      → ((e : RenderError) → o ≡ failed e → P (failed e, r))
      → (o ≡ panic → P (panic, r))
      → P (store_template engine t r (o, r.views))
  unfolding store_template
  store_cases P t r (ok set) built refused broken = built set refl
  store_cases P t r (failed e) built refused broken = refused e refl
  store_cases P t r panic built refused broken = broken refl

  -- What looking up or building a page can come to.
  pub load_page {ℓ} :
      (P : Outcome (Set × Bool) × Renderer Set F → Type ℓ) (t : ParsedTemplate) (r : Renderer Set F)
      → t.is_component ≡ false
      → ((entry : Set × Bool) → lookup (key t) r.cache ≡ some entry → P (ok entry, r))
      → ((set : Set)
          → build_page engine t r.views ≡ ok set
          → P (ok (set, false), record r { cache = insert (key t) (set, false) r.cache }))
      → ((e : RenderError) → build_page engine t r.views ≡ failed e → P (failed e, r))
      → (build_page engine t r.views ≡ panic → P (panic, r))
      → P (load_template engine t r)
  unfolding load_template store_template
  load_page P t r page found built refused broken =
      option_intro P (lookup (key t) r.cache)
        (λ absent.
          rw (build_page_template_lem engine t r.views page)
            (store_cases P t r (build_page engine t r.views) built refused broken))
        found

  -- With an empty cache the page is built.
  pub load_empty :
      (t : ParsedTemplate) (r : Renderer Set F)
      → t.is_component ≡ false
      → r.cache ≡ []
      → load_template engine t r ≡ store_template engine t r (build_page engine t r.views, r.views)
  unfolding load_template
  load_empty t r page empty =
      option_intro (λ w. w ≡ store_template engine t r (build_page engine t r.views, r.views))
        (lookup (key t) r.cache)
        (λ _. ap (store_template engine t r) (build_page_template_lem engine t r.views page))
        (λ entry there.
          let never : none ≡ some entry =
            sym (ap (lookup (key t)) empty ∙ lookup-nil (key t)) ∙ there in
          absurd (ground arith))

  pub cached-IsBuilt :
      (t : ParsedTemplate) (set : Set) (flag : Bool) (r : Renderer Set F)
      → IsSound engine r
      → IsBuilt engine r.views (key t) set
      → IsSound engine (record r { cache = insert (key t) (set, flag) r.cache })
  cached-IsBuilt t set flag r sound built = record {
    named = sound.named;
    cached = λ k entry there. elim (bytes_eq.dec k (key t)) [
      | yes same ↦
          let stored : some (set, flag) ≡ some entry =
            sym (ground (arith, lookup-insert k (key t) (set, flag) r.cache)) ∙ there in
          let (u, plain, same_key, done) = built in
          (
            u,
            plain,
            same_key ∙ sym same,
            done ∙ ap (λ x. ok x) (ap (λ x. x.0) (some-injective _ _ stored)),
          )
      | no differ ↦
          sound.cached k entry
            (sym (ground (arith, lookup-insert k (key t) (set, flag) r.cache)) ∙ there)
    ];
  }

  -- The renderer is sound, and what was looked up or built belongs to its views.
  abbrev pub IsLoaded : ParsedTemplate → Outcome (Set × Bool) × Renderer Set F → Type 0
  IsLoaded t w =
      IsSound engine w.1
      × ((entry : Set × Bool) → w.0 ≡ ok entry → IsBuilt engine w.1.views (key t) entry.0)

  pub load_template-IsLoaded :
      (t : ParsedTemplate) (r : Renderer Set F)
      → IsPlain t
      → t.render_as_admin_page ≡ false
      → IsSound engine r
      → IsLoaded t (load_template engine t r)
  load_template-IsLoaded t r plain flag sound =
      load_page (IsLoaded t) t r plain.0
        (λ entry there. (
          sound,
          λ entry' e.
              subst (λ (x : Set × Bool). IsBuilt engine r.views (key t) x.0) (ok-injective e)
                (sound.cached (key t) entry there),
        ))
        (λ set built.
          let done : IsBuilt engine r.views (key t) set =
            (t, plain, refl, sym (build_page_lem engine t r.views flag) ∙ built) in
          (
            cached-IsBuilt t set false r sound done,
            λ entry' e.
                subst (λ (x : Set × Bool). IsBuilt engine r.views (key t) x.0) (ok-injective e)
                  done,
          ))
        (λ e refused. (sound, λ entry' f. absurd (ground arith)))
        (λ broken. (sound, λ entry' f. absurd (ground arith)))
