-- ===== src/Renderer/Keys.antt =====
-- renderer/renderer.go: which templates share a key of the cache.
use arrower.Base.{
  ℕ, ◌≡◌, ◌≢◌, refl, sym, ◌∙◌, nat_eq, bytes_eq, Bytes, All, true, false, [], ◌∷◌, ◌++◌, arith,
}
use arrower.Base.Text.{is_prefix, contains_text}
use arrower.Renderer.Name.{ParsedTemplate, key, template_separator}

abbrev pub NoSlash : Bytes → Type 0
NoSlash = All (λ c. c ≢ b'/')

-- A text without a slash in front of one is found again.
cut_slash :
    (a a' b b' : Bytes)
    → NoSlash a
    → NoSlash a'
    → a ++ (b'/' ∷ b) ≡ a' ++ (b'/' ∷ b')
    → (a ≡ a') × (b ≡ b')
cut_slash [] [] b b' _ _ e = (refl, cc)
cut_slash [] (c ∷ a') b b' _ (h, _) e = absurd (h (cc))
cut_slash (c ∷ a) [] b b' (h, _) _ e = absurd (h (cc))
cut_slash (c ∷ a) (c' ∷ a') b b' (_, h) (_, h') e =
    let cut = cut_slash a a' b b' h h' (cc) in
    let same : c ≡ c' = cc in (λ i. same i ∷ cut.0 i, cut.1)

abbrev pub NoArrow : Bytes → Type 0
NoArrow s = contains_text template_separator s ≡ false

NoArrow-tail : (c : ℕ) (a : Bytes) → NoArrow (c ∷ a) → NoArrow a
unfolding contains_text
NoArrow-tail c a h = ground arith

NoArrow-arrow : (a : Bytes) → contains_text template_separator (b'=' ∷ b'>' ∷ a) ≡ true
unfolding contains_text is_prefix nat_eq
NoArrow-arrow a = refl

-- A text without a separator in front of one is found again.
cut_arrow :
    (a a' b b' : Bytes)
    → NoArrow a
    → NoArrow a'
    → a ++ (template_separator ++ b) ≡ a' ++ (template_separator ++ b')
    → (a ≡ a') × (b ≡ b')
cut_arrow [] [] b b' _ _ e = (refl, cc)
cut_arrow [] (c ∷ []) b b' _ h e = absurd (ground arith)
cut_arrow [] (c ∷ d ∷ a') b b' _ h e = absurd (ground (arith, NoArrow-arrow a'))
cut_arrow (c ∷ []) [] b b' h _ e = absurd (ground arith)
cut_arrow (c ∷ d ∷ a) [] b b' h _ e = absurd (ground (arith, NoArrow-arrow a))
cut_arrow (c ∷ a) (c' ∷ a') b b' h h' e =
    let cut = cut_arrow a a' b b' (NoArrow-tail c a h) (NoArrow-tail c' a' h') (cc) in
    let same : c ≡ c' = cc in (λ i. same i ∷ cut.0 i, cut.1)

-- What a key has to tell, and tells.
abbrev pub IsPlain : ParsedTemplate → Type 0
IsPlain t =
    (t.is_component ≡ false) × NoSlash t.context × NoArrow t.base_layout × NoArrow t.context_layout

-- The key behind the context.
abbrev layouts_key : ParsedTemplate → Bytes
layouts_key t =
    t.base_layout ++ (template_separator ++ (t.context_layout ++ (template_separator ++ t.page)))

key_of_page :
    (t : ParsedTemplate) → t.is_component ≡ false → key t ≡ t.context ++ (b'/' ∷ layouts_key t)
unfolding key
key_of_page t page = rw page refl

pub key-injective :
    (t u : ParsedTemplate)
    → IsPlain t
    → IsPlain u
    → key t ≡ key u
    → (t.context ≡ u.context)
      × (t.base_layout ≡ u.base_layout)
      × (t.context_layout ≡ u.context_layout)
      × (t.page ≡ u.page)
key-injective t u (pt, st, bt, lt) (pu, su, bu, lu) e =
    let same = sym (key_of_page t pt) ∙ e ∙ key_of_page u pu in
    let (context, behind) = cut_slash _ _ (layouts_key t) (layouts_key u) st su same in
    let (base, layouts) = cut_arrow t.base_layout u.base_layout _ _ bt bu behind in
    let (layout, page) = cut_arrow t.context_layout u.context_layout _ _ lt lu layouts in
    (context, base, layout, page)
