-- ===== src/Renderer/Parsing.antt =====
-- renderer/renderer.go: a template name that is put together of its parts is taken apart into them.
use arrower.Base.{
  ℕ, ◌≡◌, ◌≢◌, refl, ap, ◌∙◌, ◌==◌, nat_eq, bytes_eq, ◌&&◌, not, All, Bytes, Bool, false, some, [],
  ◌∷◌, ◌++◌, arith,
}
use arrower.Base.Text.{is_prefix, contains_text, split_by, trim_right, trim_space, is_space}
use arrower.Base.TextLaws.{
  trim_left-none, trim_right-none, split_by-one, split_by-cut, All-map, All-append,
}
use arrower.Renderer.Name.{
  ParsedTemplate, parse_template_name, parse_elements, parse_fragments, checked, is_invalid, trim,
  names_component, template_separator, fragment_separator,
}

-- No white space, and no character of a separator.
abbrev pub IsWord : Bytes → Type 0
IsWord = All (λ c. (is_space c ≡ false) × (c ≢ b'=') × (c ≢ b'#'))

split_by-arrow :
    (s rest : Bytes)
    → All (λ c. c ≢ b'=') s
    → split_by template_separator 0 (s ++ (template_separator ++ rest))
      ≡ s ∷ split_by template_separator 0 rest
unfolding split_by is_prefix
split_by-arrow [] rest h = unfold nat_eq in refl
split_by-arrow (c ∷ s) rest (h, hs) = ground (arith, split_by-arrow s rest hs)

-- A part of a name: a word, or a page with its fragment.
abbrev IsPart : Bytes → Type 0
IsPart = All (λ c. (is_space c ≡ false) × (c ≢ b'='))

part : (s : Bytes) → IsWord s → IsPart s
part s = All-map (λ c h. (h.0, h.1)) s

no_arrow : (s : Bytes) → IsPart s → All (λ c. c ≢ b'=') s
no_arrow s = All-map (λ c h. h.1) s

no_hash : (s : Bytes) → IsWord s → All (λ c. c ≢ b'#') s
no_hash s = All-map (λ c h. h.2) s

trim-part : (s : Bytes) → IsPart s → trim s ≡ s
unfolding trim trim_space
trim-part s h =
    let dark : All (λ c. is_space c ≡ false) s = All-map (λ c h. h.0) s h in
    ap (trim_right is_space) (trim_left-none is_space s dark) ∙ trim_right-none is_space s dark

contains_text-none : (q : ℕ) (p s : Bytes) → All (λ c. c ≢ q) s → contains_text (q ∷ p) s ≡ false
unfolding contains_text is_prefix
contains_text-none q p [] h = refl
contains_text-none q p (c ∷ s) (h, hs) = ground (arith, contains_text-none q p s hs)

is_invalid-word : (s : Bytes) → IsWord s → is_invalid s ≡ false
unfolding is_invalid
is_invalid-word s h = ground (
  arith,
  contains_text-none b'=' (b'>' ∷ []) s (no_arrow s (part s h)),
  contains_text-none b'#' [] s (no_hash s h),
)

-- What a name is parsed to.
abbrev pub parsed_parts : (component : Bool) (base layout page fragment : Bytes) → ParsedTemplate
parsed_parts component base layout page fragment = record {
  context = [];
  base_layout = base;
  context_layout = layout;
  page = page;
  fragment = fragment;
  render_as_admin_page = false;
  is_component = component;
}

checked-words :
    (component : Bool) (base layout page fragment : Bytes)
    → IsWord base
    → IsWord layout
    → IsWord page
    → IsWord fragment
    → checked base layout page fragment component
      ≡ some (parsed_parts component base layout page fragment)
unfolding checked
checked-words component base layout page fragment hb hl hp hf = ground (
  arith,
  is_invalid-word base hb,
  is_invalid-word layout hl,
  is_invalid-word page hp,
  is_invalid-word fragment hf,
)

-- A page with its fragment, if there is one.
abbrev pub page_with : Bytes → Bytes → Bytes
page_with page [] = page
page_with page (c ∷ fragment) = page ++ (fragment_separator ++ (c ∷ fragment))

hash_dark : is_space b'#' ≡ false
unfolding is_space nat_eq
hash_dark = refl

page_with-IsPart :
    (page fragment : Bytes) → IsWord page → IsWord fragment → IsPart (page_with page fragment)
page_with-IsPart page [] hp hf = part page hp
page_with-IsPart page (c ∷ fragment) hp hf =
    All-append (λ d. (is_space d ≡ false) × (d ≢ b'=')) page (fragment_separator ++ (c ∷ fragment))
      (part page hp) ((hash_dark, omega arith), part (c ∷ fragment) hf)

parse_page :
    (component : Bool) (base layout page fragment : Bytes)
    → IsWord base
    → IsWord layout
    → IsWord page
    → IsWord fragment
    → parse_fragments base layout
        (page_with page fragment)
        (split_by fragment_separator 0 (page_with page fragment))
        component
      ≡ some (parsed_parts component base layout page fragment)
unfolding parse_fragments bytes_eq
parse_page component base layout page [] hb hl hp hf =
    rw (split_by-one b'#' [] page (no_hash page hp))
      (checked-words component base layout page [] hb hl hp tt)
parse_page component base layout page (c ∷ fragment) hb hl hp hf =
    rw (split_by-cut b'#' page (c ∷ fragment) (no_hash page hp)) (
      rw (split_by-one b'#' [] (c ∷ fragment) (no_hash (c ∷ fragment) hf)) (
        rw (trim-part page (part page hp)) (
          rw (trim-part (c ∷ fragment) (part (c ∷ fragment) hf))
            (checked-words component base layout page (c ∷ fragment) hb hl hp hf))))

names_component-word :
    (s rest : Bytes) → IsWord s → names_component (s ++ (template_separator ++ rest)) ≡ false
unfolding names_component
names_component-word [] rest h = unfold nat_eq in refl
names_component-word (c ∷ s) rest (h, _) = ground arith

names_component-page :
    (page fragment : Bytes)
    → IsWord page
    → names_component (page_with page fragment) ≡ (page == [] && not (fragment == []))
unfolding names_component bytes_eq
names_component-page [] [] h = refl
names_component-page [] (c ∷ fragment) h = unfold nat_eq in refl
names_component-page (d ∷ page) [] (h, _) = ground arith
names_component-page (d ∷ page) (c ∷ fragment) (h, _) = ground arith

-- The names of a page by itself, with the layout of the context, and with both layouts, and with
-- or without a fragment, where no part has white space or an = or #: each is parsed to its parts.
-- A page by itself is taken for a component exactly if its name is empty and it has a fragment.
pub parse_template_name-words :
    (base layout page fragment : Bytes)
    → IsWord base
    → IsWord layout
    → IsWord page
    → IsWord fragment
    → (parse_template_name (page_with page fragment)
        ≡ some (parsed_parts (page == [] && not (fragment == [])) [] [] page fragment))
      × (parse_template_name (layout ++ (template_separator ++ page_with page fragment))
          ≡ some (parsed_parts false [] layout page fragment))
      × (parse_template_name (
            base
            ++ (template_separator ++ (layout ++ (template_separator ++ page_with page fragment))))
          ≡ some (parsed_parts false base layout page fragment))
unfolding parse_template_name parse_elements
parse_template_name-words base layout page fragment hb hl hp hf =
    let whole = page_with-IsPart page fragment hp hf in
    let pages =
      split_by-one b'=' (b'>' ∷ []) (page_with page fragment)
        (no_arrow (page_with page fragment) whole) in
    let page_trimmed = trim-part (page_with page fragment) whole in
    let layout_trimmed = trim-part layout (part layout hl) in
    let behind = page_with page fragment in
    (
      rw pages (
          rw page_trimmed (
            rw (names_component-page page fragment hp)
              (parse_page (page == [] && not (fragment == [])) [] [] page fragment tt tt hp hf))),
      rw (split_by-arrow layout behind (no_arrow layout (part layout hl))) (
          rw pages (
            rw (page_trimmed, layout_trimmed, names_component-word layout behind hl)
              (parse_page false [] layout page fragment tt hl hp hf))),
      rw
          (split_by-arrow base (layout ++ (template_separator ++ behind))
            (no_arrow base (part base hb)))
          (rw (split_by-arrow layout behind (no_arrow layout (part layout hl))) (
            rw pages (
              rw
                (
                  page_trimmed,
                  layout_trimmed,
                  trim-part base (part base hb),
                  names_component-word base (layout ++ (template_separator ++ behind)) hb,
                )
                (parse_page false base layout page fragment hb hl hp hf)))),
    )
