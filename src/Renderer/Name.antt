-- ===== src/Renderer/Name.antt =====
-- renderer/renderer.go: the names of templates, `parseTemplateName` and the key of the cache. A text
-- is the list of its runes.
use arrower.Base.{
  ◌==◌, nat_eq, bytes_eq, ◌||◌, if◌then◌else◌, Bytes, Bool, false, Option, none, some, List, [],
  ◌∷◌, ◌++◌,
}
use arrower.Base.Text.{split_by, contains_text, trim_space, is_space}

abbrev pub template_separator : Bytes
template_separator = b'=' ∷ b'>' ∷ []

abbrev pub fragment_separator : Bytes
fragment_separator = b'#' ∷ []

pub record ParsedTemplate : Type 0 where
  pub context : Bytes
  pub base_layout : Bytes
  pub context_layout : Bytes
  pub page : Bytes
  pub fragment : Bytes
  pub render_as_admin_page : Bool
  pub is_component : Bool

-- ParsedTemplate.key
unfoldable pub key : ParsedTemplate → Bytes
key t =
    if t.is_component
    then t.context ++ (b'/' ∷ t.fragment)
    else t.context
      ++ (b'/'
          ∷ (t.base_layout
              ++ (template_separator ++ (t.context_layout ++ (template_separator ++ t.page)))))

-- parsedTemplate.templateName
unfoldable pub template_name : ParsedTemplate → Bytes
unfolding key
template_name t = if t.fragment == [] then key t else t.fragment

unfoldable pub trim : Bytes → Bytes
unfolding trim_space is_space
trim s = trim_space is_space s

-- isInvalid
unfoldable pub is_invalid : Bytes → Bool
unfolding contains_text
is_invalid s = contains_text template_separator s || contains_text fragment_separator s

-- isComponent: the name starts with the fragment separator.
unfoldable pub names_component : Bytes → Bool
names_component [] = false
names_component (c ∷ name) = c == b'#'

-- The end of parseTemplateName.
unfoldable pub checked : Bytes → Bytes → Bytes → Bytes → Bool → Option ParsedTemplate
unfolding is_invalid
checked base layout page fragment component =
    if is_invalid base || is_invalid layout || is_invalid page || is_invalid fragment
    then none
    else some (record {
      context = [];
      base_layout = base;
      context_layout = layout;
      page = page;
      fragment = fragment;
      render_as_admin_page = false;
      is_component = component;
    })

-- parseTemplateName, once the page is cut at its fragment.
unfoldable pub parse_fragments : Bytes → Bytes → Bytes → List Bytes → Bool → Option ParsedTemplate
unfolding checked trim
parse_fragments base layout page (p ∷ f ∷ []) component =
    if trim f == [] then none else checked base layout (trim p) (trim f) component
parse_fragments base layout page (p ∷ f ∷ g ∷ more) component = none
parse_fragments base layout page parts component = checked base layout page [] component

-- parseTemplateName, once the name is cut at its separators.
unfoldable pub parse_elements : List Bytes → Bool → Option ParsedTemplate
unfolding parse_fragments split_by trim
parse_elements (page ∷ []) component =
    parse_fragments [] [] (trim page) (split_by fragment_separator 0 (trim page)) component
parse_elements (layout ∷ page ∷ []) component =
    parse_fragments [] (trim layout) (trim page) (split_by fragment_separator 0 (trim page))
      component
parse_elements (base ∷ layout ∷ page ∷ []) component =
    parse_fragments (trim base) (trim layout) (trim page)
      (split_by fragment_separator 0 (trim page)) component
parse_elements _ component = none

-- `none` is ErrRenderFailed.
unfoldable pub parse_template_name : Bytes → Option ParsedTemplate
unfolding parse_elements split_by names_component
parse_template_name name =
    parse_elements (split_by template_separator 0 name) (names_component name)
