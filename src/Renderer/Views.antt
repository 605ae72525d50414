-- ===== src/Renderer/Views.antt =====
-- renderer/renderer.go: the views of a context (`viewTemplates`, `prepareViewTemplates`), and the
-- renderer's state with `New` and `AddContext`. Logging is left out.
use arrower.Base.{
  ◌==◌, bytes_eq, if◌then◌else◌, is_some, Bytes, Bool, true, false, Option, none, some, ◌⊎◌, inl,
  inr, List, [], ◌∷◌,
}
use arrower.Base.Chain.{◌>>=◌}
use arrower.Base.Dict.{Dict, lookup, insert}
use arrower.Base.Text.{trim_prefix, trim_suffix}

abbrev pub default_name : Bytes
default_name = b'd' ∷ b'e' ∷ b'f' ∷ b'a' ∷ b'u' ∷ b'l' ∷ b't' ∷ []

abbrev pub shared_views : Bytes
shared_views = []

abbrev pub html : Bytes
html = b'.' ∷ b'h' ∷ b't' ∷ b'm' ∷ b'l' ∷ []

abbrev components_dir : Bytes
components_dir = b'c' ∷ b'o' ∷ b'm' ∷ b'p' ∷ b'o' ∷ b'n' ∷ b'e' ∷ b'n' ∷ b't' ∷ b's' ∷ b'/' ∷ []

abbrev pub pages_dir : Bytes
pages_dir = b'p' ∷ b'a' ∷ b'g' ∷ b'e' ∷ b's' ∷ b'/' ∷ []

abbrev pub base_suffix : Bytes
base_suffix = b'.' ∷ b'b' ∷ b'a' ∷ b's' ∷ b'e' ∷ html

abbrev pub layout_suffix : Bytes
layout_suffix = b'.' ∷ b'l' ∷ b'a' ∷ b'y' ∷ b'o' ∷ b'u' ∷ b't' ∷ html

unfoldable pub base_name : Bytes → Bytes
unfolding trim_suffix
base_name name = trim_suffix base_suffix name

unfoldable pub layout_name : Bytes → Bytes
unfolding trim_suffix
layout_name name = trim_suffix layout_suffix name

unfoldable pub component_name : Bytes → Bytes
unfolding trim_prefix trim_suffix
component_name name = trim_suffix html (trim_prefix components_dir name)

unfoldable pub page_name : Bytes → Bytes
unfolding trim_prefix trim_suffix
page_name name = trim_suffix html (trim_prefix pages_dir name)

-- html/template with the functions of the renderer: a `Set` is a template with all those that are
-- associated with it. `parse name text` is New(name).Parse(text), `add_tree name old` is
-- AddParseTree(name, Lookup(old).Tree), `add_all from` adds each tree of another set under its own
-- name, and `none` is an error. `S` is the world, with the writer.
pub record Engine (Set Lang Data S : Type 0) : Type 0 where
  pub empty : Set
  pub clone : Set → Option Set
  pub parse : Bytes → Bytes → Set → Option Set
  pub defined : Bytes → Set → Bool
  pub add_tree : Bytes → Bytes → Set → Option Set
  pub add_all : Set → Set → Set
  pub execute : Bytes → Set → Option Lang → Data → S → Bool × S

-- What fs.Glob and readFile say of a file system: the names and contents of the files of each kind, in
-- the order of their names; a file that cannot be read has none. `none` is an error of fs.Glob.
pub record Files : Type 0 where
  pub components : Option (List (Bytes × Option Bytes))
  pub pages : Option (List (Bytes × Option Bytes))
  pub layouts : Option (List (Bytes × Option Bytes))

-- viewTemplates, without the file system, which is not read again.
pub record View (Set : Type 0) : Type 0 where
  pub raw_layouts : Dict Bytes Bytes
  pub raw_pages : Dict Bytes Bytes
  pub default_layout : Bytes
  pub components : Set

-- A loop that puts each file into a map under its name.
unfoldable pub read_files :
    (Bytes → Bytes) → List (Bytes × Option Bytes) → Dict Bytes Bytes → Option (Dict Bytes Bytes)
unfolding insert
read_files name [] d = some d
read_files name ((file, none) ∷ files) d = none
read_files name ((file, some text) ∷ files) d = read_files name files (insert (name file) text d)

-- The same loop remembers whether the default layout was among the files.
unfoldable pub default_of : (Bytes → Bytes) → List (Bytes × Option Bytes) → Bytes
default_of name [] = []
default_of name ((file, _) ∷ files) =
    let rest = default_of name files in if name file == default_name then default_name else rest

module _ {Set Lang Data S : Type 0} (engine : Engine Set Lang Data S) where
  unfoldable pub parse_components : List (Bytes × Option Bytes) → Set → Option Set
  unfolding component_name
  parse_components [] set = some set
  parse_components ((file, none) ∷ files) set = none
  parse_components ((file, some text) ∷ files) set =
      elim (engine.parse (component_name file) text set) [
        | none ↦ none
        | some set' ↦ parse_components files set'
      ]

  unfoldable pub prepare_view_templates : Files → Bool → Option (View Set)
  unfolding read_files default_of parse_components page_name base_name layout_name
  prepare_view_templates files is_context = do
    components ← files.components
    set ← parse_components components engine.empty
    pages ← files.pages
    raw_pages ← read_files page_name pages []
    layouts ← files.layouts
    raw_layouts ← read_files (if is_context then layout_name else base_name) layouts []
    some (record {
      raw_layouts = raw_layouts;
      raw_pages = raw_pages;
      default_layout = default_of (if is_context then layout_name else base_name) layouts;
      components = set;
    })

-- A cached template, and whether it has been executed, after which it cannot be cloned any more.
pub record Renderer (Set F : Type 0) : Type 0 where
  pub cache : Dict Bytes (Set × Bool)
  pub views : Dict Bytes (View Set)
  pub base_data : Dict Bytes (List F)
  pub context_data : Dict Bytes (Dict Bytes (List F))
  pub hot_reload : Bool

pub data ContextError : Type 0 where
  create_renderer_failed no_name no_view_files already_added views_not_loaded : ContextError

module _ {Set Lang Data S F : Type 0} (engine : Engine Set Lang Data S) where
  unfoldable pub new : Option Files → Bool → ContextError ⊎ Renderer Set F
  unfolding prepare_view_templates insert
  new none hot_reload = inl create_renderer_failed
  new (some files) hot_reload = elim (prepare_view_templates engine files false) [
    | none ↦ inl create_renderer_failed
    | some view ↦ inr (record {
      cache = [];
      views = insert shared_views view [];
      base_data = [];
      context_data = [];
      hot_reload = hot_reload;
    })
  ]

  -- The end of AddContext: the shared components, with those of the context over them. The views are
  -- in the map before the components are cloned.
  unfoldable pub merge_components :
      Bytes → View Set → Renderer Set F → Option ContextError × Renderer Set F
  unfolding insert lookup
  merge_components name view r =
      let views = insert name view r.views in
      elim (lookup shared_views views) [
        | none ↦ (some views_not_loaded, record r { views = views })
        | some shared ↦ elim (engine.clone shared.components) [
          | none ↦ (some views_not_loaded, record r { views = views })
          | some set ↦ (
            none,
            record r {
              views =
                  insert name (record view { components = engine.add_all view.components set })
                    views;
            },
          )
        ]
      ]

  unfoldable pub add_context :
      Bytes → Option Files → Renderer Set F → Option ContextError × Renderer Set F
  unfolding prepare_view_templates merge_components lookup
  add_context name none r = (some (if name == [] then no_name else no_view_files), r)
  add_context name (some files) r =
      if name == []
      then (some no_name, r)
      else if is_some (lookup name r.views)
      then (some already_added, r)
      else elim (prepare_view_templates engine files true) [
        | none ↦ (some views_not_loaded, r)
        | some view ↦ merge_components name view r
      ]
