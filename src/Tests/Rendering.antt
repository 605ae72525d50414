-- ===== src/Tests/Rendering.antt =====
-- A renderer with one context, over templates that are their texts, and the theorems on it.
use arrower.Base.{
  ℕ, zero, suc, ◌≡◌, refl, nat_eq, bytes_eq, is_some, get_or, Bytes, true, false, Option, none,
  some, [], ◌∷◌, ◌++◌, arith, ◌⊎◌, inl, inr,
}
use arrower.Base.Dict.{Dict, lookup, insert}
use arrower.Base.Text.{is_space}
use arrower.Renderer.Name.{
  parse_template_name, names_component, template_separator, fragment_separator,
}
use arrower.Renderer.Views.{
  Engine, View, Files, Renderer, default_name, base_suffix, layout_suffix, html, pages_dir, new,
  add_context,
}
use arrower.Renderer.Data.{
  nil, struct, page_values, base_functions, layout_functions, get_merged_data,
}
use arrower.Renderer.Render.{Outcome, ok, panic, Argument, admin, render}
use arrower.Renderer.Echo.{is_registered_context}
use arrower.Renderer.Keys.{NoSlash}
use arrower.Renderer.Transparent.{Reach, here, next, added, rendered, render-emptied}
use arrower.Renderer.Confused.{in_admin, render-in_admin}
use arrower.Renderer.Merged.{HasLast, call_all, get_merged_data_lem}
use arrower.Renderer.Parsing.{IsWord, parsed_parts, parse_template_name-words}

-- A template is its texts by their names; all that a page is made of is written out.
abbrev text_of : Bytes → Dict Bytes Bytes → Bytes
text_of name set = get_or [] (lookup name set)

abbrev layout_text : Bytes
layout_text = b'l' ∷ b'a' ∷ b'y' ∷ b'o' ∷ b'u' ∷ b't' ∷ []

abbrev content_text : Bytes
content_text = b'c' ∷ b'o' ∷ b'n' ∷ b't' ∷ b'e' ∷ b'n' ∷ b't' ∷ []

abbrev texts_engine : Engine (Dict Bytes Bytes) ℕ (Argument Bytes) Bytes
texts_engine = record {
  empty = [];
  clone = λ set. some set;
  parse = λ name text set. some (insert name text set);
  defined = λ name set. is_some (lookup name set);
  add_tree = λ name old set. some (insert name (text_of old set) set);
  add_all = λ set others. set ++ others;
  execute = λ name set lang argument out.
      (true, out ++ (text_of name set ++ (text_of layout_text set ++ text_of content_text set)));
}

-- A data function gives its number under the name `n`, but 0 fails.
abbrev numbers : ℕ → Bytes → (Dict Bytes Bytes ⊎ ℕ) × Bytes
numbers zero s = (inr 7, s ++ (b'!' ∷ []))
numbers (suc f) s = (inl ((b'n' ∷ [], f ∷ []) ∷ []), s ++ (b'.' ∷ []))

abbrev as_is : Bytes → Bytes
as_is s = s

abbrev p : Bytes
p = b'p' ∷ []

abbrev c : Bytes
c = b'c' ∷ []

abbrev shared_files : Files
shared_files = record {
  components = some [];
  pages = some [];
  layouts = some ((default_name ++ base_suffix, some (b'B' ∷ [])) ∷ []);
}

abbrev context_files : Files
context_files = record {
  components = some [];
  pages = some ((pages_dir ++ (p ++ html), some (b'P' ∷ [])) ∷ []);
  layouts = some ((default_name ++ layout_suffix, some (b'L' ∷ [])) ∷ []);
}

-- The admin has the layouts of both names that are looked up.
abbrev admin_files : Files
admin_files = record {
  components = some [];
  pages = some [];
  layouts = some ((default_name ++ layout_suffix, some (b'A' ∷ [])) ∷ []);
}

abbrev shared_view : View (Dict Bytes Bytes)
shared_view = record {
  raw_layouts = (default_name, b'B' ∷ []) ∷ [];
  raw_pages = [];
  default_layout = default_name;
  components = [];
}

abbrev started : Renderer (Dict Bytes Bytes) ℕ
started = record {
  cache = [];
  views = ([], shared_view) ∷ [];
  base_data = (default_name, 5 ∷ []) ∷ [];
  context_data = [];
  hot_reload = false;
}

abbrev bare : Renderer (Dict Bytes Bytes) ℕ
bare = record started { base_data = [] }

bare-new : new texts_engine (some shared_files) false ≡ inr bare
unfolding new bytes_eq nat_eq
bare-new = refl

-- With the context and the admin's.
full : Renderer (Dict Bytes Bytes) ℕ
unfolding add_context
full =
    (add_context texts_engine admin (some admin_files)
      (add_context texts_engine c (some context_files) started).1).1

abbrev show :
    Bytes
    → Option ℕ
    → Renderer (Dict Bytes Bytes) ℕ
    → Outcome (Unit {0}) × Renderer (Dict Bytes Bytes) ℕ × Bytes
show context lang r = render texts_engine numbers as_is context p lang nil r []

shown : (show c none full).0 ≡ ok tt
unfolding full render bytes_eq nat_eq
shown = refl

-- The admin sees the page in its own layout, if it is the first to see it.
admin_first : (show (in_admin c) none full).2 ≡ b'.' ∷ b'B' ∷ b'A' ∷ b'P' ∷ []
unfolding full render bytes_eq nat_eq
admin_first = refl

admin_second : (show (in_admin c) none (show c none full).1).2 ≡ b'.' ∷ b'B' ∷ b'L' ∷ b'P' ∷ []
unfolding full render bytes_eq nat_eq
admin_second = refl

language_first : (show c (some 3) full).0 ≡ ok tt
unfolding full render bytes_eq nat_eq
language_first = refl

language_second : (show c (some 3) (show c none full).1).0 ≡ panic
unfolding full render bytes_eq nat_eq
language_second = refl

-- The path /admin/c/x of the router is one of the context as the admin sees it.
routed :
    is_registered_context full.views (b'/' ∷ (admin ++ (b'/' ∷ b'c' ∷ b'/' ∷ b'x' ∷ [])))
    ≡ in_admin c
unfolding full is_registered_context bytes_eq nat_eq
routed = refl

-- A context that was not added.
unknown_context : (show p none full).0 ≡ panic
unfolding full render bytes_eq nat_eq
unknown_context = refl

p-IsWord : IsWord p
unfolding is_space nat_eq
p-IsWord = ((refl, omega arith, omega arith), tt)

c-IsWord : IsWord c
unfolding is_space nat_eq
c-IsWord = ((refl, omega arith, omega arith), tt)

abbrev c_free : NoSlash c
c_free = (omega arith, tt)

p_page : names_component p ≡ false
unfolding names_component nat_eq
p_page = refl

full_cold : full.hot_reload ≡ false
unfolding full bytes_eq nat_eq
full_cold = refl

abbrev with_context : Renderer (Dict Bytes Bytes) ℕ
with_context = (add_context texts_engine c (some context_files) bare).1

reached :
    Reach texts_engine numbers as_is bare
      (render texts_engine numbers as_is c p none nil with_context []).1
reached = next (next here (added c (some context_files))) (rendered c p none nil [] c_free p_page)

render-emptied_example :
    ((render texts_engine numbers as_is c p none nil
        (render texts_engine numbers as_is c p none nil with_context []).1
        []).0
      ≡ (render texts_engine numbers as_is c p none nil
          (record (render texts_engine numbers as_is c p none nil with_context []).1 { cache = [] })
          []).0)
    × ((render texts_engine numbers as_is c p none nil
          (render texts_engine numbers as_is c p none nil with_context []).1
          []).2
        ≡ (render texts_engine numbers as_is c p none nil
            (record (render texts_engine numbers as_is c p none nil with_context []).1 {
              cache = [];
            })
            []).2)
render-emptied_example =
    render-emptied texts_engine numbers as_is shared_files false bare
      (render texts_engine numbers as_is c p none nil with_context []).1 c p nil [] bare-new reached
      c_free p_page

render-in_admin_example :
    show (in_admin c) none (show c none full).1 ≡ show c none (show c none full).1
render-in_admin_example =
    render-in_admin texts_engine numbers as_is b'c' [] p nil nil full [] [] c_free p_page full_cold
      shown

abbrev two_functions : Renderer (Dict Bytes Bytes) ℕ
two_functions = record started { base_data = (default_name, 5 ∷ 8 ∷ []) ∷ [] }

get_merged_data_lem_example :
    HasLast numbers
      (λ k. none)
      (inl
        (((b'n' ∷ [], 4 ∷ []) ∷ []) ∷ ((b'n' ∷ [], 7 ∷ []) ∷ []) ∷ ((b'S' ∷ [], 9 ∷ []) ∷ []) ∷ []))
      (get_merged_data numbers as_is two_functions
        (parsed_parts false default_name default_name p [])
        (struct (b'S' ∷ []) (9 ∷ []))
        []).0
    × ((get_merged_data numbers as_is two_functions
          (parsed_parts false default_name default_name p [])
          (struct (b'S' ∷ []) (9 ∷ []))
          []).1
        ≡ b'.' ∷ b'.' ∷ [])
unfolding call_all base_functions layout_functions page_values bytes_eq nat_eq
get_merged_data_lem_example =
    get_merged_data_lem numbers as_is two_functions
      (parsed_parts false default_name default_name p []) (struct (b'S' ∷ []) (9 ∷ [])) []

parse_template_name-words_example :
    (parse_template_name (p ++ (fragment_separator ++ c)) ≡ some (parsed_parts false [] [] p c))
    × (parse_template_name (c ++ (template_separator ++ (p ++ (fragment_separator ++ c))))
        ≡ some (parsed_parts false [] c p c))
    × (parse_template_name (
          p
          ++ (template_separator
              ++ (c ++ (template_separator ++ (p ++ (fragment_separator ++ c))))))
        ≡ some (parsed_parts false p c p c))
unfolding bytes_eq nat_eq
parse_template_name-words_example =
    parse_template_name-words p c p c p-IsWord c-IsWord p-IsWord c-IsWord
