-- ===== src/Tool/Files.antt =====
-- arrower/internal/detect-file-changes.business.go: which files are watched; and the paths of
-- arrower/internal/pathinfo.go.
use arrower.Base.{
  nat_eq, bytes_eq, ◌==◌, ◌&&◌, ◌||◌, not, if◌then◌else◌, Bytes, Bool, false, Option, none, some,
  List, [], ◌∷◌, ◌++◌,
}
use arrower.Base.Text.{is_prefix, is_suffix, trim_prefix}

abbrev go_suffix : Bytes
go_suffix = b'.' ∷ b'g' ∷ b'o' ∷ []

abbrev test_suffix : Bytes
test_suffix = b'_' ∷ b't' ∷ b'e' ∷ b's' ∷ b't' ∷ go_suffix

abbrev pub css_suffix : Bytes
css_suffix = b'.' ∷ b'c' ∷ b's' ∷ b's' ∷ []

-- strings.HasSuffix for one of many
unfoldable pub has_one_suffix : List Bytes → Bytes → Bool
unfolding is_suffix
has_one_suffix [] file = false
has_one_suffix (s ∷ ss) file = is_suffix s file || has_one_suffix ss file

abbrev frontend_suffixes : List Bytes
frontend_suffixes =
    (b'.' ∷ b'h' ∷ b't' ∷ b'm' ∷ b'l' ∷ [])
    ∷ css_suffix
    ∷ (b'.' ∷ b'j' ∷ b's' ∷ [])
    ∷ (b'.' ∷ b'p' ∷ b'n' ∷ b'g' ∷ [])
    ∷ (b'.' ∷ b'j' ∷ b'p' ∷ b'g' ∷ [])
    ∷ (b'.' ∷ b'j' ∷ b'p' ∷ b'e' ∷ b'g' ∷ [])
    ∷ (b'.' ∷ b'g' ∷ b'i' ∷ b'f' ∷ [])
    ∷ (b'.' ∷ b'i' ∷ b'c' ∷ b'o' ∷ [])
    ∷ []

abbrev config_suffixes : List Bytes
config_suffixes =
    (b'.' ∷ b'c' ∷ b'o' ∷ b'n' ∷ b'f' ∷ b'i' ∷ b'g' ∷ [])
    ∷ (b'.' ∷ b'c' ∷ b'o' ∷ b'n' ∷ b'f' ∷ [])
    ∷ (b'.' ∷ b'y' ∷ b'a' ∷ b'm' ∷ b'l' ∷ [])
    ∷ []

unfoldable pub is_frontend_source : Bytes → Bool
unfolding has_one_suffix
is_frontend_source file = has_one_suffix frontend_suffixes file

unfoldable pub is_css : Bytes → Bool
unfolding is_suffix
is_css file = is_suffix css_suffix file

unfoldable pub is_observed_file : Bytes → Bool
unfolding has_one_suffix is_suffix is_frontend_source
is_observed_file file =
    (is_suffix go_suffix file && not (is_suffix test_suffix file))
    || has_one_suffix config_suffixes file
    || is_frontend_source file

pub record PathInfo : Type 0 where
  pub abs_path : Bytes
  pub relative_path : Bytes
  pub display_path : Bytes

abbrev dot : Bytes
dot = b'.' ∷ []

-- `abs` is filepath.Abs, where `none` is an error.
module _ (abs : Bytes → Option Bytes) where
  unfoldable pub new_path_info : Bytes → Option PathInfo
  new_path_info path =
      let relative = if path == dot then [] else path in
      elim (abs path) [
        | none ↦ none
        | some abs_path ↦ some (record {
          abs_path = abs_path;
          relative_path = relative;
          display_path = if relative == [] then dot else relative;
        })
      ]

  unfoldable pub new_path_infos : List Bytes → Option (List PathInfo)
  unfolding new_path_info
  new_path_infos [] = some []
  new_path_infos (path ∷ paths) = elim (new_path_info path) [
    | none ↦ none
    | some info ↦ elim (new_path_infos paths) [ none ↦ none | some infos ↦ some (info ∷ infos) ]
  ]

-- PathInfos.FormatFilePath
unfoldable pub format_file_path : List PathInfo → Bytes → Bytes
unfolding is_prefix trim_prefix
format_file_path [] file = file
format_file_path (info ∷ infos) file =
    let rest = format_file_path infos file in
    let dir = info.abs_path ++ (b'/' ∷ []) in
    let rel = trim_prefix dir file in
    if is_prefix dir file
    then (if info.relative_path == [] then rel else info.relative_path ++ (b'/' ∷ rel))
    else rest
