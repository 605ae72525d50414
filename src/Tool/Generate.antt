-- ===== src/Tool/Generate.antt =====
-- arrower/internal/generate/generate-usecases.go: what the developer's input names, and the files that
-- are generated for it. The templates are those of the source, filled with the data below.
use arrower.Base.{
  ℕ, nat_eq, bytes_eq, ◌==◌, ◌&&◌, not, leb, if◌then◌else◌, Bytes, Bool, true, false, Option, none,
  some, List, [], ◌∷◌, ◌++◌, map,
}
use arrower.Base.Text.{split_by, contains_text, trim_space, is_space}

pub data CodeType : Type 0 where
  unknown usecase request command query job : CodeType

pub record ParsedArgs : Type 0 where
  pub context : Bytes
  pub args : List Bytes
  pub code_type : CodeType

abbrev pub request_word : Bytes
request_word = b'r' ∷ b'e' ∷ b'q' ∷ b'u' ∷ b'e' ∷ b's' ∷ b't' ∷ []

abbrev pub command_word : Bytes
command_word = b'c' ∷ b'o' ∷ b'm' ∷ b'm' ∷ b'a' ∷ b'n' ∷ b'd' ∷ []

abbrev pub query_word : Bytes
query_word = b'q' ∷ b'u' ∷ b'e' ∷ b'r' ∷ b'y' ∷ []

abbrev pub job_word : Bytes
job_word = b'j' ∷ b'o' ∷ b'b' ∷ []

abbrev pub dash : Bytes
dash = b'-' ∷ []

unfoldable pub code_type_of : Bytes → CodeType
code_type_of word =
    if word == request_word
    then request
    else if word == command_word
    then command
    else if word == query_word
    then query
    else if word == job_word
    then job
    else usecase

abbrev pub is_usecase : CodeType → Bool
is_usecase usecase = true
is_usecase _ = false

-- detectCodeType: the last word is left out if it is a type. The source panics on no words, which
-- Split never returns.
unfoldable pub detect_code_type : List Bytes → List Bytes × CodeType
unfolding code_type_of
detect_code_type [] = ([], usecase)
detect_code_type (word ∷ []) =
    if is_usecase (code_type_of word) then (word ∷ [], usecase) else ([], code_type_of word)
detect_code_type (word ∷ next ∷ words) =
    let (rest, code_type) = detect_code_type (next ∷ words) in (word ∷ rest, code_type)

unfoldable pub is_lower : ℕ → Bool
is_lower c = leb b'a' c && leb c b'z'

unfoldable pub is_upper : ℕ → Bool
is_upper c = leb b'A' c && leb c b'Z'

-- ^[a-z]+(?:[A-Z][a-z]+)*$, where a word that has just begun still needs a small letter
unfoldable pub is_camel_case : Bool → Bytes → Bool
unfolding is_lower is_upper
is_camel_case needs [] = not needs
is_camel_case needs (c ∷ s) =
    let small = is_camel_case false s in
    let capital = is_camel_case true s in
    if is_lower c then small else if is_upper c && not needs then capital else false

-- strings.Join
unfoldable pub join_by : Bytes → List Bytes → Bytes
join_by sep [] = []
join_by sep (word ∷ []) = word
join_by sep (word ∷ next ∷ words) = word ++ (sep ++ join_by sep (next ∷ words))

-- `camel_split` is Split of the package camelcase, `to_lower` and `title` are the case mappings, and
-- `has_context` says whether the folder of a context exists.
pub record Tools : Type 0 where
  pub camel_split : Bytes → List Bytes
  pub to_lower : Bytes → Bytes
  pub title : Bytes → Bytes
  pub has_context : Bytes → Bool

-- renderData without the templates, and the two file names
pub record RenderData : Type 0 where
  pub usecase_name : Bytes
  pub err_msg : Bytes
  pub constructor_name : Bytes
  pub handler_name : Bytes
  pub code_type : CodeType
  pub code_file : Bytes
  pub test_file : Bytes

pub data Generated : Type 0 where
  invalid_arguments could_not_read_module panic could_not_save : Generated
  generated : RenderData → Generated

abbrev pub type_name : CodeType → Bytes
type_name command = b'C' ∷ b'o' ∷ b'm' ∷ b'm' ∷ b'a' ∷ b'n' ∷ b'd' ∷ []
type_name query = b'Q' ∷ b'u' ∷ b'e' ∷ b'r' ∷ b'y' ∷ []
type_name job = b'J' ∷ b'o' ∷ b'b' ∷ []
type_name _ = b'R' ∷ b'e' ∷ b'q' ∷ b'u' ∷ b'e' ∷ b's' ∷ b't' ∷ []

abbrev pub rendered_type : CodeType → CodeType
rendered_type command = command
rendered_type query = query
rendered_type job = job
rendered_type _ = request

abbrev pub or_parsed : CodeType → CodeType → CodeType
or_parsed unknown parsed = parsed
or_parsed given parsed = given

abbrev usecase_file : Bytes
usecase_file = b'.' ∷ b'u' ∷ b's' ∷ b'e' ∷ b'c' ∷ b'a' ∷ b's' ∷ b'e' ∷ []

module _ (tools : Tools) where
  -- The words of the name; `none` is an error.
  unfoldable pub words_of : Bytes → Option (List Bytes)
  unfolding is_camel_case contains_text split_by
  words_of arg =
      if is_camel_case true arg
      then some (tools.camel_split arg)
      else if contains_text dash arg
      then some (split_by dash 0 arg)
      else none

  unfoldable pub clean : Bytes → Bytes
  unfolding trim_space is_space
  clean word = tools.to_lower (trim_space is_space word)

  unfoldable pub parse_name : Bytes → Bytes → Option ParsedArgs
  unfolding words_of clean detect_code_type trim_space is_space
  parse_name context arg = elim (words_of (trim_space is_space arg)) [
    | none ↦ none
    | some words ↦
        let (args, code_type) = detect_code_type (map clean words) in
        some (record { context = context; args = args; code_type = code_type })
  ]

  -- `none` is ErrInvalidArguments.
  unfoldable pub parse_args : List Bytes → Option ParsedArgs
  unfolding parse_name trim_space is_space
  parse_args (arg ∷ []) = parse_name [] arg
  parse_args (context ∷ arg ∷ []) =
      if tools.has_context (trim_space is_space context)
      then parse_name (trim_space is_space context) arg
      else none
  parse_args _ = none

  unfoldable pub camel_name : List Bytes → Bytes
  camel_name [] = []
  camel_name (word ∷ words) = tools.title word ++ camel_name words

  -- renderFiles, with the names of the files; `none` is the panic of `arg[0]`.
  unfoldable pub render_files : List Bytes → CodeType → Option RenderData
  unfolding camel_name join_by
  render_files [] code_type = none
  render_files (word ∷ words) code_type = some (record {
    usecase_name = camel_name (word ∷ words);
    err_msg = join_by (b' ' ∷ []) (word ∷ words);
    constructor_name = camel_name (word ∷ words) ++ type_name code_type;
    handler_name = word ++ (camel_name words ++ type_name code_type);
    code_type = rendered_type code_type;
    code_file = join_by dash (word ∷ words) ++ (usecase_file ++ (b'.' ∷ b'g' ∷ b'o' ∷ []));
    test_file =
        join_by dash (word ∷ words)
        ++ (usecase_file ++ (b'_' ∷ b't' ∷ b'e' ∷ b's' ∷ b't' ∷ b'.' ∷ b'g' ∷ b'o' ∷ []));
  })

  -- Generate, where `module_read` says whether the go.mod file could be read and parsed, and `saves`
  -- whether the files could be written and formatted
  unfoldable pub generate : (module_read saves : Bool) → List Bytes → CodeType → Generated
  unfolding parse_args render_files
  generate module_read saves args code_type = elim (parse_args args) [
    | none ↦ invalid_arguments
    | some p ↦
        if not module_read
        then could_not_read_module
        else elim (render_files p.args (or_parsed code_type p.code_type)) [
          | none ↦ panic
          | some files ↦ if saves then generated files else could_not_save
        ]
  ]
