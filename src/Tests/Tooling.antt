-- ===== src/Tests/Tooling.antt =====
-- The tool watches and generates, and the theorems on it.
use arrower.Base.{◌≡◌, refl, nat_eq, bytes_eq, Bytes, true, false, some, [], ◌∷◌, ◌++◌, map, arith}
use arrower.Base.Text.{is_space}
use arrower.Tool.Files.{is_observed_file, PathInfo, format_file_path}
use arrower.Tool.Watch.{cancelled, changed, watch}
use arrower.Tool.Bursts.{bursts_then, all_first, first_observed, watch-bursts_then}
use arrower.Tool.Generate.{job, Tools, job_word, dash, join_by, parse_args, code_type_of}
use arrower.Tool.Naming.{IsNameWord, parse_args-join_by}

abbrev go_file : Bytes
go_file = b'a' ∷ b'.' ∷ b'g' ∷ b'o' ∷ []

abbrev test_file : Bytes
test_file = b'_' ∷ b't' ∷ b'e' ∷ b's' ∷ b't' ∷ b'.' ∷ b'g' ∷ b'o' ∷ []

abbrev css_file : Bytes
css_file = b'a' ∷ b'.' ∷ b'c' ∷ b's' ∷ b's' ∷ []

observed : map is_observed_file (go_file ∷ test_file ∷ css_file ∷ []) ≡ true ∷ false ∷ true ∷ []
unfolding is_observed_file bytes_eq nat_eq
observed = refl

abbrev dir : PathInfo
dir = record {
  abs_path = b'/' ∷ b'd' ∷ [];
  relative_path = b'.' ∷ b'.' ∷ [];
  display_path = b'.' ∷ b'.' ∷ [];
}

shortened :
    format_file_path (dir ∷ []) (b'/' ∷ b'd' ∷ b'/' ∷ go_file) ≡ b'.' ∷ b'.' ∷ b'/' ∷ go_file
unfolding format_file_path bytes_eq nat_eq
shortened = refl

watch-bursts_then_example :
    watch false (
      bursts_then
        ((test_file ∷ go_file ∷ css_file ∷ []) ∷ (test_file ∷ []) ∷ [])
        (map changed (css_file ∷ []) ++ (cancelled ∷ changed go_file ∷ [])))
    ≡ (go_file ∷ css_file ∷ [], true)
unfolding first_observed all_first is_observed_file bytes_eq nat_eq
watch-bursts_then_example =
    watch-bursts_then ((test_file ∷ go_file ∷ css_file ∷ []) ∷ (test_file ∷ []) ∷ [])
      (css_file ∷ []) (changed go_file ∷ [])

abbrev as_they_are : Tools
as_they_are = record {
  camel_split = λ word. word ∷ [];
  to_lower = λ word. word;
  title = λ word. word;
  has_context = λ context. true;
}

abbrev say : Bytes
say = b's' ∷ b'a' ∷ b'y' ∷ []

say_dark : IsNameWord as_they_are say
unfolding is_space nat_eq
say_dark = (((refl, omega arith), ((refl, omega arith), ((refl, omega arith), tt))), refl)

job_dark : IsNameWord as_they_are job_word
unfolding is_space nat_eq
job_dark = (((refl, omega arith), ((refl, omega arith), ((refl, omega arith), tt))), refl)

-- say-job
parse_args-join_by_example :
    parse_args as_they_are (join_by dash (say ∷ job_word ∷ []) ∷ [])
    ≡ some (record { context = []; args = say ∷ []; code_type = job })
unfolding code_type_of bytes_eq nat_eq
parse_args-join_by_example =
    parse_args-join_by as_they_are say [] job_word (say_dark, (job_dark, tt))
