-- ===== src/Tests/Running.antt =====
-- Apps that are built, run and stopped while files change.
use arrower.Base.{ℕ, ◌≡◌, refl, nat_eq, bytes_eq, Bytes, true, false, none, some, List, [], ◌∷◌}
use arrower.Base.Text.{contains_text, is_prefix, is_suffix}
use arrower.Tool.Files.{is_frontend_source, has_one_suffix}
use arrower.Tool.Build.{
  Machine, Commands, Shutdown, build_and_run_app, build_at, run_app, clean_up, add_binary,
  remove_binary, without, stop_and_cleanup, no_module,
}
use arrower.Tool.Cycle.{
  Turn, changed, cancelled, Cycle, cycle, check_and_stop, watch_build_and_run_app,
}

abbrev builds : ℕ → Commands
builds process = record {
  random_path = some (process ∷ []);
  build = none;
  tidy = true;
  rebuild = true;
  remove = true;
  start = some process;
}

-- A module is missing and cannot be had.
abbrev untidy : Commands
untidy = record (builds 2) { build = some no_module; tidy = false }

abbrev graceful : Shutdown
graceful = record { signalled = true; in_time = true; killed = false; deleted = true }

abbrev empty_machine : Machine
empty_machine = record { binaries = []; apps = [] }

abbrev go_file : Bytes
go_file = b'.' ∷ b'g' ∷ b'o' ∷ []

abbrev css_file : Bytes
css_file = b'.' ∷ b'c' ∷ b's' ∷ b's' ∷ []

abbrev turns : List Turn
turns =
    changed go_file graceful (builds 2)
    ∷ changed css_file graceful (builds 3)
    ∷ changed go_file graceful untidy
    ∷ cancelled graceful true
    ∷ []

abbrev end : Machine
end = (watch_build_and_run_app (builds 1) true empty_machine turns).1

-- No app runs at the end, but the binary whose build failed for a missing module is left.
test_left : end ≡ record { binaries = (2 ∷ []) ∷ []; apps = [] }
unfolding watch_build_and_run_app cycle check_and_stop build_and_run_app build_at run_app clean_up
    add_binary remove_binary without stop_and_cleanup contains_text is_prefix is_suffix
    is_frontend_source has_one_suffix nat_eq bytes_eq
test_left = refl

-- If the browser does not open, the app runs on.
test_unopened : (watch_build_and_run_app (builds 1) false empty_machine turns).1.apps ≡ 1 ∷ []
unfolding watch_build_and_run_app cycle check_and_stop build_and_run_app build_at run_app clean_up
    add_binary remove_binary without stop_and_cleanup contains_text is_prefix is_suffix
    is_frontend_source has_one_suffix nat_eq bytes_eq
test_unopened = refl
