-- ===== src/Tool/Cycle.antt =====
-- arrower/internal/detect-build-run-app.business.go: the loop of `WatchBuildAndRunApp`. Hooks and
-- output are left out.
use arrower.Base.{
  not, if◌then◌else◌, Bytes, Bool, true, false, Option, none, some, ◌⊎◌, inl, inr, List, [], ◌∷◌,
}
use arrower.Tool.Files.{is_frontend_source}
use arrower.Tool.Build.{
  Machine, Commands, BuildError, App, Shutdown, build_and_run_app, stop_and_cleanup,
}

-- What the `select` gets: a file that has changed, or the end of the context; with the answers to the
-- commands that are called for it. The second part of `cancelled` says whether the goroutine of
-- WatchFolders is then sending a file.
pub data Turn : Type 0 where
  changed : Bytes → Shutdown → Commands → Turn
  cancelled : Shutdown → Bool → Turn

-- checkAndStop
unfoldable pub check_and_stop : Shutdown → Option App → Machine → Machine
unfolding stop_and_cleanup
check_and_stop s none m = m
check_and_stop s (some app) m = (stop_and_cleanup s app m).1

-- `stop` is nil after an error.
abbrev pub stop_of : App ⊎ BuildError → Option App
stop_of (inl app) = some app
stop_of (inr e) = none

-- wg.Wait() for the goroutine of WatchFolders: nobody receives a file any more, so that one that is
-- sending never ends; another sees that the context has ended.
unfoldable pub has_waited : Bool → Bool
has_waited is_sending = not is_sending

-- The loop: the files that the browsers are told of, whether the context has ended, whether the function
-- has returned, `stop` and the machine.
pub record Cycle : Type 0 where
  pub sent : List Bytes
  pub is_cancelled : Bool
  pub has_returned : Bool
  pub stop : Option App
  pub machine : Machine

unfoldable pub cycle : Option App → Machine → List Turn → Cycle
unfolding check_and_stop has_waited is_frontend_source build_and_run_app
cycle stop m [] = record {
  sent = [];
  is_cancelled = false;
  has_returned = false;
  stop = stop;
  machine = m;
}
cycle stop m (cancelled s is_sending ∷ turns) = record {
  sent = [];
  is_cancelled = true;
  has_returned = has_waited is_sending;
  stop = stop;
  machine = check_and_stop s stop m;
}
cycle stop m (changed file s c ∷ turns) =
    let frontend = is_frontend_source file in
    let (result, m') = build_and_run_app c [] (check_and_stop s stop m) in
    let rest =
      cycle (if frontend then stop else stop_of result) (if frontend then m else m') turns in
    record rest { sent = file ∷ rest.sent }

-- WatchBuildAndRunApp, whether the browser opens or not; `none` for the error
unfoldable pub watch_build_and_run_app :
    Commands → Bool → Machine → List Turn → Option Cycle × Machine
unfolding cycle build_and_run_app
watch_build_and_run_app c opens m turns =
    let (result, m') = build_and_run_app c [] m in
    let rest = cycle (stop_of result) m' turns in
    if opens then (some rest, rest.machine) else (none, m')
