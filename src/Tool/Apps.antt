-- ===== src/Tool/Apps.antt =====
-- arrower/internal/detect-build-run-app.business.go: how many apps run at once.
use arrower.Base.{
  not, bytes_eq, ℕ, ◌≡◌, nat_eq, ◌&&◌, ◌||◌, Bytes, Bool, true, false, Option, none, some, ◌⊎◌,
  List, [], ◌∷◌,
}
use arrower.Tool.Build.{Machine, BuildError, App, Shutdown}
use arrower.Tool.Cycle.{Turn, changed, cancelled, Cycle, stop_of}

-- The process that `stop` would stop.
unfoldable pub owned : Option App → List ℕ
owned none = []
owned (some app) = app.0 ∷ []

-- The signal is sent, and the process ends in time or is killed.
abbrev pub succeeds : Shutdown → Bool
succeeds s = s.signalled && (s.in_time || s.killed)

abbrev pub shutdown_of : Turn → Shutdown
shutdown_of (changed file s c) = s
shutdown_of (cancelled s is_sending) = s

-- The app that runs is the one that is returned.
abbrev IsOwned : (App ⊎ BuildError) × Machine → Type 0
IsOwned r = r.1.apps ≡ owned (stop_of r.0)

-- The files that change before the context ends, and whether a file was being sent when it ended, if it
-- has.
unfoldable pub changed_files : List Turn → List Bytes × Option Bool
changed_files [] = ([], none)
changed_files (cancelled s is_sending ∷ turns) = ([], some is_sending)
changed_files (changed file s c ∷ turns) =
    let (files, ends) = changed_files turns in (file ∷ files, ends)

-- What is told to the browsers, whether the context has ended and whether the function has returned.
unfoldable pub outcome_of : List Bytes × Option Bool → List Bytes × Bool × Bool
outcome_of (files, none) = (files, false, false)
outcome_of (files, some is_sending) = (files, true, not is_sending)
