-- ===== src/Tool/Watch.antt =====
-- arrower/internal/detect-file-changes.business.go: the loop of `WatchFolders`, once the folders are
-- watched.
use arrower.Base.{if◌then◌else◌, ◌&&◌, not, Bytes, Bool, true, false, List, [], ◌∷◌}
use arrower.Tool.Files.{is_observed_file}

-- What the `select` gets: the context is cancelled, a file has changed, or nothing has happened for
-- the whole interval since the last one.
pub data Event : Type 0 where
  cancelled : Event
  changed : Bytes → Event
  quiet : Event

-- The files that are sent, and whether the loop has ended; `debounce_active` is as in the source.
unfoldable pub watch : Bool → List Event → List Bytes × Bool
watch debounce_active [] = ([], false)
watch debounce_active (cancelled ∷ events) = ([], true)
watch debounce_active (quiet ∷ events) = watch false events
watch debounce_active (changed file ∷ events) =
    let fires = is_observed_file file && not debounce_active in
    let (sent, ended) = watch (if fires then true else debounce_active) events in
    (if fires then file ∷ sent else sent, ended)
