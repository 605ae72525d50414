-- ===== src/Tool/Bursts.antt =====
-- arrower/internal/detect-file-changes.business.go: of each burst of changes one file is sent.
use arrower.Base.{
  ◌≡◌, refl, sym, ap, ◌∙◌, if◌then◌else◌, Bytes, Bool, true, false, List, [], ◌∷◌, ◌++◌, map,
  Bool-cases, inl, inr,
}
use arrower.Base.Append.{append_assoc, append_nil}
use arrower.Tool.Files.{is_observed_file}
use arrower.Tool.Watch.{Event, cancelled, changed, quiet, watch}

-- The first observed file of a burst, if there is one.
unfoldable pub first_observed : List Bytes → List Bytes
first_observed [] = []
first_observed (file ∷ files) = if is_observed_file file then file ∷ [] else first_observed files

-- Bursts of changes with an interval of quiet behind each.
unfoldable pub bursts_then : List (List Bytes) → List Event → List Event
bursts_then [] events = events
bursts_then (burst ∷ bursts) events = map changed burst ++ (quiet ∷ bursts_then bursts events)

unfoldable pub all_first : List (List Bytes) → List Bytes
unfolding first_observed
all_first [] = []
all_first (burst ∷ bursts) = first_observed burst ++ all_first bursts

-- Nothing is sent while the debounce is active.
watch-active :
    (files : List Bytes) (events : List Event)
    → watch true (map changed files ++ events) ≡ watch true events
unfolding watch
watch-active [] events = refl
watch-active (file ∷ files) events = elim (Bool-cases (is_observed_file file)) [
  | inl observed ↦ rw (observed, watch) (watch-active files events)
  | inr other ↦ rw (other, watch) (watch-active files events)
]

-- Of a burst the first observed file is sent, and then the debounce is active.
watch-burst :
    (files : List Bytes) (events : List Event)
    → ((b : Bool) → watch b events ≡ watch false events)
    → watch false (map changed files ++ events)
      ≡ (first_observed files ++ (watch false events).0, (watch false events).1)
unfolding watch first_observed
watch-burst [] events same = refl
watch-burst (file ∷ files) events same = elim (Bool-cases (is_observed_file file)) [
  | inl observed ↦
      let rest = watch-active files events ∙ same true in
      rw (observed, watch, first_observed) (ap (λ (w : List Bytes × Bool). (file ∷ w.0, w.1)) rest)
  | inr other ↦ rw (other, watch, first_observed) (watch-burst files events same)
]

-- Bursts of changes with an interval of quiet behind each, and then, in a last burst, the context
-- is cancelled: the loop ends there, whatever would follow. It has sent the first observed file of
-- each burst that has one, and no other, in the order of the bursts.
pub watch-bursts_then :
    (bursts : List (List Bytes)) (last : List Bytes) (never : List Event)
    → watch false (bursts_then bursts (map changed last ++ (cancelled ∷ never)))
      ≡ (all_first bursts ++ first_observed last, true)
unfolding bursts_then all_first watch
watch-bursts_then [] last never =
    watch-burst last (cancelled ∷ never) (λ b. refl)
    ∙ ap (λ l. (l, true)) (append_nil (first_observed last))
watch-bursts_then (burst ∷ bursts) last never =
    let events = bursts_then bursts (map changed last ++ (cancelled ∷ never)) in
    let rest = watch-bursts_then bursts last never in
    watch-burst burst (quiet ∷ events) (λ b. refl)
    ∙ ap (λ (w : List Bytes × Bool). (first_observed burst ++ w.0, w.1)) rest
    ∙ ap (λ l. (l, true))
        (sym (append_assoc (first_observed burst) (all_first bursts) (first_observed last)))
