-- ===== src/Tool/Build.antt =====
-- arrower/internal/build-run-app.business.go: `BuildAndRunApp` and the function it returns, over what
-- the commands that it calls answer. The output is left out.
use arrower.Base.{
  nat_eq, bytes_eq, ◌==◌, ◌||◌, if◌then◌else◌, ℕ, Bytes, Bool, true, false, Option, none, some, not,
  ◌⊎◌, inl, inr, List, [], ◌∷◌,
}
use arrower.Base.Text.{contains_text}

-- The binaries on the disk, and the apps that run.
pub record Machine : Type 0 where
  pub binaries : List Bytes
  pub apps : List ℕ

-- The answers to one call: the path of os.CreateTemp, what `go build` writes if it fails, whether
-- `go mod tidy`, the second build and os.Remove succeed, and the process that starts.
pub record Commands : Type 0 where
  pub random_path : Option Bytes
  pub build : Option Bytes
  pub tidy : Bool
  pub rebuild : Bool
  pub remove : Bool
  pub start : Option ℕ

pub data BuildError : Type 0 where
  build_failed build_clean_failed run_failed : BuildError

-- What the cleanup function knows: the process and the binary.
abbrev pub App : Type 0
App = ℕ × Bytes

-- "go: updates to go.mod needed;"
abbrev pub updates_needed : Bytes
updates_needed =
    b'g' ∷ b'o' ∷ b':' ∷ b' ' ∷ b'u' ∷ b'p' ∷ b'd' ∷ b'a' ∷ b't' ∷ b'e' ∷ b's' ∷ b' ' ∷ b't' ∷ b'o'
    ∷ b' ' ∷ b'g' ∷ b'o' ∷ b'.' ∷ b'm' ∷ b'o' ∷ b'd' ∷ b' ' ∷ b'n' ∷ b'e' ∷ b'e' ∷ b'd' ∷ b'e'
    ∷ b'd' ∷ b';' ∷ []

-- "no required module provides package"
abbrev pub no_module : Bytes
no_module =
    b'n' ∷ b'o' ∷ b' ' ∷ b'r' ∷ b'e' ∷ b'q' ∷ b'u' ∷ b'i' ∷ b'r' ∷ b'e' ∷ b'd' ∷ b' ' ∷ b'm' ∷ b'o'
    ∷ b'd' ∷ b'u' ∷ b'l' ∷ b'e' ∷ b' ' ∷ b'p' ∷ b'r' ∷ b'o' ∷ b'v' ∷ b'i' ∷ b'd' ∷ b'e' ∷ b's'
    ∷ b' ' ∷ b'p' ∷ b'a' ∷ b'c' ∷ b'k' ∷ b'a' ∷ b'g' ∷ b'e' ∷ []

unfoldable pub without {ℓ} : {A : Type ℓ} → (A → Bool) → List A → List A
without is_gone [] = []
without is_gone (x ∷ xs) = let rest = without is_gone xs in if is_gone x then rest else x ∷ rest

unfoldable pub remove_binary : Bytes → Machine → Machine
unfolding without
remove_binary path m = record m { binaries = without (λ p. p == path) m.binaries }

unfoldable pub add_binary : Bytes → Machine → Machine
unfolding without
add_binary path m = record m { binaries = path ∷ without (λ p. p == path) m.binaries }

-- The end of a build that has failed: the binary is removed.
unfoldable pub clean_up : Commands → Bytes → Machine → (App ⊎ BuildError) × Machine
unfolding remove_binary
clean_up c path m =
    if c.remove then (inr build_failed, remove_binary path m) else (inr build_clean_failed, m)

unfoldable pub run_app : Commands → Bytes → Machine → (App ⊎ BuildError) × Machine
run_app c path m = elim c.start [
  | none ↦ (inr run_failed, m)
  | some process ↦ (inl (process, path), record m { apps = process ∷ m.apps })
]

-- BuildAndRunApp, once the path of the binary is known
unfoldable pub build_at : Commands → Bytes → Machine → (App ⊎ BuildError) × Machine
unfolding clean_up run_app contains_text add_binary
build_at c path m = elim c.build [
  | none ↦ run_app c path (add_binary path m)
  | some text ↦
      if contains_text updates_needed text || contains_text no_module text
      then if c.tidy
        then if c.rebuild then run_app c path (add_binary path m) else clean_up c path m
        else (inr build_failed, m)
      else clean_up c path m
]

-- BuildAndRunApp, with a writer
unfoldable pub build_and_run_app : Commands → Bytes → Machine → (App ⊎ BuildError) × Machine
unfolding build_at add_binary
build_and_run_app c binary_path m =
    if binary_path == []
    then elim c.random_path [
      | none ↦ (inr build_failed, m)
      | some path ↦ build_at c path (add_binary path m)
    ]
    else build_at c binary_path m

-- The answers to one call of the cleanup function: whether the signal is sent or the process is done
-- already, whether it ends in time, whether it can be killed, and whether the binary can be deleted.
pub record Shutdown : Type 0 where
  pub signalled : Bool
  pub in_time : Bool
  pub killed : Bool
  pub deleted : Bool

-- stopAndCleanup; the result says whether it succeeds.
unfoldable pub stop_and_cleanup : Shutdown → App → Machine → Bool × Machine
unfolding remove_binary without
stop_and_cleanup s (process, path) m =
    let m' = if s.deleted then remove_binary path m else m in
    if not s.signalled
    then (false, m')
    else if s.in_time || s.killed
    then (true, record m' { apps = without (λ p. p == process) m'.apps })
    else (false, m')
