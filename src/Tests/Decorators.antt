-- ===== src/Tests/Decorators.antt =====
-- A handler that counts, a database with one open transaction, and the theorems on the decorators.
use arrower.Base.{
  Bool, not, ℕ, zero, suc, ◌==◌, nat_eq, ◌+◌, ◌≡◌, refl, String, Bytes, is_some, true, false,
  Option, none, some, ◌⊎◌, inl, inr, [], ◌∷◌, Bool-cases, if◌then◌else◌,
}
use arrower.Base.Count.{count_of}
use arrower.Base.Text.{split_by, is_prefix}
use arrower.App.Handler.{
  Context, debug, executing, failed, span_started, span_ended, measured, Handler, TypeName,
  command_name,
}
use arrower.App.Instrumented.{instrumented, logged, metered, traced}
use arrower.App.Guarded.{passed_validation, Pool, transacted}
use arrower.App.Nesting.{open_spans, is_measurement, is_failure, bare, watched, instrumented_lem}
use arrower.App.Guarantees.{IsUndone, IsSettled, transacted_lem}

-- What others see, and what an open transaction has written.
abbrev Db : Type 0
Db = ℕ × Option ℕ

-- Requests below 10 are valid; the handler refuses 0 after it has written.
abbrev validate_small : ℕ → Option String
validate_small zero = some "required"
validate_small (suc n) = none

-- Writes into the open transaction, and refuses 1 after it has written.
abbrev writing : Handler ℕ Bytes String ℕ ℕ Db
writing ctx n s = elim (n == 1) [
  | true ↦ ((0, some "refused"), (s.0, some 1), debug executing [] none ∷ [])
  | false ↦ ((n, none), (s.0, some n), [])
]

-- There is one transaction at a time; it is number 5, and 13 cannot be committed.
abbrev commit_unless_13 : ℕ → Option ℕ → Option String × Db
commit_unless_13 old none = (some "no transaction", (old, none))
commit_unless_13 old (some w) = elim (w == 13) [
  | true ↦ (some "unlucky", (old, none))
  | false ↦ (none, (w, none))
]

abbrev one_at_a_time : Pool ℕ String Db
one_at_a_time = record {
  begin = λ s. elim s.1 [ some w ↦ (inr "busy", s) | none ↦ (inl 5, (s.0, some s.0)) ];
  commit = λ tx s. commit_unless_13 s.0 s.1;
  rollback = λ tx s. (none, (s.0, none));
  wrap = λ phase e. e;
}

abbrev no_context : Context ℕ Bytes
no_context = record { validated = none; tx = none; span = [] }

test_commit : transacted 0 one_at_a_time writing no_context 4 (3, none) ≡ ((4, none), (4, none), [])
unfolding transacted nat_eq
test_commit = refl

test_rollback :
    transacted 0 one_at_a_time writing no_context 1 (3, none)
    ≡ ((0, some "refused"), (3, none), debug executing [] none ∷ [])
unfolding transacted nat_eq
test_rollback = refl

test_commit_refused :
    transacted 0 one_at_a_time writing no_context 13 (3, none)
    ≡ ((0, some "unlucky"), (3, none), [])
unfolding transacted nat_eq
test_commit_refused = refl

begin_keeps : (s : Db) → (one_at_a_time.begin s).1.0 ≡ s.0
begin_keeps (old, none) = refl
begin_keeps (old, some w) = refl

writing_keeps : (ctx : Context ℕ Bytes) (n : ℕ) (s : Db) → (writing ctx n s).1.0 ≡ s.0
writing_keeps ctx n s = elim (Bool-cases (n == 1)) [
  | inl same ↦ rw (writing, same) refl
  | inr other ↦ rw (writing, other) refl
]

-- A transaction is over if none is open.
abbrev none_open : ℕ → Db → Bool
none_open tx s = not (is_some s.1)

transacted_lem_example :
    let (answer, s', records) = transacted 0 one_at_a_time writing no_context 1 (3, none) in
    ((e : String) × ((one_at_a_time.begin (3, none)).0 ≡ inr e)
      × IsUndone (λ (s : Db). s.0) (3, none) (answer, s'))
    ⊎ ((tx : ℕ) × (s1 : Db) × (one_at_a_time.begin (3, none) ≡ (inl tx, s1))
        × IsSettled one_at_a_time
            (λ s. s.0)
            none_open
            writing
            no_context
            1
            (3, none)
            tx
            s1
            (answer, s'))
transacted_lem_example =
    transacted_lem 0 one_at_a_time (λ s. s.0) none_open begin_keeps (λ tx s. refl) (λ tx s _. refl)
      writing (λ ctx n s tx _. writing_keeps ctx n s) no_context 1 (3, none)

-- Checks that it is called behind validation.
abbrev careful : Handler ℕ Bytes String ℕ ℕ Db
careful ctx n s = elim (passed_validation ctx) [
  | true ↦ ((n, none), (n, none), [])
  | false ↦ ((0, some "not validated"), s, [])
]

abbrev careless : Handler ℕ Bytes String ℕ ℕ Db
careless ctx n s = ((n, none), (n, none), [])

careful-careless :
    (ctx : Context ℕ Bytes) (n : ℕ) (s : Db)
    → passed_validation ctx ≡ true
    → validate_small n ≡ none
    → careful ctx n s ≡ careless ctx n s
careful-careless ctx n s passed valid = rw (careful, passed) refl

abbrev block_type : TypeName
block_type = record {
  pkg_path =
      b'x' ∷ b'/' ∷ b'c' ∷ b'o' ∷ b'n' ∷ b't' ∷ b'e' ∷ b'x' ∷ b't' ∷ b's' ∷ b'/' ∷ b'a' ∷ b'/'
      ∷ b'i' ∷ b'n' ∷ b't' ∷ b'e' ∷ b'r' ∷ b'n' ∷ b'a' ∷ b'l' ∷ b'/' ∷ b'p' ∷ [];
  text = b'p' ∷ b'.' ∷ b'B' ∷ [];
}

test_command_name : command_name block_type ≡ b'a' ∷ b'/' ∷ b'p' ∷ b'.' ∷ b'B' ∷ []
unfolding command_name split_by is_prefix nat_eq
test_command_name = refl

abbrev innermost : Bytes → Bytes → Bytes
innermost span name = name

abbrev name_of_all : ℕ → TypeName
name_of_all n = block_type

test_instrumented : instrumented name_of_all innermost writing no_context 1 (3, none) ≡ (
  (0, some "refused"),
  (3, some 1),
  span_started (command_name block_type)
      ∷ debug executing (command_name block_type) none
      ∷ debug executing [] none
      ∷ debug failed (command_name block_type) (some "refused")
      ∷ measured (command_name block_type) false
      ∷ span_ended (command_name block_type) (some "refused")
      ∷ [],
)
unfolding instrumented logged metered traced nat_eq
test_instrumented = refl

instrumented_lem_example :
    ((watched name_of_all innermost writing no_context 1 (3, none)).0
      ≡ (bare name_of_all innermost writing no_context 1 (3, none)).0)
    × ((watched name_of_all innermost writing no_context 1 (3, none)).1
        ≡ (bare name_of_all innermost writing no_context 1 (3, none)).1)
    × (open_spans [] (watched name_of_all innermost writing no_context 1 (3, none)).2 ≡ some [])
    × (count_of is_measurement (watched name_of_all innermost writing no_context 1 (3, none)).2
        ≡ count_of is_measurement (bare name_of_all innermost writing no_context 1 (3, none)).2 + 1)
    × (count_of is_failure (watched name_of_all innermost writing no_context 1 (3, none)).2
        ≡ count_of is_failure (bare name_of_all innermost writing no_context 1 (3, none)).2
          + (if is_some (bare name_of_all innermost writing no_context 1 (3, none)).0.1
              then 1
              else 0))
unfolding open_spans nat_eq
instrumented_lem_example =
    instrumented_lem name_of_all innermost writing no_context 1 (3, none) [] refl
