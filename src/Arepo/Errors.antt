-- ===== src/Arepo/Errors.antt =====
-- The errors of arepo/repository.go, as the values that the methods return. An error that Go
-- builds by `fmt.Errorf("%w: …")` is the constructor of its outermost text.
use arrower.Base.{ℕ, String, Bool, true, false, List, []}

pub data Operation : Type 0 where
  creating updating deleting saving : Operation

pub data QueryError : Type 0 where
  nil_value : QueryError
  unknown_field : QueryError
  kind_mismatch : QueryError

pub data Error : Type 0 where
  already_exists : Error
  some_already_exist : Error
  not_found : Error
  some_not_found : Error
  not_unique : ℕ → Error
  query_failed : Error → Error
  invalid_query : QueryError → Error
  empty_id : Operation → Error
  missing : Operation → Error
  not_stored : Operation → String → Error

pub data Result {ℓ} (A : Type ℓ) : Type ℓ where
  ok : A → Result A
  err : Error → Result A

abbrev pub is_ok {ℓ} : {A : Type ℓ} → Result A → Bool
is_ok (ok _) = true
is_ok (err _) = false

-- The method fails with an error that the test accepts.
abbrev pub fails_as {ℓ} : {A : Type ℓ} → (Error → Bool) → Result A → Bool
fails_as test (ok _) = false
fails_as test (err e) = test e

-- The entities that a method returns, none with an error.
abbrev pub entities_of {ℓ} : {A : Type ℓ} → Result (List A) → List A
entities_of (ok es) = es
entities_of (err _) = []

-- errors.Is(err, ErrNotFound)
unfoldable pub is_not_found : Error → Bool
is_not_found not_found = true
is_not_found some_not_found = true
is_not_found (not_unique _) = true
is_not_found (query_failed _) = true
is_not_found (missing _) = true
is_not_found _ = false

-- errors.Is(err, ErrAlreadyExists)
unfoldable pub is_already_exists : Error → Bool
is_already_exists already_exists = true
is_already_exists some_already_exist = true
is_already_exists (query_failed e) = is_already_exists e
is_already_exists _ = false

-- errors.Is(err, ErrStorage)
unfoldable pub is_storage : Error → Bool
is_storage (query_failed e) = is_storage e
is_storage (invalid_query _) = true
is_storage (empty_id _) = true
is_storage (missing _) = true
is_storage (not_stored _ _) = true
is_storage _ = false
