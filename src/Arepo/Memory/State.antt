-- ===== src/Arepo/Memory/State.antt =====
-- arepo/inmemory.repository.go: the state of `MemoryRepository`, what reflection reads of its entity
-- type, and the store behind it (arepo/store.go).
--
-- A method takes the repository last and returns its result with the repository that it leaves.
-- Each method locks the mutex for its whole body, so it is one step here.
use arrower.Base.{String, Option, none, some}
use arrower.Base.Dict.{Dict}
use arrower.Arepo.Errors.{Operation, not_stored, Result, ok, err}

-- The value of an entity's ID field (`getID`), and the zero values `*new(ID)` and `*new(E)`.
pub record Schema (E ID : Type 0) : Type 0 where
  pub get_id : E → ID
  pub zero_id : ID
  pub zero_entity : E

-- The method `Store` of the interface, over the state of an implementation; `none` is the nil error.
-- A repository never changes its file name, so the name is part of the implementation here.
pub record Store (E ID S : Type 0) : Type 0 where
  pub store : S → Dict ID E → Option String × S

-- `collection` is the field `Data`.
pub record MemoryRepository (E ID S : Type 0) : Type 0 where
  pub collection : Dict ID E
  pub current_int_id : ID
  pub state : S

abbrev pub Outcome : Type 0 → Type 0 → Type 0 → Type 0
Outcome E ID S = Result Unit × MemoryRepository E ID S

-- `noopStore`
abbrev pub noop_store : {E ID : Type 0} → Store E ID (Unit {0})
noop_store = record { store = λ s _. (none, s) }

-- The last part of each method that writes: store the collection that the method has written, and
-- where that fails return the error and the collection that the method's rollback makes.
module _ {E ID S : Type 0} ⦃st : Store E ID S⦄ where
  unfoldable pub commit :
      Operation → MemoryRepository E ID S → (Dict ID E → Dict ID E) → Dict ID E → Outcome E ID S
  commit op r rollback written =
      let (failure, s) = st.store r.state written in
      elim failure [
        | none ↦ (ok tt, record r { collection = written; state = s })
        | some cause ↦
            (err (not_stored op cause), record r { collection = rollback written; state = s })
      ]
