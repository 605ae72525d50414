-- ===== src/Tests/Repository.antt =====
-- The repository's methods on small collections, and its theorems at inputs that meet their
-- hypotheses.
use arrower.Base.{
  false, is_some, ◌&&◌, ◌||◌, ℕ, ◌%◌, ◌≡◌, ◌↔◌, refl, inr, String, nat_eq, ◌==◌, if◌then◌else◌, not,
  true, none, some, List, [], ◌∷◌, arith, Bytes, bytes_eq, string_eq,
}
use arrower.Base.Dict.{lookup, insert, values}
use arrower.Arepo.Errors.{ok, is_not_found}
use arrower.Arepo.Memory.State.{Schema, Store, MemoryRepository, noop_store}
use arrower.Arepo.Memory.Writes.{create}
use arrower.Arepo.Memory.Batch.{some_id_empty}
use arrower.Arepo.Memory.Valid.{IsValid, last_of}
use arrower.Arepo.Memory.Invariant.{Command, apply}
use arrower.Arepo.Memory.Invariant
use arrower.Arepo.Memory.Preserve.{apply-IsValid}
use arrower.Arepo.Memory.Refinement
use arrower.Arepo.Memory.Refinement.{run, spec_run, view, lookup-run}
use arrower.Arepo.Memory.Filter.{Reflection, find_by}
use arrower.Arepo.Memory.FilterLaws.{
  all_fit, matching, any_panics, answers_ok, fails_with, find_by_lem,
}
use arrower.Arepo.Query.{Condition, equal}

-- An entity with an ID and a name.
abbrev Item : Type 0
Item = ℕ × String

instance abbrev item_schema : Schema Item ℕ
item_schema = record { get_id = λ e. e.0; zero_id = 0; zero_entity = (0, "") }

instance abbrev item_store : Store Item ℕ (Unit {0})
item_store = noop_store

-- A store that refuses everything.
abbrev refusing : Store Item ℕ (Unit {0})
refusing = record { store = λ s _. (some "disk full", s) }

abbrev Items : Type 0
Items = MemoryRepository Item ℕ (Unit {0})

abbrev two_items : Items
two_items = record {
  collection = (1, (1, "a")) ∷ (2, (2, "b")) ∷ [];
  current_int_id = 0;
  state = tt;
}

abbrev third : Item
third = (3, "c")

abbrev renamed : Item
renamed = (1, "new")

two_items-IsValid : IsValid two_items.collection
unfolding lookup nat_eq
two_items-IsValid = record {
  own = λ id e h. ground arith;
  none_at_zero = refl;
  nodup = (refl, (refl, tt));
}

abbrev script : List (Command Item ℕ)
script =
    Invariant.create third
    ∷ Invariant.delete renamed
    ∷ Invariant.save_all (renamed ∷ third ∷ [])
    ∷ Invariant.delete_by_ids (2 ∷ [])
    ∷ []

lookup-run_example : lookup 1 (run script two_items).collection ≡ spec_run script (view two_items) 1
lookup-run_example = lookup-run (λ s d. refl) script two_items 1

script_result : spec_run script (view two_items) 2 ≡ none
unfolding spec_run lookup nat_eq last_of some_id_empty Refinement.spec
script_result = refl

apply-IsValid_example :
    IsValid (apply ⦃st = refusing⦄ (Invariant.update renamed) two_items).1.collection
apply-IsValid_example =
    apply-IsValid ⦃st = refusing⦄ (Invariant.update renamed) two_items two_items-IsValid (inr tt)

create_result : lookup 3 (create third two_items).1.collection ≡ some third
unfolding create lookup insert nat_eq
create_result = refl

-- IDs of eight bits.
abbrev set_byte : ℕ → ℕ
set_byte n = n % 256

-- Reflection on an entity with the one field `Name`, whose values are texts of kind 24.
abbrev name_field : Bytes
name_field = b'N' ∷ b'a' ∷ b'm' ∷ b'e' ∷ []

instance abbrev item_reflection : Reflection Item String
item_reflection = record {
  snake_case = λ s. s;
  fields = record { name = name_field; db_tag = [] } ∷ [];
  is_exported = λ f. true;
  is_uncomparable = λ a b. false;
  value = λ e f. if f == name_field then some e.1 else none;
  kind = λ _. 24;
}

abbrev named_a : List (Condition String)
named_a =
    record {
      field = b'n' ∷ b'a' ∷ b'm' ∷ b'e' ∷ [];
      operator = equal;
      value = some "a";
      second_value = none;
    }
    ∷ []

find_by_lem_example :
    ((find_by named_a two_items ≡ some (ok (1, "a"))) ↔ (
      (all_fit named_a (values two_items.collection) ≡ true)
      × (matching named_a (values two_items.collection) ≡ (1, "a") ∷ [])))
    × (fails_with is_not_found (find_by named_a two_items)
        ≡ (is_some (find_by named_a two_items) && not (answers_ok (find_by named_a two_items))))
    × ((is_some (find_by named_a two_items) || any_panics named_a (values two_items.collection))
        ≡ true)
find_by_lem_example = find_by_lem named_a two_items (1, "a")
