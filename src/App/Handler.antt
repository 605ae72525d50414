-- ===== src/App/Handler.antt =====
-- app/handlers.go: what a use case is. `Request`, `Command`, `Query` and `Job` have one method, `H`;
-- a command and a job have no result, which is the result type `Unit` here, so that one definition
-- stands for the four copies of each decorator.
use arrower.Base.{nat_eq, bytes_eq, Bytes, Bool, Option, List, [], ◌∷◌, ◌++◌}
use arrower.Base.Text.{split_by}

-- The values of the context that the decorators set, and the active span.
pub record Context (Tx Span : Type 0) : Type 0 where
  pub validated : Option Bool
  pub tx : Option Tx
  pub span : Span

pub data Message : Type 0 where
  executing failed succeeded : Message

-- What a handler writes to the logger, the tracer and the meter. A span has the command as its
-- attribute and is recorded by it, as all have the same name. An ended span has the error that its
-- status was set to; a measurement says whether its status is "success".
pub data Record (Er : Type 0) : Type 0 where
  debug : Message → Bytes → Option Er → Record Er
  span_started : Bytes → Record Er
  span_ended : Bytes → Option Er → Record Er
  measured : Bytes → Bool → Record Er

-- The result with the error, the state that the handler leaves, and its records in their order. Go
-- returns a result also with an error.
abbrev pub Handled : Type 0 → Type 0 → Type 0 → Type 0
Handled Er Res S = (Res × Option Er) × S × List (Record Er)

abbrev pub Handler : Type 0 → Type 0 → Type 0 → Type 0 → Type 0 → Type 0 → Type 0
Handler Tx Span Er Req Res S = Context Tx Span → Req → S → Handled Er Res S

-- What `reflect` and `%T` say of the type of a request.
pub record TypeName : Type 0 where
  pub pkg_path : Bytes
  pub text : Bytes

abbrev contexts_dir : Bytes
contexts_dir = b'/' ∷ b'c' ∷ b'o' ∷ b'n' ∷ b't' ∷ b'e' ∷ b'x' ∷ b't' ∷ b's' ∷ b'/' ∷ []

abbrev internal_dir : Bytes
internal_dir = b'/' ∷ b'i' ∷ b'n' ∷ b't' ∷ b'e' ∷ b'r' ∷ b'n' ∷ b'a' ∷ b'l' ∷ b'/' ∷ []

unfoldable pub command_name : TypeName → Bytes
unfolding split_by
command_name t = elim (split_by contexts_dir 0 t.pkg_path) [
  | _ ∷ inside ∷ [] ↦ elim (split_by internal_dir 0 inside) [
    | context ∷ _ ∷ [] ↦ context ++ (b'/' ∷ t.text)
    | _ ↦ t.text
  ]
  | _ ↦ t.text
]
