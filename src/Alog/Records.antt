-- ===== src/Alog/Records.antt =====
-- alog/postgres-handler.go: `PostgresHandler.Handle` and `render`, which share a buffer with all copies
-- of the handler.
use arrower.Base.{
  nat_eq, bytes_eq, if◌then◌else◌, Bytes, Bool, Option, none, some, List, [], ◌∷◌, ◌++◌,
}
use arrower.Auth.Middleware.{CtxUser, as_string}
use arrower.Alog.Batches.{save_logs}

-- logRecord
pub record LogRecord (Time Uuid : Type 0) : Type 0 where
  pub time : Time
  pub user_id : Option Uuid
  pub log : Bytes

-- The buffer, the records that wait in the channel of an asynchronous handler, and the batches that
-- LogRecords was called with.
pub record Handler (Time Uuid : Type 0) : Type 0 where
  pub output : Bytes
  pub is_async : Bool
  pub records : List (LogRecord Time Uuid)
  pub submitted : List (List (LogRecord Time Uuid))

-- What is outside: what slog's JSON handler writes behind what is in the buffer, with its error, the
-- two directions of encoding/json, and `uuid.MustParse`, where `none` is its panic.
pub record Encoding (Rec Object Uuid : Type 0) : Type 0 where
  pub handle_json : Rec → Bytes → Bool × Bytes
  pub unmarshal : Bytes → Option Object
  pub marshal : Object → Option Bytes
  pub parse_uuid : Bytes → Option Uuid

pub data Handled : Type 0 where
  handled could_not_render could_not_save invalid_user_panic : Handled

module _ {Time Uuid Rec Object : Type 0} (enc : Encoding Rec Object Uuid)
    (time_of : Rec → Time) where
  -- The buffer is emptied only after the last step.
  unfoldable pub render : Rec → Bytes → Option Bytes × Bytes
  render rec output =
      let (failed, written) = enc.handle_json rec output in
      let text : Option Bytes = elim (enc.unmarshal written) [
        | none ↦ none
        | some object ↦ enc.marshal object
      ] in
      if failed
      then (none, written)
      else elim text [ none ↦ (none, written) | some t ↦ (some t, []) ]

  -- The user's ID, if it is in the context as a string; the outer `none` is a panic.
  unfoldable pub user_of : Option CtxUser → Option (Option Uuid)
  user_of (some (as_string u)) = elim (enc.parse_uuid u) [ none ↦ none | some id ↦ some (some id) ]
  user_of _ = some none

  -- The end of Handle; `saved` says whether LogRecords returns no error.
  unfoldable pub deliver :
      Bool → LogRecord Time Uuid → Handler Time Uuid → Handled × Handler Time Uuid
  unfolding save_logs
  deliver saved rec h =
      if h.is_async then (handled, record h { records = h.records ++ (rec ∷ []) }) else (
        if saved then handled else could_not_save,
        record h { submitted = save_logs (rec ∷ []) h.submitted },
      )

  unfoldable pub handle_rendered :
      Bool
      → Rec
      → Option Uuid
      → Option Bytes × Bytes
      → Handler Time Uuid
      → Handled × Handler Time Uuid
  unfolding deliver
  handle_rendered saved rec user (none, output) h = (could_not_render, record h { output = output })
  handle_rendered saved rec user (some text, output) h =
      deliver saved (record { time = time_of rec; user_id = user; log = text })
        (record h { output = output })

  -- Handle
  unfoldable pub handle :
      Bool → Rec → Option CtxUser → Handler Time Uuid → Handled × Handler Time Uuid
  unfolding user_of render handle_rendered
  handle saved rec ctx h = elim (user_of ctx) [
    | none ↦ (invalid_user_panic, h)
    | some user ↦ handle_rendered saved rec user (render rec h.output) h
  ]

  -- Records with what LogRecords says to each and the users in their contexts, handled in their order.
  unfoldable pub handle_all :
      List (Bool × Rec × Option CtxUser) → Handler Time Uuid → List Handled × Handler Time Uuid
  unfolding handle
  handle_all [] h = ([], h)
  handle_all ((saved, rec, ctx) ∷ recs) h =
      let (result, h1) = handle saved rec ctx h in
      let (results, h2) = handle_all recs h1 in (result ∷ results, h2)
