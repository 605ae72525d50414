-- ===== src/App/Instrumented.antt =====
-- app/logger.decorator.go, app/metric.decorator.go, app/tracer.decorator.go: the decorators that only
-- watch a handler, and their composition in app/handlers.go.
use arrower.Base.{is_some, not, Bytes, none, some, [], ◌∷◌, ◌++◌}
use arrower.App.Handler.{
  Record, debug, span_started, span_ended, measured, executing, failed, succeeded, Handler,
  TypeName, command_name,
}

module _ {Tx Span Er Req Res S : Type 0} (type_of : Req → TypeName) where
  unfoldable pub logged : Handler Tx Span Er Req Res S → Handler Tx Span Er Req Res S
  logged h ctx req s =
      let name = command_name (type_of req) in
      let (answer, s', records) = h ctx req s in
      let last : Record Er = elim answer.1 [
        | none ↦ debug succeeded name none
        | some e ↦ debug failed name (some e)
      ] in
      (answer, s', debug executing name none ∷ (records ++ (last ∷ [])))

  -- The counter and the duration are recorded in the deferred function, after the status is known.
  unfoldable pub metered : Handler Tx Span Er Req Res S → Handler Tx Span Er Req Res S
  metered h ctx req s =
      let name = command_name (type_of req) in
      let (answer, s', records) = h ctx req s in
      (answer, s', records ++ (measured name (not (is_some answer.1)) ∷ []))

  -- `start` is the span that the tracer starts under the active one.
  unfoldable pub traced :
      (Span → Bytes → Span) → Handler Tx Span Er Req Res S → Handler Tx Span Er Req Res S
  traced start h ctx req s =
      let name = command_name (type_of req) in
      let (answer, s', records) = h (record ctx { span = start ctx.span name }) req s in
      (answer, s', span_started name ∷ (records ++ (span_ended name answer.1 ∷ [])))

  -- NewInstrumentedRequest and its likes
  unfoldable pub instrumented :
      (Span → Bytes → Span) → Handler Tx Span Er Req Res S → Handler Tx Span Er Req Res S
  unfolding logged metered traced
  instrumented start h = traced start (metered (logged h))
