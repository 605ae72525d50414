-- ===== src/App/Nesting.antt =====
-- app/: what the decorators that only watch a handler add to its records.
use arrower.Base.{
  ◌+◌, ◌≡◌, refl, ◌∙◌, ◌==◌, bytes_eq, if◌then◌else◌, is_some, not, Bytes, Bool, true, false,
  Option, none, some, List, [], ◌∷◌, ◌++◌, arith, Option-cases, inl, inr,
}
use arrower.Base.Count.{count_of, count_of-append}
use arrower.App.Handler.{
  Message, executing, failed, succeeded, Context, Record, debug, span_started, span_ended, measured,
  Handled, Handler, TypeName, command_name,
}
use arrower.App.Instrumented.{instrumented}

module _ {Er : Type 0} where
  -- The names of the spans that are open after the records, if every span that ends is the one that
  -- was opened last.
  unfoldable pub open_spans : List Bytes → List (Record Er) → Option (List Bytes)
  open_spans stack [] = some stack
  open_spans stack (span_started name ∷ rs) = open_spans (name ∷ stack) rs
  open_spans [] (span_ended name e ∷ rs) = none
  open_spans (top ∷ stack) (span_ended name e ∷ rs) =
      let rest = open_spans stack rs in if top == name then rest else none
  open_spans stack (debug _ _ _ ∷ rs) = open_spans stack rs
  open_spans stack (measured _ _ ∷ rs) = open_spans stack rs

  abbrev pub is_measurement : Record Er → Bool
  is_measurement (measured _ _) = true
  is_measurement _ = false

  abbrev pub is_failure : Record Er → Bool
  is_failure (measured _ success) = not success
  is_failure _ = false

  open_spans-append :
      (stack : List Bytes) (after : List Bytes) (xs ys : List (Record Er))
      → open_spans stack xs ≡ some after
      → open_spans stack (xs ++ ys) ≡ open_spans after ys
  unfolding open_spans
  open_spans-append stack after [] ys h = ground (arith, h)
  open_spans-append stack after (span_started name ∷ xs) ys h =
      open_spans-append (name ∷ stack) after xs ys h
  open_spans-append [] after (span_ended name e ∷ xs) ys h = absurd (ground (arith, h))
  open_spans-append (top ∷ stack) after (span_ended name e ∷ xs) ys h =
      ground (arith, open_spans-append stack after xs ys)
  open_spans-append stack after (debug _ _ _ ∷ xs) ys h = open_spans-append stack after xs ys h
  open_spans-append stack after (measured _ _ ∷ xs) ys h = open_spans-append stack after xs ys h

  -- A handler's records between those that the decorators add.
  abbrev surrounded :
      Bytes → Bytes → Message → Option Er → Bool → Option Er → List (Record Er) → List (Record Er)
  surrounded name text msg e success status rs =
      span_started name
      ∷ (((debug executing text none ∷ (rs ++ (debug msg text e ∷ [])))
            ++ (measured text success ∷ []))
          ++ (span_ended name status ∷ []))

  open_spans-surrounded :
      (stack : List Bytes) (name text : Bytes) (msg : Message) (e : Option Er) (success : Bool)
      (status : Option Er) (rs : List (Record Er))
      → open_spans (name ∷ stack) rs ≡ some (name ∷ stack)
      → open_spans stack (surrounded name text msg e success status rs) ≡ some stack
  unfolding open_spans
  open_spans-surrounded stack name text msg e success status rs h =
      let one = open_spans-append (name ∷ stack) (name ∷ stack) rs (debug msg text e ∷ []) h in
      let two =
        open_spans-append (name ∷ stack) (name ∷ stack) (rs ++ (debug msg text e ∷ []))
          (measured text success ∷ []) one in
      open_spans-append (name ∷ stack) (name ∷ stack)
        ((rs ++ (debug msg text e ∷ [])) ++ (measured text success ∷ []))
        (span_ended name status ∷ []) two
      ∙ ground arith

  count_of-surrounded :
      (p : Record Er → Bool) (name text : Bytes) (msg : Message) (e : Option Er) (success : Bool)
      (status : Option Er) (rs : List (Record Er))
      → count_of p (surrounded name text msg e success status rs)
        ≡ count_of p rs
          + count_of p (
              span_started name
              ∷ debug executing text none
              ∷ debug msg text e
              ∷ measured text success
              ∷ span_ended name status
              ∷ [])
  unfolding count_of
  count_of-surrounded p name text msg e success status rs = ground (
    arith,
    count_of-append p ((rs ++ (debug msg text e ∷ [])) ++ (measured text success ∷ []))
        (span_ended name status ∷ []),
    count_of-append p (rs ++ (debug msg text e ∷ [])) (measured text success ∷ []),
    count_of-append p rs (debug msg text e ∷ []),
  )

module _ {Tx Span Er Req Res S : Type 0} (type_of : Req → TypeName) (start : Span → Bytes → Span)
    (h : Handler Tx Span Er Req Res S) (ctx : Context Tx Span) (req : Req) (s : S) where
  -- The handler, called under the span that is started for it.
  abbrev pub bare : Handled Er Res S
  bare = h (record ctx { span = start ctx.span (command_name (type_of req)) }) req s

  abbrev pub watched : Handled Er Res S
  watched = instrumented type_of start h ctx req s

  -- An instrumented handler answers what the handler answers under its span, and leaves the state
  -- that it leaves. If the handler's spans are nested within the one that is started for it, all
  -- are nested within those that are open; there is one measurement more than the handler's, and
  -- it says failure exactly if the handler returns an error.
  pub instrumented_lem :
      (stack : List Bytes)
      → open_spans (command_name (type_of req) ∷ stack) bare.2
        ≡ some (command_name (type_of req) ∷ stack)
      → (watched.0 ≡ bare.0)
        × (watched.1 ≡ bare.1)
        × (open_spans stack watched.2 ≡ some stack)
        × (count_of is_measurement watched.2 ≡ count_of is_measurement bare.2 + 1)
        × (count_of is_failure watched.2
            ≡ count_of is_failure bare.2 + (if is_some bare.0.1 then 1 else 0))
  unfolding instrumented
  instrumented_lem stack nests = elim (Option-cases bare.0.1) [
    | inl fine ↦
        let rs = bare.2 in
        let name = command_name (type_of req) in
        (
          refl,
          refl,
          rw fine (open_spans-surrounded stack name name succeeded none true none rs nests),
          rw fine (
              count_of-surrounded is_measurement name name succeeded none true none rs
              ∙ unfold count_of in refl),
          rw fine (
              count_of-surrounded is_failure name name succeeded none true none rs
              ∙ unfold count_of in refl),
        )
    | inr (e, failure) ↦
        let rs = bare.2 in
        let name = command_name (type_of req) in
        (
          refl,
          refl,
          rw failure
              (open_spans-surrounded stack name name failed (some e) false (some e) rs nests),
          rw failure (
              count_of-surrounded is_measurement name name failed (some e) false (some e) rs
              ∙ unfold count_of in refl),
          rw failure (
              count_of-surrounded is_failure name name failed (some e) false (some e) rs
              ∙ unfold count_of in refl),
        )
  ]
