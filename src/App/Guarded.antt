-- ===== src/App/Guarded.antt =====
-- app/validation.decorator.go, app/tx.decorator.go: the decorators that decide whether a handler is
-- called, and whether what it did stays.
use arrower.Base.{◌⊎◌, inl, inr, get_or, Bool, true, false, Option, none, some, []}
use arrower.App.Handler.{Context, Handler}

-- PassedValidation
unfoldable pub passed_validation : {Tx Span : Type 0} → Context Tx Span → Bool
passed_validation ctx = get_or false ctx.validated

module _ {Tx Span Er Req Res S : Type 0} (zero_result : Res) where
  -- `validate` is the third-party validator on the request's struct tags: the error that it finds.
  unfoldable pub validated :
      (Req → Option Er) → Handler Tx Span Er Req Res S → Handler Tx Span Er Req Res S
  validated validate h ctx req s = elim (validate req) [
    | some e ↦ ((zero_result, some e), s, [])
    | none ↦ h (record ctx { validated = some true }) req s
  ]

-- What goes wrong around a handler; the decorator wraps the pool's error in a text for each.
pub data Phase : Type 0 where
  starting rolling_back committing : Phase

-- The pool of database connections, over its state.
pub record Pool (Tx Er S : Type 0) : Type 0 where
  pub begin : S → (Tx ⊎ Er) × S
  pub commit : Tx → S → Option Er × S
  pub rollback : Tx → S → Option Er × S
  pub wrap : Phase → Er → Er

module _ {Tx Span Er Req Res S : Type 0} (zero_result : Res) (pool : Pool Tx Er S) where
  unfoldable pub transacted : Handler Tx Span Er Req Res S → Handler Tx Span Er Req Res S
  transacted h ctx req s =
      let (begun, s1) = pool.begin s in
      elim begun [
        | inr e ↦ ((zero_result, some (pool.wrap starting e)), s1, [])
        | inl tx ↦
            let (answer, s2, records) = h (record ctx { tx = some tx }) req s1 in
            elim answer.1 [
              | some failure ↦
                  let (refused, s3) = pool.rollback tx s2 in
                  elim refused [
                    | some rb ↦ ((zero_result, some (pool.wrap rolling_back rb)), s3, records)
                    | none ↦ (answer, s3, records)
                  ]
              | none ↦
                  let (refused, s3) = pool.commit tx s2 in
                  elim refused [
                    | some c ↦ ((zero_result, some (pool.wrap committing c)), s3, records)
                    | none ↦ (answer, s3, records)
                  ]
            ]
      ]
