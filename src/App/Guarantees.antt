-- ===== src/App/Guarantees.antt =====
-- app/: what a handler behind validation and in a transaction may rely on, and its callers.
use arrower.Base.{
  Bool, ◌||◌, ◌≡◌, refl, ◌∙◌, ap, is_some, true, Option, none, some, ◌⊎◌, inl, inr, [], arith,
  Option-cases, Sum-cases,
}
use arrower.App.Handler.{Context, Handler}
use arrower.App.Guarded.{passed_validation, validated, Pool, transacted}

module _ {Tx Span Er Req Res S : Type 0} (zero_result : Res) (validate : Req → Option Er)
    (h g : Handler Tx Span Er Req Res S) where
  -- Two handlers that do the same for valid requests in a context that says so are the same behind
  -- validation: the handler is called with nothing else. A request is valid, or an error is returned
  -- and nothing is changed and nothing recorded.
  validated_lem :
      ((ctx : Context Tx Span) (req : Req) (s : S)
        → passed_validation ctx ≡ true
        → validate req ≡ none
        → h ctx req s ≡ g ctx req s)
      → (ctx : Context Tx Span) (req : Req) (s : S)
      → (validated zero_result validate h ctx req s ≡ validated zero_result validate g ctx req s)
        × ((validate req ≡ none)
            ⊎ ((is_some (validated zero_result validate h ctx req s).0.1 ≡ true)
                × ((validated zero_result validate h ctx req s).1 ≡ s)
                × ((validated zero_result validate h ctx req s).2 ≡ [])))
  unfolding validated passed_validation
  validated_lem same ctx req s = elim (Option-cases (validate req)) [
    | inl fine ↦ (
      rw (validated, fine) (same (record ctx { validated = some true }) req s refl fine),
      inl fine,
    )
    | inr (e, wrong) ↦ (rw (validated, wrong), inr (ground (arith, wrong)))
  ]

module _ {Er Res S V : Type 0} (visible : S → V) where
  -- An error is returned and others see no change.
  abbrev pub IsUndone : S → (Res × Option Er) × S → Type 0
  IsUndone s out = (is_some out.0.1 ≡ true) × (visible out.1 ≡ visible s)

-- `visible` is what other transactions see of the database, and `has_ended` says that a transaction is
-- over.
module _ {Tx Span Er Req Res S V : Type 0} (pool : Pool Tx Er S) (visible : S → V)
    (has_ended : Tx → S → Bool) (h : Handler Tx Span Er Req Res S) where
  -- The handler in this transaction.
  abbrev pub inside : Context Tx Span → Req → Tx → S → (Res × Option Er) × S
  inside ctx req tx s1 =
      let (answer, s2, records) = h (record ctx { tx = some tx }) req s1 in (answer, s2)

  -- What became of the transaction of a use case that has one: the handler failed, and an error is
  -- returned, others see no change and the transaction is over, or could not be rolled back; or the
  -- handler did not fail, and the last that was done is to commit, with the error of the commit or, if
  -- it has none, with what the handler returned.
  abbrev pub IsSettled : Context Tx Span → Req → S → Tx → S → (Res × Option Er) × S → Type 0
  IsSettled ctx req s tx s1 out =
      let (answer, s2) = inside ctx req tx s1 in
      ((is_some answer.1 ≡ true)
        × IsUndone visible s out
        × ((has_ended tx out.1 || is_some (pool.rollback tx s2).0) ≡ true))
      ⊎ ((answer.1 ≡ none)
          × (out.1 ≡ (pool.commit tx s2).1)
          × (is_some out.0.1 ≡ is_some (pool.commit tx s2).0)
          × ((is_some (pool.commit tx s2).0 ≡ true) ⊎ (out.0 ≡ answer)))

-- Starting a transaction and rolling one back do not change what others see, nor does a handler that works
-- in the transaction of its context only; a rollback that is not refused ends the transaction.
module _ {Tx Span Er Req Res S V : Type 0} (zero_result : Res) (pool : Pool Tx Er S)
    (visible : S → V) (has_ended : Tx → S → Bool)
    (begin_keeps : (s : S) → visible (pool.begin s).1 ≡ visible s)
    (rollback_keeps : (tx : Tx) (s : S) → visible (pool.rollback tx s).1 ≡ visible s)
    (rollback_ends : (tx : Tx) (s : S)
      → (pool.rollback tx s).0 ≡ none
      → has_ended tx (pool.rollback tx s).1 ≡ true)
    (h : Handler Tx Span Er Req Res S)
    (works_inside : (ctx : Context Tx Span) (req : Req) (s : S) (tx : Tx)
      → ctx.tx ≡ some tx
      → visible (h ctx req s).1 ≡ visible s) where
  settled :
      (ctx : Context Tx Span) (req : Req) (s : S) (tx : Tx)
      → (pool.begin s).0 ≡ inl tx
      → let (answer, s', records) = transacted zero_result pool h ctx req s in
        IsSettled pool visible has_ended h ctx req s tx (pool.begin s).1 (answer, s')
  unfolding transacted
  settled ctx req s tx fine =
      let s1 = (pool.begin s).1 in
      let ctx' = record ctx { tx = some tx } in
      let s2 = (h ctx' req s1).1 in
      let unseen = works_inside ctx' req s1 tx refl ∙ begin_keeps s in
      elim (Option-cases (h ctx' req s1).0.1) [
        | inr (e, failure) ↦ inl (
          ap is_some failure,
          elim (Option-cases (pool.rollback tx s2).0) [
            | inl done ↦ (
              rw (transacted, fine, failure, done) (ap is_some failure),
              rw (transacted, fine, failure, done) (rollback_keeps tx s2 ∙ unseen),
            )
            | inr (rb, refused) ↦ (
              rw (transacted, fine, failure, refused) refl,
              rw (transacted, fine, failure, refused) (rollback_keeps tx s2 ∙ unseen),
            )
          ],
          elim (Option-cases (pool.rollback tx s2).0) [
            | inl done ↦
                rw (transacted, fine, failure, done)
                  (let over = rollback_ends tx s2 done in ground (arith, over))
            | inr (rb, refused) ↦ rw (transacted, fine, failure, refused) (ground (arith, refused))
          ],
        )
        | inl works ↦ elim (Option-cases (pool.commit tx s2).0) [
          | inl done ↦ inr (
            works,
            rw (transacted, fine, works, done) refl,
            rw (transacted, fine, works, done) (ap is_some works),
            inr (rw (transacted, fine, works, done) (ap (λ e. ((h ctx' req s1).0.0, e)) works)),
          )
          | inr (c, refused) ↦ inr (
            works,
            rw (transacted, fine, works, refused) refl,
            rw (transacted, fine, works, refused) refl,
            inl (ap is_some refused),
          )
        ]
      ]

  -- Where starting a transaction and rolling one back do not change what others see, a rollback that is
  -- not refused ends the transaction, and what the handler does in a transaction is not seen by others:
  -- if no transaction can be started an error is returned and others see no change. Otherwise, if the
  -- handler fails, an error is returned, others see no change, and the transaction is over or its
  -- rollback was refused; if it does not fail, the last that is done is to commit, an error is returned
  -- exactly if the commit has one, and if not, what the handler returned.
  pub transacted_lem :
      (ctx : Context Tx Span) (req : Req) (s : S)
      → let (answer, s', records) = transacted zero_result pool h ctx req s in
        ((e : Er) × ((pool.begin s).0 ≡ inr e) × IsUndone visible s (answer, s'))
        ⊎ ((tx : Tx) × (s1 : S) × (pool.begin s ≡ (inl tx, s1))
            × IsSettled pool visible has_ended h ctx req s tx s1 (answer, s'))
  unfolding transacted
  transacted_lem ctx req s = elim (Sum-cases (pool.begin s).0) [
    | inr (e, failure) ↦
        inl (e, failure, (rw (transacted, failure) refl, rw (transacted, failure) (begin_keeps s)))
    | inl (tx, fine) ↦
        let s1 = (pool.begin s).1 in inr (tx, s1, ap (λ b. (b, s1)) fine, settled ctx req s tx fine)
  ]
