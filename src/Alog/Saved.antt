-- ===== src/Alog/Saved.antt =====
-- alog/postgres-handler.go: no record is lost or doubled on its way into a batch.
use arrower.Base.{
  ℕ, ◌⊎◌, ◌+◌, ◌≤◌, ◌<◌, ◌≡◌, refl, sym, ap, ◌∙◌, nat_eq, length, true, false, List, [], ◌∷◌, ◌++◌,
  leb, arith, inl, inr,
}
use arrower.Base.Append.{append_assoc, append_nil, joined, joined-append}
use arrower.Alog.Batches.{
  Batches, save_logs, receive, expire, Step, receive_step, expire_step, Reach, here, next,
}

leb_lem : (m n : ℕ) → ((leb m n ≡ true) × (m ≤ n)) ⊎ ((leb m n ≡ false) × (n < m))
leb_lem m n = ground arith

module _ {R : Type 0} where
  -- Each batch has a record, and none more than the maximum.
  abbrev pub AllSized : ℕ → List (List R) → Type 0
  AllSized max [] = Unit
  AllSized max (b ∷ bs) = (1 ≤ length b) × (length b ≤ max) × AllSized max bs

  -- What was submitted, and then the batch, is what was received; the batch is not yet full.
  abbrev pub IsKept : ℕ → Batches R → Type 0
  IsKept max b =
      (joined b.submitted ++ b.batch ≡ b.received)
      × (length b.batch < max)
      × AllSized max b.submitted

  AllSized-append :
      (max : ℕ) (bs : List (List R)) (b : List R)
      → AllSized max bs
      → 1 ≤ length b
      → length b ≤ max
      → AllSized max (bs ++ (b ∷ []))
  AllSized-append max [] b all some most = (some, most, tt)
  AllSized-append max (c ∷ bs) b (one, size, all) some most =
      (one, size, AllSized-append max bs b all some most)

  save_logs-IsKept :
      (max : ℕ) (bs : List (List R)) (batch : List R)
      → AllSized max bs
      → length batch ≤ max
      → (joined (save_logs batch bs) ++ [] ≡ joined bs ++ batch) × AllSized max (save_logs batch bs)
  unfolding save_logs
  save_logs-IsKept max bs [] all small = (refl, all)
  save_logs-IsKept max bs (r ∷ rs) all small = (
    append_nil (joined (bs ++ ((r ∷ rs) ∷ []))) ∙ joined-append bs (r ∷ rs),
    AllSized-append max bs (r ∷ rs) all (ground arith) small,
  )

  length-snoc : (xs : List R) (x : R) → length (xs ++ (x ∷ [])) ≡ length xs + 1
  length-snoc [] x = refl
  length-snoc (y ∷ xs) x = ground (arith, length-snoc xs x)

  receive-IsKept : (max : ℕ) (r : R) (b : Batches R) → IsKept max b → IsKept max (receive max r b)
  unfolding receive
  receive-IsKept max r b (kept, small, all) =
      let same =
        sym (append_assoc (joined b.submitted) b.batch (r ∷ [])) ∙ ap (λ l. l ++ (r ∷ [])) kept in
      let fits = length-snoc b.batch r in
      elim (leb_lem max (length (b.batch ++ (r ∷ [])))) [
        | inl (full, least) ↦
            let saved =
              save_logs-IsKept max b.submitted (b.batch ++ (r ∷ [])) all
                (ground (arith, fits, small)) in
            rw full (saved.0 ∙ same, ground (arith, small), saved.1)
        | inr (some, more) ↦ rw some (same, more, all)
      ]

  Step-IsKept : (max : ℕ) {b c : Batches R} → IsKept max b → Step max b c → IsKept max c
  unfolding expire
  Step-IsKept max {b} v (receive_step r) = receive-IsKept max r b v
  Step-IsKept max {b} (kept, small, all) expire_step =
      let saved = save_logs-IsKept max b.submitted b.batch all (ground (arith, small)) in
      (saved.0 ∙ kept, ground (arith, small), saved.1)

  -- If this holds at first, as it does without any record, and whatever the order of records and
  -- timeouts: the batches that are submitted and the one that is collected have exactly the
  -- records that were received, in their order; each submitted batch has at least one record and
  -- at most the maximum.
  pub Reach-IsKept : (max : ℕ) (b c : Batches R) → IsKept max b → Reach max b c → IsKept max c
  Reach-IsKept max b c v here = v
  Reach-IsKept max b c v (next {c = d} r step) = Step-IsKept max (Reach-IsKept max b d v r) step
