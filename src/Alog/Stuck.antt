-- ===== src/Alog/Stuck.antt =====
-- alog/postgres-handler.go: what the shared buffer of the handler does to the records.
use arrower.Base.{
  ◌≡◌, ◌≢◌, refl, sym, ap, ◌∙◌, nat_eq, bytes_eq, Bytes, All, Bool, false, Option, none, some, List,
  [], ◌∷◌, ◌++◌, arith, Option-cases, inl, inr,
}
use arrower.Base.Append.{append_assoc, append_nil}
use arrower.Auth.Middleware.{CtxUser}
use arrower.Alog.Records.{
  Handler, Encoding, handled, render, user_of, handle_rendered, handle, handle_all,
}

module _ {Time Uuid Rec Object : Type 0} (enc : Encoding Rec Object Uuid) (time_of : Rec → Time)
    (line : Rec → Bytes)
    (appends : (rec : Rec) (output : Bytes)
      → enc.handle_json rec output ≡ (false, output ++ line rec)) where
  -- No text that starts with the buffer can be read.
  abbrev pub IsStuck : Handler Time Uuid → Type 0
  IsStuck h = (rest : Bytes) → enc.unmarshal (h.output ++ rest) ≡ none

  render-stuck :
      (rec : Rec) (output : Bytes)
      → enc.unmarshal (output ++ line rec) ≡ none
      → render enc time_of rec output ≡ (none, output ++ line rec)
  unfolding render
  render-stuck rec output unreadable =
      rw (appends rec output, render) (rw unreadable (ap (λ w. (none, w.1)) (appends rec output)))

  -- A record that cannot be rendered is not handled, and stays in the buffer.
  handle-unreadable :
      (saved : Bool) (rec : Rec) (ctx : Option CtxUser) (h : Handler Time Uuid)
      → enc.unmarshal (h.output ++ line rec) ≡ none
      → ((handle enc time_of saved rec ctx h).0 ≢ handled)
        × ((handle enc time_of saved rec ctx h).1.records ≡ h.records)
        × ((handle enc time_of saved rec ctx h).1.submitted ≡ h.submitted)
  unfolding handle handle_rendered
  handle-unreadable saved rec ctx h unreadable = elim (Option-cases (user_of enc time_of ctx)) [
    | inl panics ↦ rw (panics, handle) ((λ e. ground arith), refl, refl)
    | inr (user, known) ↦
        rw (known, handle)
          (rw (render-stuck rec h.output unreadable) ((λ e. ground arith), refl, refl))
  ]

  handle-IsStuck :
      (saved : Bool) (rec : Rec) (ctx : Option CtxUser) (h : Handler Time Uuid)
      → IsStuck h
      → IsStuck (handle enc time_of saved rec ctx h).1
  unfolding handle handle_rendered
  handle-IsStuck saved rec ctx h stuck rest = elim (Option-cases (user_of enc time_of ctx)) [
    | inl panics ↦ rw (panics, handle) (stuck rest)
    | inr (user, known) ↦
        rw (known, handle)
          (rw (render-stuck rec h.output (stuck (line rec)))
            (ap enc.unmarshal (append_assoc h.output (line rec) rest) ∙ stuck (line rec ++ rest)))
  ]

  handle_all-IsStuck :
      (recs : List (Bool × Rec × Option CtxUser)) (h : Handler Time Uuid)
      → IsStuck h
      → All (λ r. r ≢ handled) (handle_all enc time_of recs h).0
        × ((handle_all enc time_of recs h).1.records ≡ h.records)
        × ((handle_all enc time_of recs h).1.submitted ≡ h.submitted)
  unfolding handle_all
  handle_all-IsStuck [] h stuck = (tt, refl, refl)
  handle_all-IsStuck ((saved, rec, ctx) ∷ recs) h stuck =
      let (refused, records, submitted) = handle-unreadable saved rec ctx h (stuck (line rec)) in
      let (all, records', submitted') =
        handle_all-IsStuck recs (handle enc time_of saved rec ctx h).1
          (handle-IsStuck saved rec ctx h stuck) in
      ((refused, all), records' ∙ records, submitted' ∙ submitted)

  -- Where slog appends a line for each record to the buffer: a record with a valid user is handled
  -- while the buffer is empty, and no text that starts with its line can be read. Then neither
  -- this record nor any after it is handled without an error or a panic, and none of them waits to
  -- be saved or was submitted.
  pub handle_all-handle :
      (saved : Bool) (rec : Rec) (ctx : Option CtxUser) (user : Option Uuid)
      (recs : List (Bool × Rec × Option CtxUser)) (h : Handler Time Uuid)
      → h.output ≡ []
      → user_of enc time_of ctx ≡ some user
      → ((rest : Bytes) → enc.unmarshal (line rec ++ rest) ≡ none)
      → let all = handle_all enc time_of ((saved, rec, ctx) ∷ recs) h in
        All (λ r. r ≢ handled) all.0 × (all.1.records ≡ h.records) × (all.1.submitted ≡ h.submitted)
  unfolding handle_all handle handle_rendered
  handle_all-handle saved rec ctx user recs h empty known unreadable =
      let now : enc.unmarshal (h.output ++ line rec) ≡ none =
        ap (λ o. enc.unmarshal (o ++ line rec)) empty
        ∙ ap enc.unmarshal (sym (append_nil (line rec)))
        ∙ unreadable [] in
      let stuck : IsStuck (handle enc time_of saved rec ctx h).1 = λ rest.
        rw (known, handle)
          (rw (render-stuck rec h.output now)
            (ap (λ o. enc.unmarshal ((o ++ line rec) ++ rest)) empty ∙ unreadable rest)) in
      let (refused, records, submitted) = handle-unreadable saved rec ctx h now in
      let (all, records', submitted') =
        handle_all-IsStuck recs (handle enc time_of saved rec ctx h).1 stuck in
      ((refused, all), records' ∙ records, submitted' ∙ submitted)
