-- ===== src/Tests/Logs.antt =====
-- A handler whose lines are bytes, where 0 makes a line that cannot be read, and the theorem on it.
use arrower.Base.{
  ℕ, ◌≡◌, ◌≢◌, refl, ◌==◌, nat_eq, bytes_eq, if◌then◌else◌, Bytes, All, true, false, Option, none,
  some, [], ◌∷◌, ◌++◌,
}
use arrower.Alog.Records.{Handler, Encoding, handled, could_not_render, user_of, handle_all}
use arrower.Alog.Stuck.{handle_all-handle}

abbrev read : Bytes → Option Bytes
read [] = none
read (c ∷ s) = if c == 0 then none else some (c ∷ s)

abbrev lines : Encoding ℕ Bytes Bytes
lines = record {
  handle_json = λ rec output. (false, output ++ (rec ∷ []));
  unmarshal = read;
  marshal = λ object. some object;
  parse_uuid = λ u. some u;
}

abbrev line_of : ℕ → Bytes
line_of rec = rec ∷ []

abbrev quiet : Handler ℕ Bytes
quiet = record { output = []; is_async = false; records = []; submitted = [] }

abbrev same_time : ℕ → ℕ
same_time rec = rec

-- The record 5 is saved before the record 0, and not after it.
saved_before :
    (handle_all lines same_time ((true, 5, none) ∷ (true, 0, none) ∷ (true, 5, none) ∷ []) quiet).0
    ≡ handled ∷ could_not_render ∷ could_not_render ∷ []
unfolding handle_all nat_eq
saved_before = refl

no_user : user_of lines same_time none ≡ some none
unfolding user_of
no_user = refl

unreadable : (rest : Bytes) → lines.unmarshal (line_of 0 ++ rest) ≡ none
unfolding nat_eq
unreadable rest = refl

handle_all-handle_example :
    All
      (λ r. r ≢ handled)
      (handle_all lines same_time ((true, 0, none) ∷ (true, 5, none) ∷ []) quiet).0
    × ((handle_all lines same_time ((true, 0, none) ∷ (true, 5, none) ∷ []) quiet).1.records ≡ [])
    × ((handle_all lines same_time ((true, 0, none) ∷ (true, 5, none) ∷ []) quiet).1.submitted ≡ [])
handle_all-handle_example =
    handle_all-handle lines same_time line_of (λ rec output. refl) true 0 none none
      ((true, 5, none) ∷ []) quiet refl no_user unreadable
