-- ===== src/Setting/Texts.antt =====
-- setting/settings.go: what becomes of texts and times on the way through a `Value`.
use mathlib.Core.Option.{some-injective}
use arrower.Base.{
  ℕ, ◌≡◌, ◌≢◌, ◌↔◌, refl, ◌∙◌, ap, nat_eq, bytes_eq, Bytes, All, Bool, true, false, Option, none,
  some, [], ◌∷◌, ◌++◌, arith,
}
use arrower.Setting.Strconv.{format_uint, format_bool, parse_uint, parse_int, parse_bool}
use arrower.Setting.Value.{
  Value, Runtime, new_value, time_value, string, time, split, extend_first, is_serialised_time,
  time_location_separator,
}
use arrower.Setting.Convert
use arrower.Setting.Convert.{
  Applied, nothing, bool_of, int_of, float64_of, string_of, time_of, unmarshal_string,
  unmarshal_object,
}

split-cons : (a : ℕ) (t : Bytes) → a ≢ b'|' → split (a ∷ t) ≡ extend_first a (split t)
unfolding split nat_eq
split-cons a [] h = refl
split-cons a (b ∷ []) h = refl
split-cons a (b ∷ c ∷ rest) h = ground arith

abbrev NoBar : Bytes → Type 0
NoBar = All (λ c. c ≢ b'|')

split_self : (l : Bytes) → NoBar l → split l ≡ l ∷ []
split_self [] _ = unfold split in refl
split_self (a ∷ l) (h, hs) = split-cons a l h ∙ ap (extend_first a) (split_self l hs)

split-separated :
    (t l : Bytes) → NoBar t → NoBar l → split (t ++ (time_location_separator ++ l)) ≡ t ∷ l ∷ []
split-separated [] l _ hl = unfold split nat_eq in ap (λ parts. [] ∷ parts) (split_self l hl)
split-separated (a ∷ t) l (h, hs) hl =
    split-cons a (t ++ (time_location_separator ++ l)) h
    ∙ ap (extend_first a) (split-separated t l hs hl)

module _ {Time Location Float Object : Type 0} (rt : Runtime Time Location Float Object) where
  text_value :
      (s : Bytes) (x : Value) → rt.parse_time s ≡ none → new_value rt (string s) ≡ some x → x.v ≡ s
  unfolding new_value
  text_value s x nt e = ground arith

  -- A time comes back from its Value, if its location can be loaded, parsing in that location undoes
  -- formatting, and neither text has a `|` in it.
  time_round_trip :
      (t : Time) (loc : Location) (x : Value)
      → NoBar (rt.format_time t)
      → NoBar (rt.location t)
      → rt.load_location (rt.location t) ≡ some loc
      → rt.parse_in_location (rt.format_time t) loc ≡ some t
      → new_value rt (time t) ≡ some x
      → time_of rt x ≡ some t
  unfolding new_value time_of
  time_round_trip t loc x ht hl load parse e = ground (
    arith,
    ap (λ y. split y.v) (some-injective (time_value rt t) x e),
    split-separated (rt.format_time t) (rt.location t) ht hl,
  )

  -- A text that no parser takes comes back unchanged, by String and by Unmarshal into a string.
  text_kept :
      (s : Bytes) (x : Value)
      → rt.parse_time s ≡ none
      → rt.parse_float64 s ≡ none
      → parse_uint 64 s ≡ none
      → parse_int 64 s ≡ none
      → parse_bool s ≡ none
      → is_serialised_time s ≡ false
      → new_value rt (string s) ≡ some x
      → (string_of rt x ≡ s) × (unmarshal_string rt x ≡ some (Convert.string s))
  unfolding new_value string_of unmarshal_string
  text_kept s x nt nf nu ni nb ns e =
      let same = text_value s x nt e in (ground (arith, same), ground (arith, same))

  -- A text that is an unsigned number comes back as the shortest text of that number.
  number_text_normalised :
      (s : Bytes) (n : ℕ) (x : Value)
      → rt.parse_time s ≡ none
      → parse_uint 64 s ≡ some n
      → new_value rt (string s) ≡ some x
      → string_of rt x ≡ format_uint n
  unfolding new_value string_of
  number_text_normalised s n x nt nu e = ground (arith, text_value s x nt e)

  -- A text that reads as a boolean, such as 1 or t, is unmarshalled as the word true or false.
  boolean_text_replaced :
      (s : Bytes) (b : Bool) (x : Value)
      → rt.parse_time s ≡ none
      → s ≢ []
      → parse_bool s ≡ some b
      → new_value rt (string s) ≡ some x
      → unmarshal_string rt x ≡ some (Convert.string (format_bool b))
  unfolding new_value unmarshal_string format_bool
  boolean_text_replaced s b x nt ne nb e = ground (arith, text_value s x nt e)

  -- Unmarshal into a string never returns an error, and Unmarshal into a struct returns only that of
  -- JSON, of a text that has no separator of time and location. A text with one separator for which
  -- Time returns an error is the one where Unmarshal into a struct returns no error and stores
  -- nothing.
  bad_time_ignored :
      (u : Bytes → Option Object) (x : Value)
      → (unmarshal_string rt x ≢ none)
        × ((unmarshal_object rt u x ≡ none) ↔ ((is_serialised_time x.v ≡ false) × (u x.v ≡ none)))
        × ((unmarshal_object rt u x ≡ some nothing)
            ↔ ((is_serialised_time x.v ≡ true) × (time_of rt x ≡ none)))
  unfolding unmarshal_object unmarshal_string
  bad_time_ignored u x = (ground arith, ground arith, ground arith)
