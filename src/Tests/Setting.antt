-- ===== src/Tests/Setting.antt =====
-- Values of settings and the in-memory settings on small inputs, and their theorems at inputs that
-- meet the hypotheses.
use arrower.Base.{
  ◌≡◌, Option, false, refl, bytes_eq, nat_eq, Bytes, true, false, none, some, [], ◌∷◌, arith,
}
use arrower.Base.Int.{ℤ, negsuc}
use arrower.Base.Dict.{Dict}
use arrower.Setting.Strconv.{format_uint, format_int, format_bool}
use arrower.Setting.Value
use arrower.Setting.Value.{
  Width, word, w8, w16, w32, w64, Value, Runtime, Any, new_value, time_value, split,
  is_serialised_time,
}
use arrower.Setting.Convert.{int_of, time_of}
use arrower.Setting.RoundTrip.{int_round_trip}
use arrower.Setting.Memory.{InMemorySettings}

abbrev utc : Bytes
utc = b'U' ∷ b'T' ∷ b'C' ∷ []

abbrev noon : Bytes
noon = b'1' ∷ b'2' ∷ b'Z' ∷ []

-- One time, one location, no floating point number, and objects that are texts.
abbrev small : Runtime (Unit {0}) (Unit {0}) (Unit {0}) Bytes
small = record {
  parse_time = λ s. none;
  format_time = λ t. noon;
  location = λ t. utc;
  load_location = λ l. elim l [ [] ↦ none | _ ∷ _ ↦ some tt ];
  parse_in_location = λ s l. some tt;
  parse_float32 = λ s. none;
  parse_float64 = λ s. none;
  format_float32 = λ f. [];
  format_float64 = λ f. [];
  format_fixed2 = λ f. [];
  float_of = λ n. tt;
  marshal = λ o. some o;
}

abbrev minus_five : ℤ
minus_five = negsuc 4

abbrev a_number : Value
a_number = record { v = format_int minus_five; kind = Value.int w64 }

int_round_trip_example : int_of w8 a_number ≡ some minus_five
unfolding new_value
int_round_trip_example = int_round_trip small w64 w8 minus_five a_number (omega arith) refl

abbrev a_count : Value
a_count = record { v = format_uint 200; kind = Value.uint w16 }

abbrev a_flag : Value
a_flag = record { v = format_bool true; kind = Value.bool }

abbrev plain : Bytes
plain = b'x' ∷ b'y' ∷ []

abbrev padded : Bytes
padded = b'0' ∷ b'0' ∷ b'7' ∷ []

abbrev one_text : Bytes
one_text = b'1' ∷ []

-- A text with one separator and no location.
abbrev no_location : Value
no_location = record { v = b'x' ∷ b'|' ∷ b':' ∷ b'|' ∷ []; kind = Value.string }

abbrev no_json : Bytes → Option Bytes
no_json b = none

no_location_time : time_of small no_location ≡ none
unfolding time_of split nat_eq
no_location_time = refl

abbrev no_settings : InMemorySettings
no_settings = record { collection = []; current_int_id = []; state = tt }

abbrev one_setting : InMemorySettings
one_setting = record { collection = (plain, a_flag) ∷ []; current_int_id = []; state = tt }

abbrev defaults : Dict Bytes (Any (Unit {0}) (Unit {0}) Bytes)
defaults = (plain, Value.Any.bool false) ∷ (utc, Value.Any.bool true) ∷ []

abbrev registered : InMemorySettings
registered = record {
  collection = (plain, a_flag) ∷ (utc, a_flag) ∷ [];
  current_int_id = [];
  state = tt;
}
