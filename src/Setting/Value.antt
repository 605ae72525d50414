-- ===== src/Setting/Value.antt =====
-- setting/settings.go: `Value`, made by `NewValue` and read back by the methods that convert it.
use arrower.Base.{
  ℕ, if◌then◌else◌, bytes_eq, ◌==◌, nat_eq, Bytes, length, Bool, ◌&&◌, Option, none, some, List, [],
  ◌∷◌, ◌++◌,
}
use arrower.Base.Int.{ℤ}
use arrower.Setting.Strconv.{format_uint, format_int, format_bool}

-- The integer types, by their width; `word` is that of `int` and `uint`, of 64 bits.
pub data Width : Type 0 where
  word w8 w16 w32 w64 : Width

abbrev pub bits_of : Width → ℕ
bits_of word = 64
bits_of w8 = 8
bits_of w16 = 16
bits_of w32 = 32
bits_of w64 = 64

-- The kinds that a Value records.
pub data Kind : Type 0 where
  string bool struct interface float32 float64 : Kind
  int uint : Width → Kind

-- `v` and `kind`
pub record Value : Type 0 where
  pub v : Bytes
  pub kind : Kind

-- What the code uses of `time`, `encoding/json` and floating point numbers. `none` is an error.
pub record Runtime (Time Location Float Object : Type 0) : Type 0 where
  pub parse_time : Bytes → Option Time
  pub format_time : Time → Bytes
  pub location : Time → Bytes
  pub load_location : Bytes → Option Location
  pub parse_in_location : Bytes → Location → Option Time
  pub parse_float32 : Bytes → Option Float
  pub parse_float64 : Bytes → Option Float
  pub format_float32 : Float → Bytes
  pub format_float64 : Float → Bytes
  pub format_fixed2 : Float → Bytes
  pub float_of : ℕ → Float
  pub marshal : Object → Option Bytes

-- The values that `NewValue` may be given. A named string or boolean type, such as `type Key string`,
-- has the kind of its underlying type, but a type assertion to that type panics.
pub data Any (Time Float Object : Type 0) : Type 0 where
  nil other named_string named_bool : Any Time Float Object
  string : Bytes → Any Time Float Object
  bool : Bool → Any Time Float Object
  int : Width → ℤ → Any Time Float Object
  uint : Width → ℕ → Any Time Float Object
  float32 float64 : Float → Any Time Float Object
  time : Time → Any Time Float Object
  object : Object → Any Time Float Object

abbrev pub time_location_separator : Bytes
time_location_separator = b'|' ∷ b':' ∷ b'|' ∷ []

-- One more byte in the first part.
abbrev pub extend_first : ℕ → List Bytes → List Bytes
extend_first c [] = (c ∷ []) ∷ []
extend_first c (part ∷ parts) = (c ∷ part) ∷ parts

-- strings.Split(v, timeLocationSeparator)
unfoldable pub split : Bytes → List Bytes
split [] = [] ∷ []
split (a ∷ []) = (a ∷ []) ∷ []
split (a ∷ b ∷ []) = (a ∷ b ∷ []) ∷ []
split (a ∷ b ∷ c ∷ rest) =
    let after = split rest in
    let later = split (b ∷ c ∷ rest) in
    if a == b'|' && (b == b':' && c == b'|') then [] ∷ after else extend_first a later

unfoldable pub is_serialised_time : Bytes → Bool
unfolding split
is_serialised_time s = length (split s) == 2

module _ {Time Location Float Object : Type 0} (rt : Runtime Time Location Float Object) where
  abbrev pub time_value : Time → Value
  time_value t = record {
    v = rt.format_time t ++ (time_location_separator ++ rt.location t);
    kind = struct;
  }

  -- `none` is a panic.
  unfoldable pub new_value : Any Time Float Object → Option Value
  new_value nil = some (record { v = []; kind = string })
  new_value other = some (record { v = []; kind = string })
  new_value named_string = none
  new_value named_bool = none
  new_value (string s) = elim (rt.parse_time s) [
    | some t ↦ some (time_value t)
    | none ↦ some (record { v = s; kind = string })
  ]
  new_value (bool b) = some (record { v = format_bool b; kind = bool })
  new_value (int w z) = some (record { v = format_int z; kind = int w })
  new_value (uint w n) = some (record { v = format_uint n; kind = uint w })
  new_value (float32 f) = some (record { v = rt.format_float32 f; kind = float32 })
  new_value (float64 f) = some (record { v = rt.format_float64 f; kind = float64 })
  new_value (time t) = some (time_value t)
  new_value (object o) = elim (rt.marshal o) [
    | none ↦ some (record { v = []; kind = interface })
    | some b ↦ some (record { v = b; kind = interface })
  ]
