-- ===== src/Setting/Convert.antt =====
-- setting/settings.go: the methods of `Value` that convert it. Where a method returns an error the
-- result is `none`; `MustBool` and its likes panic exactly there, so they are the same functions.
use arrower.Base.{
  ℕ, if◌then◌else◌, bytes_eq, ◌==◌, Bytes, Bool, true, false, Option, none, some, List, [], ◌∷◌,
}
use arrower.Base.Int.{ℤ, pos}
use arrower.Setting.Strconv.{
  format_uint, format_int, parse_uint, parse_int, parse_bool, true_text, false_text,
}
use arrower.Setting.Value.{Width, word, bits_of, Value, Runtime, split, is_serialised_time}

unfoldable pub bool_of : Value → Option Bool
bool_of x = if x.v == [] then some false else parse_bool x.v

-- Int, Int8, Int16, Int32 and Int64
unfoldable pub int_of : Width → Value → Option ℤ
unfolding bool_of
int_of w x = elim (bool_of x) [
  | some true ↦ some (pos 1)
  | some false ↦ some (pos 0)
  | none ↦ parse_int (bits_of w) x.v
]

-- Uint, Uint8, Uint16, Uint32 and Uint64
unfoldable pub uint_of : Width → Value → Option ℕ
unfolding bool_of
uint_of w x = elim (bool_of x) [
  | some true ↦ some 1
  | some false ↦ some 0
  | none ↦ parse_uint (bits_of w) x.v
]

-- What `Unmarshal` stores in its target, if it stores something.
pub data Applied (Time Object : Type 0) : Type 0 where
  nothing : Applied Time Object
  bool : Bool → Applied Time Object
  string : Bytes → Applied Time Object
  time : Time → Applied Time Object
  object : Object → Applied Time Object

first_part : List Bytes → Bytes
first_part [] = []
first_part (part ∷ _) = part

module _ {Time Location Float Object : Type 0} (rt : Runtime Time Location Float Object) where
  unfoldable pub float32_of : Value → Option Float
  unfolding bool_of
  float32_of x = elim (bool_of x) [
    | some true ↦ some (rt.float_of 1)
    | some false ↦ some (rt.float_of 0)
    | none ↦ rt.parse_float32 x.v
  ]

  unfoldable pub float64_of : Value → Option Float
  unfolding bool_of
  float64_of x = elim (bool_of x) [
    | some true ↦ some (rt.float_of 1)
    | some false ↦ some (rt.float_of 0)
    | none ↦ rt.parse_float64 x.v
  ]

  unfoldable pub string_of : Value → Bytes
  unfolding first_part
  string_of x = elim (parse_uint 64 x.v) [
    | some n ↦ format_uint n
    | none ↦ elim (parse_int 64 x.v) [
      | some z ↦ format_int z
      | none ↦ elim (rt.parse_float64 x.v) [
        | some f ↦ rt.format_fixed2 f
        | none ↦ if is_serialised_time x.v then first_part (split x.v) else x.v
      ]
    ]
  ]

  -- Reading element 1 of the parts is safe behind the test on their number.
  unfoldable pub time_of : Value → Option Time
  time_of x = elim (split x.v) [
    | t ∷ l ∷ [] ↦ elim (rt.load_location l) [ none ↦ none | some loc ↦ rt.parse_in_location t loc ]
    | _ ↦ none
  ]

  unfoldable pub unmarshal_bool : Value → Option (Applied Time Object)
  unfolding bool_of
  unmarshal_bool x = elim (bool_of x) [ some b ↦ some (bool b) | none ↦ none ]

  unfoldable pub unmarshal_string : Value → Option (Applied Time Object)
  unfolding bool_of int_of float64_of time_of
  unmarshal_string x = if x.v == [] then some (string []) else elim (bool_of x) [
    | some true ↦ some (string true_text)
    | some false ↦ some (string false_text)
    | none ↦ elim (int_of word x) [
      | some z ↦ some (string (format_int z))
      | none ↦ elim (float64_of x) [
        | some f ↦ some (string (rt.format_fixed2 f))
        | none ↦
            if is_serialised_time x.v
            then (elim (time_of x) [
              | some t ↦ some (string (rt.format_time t))
              | none ↦ some nothing
            ])
            else some (string x.v)
      ]
    ]
  ]

  -- For structs, slices and maps; `unmarshal` is `json.Unmarshal` into a target of that type.
  unfoldable pub unmarshal_object : (Bytes → Option Object) → Value → Option (Applied Time Object)
  unfolding time_of
  unmarshal_object unmarshal x =
      if is_serialised_time x.v
      then (elim (time_of x) [ some t ↦ some (time t) | none ↦ some nothing ])
      else elim (unmarshal x.v) [ some o ↦ some (object o) | none ↦ none ]
