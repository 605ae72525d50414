-- ===== src/Arepo/Query.antt =====
-- arepo/q/query.go: the conditions of a query, and the name that a condition's field has in an
-- entity type (`fieldName` of arepo/inmemory.repository.go). Names are lists of bytes, and
-- `strings.ToLower` is taken on ASCII names.
use arrower.Base.{
  ℕ, ◌+◌, ◌==◌, nat_eq, if◌then◌else◌, leb, Bool, false, ◌&&◌, ◌||◌, Option, List, [], ◌∷◌, ◌++◌,
  map, bytes_eq, Bytes,
}

pub data Operator : Type 0 where
  equal not_equal greater greater_or_equal less less_or_equal : Operator

-- `none` is the nil value.
pub record Condition (V : Type 0) : Type 0 where
  pub field : Bytes
  pub operator : Operator
  pub value : Option V
  pub second_value : Option V

-- reflect.StructField: its name, and its `db` tag, which is empty where there is none.
pub record StructField : Type 0 where
  pub name : Bytes
  pub db_tag : Bytes

lower_byte : ℕ → ℕ
lower_byte c = if leb b'A' c && leb c b'Z' then c + 32 else c

unfoldable pub to_lower : Bytes → Bytes
unfolding lower_byte
to_lower = map lower_byte

has_prefix : ℕ → Bytes → Bool
has_prefix q [] = false
has_prefix q (c ∷ cs) = c == q

has_suffix : ℕ → Bytes → Bool
has_suffix q [] = false
has_suffix q (c ∷ []) = c == q
has_suffix q (c ∷ d ∷ cs) = has_suffix q (d ∷ cs)

trim_prefix : ℕ → Bytes → Bytes
trim_prefix q [] = []
trim_prefix q (c ∷ cs) = if c == q then cs else c ∷ cs

trim_suffix : ℕ → Bytes → Bytes
trim_suffix q [] = []
trim_suffix q (c ∷ []) = if c == q then [] else c ∷ []
trim_suffix q (c ∷ d ∷ cs) = c ∷ trim_suffix q (d ∷ cs)

has_byte : ℕ → Bytes → Bool
has_byte q [] = false
has_byte q (c ∷ cs) = c == q || has_byte q cs

quote : ℕ
quote = b'"'

-- `snake_case` is `dbscan.SnakeCaseMapper`.
module _ (snake_case : Bytes → Bytes) where
  unfoldable pub condition_name : StructField → Bytes
  unfolding has_byte quote
  condition_name f = elim f.db_tag [
    | [] ↦ snake_case f.name
    | c ∷ cs ↦ if has_byte b'.' (c ∷ cs) then quote ∷ ((c ∷ cs) ++ (quote ∷ [])) else c ∷ cs
  ]

  -- The loop over the fields, for a name that is in lower case.
  unfoldable pub find_field : List StructField → Bytes → Bytes
  unfolding condition_name to_lower
  find_field [] name = name
  find_field (f ∷ fs) name =
      let rest = find_field fs name in
      if to_lower f.name == name then f.name else if condition_name f == name then f.name else rest

  unfoldable pub field_name : List StructField → Bytes → Bytes
  unfolding find_field has_prefix has_suffix trim_prefix trim_suffix quote
  field_name fs name =
      if has_prefix quote name && has_suffix quote name
      then trim_prefix quote (trim_suffix quote name)
      else find_field fs (to_lower name)
