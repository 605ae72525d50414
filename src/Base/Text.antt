-- ===== src/Base/Text.antt =====
-- What is used of Go's package strings. A text is the list of its bytes, or of its runes where the
-- code looks at white space.
use arrower.Base.Equality.{◌==◌, nat_eq, bytes_eq, if◌then◌else◌, length, leb, Bytes}
use Prim.Native.Nat.{ℕ, zero, suc, ◌-◌}
use mathlib.Core.Bool.{Bool, true, false, ◌&&◌, ◌||◌}
use mathlib.Core.List.{List, [], ◌∷◌}

-- strings.HasPrefix, with the prefix first
unfoldable pub is_prefix : Bytes → Bytes → Bool
is_prefix [] s = true
is_prefix (c ∷ p) [] = false
is_prefix (c ∷ p) (d ∷ s) = c == d && is_prefix p s

-- strings.HasSuffix, with the suffix first
unfoldable pub is_suffix : Bytes → Bytes → Bool
is_suffix p [] = p == []
is_suffix p (c ∷ s) = p == c ∷ s || is_suffix p s

abbrev drop : ℕ → Bytes → Bytes
drop zero s = s
drop (suc n) [] = []
drop (suc n) (c ∷ s) = drop n s

-- strings.TrimPrefix
unfoldable pub trim_prefix : Bytes → Bytes → Bytes
trim_prefix [] s = s
trim_prefix (c ∷ p) [] = []
trim_prefix (c ∷ p) (d ∷ s) = if is_prefix (c ∷ p) (d ∷ s) then drop (length p) s else d ∷ s

-- strings.TrimSuffix
unfoldable pub trim_suffix : Bytes → Bytes → Bytes
trim_suffix p [] = []
trim_suffix p (c ∷ s) = if p == c ∷ s then [] else c ∷ trim_suffix p s

-- strings.Contains, with the text that is looked for first
unfoldable pub contains_text : Bytes → Bytes → Bool
unfolding is_prefix
contains_text p [] = is_prefix p []
contains_text p (c ∷ s) = is_prefix p (c ∷ s) || contains_text p s

abbrev pub extend_first : ℕ → List Bytes → List Bytes
extend_first c [] = (c ∷ []) ∷ []
extend_first c (part ∷ parts) = (c ∷ part) ∷ parts

-- strings.Split by a text that is not empty; `skip` bytes of a separator are still to be passed over.
unfoldable pub split_by : Bytes → ℕ → Bytes → List Bytes
unfolding is_prefix
split_by sep skip [] = [] ∷ []
split_by sep (suc skip) (c ∷ s) = split_by sep skip s
split_by sep zero (c ∷ s) = elim (is_prefix sep (c ∷ s)) [
  | true ↦ [] ∷ split_by sep (length sep - 1) s
  | false ↦ extend_first c (split_by sep 0 s)
]

-- unicode.IsSpace
unfoldable pub is_space : ℕ → Bool
is_space c =
    (leb 9 c && leb c 13)
    || c == 32
    || c == 0x85
    || c == 0xA0
    || c == 0x1680
    || (leb 0x2000 c && leb c 0x200A)
    || c == 0x2028
    || c == 0x2029
    || c == 0x202F
    || c == 0x205F
    || c == 0x3000

module _ (is_white : ℕ → Bool) where
  unfoldable pub trim_left : Bytes → Bytes
  trim_left [] = []
  trim_left (c ∷ cs) = let rest = trim_left cs in if is_white c then rest else c ∷ cs

  unfoldable pub trim_right : Bytes → Bytes
  trim_right [] = []
  trim_right (c ∷ cs) = elim (trim_right cs) [
    | [] ↦ if is_white c then [] else c ∷ []
    | d ∷ ds ↦ c ∷ d ∷ ds
  ]

-- strings.TrimSpace
unfoldable pub trim_space : (ℕ → Bool) → Bytes → Bytes
unfolding trim_left trim_right
trim_space is_white s = trim_right is_white (trim_left is_white s)
