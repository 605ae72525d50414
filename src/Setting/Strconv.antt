-- ===== src/Setting/Strconv.antt =====
-- The functions of Go's `strconv` that setting/settings.go calls, on integers in base 10 and on
-- booleans. A text is the list of its bytes; an error is `none`.
pub mod RoundTrip
use arrower.Base.{
  ℕ, zero, suc, ◌+◌, ◌-◌, ◌*◌, ◌/◌, ◌%◌, ◌^◌, if◌then◌else◌, leb, ltb, Eq, bytes_eq, ◌==◌, Bytes,
  nat_eq, Bool, true, false, ◌&&◌, ◌||◌, Option, none, some, List, [], ◌∷◌, ◌++◌,
}
use arrower.Base.Int.{ℤ, pos, negsuc}

-- The digits of a number, the last one split off in each round; the fuel is more than the number.
unfoldable pub format_digits : ℕ → ℕ → Bytes
format_digits zero n = []
format_digits (suc fuel) n =
    let rest = format_digits fuel (n / 10) in
    if ltb n 10 then (48 + n) ∷ [] else rest ++ ((48 + n % 10) ∷ [])

-- strconv.FormatUint(n, 10)
unfoldable pub format_uint : ℕ → Bytes
unfolding format_digits
format_uint n = format_digits (suc n) n

-- strconv.Itoa, strconv.FormatInt(z, 10)
unfoldable pub format_int : ℤ → Bytes
unfolding format_uint
format_int (pos n) = format_uint n
format_int (negsuc n) = b'-' ∷ format_uint (suc n)

unfoldable pub parse_digits : Bytes → ℕ → Option ℕ
parse_digits [] n = some n
parse_digits (c ∷ cs) n =
    let rest = parse_digits cs (n * 10 + (c - 48)) in if leb 48 c && leb c 57 then rest else none

-- strconv.ParseUint(s, 10, bits)
unfoldable pub parse_uint : ℕ → Bytes → Option ℕ
unfolding parse_digits
parse_uint bits [] = none
parse_uint bits (c ∷ cs) = elim (parse_digits (c ∷ cs) 0) [
  | none ↦ none
  | some n ↦ if ltb n (2 ^ bits) then some n else none
]

-- The two ends of strconv.ParseInt's range, for an unsigned number with or without a minus sign.
unfoldable pub positive : ℕ → Option ℕ → Option ℤ
positive bits none = none
positive bits (some n) = if ltb n (2 ^ (bits - 1)) then some (pos n) else none

unfoldable pub negative : ℕ → Option ℕ → Option ℤ
negative bits none = none
negative bits (some zero) = some (pos 0)
negative bits (some (suc n)) = if leb (suc n) (2 ^ (bits - 1)) then some (negsuc n) else none

-- strconv.ParseInt(s, 10, bits); strconv.Atoi(s) is the case of 64 bits.
unfoldable pub parse_int : ℕ → Bytes → Option ℤ
unfolding parse_uint positive negative
parse_int bits [] = none
parse_int bits (c ∷ cs) =
    if c == b'+'
    then positive bits (parse_uint bits cs)
    else if c == b'-'
    then negative bits (parse_uint bits cs)
    else positive bits (parse_uint bits (c ∷ cs))

abbrev pub true_text : Bytes
true_text = b't' ∷ b'r' ∷ b'u' ∷ b'e' ∷ []

abbrev pub false_text : Bytes
false_text = b'f' ∷ b'a' ∷ b'l' ∷ b's' ∷ b'e' ∷ []

abbrev pub is_any : Bytes → List Bytes → Bool
is_any s [] = false
is_any s (t ∷ ts) = s == t || is_any s ts

abbrev pub true_texts : List Bytes
true_texts =
    (b'1' ∷ [])
    ∷ (b't' ∷ [])
    ∷ (b'T' ∷ [])
    ∷ true_text
    ∷ (b'T' ∷ b'R' ∷ b'U' ∷ b'E' ∷ [])
    ∷ (b'T' ∷ b'r' ∷ b'u' ∷ b'e' ∷ [])
    ∷ []

abbrev pub false_texts : List Bytes
false_texts =
    (b'0' ∷ [])
    ∷ (b'f' ∷ [])
    ∷ (b'F' ∷ [])
    ∷ false_text
    ∷ (b'F' ∷ b'A' ∷ b'L' ∷ b'S' ∷ b'E' ∷ [])
    ∷ (b'F' ∷ b'a' ∷ b'l' ∷ b's' ∷ b'e' ∷ [])
    ∷ []

-- strconv.ParseBool
unfoldable pub parse_bool : Bytes → Option Bool
parse_bool s =
    if is_any s true_texts then some true else if is_any s false_texts then some false else none

-- strconv.FormatBool
unfoldable pub format_bool : Bool → Bytes
format_bool true = true_text
format_bool false = false_text
