-- ===== src/Admin/Atoi.antt =====
-- What is used of Go's strconv.Atoi, by its documented behaviour: beyond the range of `int` it returns
-- an error and the end of the range.
use arrower.Base.{
  ℕ, zero, suc, ◌+◌, ◌-◌, ◌*◌, ◌^◌, if◌then◌else◌, leb, ltb, ◌==◌, nat_eq, ◌&&◌, not, Bytes, Option,
  none, some, [], ◌∷◌,
}
use arrower.Base.Int.{ℤ, pos, negsuc}

pub data NumError : Type 0 where
  syntax out_of_range : NumError

pub data Digits : Type 0 where
  refused : NumError → Digits
  digits : ℕ → Digits

-- strconv.ParseUint of 64 bits, which stops at the first error
unfoldable pub scan : Bytes → ℕ → Digits
scan [] n = digits n
scan (c ∷ cs) n =
    let next = n * 10 + (c - 48) in
    let rest = scan cs next in
    if not (leb 48 c && leb c 57)
    then refused syntax
    else if leb (2 ^ 64) next
    then refused out_of_range
    else rest

unfoldable pub unsigned : Bytes → Digits
unfolding scan
unsigned [] = refused syntax
unsigned (c ∷ cs) = scan (c ∷ cs) 0

abbrev max_int : ℤ
max_int = pos (2 ^ 63 - 1)

abbrev min_int : ℤ
min_int = negsuc (2 ^ 63 - 1)

unfoldable pub plus : Digits → ℤ × Option NumError
plus (refused syntax) = (pos 0, some syntax)
plus (refused out_of_range) = (max_int, some out_of_range)
plus (digits n) = if ltb n (2 ^ 63) then (pos n, none) else (max_int, some out_of_range)

unfoldable pub minus : Digits → ℤ × Option NumError
minus (refused syntax) = (pos 0, some syntax)
minus (refused out_of_range) = (min_int, some out_of_range)
minus (digits zero) = (pos 0, none)
minus (digits (suc n)) = if ltb n (2 ^ 63) then (negsuc n, none) else (min_int, some out_of_range)

-- strconv.Atoi
unfoldable pub atoi : Bytes → ℤ × Option NumError
unfolding unsigned plus minus
atoi [] = (pos 0, some syntax)
atoi (c ∷ cs) =
    if c == b'+'
    then plus (unsigned cs)
    else if c == b'-'
    then minus (unsigned cs)
    else plus (unsigned (c ∷ cs))
