-- ===== src/Setting/Strconv/RoundTrip.antt =====
-- Parsing what was formatted, and the ranges of what is parsed.
use native.Mathlib.Nat.{one-le-pow}
use arrower.Base.{
  ℕ, zero, suc, ◌+◌, ◌-◌, ◌*◌, ◌/◌, ◌%◌, ◌^◌, ◌<◌, ◌≤◌, ◌≡◌, ◌≢◌, refl, ◌∙◌, ap, ltb, ◌==◌, Bytes,
  nat_eq, bytes_eq, Option, none, some, [], ◌∷◌, ◌++◌, arith, Bool-cases, inl, inr,
}
use arrower.Base.Int.{ℤ, pos, negsuc}
use arrower.Setting.Strconv.{
  format_digits, format_uint, format_int, parse_digits, parse_uint, parse_int, positive, negative,
}

-- One more digit.
append_digit : Option ℕ → ℕ → Option ℕ
append_digit none d = none
append_digit (some n) d = some (n * 10 + d)

parse_digits-append :
    (s : Bytes) (n d : ℕ)
    → d < 10
    → parse_digits (s ++ ((48 + d) ∷ [])) n ≡ append_digit (parse_digits s n) d
unfolding parse_digits append_digit
parse_digits-append [] n d h = ground arith
parse_digits-append (c ∷ s) n d h = ground (arith, parse_digits-append s (n * 10 + (c - 48)) d h)

parse_digits-format_digits :
    (fuel n : ℕ) → n < fuel → parse_digits (format_digits fuel n) 0 ≡ some n
unfolding format_digits parse_digits append_digit
parse_digits-format_digits zero n h = absurd (omega arith)
parse_digits-format_digits (suc fuel) n h = elim (Bool-cases (ltb n 10)) [
  | inl one ↦ ground arith
  | inr more ↦ rw more (
      parse_digits-append (format_digits fuel (n / 10)) 0 (n % 10) (omega arith)
      ∙ ap (λ o. append_digit o (n % 10)) (parse_digits-format_digits fuel (n / 10) (ground arith))
      ∙ ap some (omega arith))
]

append_ne_nil : (s : Bytes) (c : ℕ) → (s ++ (c ∷ [])) ≢ []
append_ne_nil [] c e = cc
append_ne_nil (b ∷ s) c e = cc

parse_uint_of_digits :
    (bits n : ℕ) (s : Bytes)
    → s ≢ []
    → parse_digits s 0 ≡ some n
    → n < 2 ^ bits
    → parse_uint bits s ≡ some n
unfolding parse_uint
parse_uint_of_digits bits n [] ne h lt = absurd (ne refl)
parse_uint_of_digits bits n (c ∷ cs) ne h lt = ground arith

format_digits-ne-nil : (fuel n : ℕ) → format_digits (suc fuel) n ≢ []
unfolding format_digits
format_digits-ne-nil fuel n e = elim (Bool-cases (ltb n 10)) [
  | inl one ↦ ground (arith, one, e)
  | inr more ↦ append_ne_nil (format_digits fuel (n / 10)) (48 + n % 10) (rw more at e)
]

-- A number that fits is what its text is parsed to.
pub parse_uint-format_uint : (bits n : ℕ) → n < 2 ^ bits → parse_uint bits (format_uint n) ≡ some n
unfolding format_uint
parse_uint-format_uint bits n h =
    parse_uint_of_digits bits n (format_digits (suc n) n) (format_digits-ne-nil n n)
      (parse_digits-format_digits (suc n) n (omega arith)) h

-- A text that is a number without a sign does not begin with one.
parse_int_of_uint :
    (bits n : ℕ) (s : Bytes)
    → parse_uint bits s ≡ some n
    → n < 2 ^ (bits - 1)
    → parse_int bits s ≡ some (pos n)
unfolding parse_int parse_uint parse_digits positive nat_eq
parse_int_of_uint bits n [] h lt = cc
parse_int_of_uint bits n (c ∷ cs) h lt = ground arith

-- The values of `int` types of so many bits.
abbrev pub InRange : ℕ → ℤ → Type 0
InRange bits (pos n) = n < 2 ^ (bits - 1)
InRange bits (negsuc n) = suc n ≤ 2 ^ (bits - 1)

pub parse_int-format_int :
    (bits : ℕ) (z : ℤ)
    → 2 ^ bits ≡ 2 * 2 ^ (bits - 1)
    → InRange bits z
    → parse_int bits (format_int z) ≡ some z
unfolding format_int
parse_int-format_int bits (pos n) w h =
    parse_int_of_uint bits n (format_uint n) (parse_uint-format_uint bits n (omega arith)) h
parse_int-format_int bits (negsuc n) w h =
    unfold parse_int negative nat_eq in
    ground (arith, parse_uint-format_uint bits (suc n) (omega arith))

positive-InRange : (bits : ℕ) (o : Option ℕ) (z : ℤ) → positive bits o ≡ some z → InRange bits z
unfolding positive
positive-InRange bits none z h = cc
positive-InRange bits (some n) (pos m) h = ground arith
positive-InRange bits (some n) (negsuc m) h = absurd (ground arith)

negative-InRange : (bits : ℕ) (o : Option ℕ) (z : ℤ) → negative bits o ≡ some z → InRange bits z
unfolding negative
negative-InRange bits none z h = cc
negative-InRange bits (some zero) (pos m) h = ground (arith, one-le-pow (bits - 1) 2 (omega arith))
negative-InRange bits (some zero) (negsuc m) h = absurd (ground arith)
negative-InRange bits (some (suc n)) (pos m) h = absurd (ground arith)
negative-InRange bits (some (suc n)) (negsuc m) h = ground arith

-- What is parsed lies in the type's range.
pub parse_int-InRange : (bits : ℕ) (s : Bytes) (z : ℤ) → parse_int bits s ≡ some z → InRange bits z
unfolding parse_int
parse_int-InRange bits [] z h = cc
parse_int-InRange bits (c ∷ cs) z h = elim (Bool-cases (c == b'+')) [
  | inl plus ↦ positive-InRange bits (parse_uint bits cs) z (rw (plus) at h)
  | inr p ↦ elim (Bool-cases (c == b'-')) [
    | inl minus ↦ negative-InRange bits (parse_uint bits cs) z (rw minus at (rw p at h))
    | inr m ↦ positive-InRange bits (parse_uint bits (c ∷ cs)) z (rw m at (rw p at h))
  ]
]
