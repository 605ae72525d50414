-- ===== src/Setting/RoundTrip.antt =====
-- What `NewValue` makes of a number or a boolean is what the methods read back, and what they read
-- lies in the range of its type.
use arrower.Base.{
  ℕ, ◌-◌, ◌*◌, ◌^◌, ◌<◌, ◌≡◌, ◌≢◌, refl, ◌∙◌, ap, if◌then◌else◌, Bytes, nat_eq, bytes_eq, Bool,
  true, false, Option, none, some, All, List, [], ◌∷◌, arith, Bool-cases, inl, inr, sym,
}
use mathlib.Core.Option.{some-injective}
use arrower.Base.Int.{ℤ, pos, negsuc}
use arrower.Setting.Strconv.{
  parse_uint, parse_int, parse_bool, format_bool, is_any, true_texts, false_texts, positive,
  parse_digits,
}
use arrower.Setting.Strconv.RoundTrip.{
  InRange, parse_int-format_int, parse_uint-format_uint, parse_int-InRange,
}
use arrower.Setting.Value.{
  Width, word, w8, w16, w32, w64, bits_of, Value, Runtime, new_value, bool, int, uint,
}
use arrower.Setting.Convert.{bool_of, int_of, uint_of}

-- What a parser makes of each of the texts, if it takes it.
abbrev Denote {ℓ} : {A : Type ℓ} → (Bytes → Option A) → A → List Bytes → Type ℓ
Denote parse a = All (λ t. (z : _) → parse t ≡ some z → z ≡ a)

is_any-Denote :
    {A : Type 0} (parse : Bytes → Option A) (a : A) (s : Bytes) (z : A) (ts : List Bytes)
    → Denote parse a ts
    → is_any s ts ≡ true
    → parse s ≡ some z
    → z ≡ a
is_any-Denote parse a s z [] _ h p = cc
is_any-Denote parse a s z (t ∷ ts) (d, ds) h p = elim (bytes_eq.dec s t) [
  | yes same ↦ d z (rw same at p)
  | no other ↦ is_any-Denote parse a s z ts ds (ground (arith, other)) p
]

-- A text that is a boolean, and that the parser takes as well.
parse_bool-Denote :
    {A : Type 0} (parse : Bytes → Option A) (a₁ a₀ : A) (s : Bytes) (b : Bool) (z : A)
    → Denote parse a₁ true_texts
    → Denote parse a₀ false_texts
    → parse_bool s ≡ some b
    → parse s ≡ some z
    → z ≡ (if b then a₁ else a₀)
parse_bool-Denote parse a₁ a₀ s b z ones zeros h p = elim (Bool-cases (is_any s true_texts)) [
  | inl is_true ↦
      unfold parse_bool in
      ground (arith, is_true, is_any-Denote parse a₁ s z true_texts ones is_true p)
  | inr not_true ↦ elim (Bool-cases (is_any s false_texts)) [
    | inl is_false ↦
        unfold parse_bool in
        ground (arith, not_true, is_false, is_any-Denote parse a₀ s z false_texts zeros is_false p)
    | inr not_false ↦ unfold parse_bool in absurd (ground (arith, not_true, not_false, h))
  ]
]

module _ (bits : ℕ) where
  true_texts-int : Denote (parse_int bits) (pos 1) true_texts
  unfolding parse_int parse_uint parse_digits positive nat_eq
  true_texts-int =
      (λ z h. ground arith, (λ z h. cc, (λ z h. cc, (λ z h. cc, (λ z h. cc, (λ z h. cc, tt))))))

  false_texts-int : Denote (parse_int bits) (pos 0) false_texts
  unfolding parse_int parse_uint parse_digits positive nat_eq
  false_texts-int =
      (λ z h. ground arith, (λ z h. cc, (λ z h. cc, (λ z h. cc, (λ z h. cc, (λ z h. cc, tt))))))

  true_texts-uint : Denote (parse_uint bits) 1 true_texts
  unfolding parse_uint parse_digits
  true_texts-uint =
      (λ z h. ground arith, (λ z h. cc, (λ z h. cc, (λ z h. cc, (λ z h. cc, (λ z h. cc, tt))))))

  false_texts-uint : Denote (parse_uint bits) 0 false_texts
  unfolding parse_uint parse_digits
  false_texts-uint =
      (λ z h. ground arith, (λ z h. cc, (λ z h. cc, (λ z h. cc, (λ z h. cc, (λ z h. cc, tt))))))

  parse_int-ne-nil : (s : Bytes) (z : ℤ) → parse_int bits s ≡ some z → s ≢ []
  unfolding parse_int
  parse_int-ne-nil [] z h e = cc
  parse_int-ne-nil (c ∷ cs) z h e = cc

  parse_uint-ne-nil : (s : Bytes) (n : ℕ) → parse_uint bits s ≡ some n → s ≢ []
  unfolding parse_uint
  parse_uint-ne-nil [] n h e = cc
  parse_uint-ne-nil (c ∷ cs) n h e = cc

-- What is a number is read as that number, though the boolean is tried first.
int_of-parse_int :
    (w : Width) (x : Value) (z : ℤ) → parse_int (bits_of w) x.v ≡ some z → int_of w x ≡ some z
unfolding int_of
int_of-parse_int w x z h =
    let b = bits_of w in
    ground (
      arith,
      parse_int-ne-nil b x.v z h,
      parse_bool-Denote (parse_int b) (pos 1) (pos 0) x.v true z (true_texts-int b)
          (false_texts-int b),
      parse_bool-Denote (parse_int b) (pos 1) (pos 0) x.v false z (true_texts-int b)
          (false_texts-int b),
    )

uint_of-parse_uint :
    (w : Width) (x : Value) (n : ℕ) → parse_uint (bits_of w) x.v ≡ some n → uint_of w x ≡ some n
unfolding uint_of
uint_of-parse_uint w x n h =
    let b = bits_of w in
    ground (
      arith,
      parse_uint-ne-nil b x.v n h,
      parse_bool-Denote (parse_uint b) 1 0 x.v true n (true_texts-uint b) (false_texts-uint b),
      parse_bool-Denote (parse_uint b) 1 0 x.v false n (true_texts-uint b) (false_texts-uint b),
    )

halves : (w : Width) → 2 ^ bits_of w ≡ 2 * 2 ^ (bits_of w - 1)
halves word = refl
halves w8 = refl
halves w16 = refl
halves w32 = refl
halves w64 = refl

module _ {Time Location Float Object : Type 0} (rt : Runtime Time Location Float Object) where
  -- A number that NewValue is given, of any signed type, is what Int and its likes return, at any
  -- width in which the number lies.
  pub int_round_trip :
      (made wanted : Width) (z : ℤ) (x : Value)
      → InRange (bits_of wanted) z
      → new_value rt (int made z) ≡ some x
      → int_of wanted x ≡ some z
  unfolding new_value
  int_round_trip made wanted z x h e = int_of-parse_int wanted x z (
      ap (λ o. elim o [ none ↦ none | some y ↦ parse_int (bits_of wanted) y.v ]) (sym e)
      ∙ parse_int-format_int (bits_of wanted) z (halves wanted) h)

  -- The same for unsigned types, Uint and its likes.
  uint_round_trip :
      (made wanted : Width) (n : ℕ) (x : Value)
      → n < 2 ^ bits_of wanted
      → new_value rt (uint made n) ≡ some x
      → uint_of wanted x ≡ some n
  unfolding new_value
  uint_round_trip made wanted n x h e = uint_of-parse_uint wanted x n (
      ap (λ o. elim o [ none ↦ none | some y ↦ parse_uint (bits_of wanted) y.v ]) (sym e)
      ∙ parse_uint-format_uint (bits_of wanted) n h)

  -- A boolean comes back as itself, as the number 1 or 0, and as the text true or false.
  bool_round_trip :
      (b : Bool) (w : Width) (x : Value)
      → new_value rt (bool b) ≡ some x
      → (bool_of x ≡ some b)
        × (int_of w x ≡ some (pos (if b then 1 else 0)))
        × (uint_of w x ≡ some (if b then 1 else 0))
  unfolding new_value int_of uint_of bool_of parse_bool format_bool bytes_eq
  bool_round_trip true w x e = rw (sym (some-injective _ _ e)) (refl, refl, refl)
  bool_round_trip false w x e = rw (sym (some-injective _ _ e)) (refl, refl, refl)

one_fits : (w : Width) → 1 < 2 ^ (bits_of w - 1)
one_fits word = omega arith
one_fits w8 = omega arith
one_fits w16 = omega arith
one_fits w32 = omega arith
one_fits w64 = omega arith

-- Whatever the text of a value is, a number that Int and its likes return lies in the type's range.
int_of-InRange : (w : Width) (x : Value) (z : ℤ) → int_of w x ≡ some z → InRange (bits_of w) z
unfolding int_of
int_of-InRange w x (pos n) h = ground (arith, one_fits w, parse_int-InRange (bits_of w) x.v (pos n))
int_of-InRange w x (negsuc n) h =
    ground (arith, one_fits w, parse_int-InRange (bits_of w) x.v (negsuc n))
