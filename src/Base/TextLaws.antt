-- ===== src/Base/TextLaws.antt =====
-- What becomes of texts without white space and without a separator.
use arrower.Base.Equality.{nat_eq, Bytes, All}
use arrower.Base.Text.{is_prefix, split_by, trim_left, trim_right}
use Prim.Native.Nat.{ℕ}
use mathlib.Core.Path.{◌≡◌, refl}
use mathlib.Core.Logic.{◌≢◌}
use mathlib.Core.Bool.{Bool, false}
use mathlib.Core.List.{[], ◌∷◌, ◌++◌}
use native.Mathlib.Omega.{arith}

module _ (p : ℕ → Bool) where
  pub trim_left-none : (s : Bytes) → All (λ c. p c ≡ false) s → trim_left p s ≡ s
  unfolding trim_left
  trim_left-none [] h = refl
  trim_left-none (c ∷ s) (h, _) = ground arith

  pub trim_right-none : (s : Bytes) → All (λ c. p c ≡ false) s → trim_right p s ≡ s
  unfolding trim_right
  trim_right-none [] h = refl
  trim_right-none (c ∷ []) (h, _) = ground arith
  trim_right-none (c ∷ d ∷ s) (h, hs) = rw (trim_right-none (d ∷ s) hs) refl

-- strings.Split where the separator's first character does not occur.
pub split_by-one : (q : ℕ) (sep s : Bytes) → All (λ c. c ≢ q) s → split_by (q ∷ sep) 0 s ≡ s ∷ []
unfolding split_by is_prefix
split_by-one q sep [] h = refl
split_by-one q sep (c ∷ s) (h, hs) = ground (arith, split_by-one q sep s hs)

module _ {P Q : ℕ → Type 0} where
  pub All-map : ((c : ℕ) → P c → Q c) → (s : Bytes) → All P s → All Q s
  All-map f [] h = tt
  All-map f (c ∷ s) (h, hs) = (f c h, All-map f s hs)

pub All-append : (P : ℕ → Type 0) (s t : Bytes) → All P s → All P t → All P (s ++ t)
All-append P [] t _ ht = ht
All-append P (c ∷ s) t (h, hs) ht = (h, All-append P s t hs ht)

pub split_by-cut :
    (q : ℕ) (s rest : Bytes)
    → All (λ c. c ≢ q) s
    → split_by (q ∷ []) 0 (s ++ ((q ∷ []) ++ rest)) ≡ s ∷ split_by (q ∷ []) 0 rest
unfolding split_by is_prefix
split_by-cut q [] rest h = ground arith
split_by-cut q (c ∷ s) rest (h, hs) = ground (arith, split_by-cut q s rest hs)
