-- ===== src/Base/Append.antt =====
-- Lists, put one behind the other.
use mathlib.Core.Path.{◌≡◌, refl, sym, ap, ◌∙◌}
use mathlib.Core.List.{List, [], ◌∷◌, ◌++◌}

module _ {ℓ} {A : Type ℓ} where
  pub append_assoc : (xs ys zs : List A) → (xs ++ ys) ++ zs ≡ xs ++ (ys ++ zs)
  append_assoc [] ys zs = refl
  append_assoc (x ∷ xs) ys zs = ap (λ l. x ∷ l) (append_assoc xs ys zs)

  pub append_nil : (xs : List A) → xs ++ [] ≡ xs
  append_nil [] = refl
  append_nil (x ∷ xs) = ap (λ l. x ∷ l) (append_nil xs)

  -- The elements of all lists in their order.
  unfoldable pub joined : List (List A) → List A
  joined [] = []
  joined (xs ∷ xss) = xs ++ joined xss

  pub joined-append :
      (xss : List (List A)) (xs : List A) → joined (xss ++ (xs ∷ [])) ≡ joined xss ++ xs
  unfolding joined
  joined-append [] xs = append_nil xs
  joined-append (ys ∷ xss) xs =
      ap (λ l. ys ++ l) (joined-append xss xs) ∙ sym (append_assoc ys (joined xss) xs)
