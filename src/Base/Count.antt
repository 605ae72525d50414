-- ===== src/Base/Count.antt =====
-- Counting the elements of a list that pass a test.
use arrower.Base.{ℕ, ◌+◌, ◌≡◌, Bool, List, [], ◌∷◌, ◌++◌, arith, if◌then◌else◌}

module _ {ℓ} {A : Type ℓ} (p : A → Bool) where
  -- How many of the elements pass the test.
  unfoldable pub count_of : List A → ℕ
  count_of [] = 0
  count_of (a ∷ xs) = (if p a then 1 else 0) + count_of xs

  pub count_of-append : (xs ys : List A) → count_of (xs ++ ys) ≡ count_of xs + count_of ys
  unfolding count_of
  count_of-append [] ys = ground arith
  count_of-append (a ∷ xs) ys = ground (arith, count_of-append xs ys)
