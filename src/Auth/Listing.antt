-- ===== src/Auth/Listing.antt =====
-- contexts/auth/internal/interfaces/repository/user.inmemory.repository.go: what the pages of `All`
-- hold.
use arrower.Base.{
  ℕ, ◌+◌, ◌-◌, ◌%◌, ◌^◌, ◌<◌, ◌≤◌, zero, suc, ◌≡◌, ◌≢◌, refl, ◌∙◌, ap, bytes_eq, nat_eq, length,
  Bytes, All, Bool, true, false, List, [], ◌∷◌, ◌++◌, arith, Bool-cases, inl, inr, sym,
}
use arrower.Base.Count.{count_of}
use arrower.Arepo.Memory.Reads.{all}
use arrower.Auth.User.{User}
use arrower.Auth.Repository.{Users}
use arrower.Auth.Pages.{bytes_lt, insert_by_login, sort_by_login, page_of, list_users}

module _ {ℓ} {A : Type ℓ} where
  -- The first elements, all of them for the limit 0.
  unfoldable pub take_some : ℕ → List A → List A
  take_some n [] = []
  take_some zero (x ∷ xs) = x ∷ xs
  take_some (suc zero) (x ∷ xs) = x ∷ []
  take_some (suc (suc n)) (x ∷ xs) = x ∷ take_some (suc n) xs

-- No user of the list has the login.
abbrev pub Lacks : Bytes → List User → Type 0
Lacks login = All (λ u. u.login ≢ login)

wrap_down : (n : ℕ) → suc n < 2 ^ 64 → (suc n + (2 ^ 64 - 1)) % 2 ^ 64 ≡ n
wrap_down n h = omega arith

page_of_limit :
    (offset : Bytes) (n : ℕ) (us : List User)
    → suc n < 2 ^ 64
    → Lacks offset us
    → page_of offset true (suc n) us ≡ take_some (suc n) us
unfolding page_of take_some
page_of_limit offset n [] h _ = refl
page_of_limit offset zero (u ∷ us) h (other, l) = ground (arith, wrap_down 0 h, other)
page_of_limit offset (suc n) (u ∷ us) h (other, l) =
    ground (arith, wrap_down (suc n) h, other, page_of_limit offset n us (omega (arith, h)) l)

take_some_all : (n : ℕ) (us : List User) → length us ≤ n → take_some n us ≡ us
unfolding take_some
take_some_all n [] h = refl
take_some_all zero (u ∷ us) h = refl
take_some_all (suc zero) (u ∷ []) h = refl
take_some_all (suc zero) (u ∷ v ∷ us) h = absurd (omega (arith, h))
take_some_all (suc (suc n)) (u ∷ us) h =
    ap (λ l. u ∷ l) (take_some_all (suc n) us (omega (arith, h)))

page_of_any :
    (offset : Bytes) (limit : ℕ) (us : List User)
    → limit < 2 ^ 64
    → length us < 2 ^ 64
    → Lacks offset us
    → page_of offset true limit us ≡ take_some limit us
page_of_any offset (suc n) us h k l = page_of_limit offset n us h l
page_of_any offset zero [] h k l = unfold page_of take_some in refl
page_of_any offset zero (u ∷ us) h k (other, l) =
    unfold page_of take_some in
    let rest = page_of_limit offset (2 ^ 64 - 2) us (omega arith) l in
    let whole = take_some_all (2 ^ 64 - 1) us (omega (arith, k)) in
    ground (arith, other, rest, whole)

page_of_first :
    (limit : ℕ) (us : List User)
    → Lacks [] us
    → page_of [] false limit us ≡ page_of [] true limit us
unfolding page_of
page_of_first limit [] _ = refl
page_of_first limit (u ∷ us) (other, l) = ground arith

page_of_after :
    (limit : ℕ) (xs ys : List User) (u : User)
    → u.login ≢ []
    → Lacks u.login xs
    → page_of u.login false limit (xs ++ (u ∷ ys)) ≡ page_of u.login true limit ys
unfolding page_of
page_of_after limit [] ys u named _ = ground (arith, named)
page_of_after limit (x ∷ xs) ys u named (other, l) =
    ground (arith, named, other, page_of_after limit xs ys u named l)

bytes_lt_asym : (s t : Bytes) → bytes_lt s t ≡ true → bytes_lt t s ≡ false
unfolding bytes_lt
bytes_lt_asym [] [] h = refl
bytes_lt_asym [] (b ∷ t) h = refl
bytes_lt_asym (a ∷ s) [] h = cc
bytes_lt_asym (a ∷ s) (b ∷ t) h = ground (arith, bytes_lt_asym s t)

-- No user stands before one whose login is less than its own.
abbrev pub IsSorted : List User → Type 0
IsSorted [] = Unit
IsSorted (u ∷ []) = Unit
IsSorted (u ∷ v ∷ us) = (bytes_lt v.login u.login ≡ false) × IsSorted (v ∷ us)

insert_by_login-IsSorted :
    (u : User) (us : List User) → IsSorted us → IsSorted (insert_by_login u us)
unfolding insert_by_login
insert_by_login-IsSorted u [] _ = tt
insert_by_login-IsSorted u (v ∷ []) _ = elim (Bool-cases (bytes_lt v.login u.login)) [
  | inl less ↦ rw less (bytes_lt_asym v.login u.login less, tt)
  | inr not_less ↦ rw not_less (not_less, tt)
]
insert_by_login-IsSorted u (v ∷ w ∷ us) (h, sorted) = elim (Bool-cases (bytes_lt v.login u.login)) [
  | inr not_less ↦ rw not_less (not_less, (h, sorted))
  | inl less ↦
      let rest = insert_by_login-IsSorted u (w ∷ us) sorted in
      elim (Bool-cases (bytes_lt w.login u.login)) [
        | inl less' ↦ rw less (rw less' (h, rw less' at rest))
        | inr not_less' ↦
            rw less (rw not_less' (bytes_lt_asym v.login u.login less, rw not_less' at rest))
      ]
]

sort_by_login-IsSorted : (us : List User) → IsSorted (sort_by_login us)
unfolding sort_by_login
sort_by_login-IsSorted [] = tt
sort_by_login-IsSorted (u ∷ us) =
    insert_by_login-IsSorted u (sort_by_login us) (sort_by_login-IsSorted us)

module _ (p : User → Bool) where
  count_of-insert_by_login :
      (u : User) (us : List User) → count_of p (insert_by_login u us) ≡ count_of p (u ∷ us)
  unfolding count_of insert_by_login
  count_of-insert_by_login u [] = refl
  count_of-insert_by_login u (v ∷ vs) = ground (arith, count_of-insert_by_login u vs)

  count_of-sort_by_login : (us : List User) → count_of p (sort_by_login us) ≡ count_of p us
  unfolding count_of sort_by_login
  count_of-sort_by_login [] = refl
  count_of-sort_by_login (u ∷ us) =
      ground (arith, count_of-insert_by_login u (sort_by_login us), count_of-sort_by_login us)

-- The users in the order in which All has sorted them, around a user whose login no other has, where
-- none is empty: they are sorted by login and are the stored users, each as often as there. The first
-- page is their beginning, and the page with that user's login as offset begins right behind that
-- user; both have as many users as the limit says, all that are left for the limit 0.
pub list_users_lem :
    (p : User → Bool) (limit : ℕ) (s : Users) (xs ys : List User) (u : User)
    → sort_by_login (all s.users) ≡ xs ++ (u ∷ ys)
    → length (xs ++ (u ∷ ys)) < 2 ^ 64
    → length ys < 2 ^ 64
    → limit < 2 ^ 64
    → Lacks [] (xs ++ (u ∷ ys))
    → u.login ≢ []
    → Lacks u.login xs
    → Lacks u.login ys
    → IsSorted (xs ++ (u ∷ ys))
      × (count_of p (xs ++ (u ∷ ys)) ≡ count_of p (all s.users))
      × (list_users (record { offset = []; limit = limit }) s ≡ take_some limit (xs ++ (u ∷ ys)))
      × (list_users (record { offset = u.login; limit = limit }) s ≡ take_some limit ys)
unfolding list_users
list_users_lem p limit s xs ys u order short short' h any named before behind = (
  (let sorted = sort_by_login-IsSorted (all s.users) in rw order at sorted),
  ap (count_of p) (sym order) ∙ count_of-sort_by_login p (all s.users),
  ap (page_of [] false limit) order
      ∙ page_of_first limit (xs ++ (u ∷ ys)) any
      ∙ page_of_any [] limit (xs ++ (u ∷ ys)) h short any,
  ap (page_of u.login false limit) order
      ∙ page_of_after limit xs ys u named before
      ∙ page_of_any u.login limit ys h short' behind,
)
