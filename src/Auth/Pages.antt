-- ===== src/Auth/Pages.antt =====
-- contexts/auth/internal/interfaces/repository/user.inmemory.repository.go: `All`, which lists the
-- users by login, page by page. `<` on Go strings compares bytes.
use arrower.Base.{
  ℕ, ◌+◌, ◌-◌, ◌%◌, ◌^◌, bytes_eq, nat_eq, ◌==◌, ltb, Bytes, Bool, true, false, ◌&&◌, not, List, [],
  ◌∷◌, if◌then◌else◌,
}
use arrower.Arepo.Memory.Reads.{all}
use arrower.Auth.User.{User}
use arrower.Auth.Repository.{Users}

-- domain.Filter
pub record Filter : Type 0 where
  pub offset : Bytes
  pub limit : ℕ

unfoldable pub bytes_lt : Bytes → Bytes → Bool
bytes_lt s [] = false
bytes_lt [] (b ∷ t) = true
bytes_lt (a ∷ s) (b ∷ t) =
    let rest = bytes_lt s t in if ltb a b then true else if ltb b a then false else rest

-- sort.Slice by login, which may put users of one login in any order
unfoldable pub insert_by_login : User → List User → List User
unfolding bytes_lt
insert_by_login u [] = u ∷ []
insert_by_login u (v ∷ vs) =
    let rest = insert_by_login u vs in if bytes_lt v.login u.login then v ∷ rest else u ∷ v ∷ vs

unfoldable pub sort_by_login : List User → List User
unfolding insert_by_login
sort_by_login [] = []
sort_by_login (u ∷ us) = insert_by_login u (sort_by_login us)

-- The loop: `limit` is a `uint`, which wraps below 0.
unfoldable pub page_of : Bytes → Bool → ℕ → List User → List User
page_of offset found limit [] = []
page_of offset found limit (u ∷ us) =
    let limit' = (limit + (2 ^ 64 - 1)) % 2 ^ 64 in
    let skipped = page_of offset found limit us in
    let same = page_of offset true limit us in
    let rest = page_of offset true limit' us in
    if not found && not (offset == []) && not (u.login == offset)
    then skipped
    else if offset == u.login
    then same
    else if limit' == 0
    then u ∷ []
    else u ∷ rest

unfoldable pub list_users : Filter → Users → List User
unfolding page_of sort_by_login
list_users filter s = page_of filter.offset false filter.limit (sort_by_login (all s.users))
