-- ===== src/Auth/User.antt =====
-- contexts/auth/internal/domain/user.business.go: flags, passwords and users. A point in time is its
-- distance from the zero time, so `time.Time{}` is 0; `now` is what `time.Now()` gives.
use arrower.Base.{
  ℕ, ◌≤◌, length-append, ◌≡◌, ◌≢◌, ◌↔◌, if◌then◌else◌, bytes_eq, nat_eq, ◌==◌, leb, ltb, length,
  Bytes, Bool, true, false, ◌&&◌, ◌||◌, not, List, [], ◌∷◌, ◌++◌, arith,
}
use arrower.Auth.Name.{Name}

abbrev pub Time : Type 0
Time = ℕ

-- `BoolFlag` is the time at which it was set, or the zero time.
unfoldable pub is_true : Time → Bool
is_true t = not (t == 0)

unfoldable pub set_true : Time → Time → Time
unfolding is_true
set_true now t = if is_true t then t else now

unfoldable pub set_false : Time → Time
set_false t = 0

pub record Session : Type 0 where
  pub id : Bytes
  pub created_at : Time
  pub expires_at : Time
  pub device : Bytes

pub record Birthday : Type 0 where
  pub day : ℕ
  pub month : ℕ
  pub year : ℕ

pub record User : Type 0 where
  pub id : Bytes
  pub login : Bytes
  pub password_hash : Bytes
  pub registered_at : Time
  pub name : Name
  pub birthday : Birthday
  pub verified : Time
  pub blocked : Time
  pub superuser : Time
  pub sessions : List Session

unfoldable pub is_verified : User → Bool
unfolding is_true
is_verified u = is_true u.verified

unfoldable pub is_blocked : User → Bool
unfolding is_true
is_blocked u = is_true u.blocked

unfoldable pub block : Time → User → User
unfolding is_blocked set_true
block now u = if is_blocked u then u else record u { blocked = set_true now u.blocked }

unfoldable pub unblock : User → User
unfolding is_blocked set_false
unblock u = if is_blocked u then record u { blocked = set_false u.blocked } else u

-- Block makes a user blocked and keeps the time of the first Block; Unblock after it is Unblock of
-- the user. A second call of either changes nothing.
block_lem :
    (now later : Time) (u : User)
    → now ≢ 0
    → (is_blocked (block now u) ≡ true)
      × (is_blocked (unblock u) ≡ false)
      × (block later (block now u) ≡ block now u)
      × (unblock (unblock u) ≡ unblock u)
      × (unblock (block now u) ≡ unblock u)
unfolding block unblock
block_lem now later u h = ground arith

pub between : ℕ → ℕ → ℕ → Bool
between lo hi c = leb lo c && leb c hi

pub is_special : ℕ → Bool
is_special c =
    c == b'!'
    || (c == b'@'
        || (c == b'#' || (c == b'$' || (c == b'%' || (c == b'^' || (c == b'&' || c == b'*'))))))

-- The four regular expressions: each is one class of bytes.
abbrev match_rules : List (ℕ → Bool)
match_rules = between b'A' b'Z' ∷ between b'a' b'z' ∷ between b'0' b'9' ∷ is_special ∷ []

-- r.Match(password), for a class of bytes
unfoldable pub matches : (ℕ → Bool) → Bytes → Bool
matches r [] = false
matches r (c ∷ cs) = r c || matches r cs

some_rule_fails : List (ℕ → Bool) → Bytes → Bool
some_rule_fails [] pw = false
some_rule_fails (r ∷ rs) pw =
    let rest = some_rule_fails rs pw in if not (matches r pw) then true else rest

unfoldable pub is_weak_password : Bytes → Bool
unfolding some_rule_fails between is_special
is_weak_password pw = if ltb (length pw) 8 then true else some_rule_fails match_rules pw

matches-append : (r : ℕ → Bool) (pw s : Bytes) → matches r pw ≡ true → matches r (pw ++ s) ≡ true
unfolding matches
matches-append r [] s h = cc
matches-append r (c ∷ cs) s h = ground (arith, matches-append r cs s)

-- A password is strong exactly when it has eight bytes and a byte of each of the four classes; what
-- is added at its end leaves it strong.
pub is_weak_password_lem :
    (pw s : Bytes)
    → ((is_weak_password pw ≡ false) ↔ (
        (8 ≤ length pw)
        × (matches (between b'A' b'Z') pw ≡ true)
        × (matches (between b'a' b'z') pw ≡ true)
        × (matches (between b'0' b'9') pw ≡ true)
        × (matches is_special pw ≡ true)))
      × ((is_weak_password pw || not (is_weak_password (pw ++ s))) ≡ true)
unfolding is_weak_password some_rule_fails
is_weak_password_lem pw s = (
  ground arith,
  ground (
    arith,
    length-append pw s,
    matches-append (between b'A' b'Z') pw s,
    matches-append (between b'a' b'z') pw s,
    matches-append (between b'0' b'9') pw s,
    matches-append is_special pw s,
  ),
)
