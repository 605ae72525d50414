-- ===== src/Tests/Cookies.antt =====
-- A session that is saved, deleted and saved again, and the theorems on it.
use mathlib.Core.Option.{some-injective}
use arrower.Base.{
  ℕ, ◌≡◌, ◌≢◌, refl, sym, ap, nat_eq, bytes_eq, Bytes, true, false, Option, none, some, [], ◌∷◌,
  arith,
}
use arrower.Base.Int.{ℤ, pos, negsuc}
use arrower.Auth.SessionStore.{Session, Codecs, Database, cleared, value, fresh, new, save}
use arrower.Auth.Stored.{new-save, new-save_deleted}

abbrev tail : Bytes → Option Bytes
tail [] = none
tail (c ∷ s) = some s

abbrev head : Bytes → Option ℕ
head [] = none
head (c ∷ s) = some c

-- The values of a session are a number.
abbrev signed : Codecs ℕ
signed = record {
  encode_id = λ id. some (b'i' ∷ id);
  decode_id = tail;
  encode_values = λ v. some (v ∷ []);
  decode_values = head;
}

signed_ids :
    (id cookie : Bytes) → signed.encode_id id ≡ some cookie → signed.decode_id cookie ≡ some id
signed_ids id cookie e = sym (ap tail (some-injective (b'i' ∷ id) cookie e))

signed_values :
    (v : ℕ) (text : Bytes) → signed.encode_values v ≡ some text → signed.decode_values text ≡ some v
signed_values v text e = sym (ap head (some-injective (v ∷ []) text e))

abbrev later : ℤ → ℤ
later a = a

abbrev a : Bytes
a = b'a' ∷ []

abbrev b : Bytes
b = b'b' ∷ []

abbrev session_of : ℕ → ℤ → Session ℕ
session_of v age = record { id = a; values = v; is_new = true; max_age = age }

abbrev empty : Database
empty = record { rows = []; answers = true }

abbrev with_row : ℕ → Database
with_row v = record { rows = (a, (v ∷ [], pos 60)) ∷ []; answers = true }

a_named : a ≢ []
a_named = ground arith

saved :
    save signed 0 (pos 60) later b (session_of 5 (pos 60)) empty
    ≡ (some (value (b'i' ∷ a)), with_row 5)
unfolding save bytes_eq nat_eq
saved = refl

deleted :
    save signed 0 (pos 60) later b (session_of 5 (negsuc 0)) (with_row 5) ≡ (some cleared, empty)
unfolding save bytes_eq nat_eq
deleted = refl

got : (session_of 7 (pos 60)).id ≡ (new signed 0 (pos 60) b (some (b'i' ∷ a)) empty).0.id
unfolding new bytes_eq nat_eq
got = refl

saved_again :
    save signed 0 (pos 60) later b (session_of 7 (pos 60)) empty
    ≡ (some (value (b'i' ∷ a)), with_row 7)
unfolding save bytes_eq nat_eq
saved_again = refl

new-save_example :
    (new signed 0 (pos 60) b (some (b'i' ∷ a)) (with_row 5)
      ≡ (record (session_of 5 (pos 60)) { is_new = false; max_age = pos 60 }, false))
    × (new signed 0 (pos 60) b (some (b'i' ∷ b)) (with_row 5)
        ≡ new signed 0 (pos 60) b (some (b'i' ∷ b)) empty)
new-save_example =
    new-save signed 0 (pos 60) signed_ids signed_values later b b (b'i' ∷ a) (b'i' ∷ b) b
      (session_of 5 (pos 60)) empty (with_row 5) a_named saved refl (ground arith)

new-save_deleted_example :
    (new signed 0 (pos 60) b (some (b'i' ∷ a)) empty ≡ (fresh signed 0 (pos 60) a, false))
    × (new signed 0 (pos 60) b (some (b'i' ∷ a)) (with_row 7)
        ≡ (record (session_of 7 (pos 60)) { is_new = false; max_age = pos 60 }, false))
new-save_deleted_example =
    new-save_deleted signed 0 (pos 60) signed_ids signed_values later b b (b'i' ∷ a) (b'i' ∷ a)
      (session_of 5 (negsuc 0)) (session_of 7 (pos 60)) (with_row 5) empty (with_row 7) a_named refl
      deleted got saved_again
