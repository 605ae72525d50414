-- ===== src/Auth/Name.antt =====
-- contexts/auth/internal/domain/user.business.go: `NewName` and `toTitle`. A text is the list of its
-- runes; `title` is `unicode.ToTitle` and `is_space` the white space that `strings.TrimSpace` cuts.
use arrower.Base.{
  ℕ, ◌≡◌, refl, if◌then◌else◌, bytes_eq, nat_eq, ◌==◌, Bytes, Bool, Option, none, some, List, [],
  ◌∷◌, ◌++◌, Bool-cases, inl, inr, ◌⊎◌,
}
use arrower.Base.Text.{trim_space}

pub record Name : Type 0 where
  pub first_name : Bytes
  pub last_name : Bytes
  pub display_name : Bytes

abbrev space : ℕ
space = b' '

-- One more rune in the first word.
abbrev extend_word : ℕ → List Bytes → List Bytes
extend_word c [] = (c ∷ []) ∷ []
extend_word c (word ∷ words) = (c ∷ word) ∷ words

-- strings.Split(s, " ")
unfoldable pub split_words : Bytes → List Bytes
split_words [] = [] ∷ []
split_words (c ∷ cs) =
    let rest = split_words cs in if c == space then [] ∷ rest else extend_word c rest

-- strings.Join(words, " ")
unfoldable pub join_words : List Bytes → Bytes
join_words [] = []
join_words (word ∷ []) = word
join_words (word ∷ word' ∷ words) = word ++ (space ∷ join_words (word' ∷ words))

module _ (title : ℕ → ℕ) (is_space : ℕ → Bool) where
  -- The loop of `toTitle`; `none` is the panic of `r[0]` on an empty word.
  unfoldable pub capitalise_all : List Bytes → Option (List Bytes)
  capitalise_all [] = some []
  capitalise_all ([] ∷ words) = none
  capitalise_all ((c ∷ cs) ∷ words) = elim (capitalise_all words) [
    | none ↦ none
    | some done ↦ some ((title c ∷ cs) ∷ done)
  ]

  unfoldable pub to_title : Bytes → Option Bytes
  unfolding capitalise_all
  to_title s = elim (capitalise_all (split_words (trim_space is_space s))) [
    | none ↦ none
    | some words ↦ some (join_words words)
  ]

  -- if s != "" { s = toTitle(s) }
  unfoldable pub title_unless_empty : Bytes → Option Bytes
  unfolding to_title
  title_unless_empty [] = some []
  title_unless_empty (c ∷ cs) = to_title (c ∷ cs)

  unfoldable pub new_name : Bytes → Bytes → Bytes → Option Name
  unfolding title_unless_empty
  new_name first last display = elim (title_unless_empty first) [
    | none ↦ none
    | some first' ↦ elim (title_unless_empty last) [
      | none ↦ none
      | some last' ↦ elim (title_unless_empty display) [
        | none ↦ none
        | some display' ↦ some (record {
          first_name = first';
          last_name = last';
          display_name =
              if display' == [] then trim_space is_space (first' ++ (space ∷ last')) else display';
        })
      ]
    ]
  ]

  abbrev later_words : List Bytes → List Bytes
  later_words [] = []
  later_words (word ∷ words) = words

  capitalise_all-later :
      (words : List Bytes) → capitalise_all (later_words words) ≡ none → capitalise_all words ≡ none
  unfolding capitalise_all
  capitalise_all-later [] h = h
  capitalise_all-later ([] ∷ words) h = refl
  capitalise_all-later ((c ∷ cs) ∷ words) h = rw h

  extend_later :
      (c : ℕ) (words : List Bytes)
      → capitalise_all (later_words words) ≡ none
      → capitalise_all (later_words (extend_word c words)) ≡ none
  extend_later c [] h = h
  extend_later c (word ∷ words) h = h

  -- Two spaces in a row make an empty word, which is not the first.
  gap-later :
      (a b : Bytes) → capitalise_all (later_words (split_words (a ++ (space ∷ space ∷ b)))) ≡ none
  unfolding split_words capitalise_all
  gap-later [] b = unfold nat_eq in refl
  gap-later (c ∷ a) b = elim (Bool-cases (c == space)) [
    | inl same ↦
        rw (same, split_words)
          (capitalise_all-later (split_words (a ++ (space ∷ space ∷ b))) (gap-later a b))
    | inr other ↦
        rw (other, split_words)
          (extend_later c (split_words (a ++ (space ∷ space ∷ b))) (gap-later a b))
  ]

  -- toTitle panics on a text that is white space alone, and on one that has two spaces in a row after
  -- it is trimmed.
  to_title_panics :
      (s a b : Bytes)
      → (trim_space is_space s ≡ []) ⊎ (trim_space is_space s ≡ a ++ (space ∷ space ∷ b))
      → to_title s ≡ none
  unfolding to_title
  to_title_panics s a b (inl blank) =
      rw (blank, to_title) (unfold capitalise_all split_words in refl)
  to_title_panics s a b (inr gap) =
      rw (gap, to_title)
        (rw (capitalise_all-later (split_words (a ++ (space ∷ space ∷ b))) (gap-later a b)))
