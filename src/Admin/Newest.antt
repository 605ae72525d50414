-- ===== src/Admin/Newest.antt =====
-- contexts/admin/: what is left of the history when it is pruned to a number of entries.
use arrower.Base.{
  if_intro, ℕ, zero, suc, ◌≤◌, ◌<◌, ◌≡◌, refl, sym, ap, ◌∙◌, if◌then◌else◌, leb, ◌&&◌, not, is_some,
  length, true, Bool-cases, Option-cases, none, some, inl, inr, List, [], ◌∷◌, All, arith,
}
use arrower.Base.Int.{pos}
use arrower.Admin.History.{Row, Database}
use arrower.Admin.Truncate.{
  finished_times, insert_desc, sort_desc, offset, unfinished_or_after, truncate_history_entries,
}

-- How many are at this time or since.
unfoldable pub since : ℕ → List ℕ → ℕ
since t [] = 0
since t (u ∷ us) = if leb t u then suc (since t us) else since t us

-- What a truncation to `n` entries should leave, where `ts` are the times of all that are finished.
unfoldable pub newest : ℕ → List ℕ → List Row → List Row
unfolding since
newest n ts [] = []
newest n ts (row ∷ rows) =
    if is_some row.finished_at && not (leb (since row.created_at ts) n)
    then newest n ts rows
    else row ∷ newest n ts rows

-- No time is since than the one at its left.
abbrev IsFalling : List ℕ → Type 0
IsFalling [] = Unit {0}
IsFalling (t ∷ ts) = All (λ u. u ≤ t) ts × IsFalling ts

insert_desc-All :
    (b t : ℕ) (ts : List ℕ) → t ≤ b → All (λ u. u ≤ b) ts → All (λ u. u ≤ b) (insert_desc t ts)
unfolding insert_desc
insert_desc-All b t [] h hs = (h, tt)
insert_desc-All b t (u ∷ us) h (hu, hs) =
    if_intro (All (λ u. u ≤ b)) (leb u t) (λ _. (h, (hu, hs)))
      (λ _. (hu, insert_desc-All b t us h hs))

All-le : (a b : ℕ) (ts : List ℕ) → a ≤ b → All (λ u. u ≤ a) ts → All (λ u. u ≤ b) ts
All-le a b [] h hs = tt
All-le a b (t ∷ ts) h (ht, hs) = (omega arith, All-le a b ts h hs)

insert_desc-IsFalling : (t : ℕ) (ts : List ℕ) → IsFalling ts → IsFalling (insert_desc t ts)
unfolding insert_desc
insert_desc-IsFalling t [] h = (tt, tt)
insert_desc-IsFalling t (u ∷ us) (hu, hs) =
    if_intro IsFalling (leb u t)
      (λ e. let le : u ≤ t = ground arith in ((le, All-le u t us le hu), (hu, hs)))
      (λ e. (insert_desc-All u t us (ground arith) hu, insert_desc-IsFalling t us hs))

sort_desc-IsFalling : (ts : List ℕ) → IsFalling (sort_desc ts)
unfolding sort_desc
sort_desc-IsFalling [] = tt
sort_desc-IsFalling (t ∷ ts) = insert_desc-IsFalling t (sort_desc ts) (sort_desc-IsFalling ts)

since-insert_desc : (c t : ℕ) (ts : List ℕ) → since c (insert_desc t ts) ≡ since c (t ∷ ts)
unfolding insert_desc since
since-insert_desc c t [] = refl
since-insert_desc c t (u ∷ us) = let rest = since-insert_desc c t us in ground (arith, rest)

since-sort_desc : (c : ℕ) (ts : List ℕ) → since c (sort_desc ts) ≡ since c ts
unfolding sort_desc since
since-sort_desc c [] = refl
since-sort_desc c (t ∷ ts) =
    let rest = since-sort_desc c ts in since-insert_desc c t (sort_desc ts) ∙ ground (arith, rest)

since-none : (t b : ℕ) (ts : List ℕ) → b < t → All (λ u. u ≤ b) ts → since t ts ≡ 0
unfolding since
since-none t b [] h hs = refl
since-none t b (u ∷ us) h (hu, hs) = let rest = since-none t b us h hs in ground (arith, rest)

since-length : (t : ℕ) (ts : List ℕ) → since t ts ≤ length ts
unfolding since
since-length t [] = omega arith
since-length t (u ∷ us) = let rest = since-length t us in ground (arith, rest)

offset-length : (n : ℕ) (ts : List ℕ) → offset n ts ≡ none → length ts ≤ n
unfolding offset
offset-length n [] e = omega arith
offset-length zero (t ∷ ts) e = cc
offset-length (suc n) (t ∷ ts) e = let rest = offset-length n ts e in omega arith

offset-All : (b c n : ℕ) (ts : List ℕ) → All (λ u. u ≤ b) ts → offset n ts ≡ some c → c ≤ b
unfolding offset
offset-All b c n [] h e = cc
offset-All b c zero (t ∷ ts) (ht, hs) e = let same : t ≡ c = cc in omega arith
offset-All b c (suc n) (t ∷ ts) (ht, hs) e = offset-All b c n ts hs e

-- Behind the first `n` of a falling list: at most `n` are later, and more are there or later.
since-after :
    (c n t : ℕ) (ts : List ℕ) → IsFalling ts → offset n ts ≡ some c → c < t → since t ts ≤ n
unfolding offset since
since-after c n t [] h e after = omega arith
since-after c zero t (u ∷ us) (hu, hs) e after =
    let same : u ≡ c = cc in let rest = since-none t u us (omega arith) hu in ground (arith, rest)
since-after c (suc n) t (u ∷ us) (hu, hs) e after =
    let rest = since-after c n t us hs e after in ground (arith, rest)

since-before :
    (c n t : ℕ) (ts : List ℕ) → IsFalling ts → offset n ts ≡ some c → t ≤ c → n < since t ts
unfolding offset since
since-before c n t [] h e before = cc
since-before c zero t (u ∷ us) (hu, hs) e before = let same : u ≡ c = cc in ground arith
since-before c (suc n) t (u ∷ us) (hu, hs) e before =
    let rest = since-before c n t us hs e before in
    let under = offset-All u c n us hu e in ground (arith, rest, under)

since-zero : (ts : List ℕ) → since 0 ts ≡ length ts
unfolding since
since-zero [] = refl
since-zero (t ∷ ts) = let rest = since-zero ts in ground (arith, rest)

-- Without a cutoff there are at most `n` times.
since-few : (n t : ℕ) (ts : List ℕ) → offset n (sort_desc ts) ≡ none → since t ts ≤ n
since-few n t ts e =
    let few = offset-length n (sort_desc ts) e in
    let all = since-length t (sort_desc ts) in let same = since-sort_desc t ts in omega arith

newest-all :
    (n : ℕ) (ts : List ℕ) (rows : List Row) → ((t : ℕ) → since t ts ≤ n) → newest n ts rows ≡ rows
unfolding newest
newest-all n ts [] few = refl
newest-all n ts (row ∷ rows) few =
    let rest = newest-all n ts rows few in
    let here = few row.created_at in ground (arith, rest, here)

after_cutoff :
    (c n t count : ℕ) → (c < t → count ≤ n) → (t ≤ c → n < count) → leb t c ≡ not (leb count n)
after_cutoff c n t count few many = elim (Bool-cases (leb t c)) [
  | inl before ↦ let more = many (ground arith) in ground arith
  | inr after ↦ let less = few (ground arith) in ground arith
]

cutoff-newest :
    (c n : ℕ) (ts : List ℕ) (rows : List Row)
    → offset n (sort_desc ts) ≡ some c
    → unfinished_or_after (some c) rows ≡ newest n ts rows
unfolding unfinished_or_after newest
cutoff-newest c n ts [] e = refl
cutoff-newest c n ts (row ∷ rows) e =
    let rest = cutoff-newest c n ts rows e in
    let same = since-sort_desc row.created_at ts in
    let falling = sort_desc-IsFalling ts in
    let kept =
      after_cutoff c n row.created_at (since row.created_at ts)
        (λ h. let low = since-after c n row.created_at (sort_desc ts) falling e h in omega arith)
        (λ h.
          let high = since-before c n row.created_at (sort_desc ts) falling e h in omega arith) in
    ap
      (λ b.
        if is_some row.finished_at && b
        then unfinished_or_after (some c) rows
        else row ∷ unfinished_or_after (some c) rows)
      kept
    ∙ ap
        (λ rs.
          if is_some row.finished_at && not (leb (since row.created_at ts) n) then rs else row ∷ rs)
        rest

finished_times-after :
    (c : ℕ) (rows : List Row)
    → length (finished_times (unfinished_or_after (some c) rows))
      ≡ since (suc c) (finished_times rows)
unfolding unfinished_or_after finished_times since
finished_times-after c [] = refl
finished_times-after c (row ∷ rows) = let rest = finished_times-after c rows in ground (arith, rest)

offset-newest :
    (n : ℕ) (ts : List ℕ) (rows : List Row)
    → unfinished_or_after (offset n (sort_desc ts)) rows ≡ newest n ts rows
unfolding unfinished_or_after
offset-newest n ts rows = elim (Option-cases (offset n (sort_desc ts))) [
  | inl e ↦ rw e (sym (newest-all n ts rows (λ t. since-few n t ts e)))
  | inr (c, e) ↦ rw e (cutoff-newest c n ts rows e)
]

finished_times-offset :
    (n : ℕ) (rows : List Row)
    → length
        (finished_times (unfinished_or_after (offset n (sort_desc (finished_times rows))) rows))
      ≤ n
unfolding unfinished_or_after
finished_times-offset n rows =
    let ts = finished_times rows in
    elim (Option-cases (offset n (sort_desc ts))) [
      | inl e ↦ let few = since-few n 0 ts e in let all = since-zero ts in rw e (omega arith)
      | inr (c, e) ↦
          let left = finished_times-after c rows in
          let same = since-sort_desc (suc c) ts in
          let few =
            since-after c n (suc c) (sort_desc ts) (sort_desc-IsFalling ts) e (omega arith) in
          rw e (omega arith)
    ]

-- Where the database takes the statement, the history is truncated to a number of entries: a row stays
-- exactly if its job is not finished, or if at most so many finished ones were created at its time or
-- later; the rows stay in their order, and of finished jobs at most so many are left.
pub truncate_history_entries-newest :
    (n : ℕ) (db : Database)
    → db.answers ≡ true
    → (db' : Database) × (truncate_history_entries (pos n) db ≡ some db')
      × (db'.history ≡ newest n (finished_times db.history) db.history)
      × (length (finished_times db'.history) ≤ n)
unfolding truncate_history_entries
truncate_history_entries-newest n db answers = (
  record db {
    history = unfinished_or_after (offset n (sort_desc (finished_times db.history))) db.history;
  },
  rw answers,
  offset-newest n (finished_times db.history) db.history,
  finished_times-offset n db.history,
)
