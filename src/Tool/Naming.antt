-- ===== src/Tool/Naming.antt =====
-- arrower/internal/generate/generate-usecases.go: which names are understood, and which make the
-- tool panic.
use arrower.Base.{
  ◌≡◌, ◌≢◌, refl, sym, ap, ◌∙◌, nat_eq, bytes_eq, All, if◌then◌else◌, Bytes, Bool, true, false,
  some, List, [], ◌∷◌, ◌++◌, map, arith, Bool-cases, inl, inr,
}
use arrower.Base.Text.{
  split_by, contains_text, is_prefix, trim_space, trim_left, trim_right, is_space,
}
use arrower.Base.TextLaws.{
  trim_left-none, trim_right-none, split_by-one, split_by-cut, All-map, All-append,
}
use arrower.Tool.Generate.{
  CodeType, unknown, usecase, request, command, query, job, ParsedArgs, request_word, command_word,
  query_word, job_word, dash, code_type_of, is_usecase, detect_code_type, is_camel_case, is_lower,
  is_upper, join_by, Tools, panic, words_of, clean, parse_name, parse_args, render_files, generate,
}

-- The last word is the type, if it is one.
detect_code_type-snoc :
    (words : List Bytes) (word : Bytes)
    → detect_code_type (words ++ (word ∷ [])) ≡ (
        if is_usecase (code_type_of word)
        then (words ++ (word ∷ []), usecase)
        else (words, code_type_of word))
unfolding detect_code_type
detect_code_type-snoc [] word = refl
detect_code_type-snoc (w ∷ []) word = elim (Bool-cases (is_usecase (code_type_of word))) [
  | inl plain ↦ rw (plain, detect_code_type) refl
  | inr typed ↦ rw (typed, detect_code_type) refl
]
detect_code_type-snoc (w ∷ v ∷ words) word =
    let rest = detect_code_type-snoc (v ∷ words) word in
    elim (Bool-cases (is_usecase (code_type_of word))) [
      | inl plain ↦
          let all = rest ∙ rw plain refl in
          rw (plain, detect_code_type) (ap (λ (x : List Bytes × CodeType). (w ∷ x.0, x.1)) all)
      | inr typed ↦
          let all = rest ∙ rw typed refl in
          rw (typed, detect_code_type) (ap (λ (x : List Bytes × CodeType). (w ∷ x.0, x.1)) all)
    ]

is_camel_case-dash : (b : Bool) (s rest : Bytes) → is_camel_case b (s ++ (dash ++ rest)) ≡ false
unfolding is_camel_case is_lower is_upper
is_camel_case-dash b [] rest = refl
is_camel_case-dash b (c ∷ s) rest =
    ground (arith, is_camel_case-dash false s rest, is_camel_case-dash true s rest)

contains_text-dash : (s rest : Bytes) → contains_text dash (s ++ (dash ++ rest)) ≡ true
unfolding contains_text is_prefix
contains_text-dash [] rest = unfold nat_eq in refl
contains_text-dash (c ∷ s) rest = ground (arith, contains_text-dash s rest)

-- A word of a name: no white space and no dash, and nothing to make small.
abbrev pub IsNameWord : Tools → Bytes → Type 0
IsNameWord tools word =
    All (λ c. (is_space c ≡ false) × (c ≢ b'-')) word × (tools.to_lower word ≡ word)

abbrev IsPart : Bytes → Type 0
IsPart = All (λ c. (is_space c ≡ false) × (c ≢ b'-'))

no_dash : (s : Bytes) → IsPart s → All (λ c. c ≢ b'-') s
no_dash s = All-map (λ c h. h.1) s

trim-dark : (s : Bytes) → All (λ c. is_space c ≡ false) s → trim_space is_space s ≡ s
unfolding trim_space
trim-dark s dark =
    ap (trim_right is_space) (trim_left-none is_space s dark) ∙ trim_right-none is_space s dark

dash_dark : is_space b'-' ≡ false
unfolding is_space nat_eq
dash_dark = refl

-- The words that stand for a type.
abbrev pub word_of : CodeType → Bytes
word_of command = command_word
word_of query = query_word
word_of job = job_word
word_of _ = request_word

word_of_facts :
    (t : CodeType)
    → (is_camel_case true (word_of t) ≡ true)
      × (trim_space is_space (word_of t) ≡ word_of t)
      × (is_usecase (code_type_of (word_of t)) ≡ false)
unfolding is_camel_case is_lower is_upper trim_space trim_left trim_right is_space code_type_of
    bytes_eq nat_eq
word_of_facts unknown = (refl, refl, refl)
word_of_facts usecase = (refl, refl, refl)
word_of_facts request = (refl, refl, refl)
word_of_facts command = (refl, refl, refl)
word_of_facts query = (refl, refl, refl)
word_of_facts job = (refl, refl, refl)

module _ (tools : Tools) where
  join_by-dark :
      (words : List Bytes)
      → All (IsNameWord tools) words
      → All (λ c. is_space c ≡ false) (join_by dash words)
  unfolding join_by
  join_by-dark [] h = tt
  join_by-dark (word ∷ []) (h, _) = All-map (λ c k. k.0) word h.0
  join_by-dark (word ∷ next ∷ words) (h, hs) =
      All-append (λ c. is_space c ≡ false) word (dash ++ join_by dash (next ∷ words))
        (All-map (λ c k. k.0) word h.0) (dash_dark, join_by-dark (next ∷ words) hs)

  split_by-join_by :
      (word : Bytes) (words : List Bytes)
      → All (IsNameWord tools) (word ∷ words)
      → split_by dash 0 (join_by dash (word ∷ words)) ≡ word ∷ words
  unfolding join_by
  split_by-join_by word [] (h, _) = split_by-one b'-' [] word (no_dash word h.0)
  split_by-join_by word (next ∷ words) (h, hs) =
      split_by-cut b'-' word (join_by dash (next ∷ words)) (no_dash word h.0)
      ∙ ap (λ ws. word ∷ ws) (split_by-join_by next words hs)

  clean-words :
      (words : List Bytes) → All (IsNameWord tools) words → map (clean tools) words ≡ words
  unfolding clean
  clean-words [] h = refl
  clean-words (word ∷ words) (h, hs) =
      let same = ap tools.to_lower (trim-dark word (All-map (λ c k. k.0) word h.0)) ∙ h.1 in
      λ i. same i ∷ clean-words words hs i

  join_by-cons :
      (first next : Bytes) (words : List Bytes)
      → join_by dash (first ∷ next ∷ words) ≡ first ++ (dash ++ join_by dash (next ∷ words))
  unfolding join_by
  join_by-cons first next words = refl

  words_of-join_by :
      (first next : Bytes) (words : List Bytes)
      → All (IsNameWord tools) (first ∷ next ∷ words)
      → words_of tools (join_by dash (first ∷ next ∷ words)) ≡ some (first ∷ next ∷ words)
  unfolding words_of
  words_of-join_by first next words h =
      let rest = join_by dash (next ∷ words) in
      rw
        (
          join_by-cons first next words,
          is_camel_case-dash true first rest,
          contains_text-dash first rest,
          words_of,
        )
        (ap (λ ws. some ws)
          (ap (split_by dash 0) (sym (join_by-cons first next words))
            ∙ split_by-join_by first (next ∷ words) h))

  parsed : List Bytes × CodeType → ParsedArgs
  parsed (args, code_type) = record { context = []; args = args; code_type = code_type }

  parse_name-join_by :
      (first next : Bytes) (words : List Bytes)
      → All (IsNameWord tools) (first ∷ next ∷ words)
      → parse_name tools [] (join_by dash (first ∷ next ∷ words))
        ≡ some (parsed (detect_code_type (first ∷ next ∷ words)))
  unfolding parse_name parsed
  parse_name-join_by first next words h =
      let name = join_by dash (first ∷ next ∷ words) in
      let trimmed = trim-dark name (join_by-dark (first ∷ next ∷ words) h) in
      let found = ap (words_of tools) trimmed ∙ words_of-join_by first next words h in
      rw (found, parse_name)
        (ap (λ ws. some (parsed (detect_code_type ws))) (clean-words (first ∷ next ∷ words) h))

  kebab :
      (first : Bytes) (words : List Bytes) (last : Bytes)
      → All (IsNameWord tools) (first ∷ (words ++ (last ∷ [])))
      → parse_name tools [] (join_by dash (first ∷ (words ++ (last ∷ []))))
        ≡ some (parsed (detect_code_type (first ∷ (words ++ (last ∷ [])))))
  kebab first [] last h = parse_name-join_by first last [] h
  kebab first (next ∷ words) last h = parse_name-join_by first next (words ++ (last ∷ [])) h

  -- A name in kebab-case of two words or more, given without a context, whose words have no white
  -- space, no dash and no capital: it is understood as these words; but if the last is request,
  -- command, query or job, as this type and the words before it.
  pub parse_args-join_by :
      (first : Bytes) (words : List Bytes) (last : Bytes)
      → All (IsNameWord tools) (first ∷ (words ++ (last ∷ [])))
      → parse_args tools (join_by dash (first ∷ (words ++ (last ∷ []))) ∷ [])
        ≡ some (
            if is_usecase (code_type_of last)
            then record { context = []; args = first ∷ (words ++ (last ∷ [])); code_type = usecase }
            else record { context = []; args = first ∷ words; code_type = code_type_of last })
  unfolding parse_args parsed
  parse_args-join_by first words last h =
      kebab first words last h
      ∙ ap (λ d. some (parsed d)) (detect_code_type-snoc (first ∷ words) last)
      ∙ elim (Bool-cases (is_usecase (code_type_of last))) [
        | inl plain ↦ rw plain refl
        | inr typed ↦ rw typed refl
      ]

  typed_args :
      (word : Bytes)
      → is_usecase (code_type_of word) ≡ false
      → parsed (detect_code_type (word ∷ []))
        ≡ record { context = []; args = []; code_type = code_type_of word }
  unfolding detect_code_type parsed
  typed_args word typed = rw (typed, detect_code_type) refl

  clean-word :
      (word : Bytes) → tools.to_lower (trim_space is_space word) ≡ word → clean tools word ≡ word
  unfolding clean
  clean-word word same = same

  generate-word :
      (word : Bytes) (asked : CodeType) (saves : Bool)
      → is_camel_case true word ≡ true
      → trim_space is_space word ≡ word
      → is_usecase (code_type_of word) ≡ false
      → tools.camel_split word ≡ word ∷ []
      → tools.to_lower word ≡ word
      → generate tools true saves (word ∷ []) asked ≡ panic
  unfolding generate parse_args parse_name words_of render_files parsed
  generate-word word asked saves camel trimmed typed one small =
      let same = ap tools.to_lower trimmed ∙ small in
      let cut : words_of tools (trim_space is_space word) ≡ some (word ∷ []) =
        ap (words_of tools) trimmed ∙ rw (camel, words_of) (ap (λ ws. some ws) one) in
      let cleaned : map (clean tools) (word ∷ []) ≡ word ∷ [] = λ i. clean-word word same i ∷ [] in
      let found : parse_args tools (word ∷ [])
          ≡ some (record { context = []; args = []; code_type = code_type_of word }) =
        rw (cut, parse_name)
          (ap (λ ws. some (parsed (detect_code_type ws))) cleaned
            ∙ ap (λ x. some x) (typed_args word typed)) in
      rw (found, generate) refl

  -- A name that is nothing but the word for a type, as in `arrower generate usecase request`, makes the
  -- tool panic, whatever type was asked for, where the module is found and the libraries leave the
  -- word as it is.
  generate-word_of :
      (t asked : CodeType) (saves : Bool)
      → tools.camel_split (word_of t) ≡ word_of t ∷ []
      → tools.to_lower (word_of t) ≡ word_of t
      → generate tools true saves (word_of t ∷ []) asked ≡ panic
  generate-word_of t asked saves one small =
      let (camel, trimmed, typed) = word_of_facts t in
      generate-word (word_of t) asked saves camel trimmed typed one small
