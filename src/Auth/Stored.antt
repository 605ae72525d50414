-- ===== src/Auth/Stored.antt =====
-- contexts/auth/pg.session.store.go: what a request finds of the session that was saved or deleted.
use arrower.Base.{
  ◌≡◌, ◌≢◌, refl, sym, ap, ◌∙◌, ◌==◌, nat_eq, bytes_eq, if◌then◌else◌, Bytes, true, false, none,
  some, [], arith, inl, inr, Option-cases, Bool-cases,
}
use arrower.Base.Int.{ℤ, pos, negsuc}
use arrower.Base.Dict.{lookup, insert, erase, lookup-insert, lookup-erase}
use arrower.Auth.SessionStore.{
  Session, Codecs, Database, cleared, value, fresh, load, loaded, new, store, store_and_answer,
  save, save_aged, find_session_data_by_key, delete_session_by_key, upsert_session_data,
}

-- A test that fails.
ite_no : {a b : Bytes} → a ≢ b → (a == b) ≡ false
ite_no {a} {b} differ = ground arith

module _ {V : Type 0} (codecs : Codecs V) (no_values : V) (default_age : ℤ) where
  -- What a save with a cookie did.
  abbrev IsSaved : (ℤ → ℤ) → Session V → Bytes → Database → Database → Type 0
  IsSaved expires session cookie db db' =
      (text : Bytes) × (codecs.encode_values session.values ≡ some text)
      × (codecs.encode_id session.id ≡ some cookie)
      × (db.answers ≡ true)
      × (db' ≡ record db { rows = insert session.id (text, expires session.max_age) db.rows })

  store_and_answer-IsSaved :
      (expires : ℤ → ℤ) (session : Session V) (cookie : Bytes) (db db' : Database)
      → store_and_answer codecs no_values default_age expires session db
        ≡ (some (value cookie), db')
      → IsSaved expires session cookie db db'
  unfolding store_and_answer store upsert_session_data
  store_and_answer-IsSaved expires session cookie db db' saved =
      elim (Option-cases (codecs.encode_values session.values)) [
        | inl broken ↦ absurd (ground (arith, broken, saved))
        | inr (text, encoded) ↦ elim (Bool-cases db.answers) [
          | inr silent ↦ absurd (ground (arith, encoded, saved, silent))
          | inl answers ↦ elim (Option-cases (codecs.encode_id session.id)) [
            | inl broken ↦ absurd (ground (arith, encoded, saved, answers, broken))
            | inr (c, id_encoded) ↦ (
              text,
              encoded,
              ground (arith, encoded, saved, answers, id_encoded),
              answers,
              ground (arith, encoded, saved, answers, id_encoded),
            )
          ]
        ]
      ]

  save_aged-IsSaved :
      (age : ℤ) (expires : ℤ → ℤ) (drawn cookie : Bytes) (session : Session V) (db db' : Database)
      → session.id ≢ []
      → save_aged codecs no_values default_age age expires drawn session db
        ≡ (some (value cookie), db')
      → IsSaved expires session cookie db db'
  unfolding save_aged delete_session_by_key
  save_aged-IsSaved (pos n) expires drawn cookie session db db' named saved =
      store_and_answer-IsSaved expires session cookie db db' (
        ap
          (λ b.
            store_and_answer codecs no_values default_age expires
              (if b then record session { id = drawn } else session) db)
          (sym (ite_no named))
        ∙ saved)
  save_aged-IsSaved (negsuc n) expires drawn cookie session db db' named saved =
      absurd (ground arith)

  -- What a save that deletes did.
  save_aged-cleared :
      (age : ℤ) (expires : ℤ → ℤ) (drawn : Bytes) (session : Session V) (db db' : Database)
      → save_aged codecs no_values default_age age expires drawn session db ≡ (some cleared, db')
      → (db.answers ≡ true) × (db' ≡ record db { rows = erase session.id db.rows })
  unfolding save_aged store_and_answer store delete_session_by_key upsert_session_data
  save_aged-cleared (pos n) expires drawn session db db' saved = absurd (ground arith)
  save_aged-cleared (negsuc n) expires drawn session db db' saved = (ground arith, ground arith)

  -- A row that is there is read.
  load_row :
      (id text : Bytes) (expires : ℤ) (v : V) (db : Database)
      → db.answers ≡ true
      → lookup id db.rows ≡ some (text, expires)
      → codecs.decode_values text ≡ some v
      → load codecs no_values default_age id db
        ≡ (record (fresh codecs no_values default_age id) { values = v; is_new = false }, false)
  unfolding load find_session_data_by_key
  load_row id text expires v db answers there decoded = ground arith

  load_missing :
      (id : Bytes) (db : Database)
      → db.answers ≡ true
      → lookup id db.rows ≡ none
      → load codecs no_values default_age id db ≡ (fresh codecs no_values default_age id, false)
  unfolding load find_session_data_by_key
  load_missing id db answers absent = ground arith

  -- What is found under an ID depends on its row only.
  load_same :
      (id : Bytes) (db db' : Database)
      → db'.answers ≡ db.answers
      → lookup id db'.rows ≡ lookup id db.rows
      → load codecs no_values default_age id db' ≡ load codecs no_values default_age id db
  unfolding load find_session_data_by_key
  load_same id db db' answers same = ap (loaded codecs no_values default_age id) (λ i.
      if answers i then some (elim (same i) [ none ↦ none | some row ↦ some row.0 ]) else none)

  new_cookie :
      (drawn cookie id : Bytes) (db : Database)
      → codecs.decode_id cookie ≡ some id
      → new codecs no_values default_age drawn (some cookie) db
        ≡ load codecs no_values default_age id db
  unfolding new
  new_cookie drawn cookie id db known = rw (known, new) refl

-- The codecs read what they wrote.
module _ {V : Type 0} (codecs : Codecs V) (no_values : V) (default_age : ℤ)
    (ids : (id cookie : Bytes)
      → codecs.encode_id id ≡ some cookie
      → codecs.decode_id cookie ≡ some id)
    (values : (v : V) (text : Bytes)
      → codecs.encode_values v ≡ some text
      → codecs.decode_values text ≡ some v) where
  load-save :
      (expires : ℤ → ℤ) (drawn drawn' cookie : Bytes) (session : Session V) (db db' : Database)
      → session.id ≢ []
      → save codecs no_values default_age expires drawn session db ≡ (some (value cookie), db')
      → new codecs no_values default_age drawn' (some cookie) db'
        ≡ (record session { is_new = false; max_age = default_age }, false)
  unfolding save
  load-save expires drawn drawn' cookie session db db' named saved =
      let (text, encoded, id_encoded, answers, written) =
        save_aged-IsSaved codecs no_values default_age session.max_age expires drawn cookie session
          db db' named saved in
      let row : Bytes × ℤ = (text, expires session.max_age) in
      new_cookie codecs no_values default_age drawn' cookie session.id db'
        (ids session.id cookie id_encoded)
      ∙ ap (load codecs no_values default_age session.id) written
      ∙ load_row codecs no_values default_age session.id text (expires session.max_age)
          session.values (record db { rows = insert session.id row db.rows }) answers
          (ground (arith, lookup-insert session.id session.id row db.rows))
          (values session.values text encoded)

  -- Where the codecs read what they wrote: a session with an ID is saved, and a cookie comes back.
  -- A request with this cookie gets the ID and the values of the session, which is no longer new,
  -- and a request with the cookie of another ID gets what it got before.
  pub new-save :
      (expires : ℤ → ℤ) (drawn drawn' cookie other id : Bytes) (session : Session V)
      (db db' : Database)
      → session.id ≢ []
      → save codecs no_values default_age expires drawn session db ≡ (some (value cookie), db')
      → codecs.decode_id other ≡ some id
      → id ≢ session.id
      → (new codecs no_values default_age drawn' (some cookie) db'
          ≡ (record session { is_new = false; max_age = default_age }, false))
        × (new codecs no_values default_age drawn' (some other) db'
            ≡ new codecs no_values default_age drawn' (some other) db)
  unfolding save
  new-save expires drawn drawn' cookie other id session db db' named saved known differ =
      let (text, encoded, id_encoded, answers, written) =
        save_aged-IsSaved codecs no_values default_age session.max_age expires drawn cookie session
          db db' named saved in
      let row : Bytes × ℤ = (text, expires session.max_age) in
      (
        load-save expires drawn drawn' cookie session db db' named saved,
        new_cookie codecs no_values default_age drawn' other id db' known
            ∙ load_same codecs no_values default_age id db db' (ap (λ d. d.answers) written) (
                ap (λ d. lookup id d.rows) written
                ∙ ground (arith, lookup-insert id session.id row db.rows))
            ∙ sym (new_cookie codecs no_values default_age drawn' other id db known),
      )

  -- Where the codecs read what they wrote: a session with an ID is deleted by saving it with an
  -- age below 0. A request that still has its cookie gets an empty new session with the old ID;
  -- and once a session with the ID that this request got is saved with a cookie, whatever is in
  -- it, a request with the old cookie gets its values.
  pub new-save_deleted :
      (expires : ℤ → ℤ) (drawn drawn' cookie cookie' : Bytes) (session session' : Session V)
      (db db' db'' : Database)
      → session.id ≢ []
      → codecs.decode_id cookie ≡ some session.id
      → save codecs no_values default_age expires drawn session db ≡ (some cleared, db')
      → session'.id ≡ (new codecs no_values default_age drawn' (some cookie) db').0.id
      → save codecs no_values default_age expires drawn session' db' ≡ (some (value cookie'), db'')
      → (new codecs no_values default_age drawn' (some cookie) db'
          ≡ (fresh codecs no_values default_age session.id, false))
        × (new codecs no_values default_age drawn' (some cookie) db''
            ≡ (record session' { is_new = false; max_age = default_age }, false))
  unfolding save
  new-save_deleted expires drawn drawn' cookie cookie' session session' db db' db'' named known gone
        kept saved =
      let (answers, erased) =
        save_aged-cleared codecs no_values default_age session.max_age expires drawn session db db'
          gone in
      let empty =
        new_cookie codecs no_values default_age drawn' cookie session.id db' known
        ∙ ap (load codecs no_values default_age session.id) erased
        ∙ load_missing codecs no_values default_age session.id
            (record db { rows = erase session.id db.rows }) answers
            (ground (arith, lookup-erase session.id session.id db.rows)) in
      let same_id : session'.id ≡ session.id = kept ∙ ap (λ w. w.0.id) empty in
      let still_named : session'.id ≢ [] = λ p. named (sym same_id ∙ p) in
      let (text, encoded, id_encoded, answers', written) =
        save_aged-IsSaved codecs no_values default_age session'.max_age expires drawn cookie'
          session' db' db'' still_named saved in
      (
        empty,
        new_cookie codecs no_values default_age drawn' cookie session'.id db''
              (known ∙ ap (λ x. some x) (sym same_id))
            ∙ sym (
                new_cookie codecs no_values default_age drawn' cookie' session'.id db''
                  (ids session'.id cookie' id_encoded))
            ∙ load-save expires drawn drawn' cookie' session' db' db'' still_named saved,
      )
