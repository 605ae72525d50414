-- ===== src/Tests/Worker.antt =====
-- Jobs that are numbers, in a database that is a number, and the theorems on how they get there
-- and back.
use arrower.Base.{
  ℕ, zero, suc, ◌≡◌, refl, sym, ap, length, leb, ◌++◌, bytes_eq, nat_eq, String, Bytes, is_some,
  true, false, Option, none, some, List, [], ◌∷◌, ◌⊎◌, inl, inr, arith, if◌then◌else◌,
}
use arrower.Base.Int.{pos}
use arrower.Auth.Middleware.{as_string}
use arrower.Jobs.Memory.{Job, slice, is_valid_job_type, all_structs}
use arrower.Jobs.Postgres.Payload.{
  string_of_user, Payload, GueJob, JobOption, with_priority, apply_options, RequestContext,
  build_gue_job, build_gue_jobs, all_of_slice, structs_of, enqueue,
}
use arrower.Jobs.Postgres.Worker.{
  WorkError, job_failed, not_rolled_back, not_released, Statement, savepoint, rollback_to, release,
  WorkerContext, unmarshal_args_to_job_payload, prepare, work, function, is_valid_job_func,
}
use arrower.Jobs.Postgres.Carried.{IsReadBack, prepare-build_gue_job, worked, work_lem}
use arrower.Jobs.Postgres.Enqueued.{AllBuilt, enqueue_lem}

-- Writes the number and the user, and refuses what it could not read back.
abbrev marshal_parts : Bytes → Bytes → Bytes → ℕ → Bytes → String ⊎ Bytes
marshal_parts [] [] [] n user = inr (n ∷ user)
marshal_parts _ _ _ n user = inl "too long"

abbrev marshal : Payload ℕ (Unit {0}) → String ⊎ Bytes
marshal p =
    marshal_parts p.job_struct_path p.git_hash_enqueued p.git_hash_processed p.job_data p.user_id

abbrev payload : ℕ → Bytes → Payload ℕ (Unit {0})
payload n user = record {
  job_data = n;
  job_struct_path = [];
  git_hash_enqueued = [];
  git_hash_processed = [];
  user_id = user;
  carrier = tt;
}

abbrev decode : Bytes → String ⊎ Payload ℕ (Unit {0})
decode [] = inl "empty"
decode (n ∷ user) = inr (payload n user)

abbrev encode_data : ℕ → String ⊎ Bytes
encode_data n = inr (n ∷ [])

abbrev decode_job : Bytes → String ⊎ ℕ
decode_job [] = inl "empty"
decode_job (n ∷ _) = inr n

abbrev name_of : ℕ → Option (Bytes × Bytes)
name_of n = some (b'n' ∷ [], [])

read_parts :
    (path enqueued processed : Bytes) (n : ℕ) (user args : Bytes)
    → marshal_parts path enqueued processed n user ≡ inr args
    → (d : ℕ) × (text : Bytes) × (decode args
        ≡ inr (record {
          job_data = d;
          job_struct_path = path;
          git_hash_enqueued = enqueued;
          git_hash_processed = processed;
          user_id = user;
          carrier = tt;
        }))
      × (encode_data d ≡ inr text)
      × (decode_job text ≡ inr n)
read_parts [] [] [] n user args h =
    let same : n ∷ user ≡ args = ground (arith, h) in (n, n ∷ [], ap decode (sym same), refl, refl)
read_parts [] [] (c ∷ t) n user args h = absurd (ground (arith, h))
read_parts [] (c ∷ t) processed n user args h = absurd (ground (arith, h))
read_parts (c ∷ t) enqueued processed n user args h = absurd (ground (arith, h))

read_back : IsReadBack marshal decode encode_data decode_job
read_back p args written =
    read_parts p.job_struct_path p.git_hash_enqueued p.git_hash_processed p.job_data p.user_id args
      written

abbrev asking : RequestContext ℕ (Unit {0})
asking = record { user = some (as_string (b'u' ∷ [])); tx = some 5; injected = tt }

abbrev urgent : List (JobOption String ℕ)
urgent = with_priority (pos 3) ∷ []

abbrev built : GueJob ℕ
built = record {
  id = [];
  queue = [];
  job_type = b'n' ∷ [];
  args = 4 ∷ b'u' ∷ [];
  priority = pos 3;
  run_at = none;
  error_count = 0;
  last_error = [];
}

abbrev in_transaction : GueJob ℕ → Option ℕ
in_transaction g = some 5

abbrev no_span : Unit {0} → Unit {0}
no_span c = c

prepare-build_gue_job_example :
    prepare decode encode_data decode_job in_transaction no_span none built
    ≡ inr (record { job_id = []; tx = 5; user = some (as_string (b'u' ∷ [])); span = tt }, 4)
unfolding apply_options with_priority build_gue_job string_of_user
prepare-build_gue_job_example =
    prepare-build_gue_job marshal name_of [] [] decode encode_data decode_job in_transaction no_span
      read_back asking urgent 4 built 5 none (λ g. refl) refl refl

-- What the savepoint has, and what the transaction has.
abbrev Db : Type 0
Db = ℕ × ℕ

abbrev execute : ℕ → Statement → Db → Option String × Db
execute tx savepoint s = (none, (s.1, s.1))
execute tx rollback_to s = (none, (s.0, s.0))
execute tx release s = (none, s)

abbrev store_number : WorkerContext ℕ (Unit {0}) → ℕ → Db → Option String × Db
store_number ctx zero s = (some "zero", (s.0, 99))
store_number ctx (suc n) s = (none, (s.0, suc n))

rolls_back :
    (ctx : WorkerContext ℕ (Unit {0})) (job : ℕ) (s : Db)
    → (execute ctx.tx rollback_to (store_number ctx job (execute ctx.tx savepoint s).1).1).0 ≡ none
    → (execute ctx.tx rollback_to (store_number ctx job (execute ctx.tx savepoint s).1).1).1.1 ≡ s.1
rolls_back ctx zero s h = refl
rolls_back ctx (suc n) s h = refl

abbrev done : GueJob ℕ → Db → Option (WorkError String) × Db
done = worked decode encode_data decode_job in_transaction no_span execute store_number none

work_lem_example :
    (((done built (0, 1)).0 ≡ none)
      × ((ctx : WorkerContext ℕ (Unit {0})) × (job : ℕ) × (prepare decode encode_data decode_job
              in_transaction no_span none built
            ≡ inr (ctx, job))
          × ((store_number ctx job (execute ctx.tx savepoint (0, 1)).1).0 ≡ none)
          × (execute ctx.tx release (store_number ctx job (execute ctx.tx savepoint (0, 1)).1).1
              ≡ (none, (done built (0, 1)).1))))
    ⊎ ((is_some (done built (0, 1)).0 ≡ true) × ((done built (0, 1)).1.1 ≡ 1))
    ⊎ ((e : String) × (((done built (0, 1)).0 ≡ some (not_rolled_back e))
          ⊎ ((done built (0, 1)).0 ≡ some (not_released e))))
work_lem_example =
    work_lem decode encode_data decode_job in_transaction no_span execute (λ s. s.1) store_number
      (λ tx s. refl) rolls_back none built (0, 1)

test_failure : done (record built { args = 0 ∷ [] }) (0, 1) ≡ (some (job_failed "zero"), (1, 1))
unfolding work prepare unmarshal_args_to_job_payload bytes_eq
test_failure = refl

-- The list of jobs in the database; it takes three at most.
abbrev enqueue_batch :
    Option ℕ → List (GueJob ℕ) → List (GueJob ℕ) → Option String × List (GueJob ℕ)
enqueue_batch tx gs s = if leb (length gs) 3 then (none, s ++ gs) else (some "too many", s)

abbrev two_jobs : Job ℕ
two_jobs = slice (some 4 ∷ some 4 ∷ [])

test_enqueue :
    enqueue marshal name_of [] [] enqueue_batch asking urgent two_jobs []
    ≡ (none, built ∷ built ∷ [])
unfolding enqueue is_valid_job_type all_structs build_gue_jobs build_gue_job structs_of all_of_slice
    apply_options with_priority string_of_user
test_enqueue = refl

enqueue_lem_example :
    ((is_some (enqueue marshal name_of [] [] enqueue_batch asking urgent two_jobs []).0 ≡ true)
      × ((enqueue marshal name_of [] [] enqueue_batch asking urgent two_jobs []).1 ≡ []))
    ⊎ ((gs : List (GueJob ℕ)) × AllBuilt marshal name_of [] [] asking urgent
          (structs_of two_jobs)
          gs
        × (is_some (enqueue marshal name_of [] [] enqueue_batch asking urgent two_jobs []).0
            ≡ is_some (enqueue_batch asking.tx gs []).0)
        × ((enqueue marshal name_of [] [] enqueue_batch asking urgent two_jobs []).1
            ≡ (enqueue_batch asking.tx gs []).1))
enqueue_lem_example = enqueue_lem marshal name_of [] [] enqueue_batch asking urgent two_jobs []

-- An interface that is named Context passes for the context, wherever it is declared.
test_other_context :
    is_valid_job_func (
      function
        (record {
          is_interface = true;
          is_struct = false;
          pkg_path = b'x' ∷ [];
          name = b'C' ∷ b'o' ∷ b'n' ∷ b't' ∷ b'e' ∷ b'x' ∷ b't' ∷ [];
        }
          ∷ record { is_interface = false; is_struct = true; pkg_path = []; name = b'J' ∷ [] }
          ∷ [])
        (record {
          is_interface = true;
          is_struct = false;
          pkg_path = [];
          name = b'e' ∷ b'r' ∷ b'r' ∷ b'o' ∷ b'r' ∷ [];
        }
          ∷ []))
    ≡ true
unfolding is_valid_job_func bytes_eq
test_other_context = refl
