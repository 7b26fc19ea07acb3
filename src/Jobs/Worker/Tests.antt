-- ===== src/Jobs/Worker/Tests.antt =====
-- The worker's protocol of src/jobs/worker.rs on concrete requests.
use reproit_cloud.Jobs.Worker.{
  gone, db_of, refused, Tenants, Faults, parse_shard_id, sanitize_worker_id, result, ResultReq,
  ok_200, shard_id,
}
use reproit_cloud.Jobs.Worker.Reply.{AllValid, result-job_incomplete, IsAccepted, result_iff}
use reproit_cloud.Jobs.Queue.{job_incomplete, job_exists, TenantDb}
use reproit_cloud.Jobs.Queue.Validity.{IsValid}
use reproit_cloud.Jobs.Worker.ShardId.{parse_shard_id-shard_id}
use reproit_cloud.Prelude.{◌≡◌, refl, ◌↔◌, false, Option, none, some, [], ◌∷◌, arith}
use reproit_cloud.Prelude.Int.{pos}
use reproit_cloud.Text.{text_eq, Text, lit}
use reproit_cloud.Jobs.Spec.{clean, running, ShardState}

abbrev one_shard : ShardState → Option Text → TenantDb
one_shard state worker = record {
  jobs =
      record {
        id = lit "j1";
        app_dir = lit "/jobs/app";
        budget = 24;
        started_at = lit "t";
        finished_at = none;
        map_states = 0;
        map_transitions = 0;
      }
      ∷ [];
  shards =
      record {
        job_id = lit "j1";
        seed = 3;
        state = state;
        report = none;
        duration_s = 0;
        backend = lit "web";
        claimed_by = worker;
        claimed_at = some 10;
        heartbeat_at = some 10;
        attempts = 1;
      }
      ∷ [];
}

one_shard-IsValid : (s : ShardState) (w : Option Text) → IsValid (one_shard s w)
unfolding job_exists text_eq
one_shard-IsValid s w = record { distinct = (tt, tt); linked = (refl, tt) }

abbrev tenants : Tenants
tenants =
    (pos 7, one_shard running (some (lit "w1"))) ∷ (pos 8, one_shard clean (some (lit "w1"))) ∷ []

tenants-AllValid : AllValid tenants
tenants-AllValid =
    (one_shard-IsValid running (some (lit "w1")), (one_shard-IsValid clean (some (lit "w1")), tt))

abbrev no_fault : Faults
no_fault = record {
  resolve_fails = false;
  update_fails = false;
  incomplete_fails = false;
  finalize_fails = false;
}

abbrev clean_result : ResultReq
clean_result = record { status = lit "clean"; report = none; duration_s = none }

-- A job id may contain colons; a worker's cannot.
parse_test :
    parse_shard_id (lit "7:a:b:3:w-1")
    ≡ some (record { org_id = pos 7; job_id = lit "a:b"; seed = 3; worker_id = lit "w-1" })
unfolding parse_shard_id
parse_test = refl

malformed_test : parse_shard_id (lit "7:3:w") ≡ none
unfolding parse_shard_id
malformed_test = refl

sanitize_test : sanitize_worker_id (lit "w-0") (lit "mac mini:1") ≡ lit "mac_mini_1"
unfolding sanitize_worker_id
sanitize_test = refl

result_test : (result no_fault (lit "now") tenants (lit "7:j1:3:w1") clean_result).0 ≡ ok_200
unfolding result text_eq db_of
result_test = refl

other_worker_test :
    (result no_fault (lit "now") tenants (lit "7:j1:3:w2") clean_result).0 ≡ refused gone
unfolding result text_eq db_of
other_worker_test = refl

parse_shard_id-shard_id_example :
    parse_shard_id (shard_id (pos 7) (lit "j:1") 3 (sanitize_worker_id (lit "w-0") (lit "a:b")))
    ≡ some (record {
      org_id = pos 7;
      job_id = lit "j:1";
      seed = 3;
      worker_id = sanitize_worker_id (lit "w-0") (lit "a:b");
    })
parse_shard_id-shard_id_example =
    parse_shard_id-shard_id (lit "w-0") (lit "a:b") (lit "j:1") (pos 7) 3 (refl, refl) (omega arith)
      refl (omega arith)

result_iff_example :
    ((result no_fault (lit "now") tenants (lit "7:j1:3:w1") clean_result).0 ≡ ok_200)
    ↔ IsAccepted no_fault tenants (lit "7:j1:3:w1") clean_result
result_iff_example =
    result_iff no_fault (lit "now") tenants (lit "7:j1:3:w1") clean_result tenants-AllValid

result-job_incomplete_example :
    (result no_fault (lit "now") tenants (lit "8:j1:3:w1") clean_result).1 ≡ tenants
unfolding parse_shard_id db_of job_incomplete text_eq
result-job_incomplete_example =
    result-job_incomplete no_fault (lit "now") tenants (lit "8:j1:3:w1") clean_result
      (record { org_id = pos 8; job_id = lit "j1"; seed = 3; worker_id = lit "w1" })
      (one_shard clean (some (lit "w1"))) tenants-AllValid refl refl refl
