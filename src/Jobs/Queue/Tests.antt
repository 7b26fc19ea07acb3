-- ===== src/Jobs/Queue/Tests.antt =====
-- The queue of src/db/tenant/jobs.rs on concrete runs.
use reproit_cloud.Prelude.Order.SortBy.{sort_by}
use reproit_cloud.Jobs.Queue.{
  job_exists, job_incomplete, insert_job, finalize_job, pending_shard_count, claim_shard, TenantDb,
  ClaimedShard, empty_db, requeue_stranded, ShardRow, set_shard,
}
use reproit_cloud.Jobs.Spec.{shards_from, new_job, JobSpec, ShardState, clean, finding}
use reproit_cloud.Jobs.Queue.Finishing.{
  Fleet, run_fleet, IsSettled, run_fleet-IsSettled, AllPosted, Event, statement, post, read_open,
  finish,
}
use reproit_cloud.Jobs.Queue.Lifecycle.{Refines, apply-Refines}
use reproit_cloud.Jobs.Queue.Validity.{
  IsValid, empty_db-IsValid, Statement, submit, claim, apply, apply-IsValid,
}
use reproit_cloud.Jobs.Queue.Free.{IsFree, Tells}
use reproit_cloud.Jobs.Queue.Claim.{IsLeast, claim_shard-none, claim_shard-takes}
use reproit_cloud.Jobs.Queue.Keys.{Has}
use reproit_cloud.Prelude.{
  All, ℕ, suc, ◌≡◌, refl, ◌↔◌, false, Option, none, some, List, [], ◌∷◌, map,
}
use reproit_cloud.Text.{text_lt, text_eq, Text, lit}

abbrev pub two_seeds : JobSpec
two_seeds = record {
  app_dir = lit "/jobs/app";
  mode = lit "fuzz";
  seeds = 2;
  budget = 24;
  backend = lit "web";
}

abbrev web : List Text
web = lit "web" ∷ []

abbrev enqueue : Statement
enqueue = submit (lit "j1") (lit "2024-01-01") two_seeds

unfoldable pub queued : TenantDb
unfolding apply
queued = apply enqueue empty_db

queued-IsValid : IsValid queued
unfolding queued
queued-IsValid = apply-IsValid enqueue empty_db empty_db-IsValid

abbrev take_one : Text → Statement
take_one w = claim (λ _. false) 1000 w web none

abbrev report : ℕ → Text → ShardState → Event
report seed w state = post (lit "j1") seed w state none 0

pending_test : pending_shard_count queued ≡ 2
unfolding pending_shard_count queued insert_job new_job shards_from
pending_test = refl

abbrev ap_seed : Option ClaimedShard → Option ℕ
ap_seed none = none
ap_seed (some c) = some c.seed

-- Two workers are never given the same shard.
claims_test :
    let (db, first) = claim_shard (λ _. false) 5 queued (lit "w1") web none in
    let (_, second) = claim_shard (λ _. false) 6 db (lit "w2") web none in
    (ap_seed first ≡ some 1) × (ap_seed second ≡ some 2)
unfolding claim_shard sort_by queued insert_job new_job shards_from text_eq text_lt
claims_test = (refl, refl)

-- A result of a worker whose shard was taken away is refused.
stale_test :
    let (db, _) = claim_shard (λ _. false) 5 queued (lit "w1") web none in
    let (db, _) = requeue_stranded 500 db 120 in
    let (db, _) = claim_shard (λ _. false) 501 db (lit "w2") web none in
    (set_shard db (lit "j1") 1 (lit "w1") clean none 0).1 ≡ false
unfolding set_shard claim_shard sort_by requeue_stranded queued insert_job new_job shards_from
    text_eq text_lt
stale_test = refl

apply-Refines_example : Refines (some (lit "w1")) queued (apply (take_one (lit "w1")) queued).shards
apply-Refines_example = apply-Refines (take_one (lit "w1")) queued queued-IsValid tt

abbrev whole_run : List Event
whole_run =
    statement enqueue
    ∷ statement (take_one (lit "w1"))
    ∷ statement (take_one (lit "w2"))
    ∷ report 1 (lit "w1") clean
    ∷ read_open (lit "j1")
    ∷ report 2 (lit "w2") finding
    ∷ read_open (lit "j1")
    ∷ finish (lit "2024-01-02") (lit "j1")
    ∷ []

abbrev no_fleet : Fleet
no_fleet = record { db = empty_db; posted = []; seen = [] }

no_fleet-IsSettled : IsSettled no_fleet
no_fleet-IsSettled = record { valid = empty_db-IsValid; posted = tt; seen = tt; finished = tt }

run_fleet-IsSettled_example : IsSettled (run_fleet whole_run no_fleet)
run_fleet-IsSettled_example =
    run_fleet-IsSettled whole_run no_fleet (tt, (tt, (tt, (refl, (refl, tt))))) no_fleet-IsSettled

-- The run finishes the job.
finished_test :
    map (λ j. j.finished_at) (run_fleet whole_run no_fleet).db.jobs ≡ some (lit "2024-01-02") ∷ []
unfolding run_fleet job_exists apply set_shard claim_shard sort_by insert_job new_job shards_from
    text_eq text_lt job_incomplete finalize_job
finished_test = refl

-- A worker for `ios` alone finds nothing.
claim_shard-none_example :
    ((claim_shard (λ _. false) 1000 queued (lit "w1") (lit "ios" ∷ []) none).1 ≡ none)
    ↔ All (λ r. ¬ IsFree (λ _. false) (lit "ios" ∷ []) none r) queued.shards
claim_shard-none_example =
    claim_shard-none (λ _. false) 1000 queued (lit "w1") (lit "ios" ∷ []) none queued-IsValid

abbrev first_shard : ClaimedShard
first_shard = record {
  job_id = lit "j1";
  seed = 1;
  claimed_by = lit "w1";
  backend = lit "web";
  app_dir = lit "/jobs/app";
  budget = 24;
}

claim_shard-takes_example :
    (suc (pending_shard_count (claim_shard (λ _. false) 1000 queued (lit "w1") web none).0)
      ≡ pending_shard_count queued)
    × ((r : ShardRow) × (Has r queued.shards
          × (IsFree (λ _. false) web none r
              × (IsLeast (λ _. false) web none queued.shards r × Tells (lit "w1") r first_shard))))
unfolding claim_shard sort_by queued insert_job new_job shards_from text_eq text_lt
claim_shard-takes_example =
    claim_shard-takes (λ _. false) 1000 queued (lit "w1") web none first_shard queued-IsValid refl

whole_run-AllPosted : AllPosted whole_run
whole_run-AllPosted = (tt, (tt, (tt, (refl, (refl, tt)))))
