-- ===== src/Jobs/Queue/Finishing.antt =====
-- `maybe_finalize` of src/jobs/worker.rs among the statements of other requests: it reads the open
-- shards of a job, and finishes the job in a later statement.
use reproit_cloud.Jobs.Queue.Validity.{set, apply, IsPosted, Statement, IsValid, apply-IsValid}
use reproit_cloud.Jobs.Queue.{TenantDb, job_exists, job_incomplete, finalize_job, set_shard}
use reproit_cloud.Text.Compare.{text_eq_iff}
use reproit_cloud.Jobs.Spec.{ShardState, F64}
use reproit_cloud.Jobs.Queue.Kept.{
  posted_exist, set_shard-exists, exists_lem, apply_complete_all, apply-jobs, apply-finished,
  IsComplete, finalize-linked, NoOpenShard, finalize-posted, finalize-seen, finish_rows-finished,
}
use reproit_cloud.Prelude.{
  if◌then◌else◌, Bool-cases, All, any, ℕ, ◌≡◌, sym, subst, inl, inr, true, not, ◌&&◌, Option, List,
  [], ◌∷◌, arith,
}
use reproit_cloud.Text.{Text, text_eq}

-- The database, the jobs of which a running handler has set a shard, and those that it then saw
-- without an open shard.
pub record Fleet : Type 0 where
  pub db : TenantDb
  pub posted : List Text
  pub seen : List Text

pub data Event : Type 0 where
  statement : Statement → Event
  post : Text → ℕ → Text → ShardState → Option Text → F64 → Event
  read_open : Text → Event
  finish : Text → Text → Event

-- `result` goes on to `maybe_finalize` only if `set_shard` found the worker's shard; `maybe_finalize`
-- goes on to `finalize_job` only if it read no open shard.
unfoldable pub step : Event → Fleet → Fleet
step (statement st) f = record f { db = apply st f.db }
step (post job_id seed w state report duration) f =
    let (db, hit) = set_shard f.db job_id seed w state report duration in
    record f { db = db; posted = if hit then job_id ∷ f.posted else f.posted }
step (read_open job_id) f =
    if any (text_eq job_id) f.posted && not (job_incomplete f.db job_id)
    then record f { seen = job_id ∷ f.seen }
    else f
step (finish now job_id) f =
    if any (text_eq job_id) f.seen then record f { db = finalize_job now f.db job_id 0 0 } else f

unfoldable pub run_fleet : List Event → Fleet → Fleet
unfolding step
run_fleet [] f = f
run_fleet (e ∷ es) f = run_fleet es (step e f)

abbrev pub AllPosted : List Event → Type 0
AllPosted [] = Unit {0}
AllPosted (statement st ∷ es) = IsPosted st × AllPosted es
AllPosted (post job_id seed w state report duration ∷ es) =
    IsPosted (set job_id seed w state report duration) × AllPosted es
AllPosted (read_open job_id ∷ es) = AllPosted es
AllPosted (finish now job_id ∷ es) = AllPosted es

pub record IsSettled (f : Fleet) : Type 0 where
  pub valid : IsValid f.db
  pub posted : All (λ j. job_exists f.db j ≡ true) f.posted
  pub seen : All (IsComplete f.db) f.seen
  pub finished : All (NoOpenShard f.db) f.db.jobs

seen_complete :
    (db : TenantDb) (job_id : Text) (seen : List Text)
    → any (text_eq job_id) seen ≡ true
    → All (IsComplete db) seen
    → IsComplete db job_id
seen_complete db job_id [] a h = absurd (ground arith)
seen_complete db job_id (x ∷ seen) a (h, hs) = elim (Bool-cases (text_eq job_id x)) [
  | inl e ↦ subst (IsComplete db) (sym ((text_eq_iff job_id x).0 e)) h
  | inr e ↦ seen_complete db job_id seen (ground (arith, a, e)) hs
]

finalize-IsSettled :
    (now job_id : Text) (f : Fleet)
    → IsComplete f.db job_id
    → IsSettled f
    → IsSettled (record f { db = finalize_job now f.db job_id 0 0 })
unfolding finalize_job job_incomplete
finalize-IsSettled now job_id f (_, c) s = record {
  valid = record {
    distinct = s.valid.distinct;
    linked = finalize-linked now job_id f.db f.db.shards s.valid.linked;
  };
  posted = finalize-posted now job_id f.db f.posted s.posted;
  seen = finalize-seen now job_id f.db f.seen s.seen;
  finished = finish_rows-finished now job_id f.db f.db.jobs c s.finished;
}

statement-IsSettled :
    (st : Statement) (f : Fleet)
    → IsPosted st
    → IsSettled f
    → IsSettled (record f { db = apply st f.db })
statement-IsSettled st f p s = record {
  valid = apply-IsValid st f.db s.valid;
  posted = posted_exist st f.db f.posted s.posted;
  seen = apply_complete_all st f.db f.seen s.valid p s.seen;
  finished = apply-finished st f.db s.valid p s.finished;
}

posted-IsSettled :
    (job_id : Text) (f : Fleet)
    → job_exists f.db job_id ≡ true
    → IsSettled f
    → IsSettled (record f { posted = job_id ∷ f.posted })
posted-IsSettled job_id f e s = record {
  valid = s.valid;
  posted = (e, s.posted);
  seen = s.seen;
  finished = s.finished;
}

posted_known :
    (db : TenantDb) (job_id : Text) (posted : List Text)
    → any (text_eq job_id) posted ≡ true
    → All (λ j. job_exists db j ≡ true) posted
    → job_exists db job_id ≡ true
posted_known db job_id [] a h = absurd (ground arith)
posted_known db job_id (x ∷ posted) a (h, hs) = elim (Bool-cases (text_eq job_id x)) [
  | inl e ↦ subst (λ j. job_exists db j ≡ true) (sym ((text_eq_iff job_id x).0 e)) h
  | inr e ↦ posted_known db job_id posted (ground (arith, a, e)) hs
]

post-IsSettled :
    (job_id : Text) (seed : ℕ) (w : Text) (state : ShardState) (report : Option Text)
    (duration : F64) (f : Fleet)
    → IsPosted (set job_id seed w state report duration)
    → IsSettled f
    → IsSettled (step (post job_id seed w state report duration) f)
unfolding step apply
post-IsSettled job_id seed w state report duration f p s =
    let st = set job_id seed w state report duration in
    let kept = statement-IsSettled st f p s in
    elim (Bool-cases (set_shard f.db job_id seed w state report duration).1) [
      | inr e ↦ rw e kept
      | inl e ↦
          let known = set_shard-exists job_id seed w state report duration f.db s.valid e in
          let after = exists_lem job_id f.db (apply st f.db) (apply-jobs st f.db) known in
          rw e (posted-IsSettled job_id (record f { db = apply st f.db }) after kept)
    ]

step-IsSettled : (e : Event) (f : Fleet) → AllPosted (e ∷ []) → IsSettled f → IsSettled (step e f)
unfolding step
step-IsSettled (statement st) f (p, _) s = statement-IsSettled st f p s
step-IsSettled (post job_id seed w state report duration) f (p, _) s =
    post-IsSettled job_id seed w state report duration f p s
step-IsSettled (read_open job_id) f p s = elim (Bool-cases (any (text_eq job_id) f.posted)) [
  | inr e ↦ rw e s
  | inl e ↦ elim (Bool-cases (job_incomplete f.db job_id)) [
    | inl c ↦ rw e (rw c s)
    | inr c ↦ rw e (
        rw c (record {
          valid = s.valid;
          posted = s.posted;
          seen = ((posted_known f.db job_id f.posted e s.posted, c), s.seen);
          finished = s.finished;
        }))
  ]
]
step-IsSettled (finish now job_id) f p s = elim (Bool-cases (any (text_eq job_id) f.seen)) [
  | inr e ↦ rw e s
  | inl e ↦ rw e (finalize-IsSettled now job_id f (seen_complete f.db job_id f.seen e s.seen) s)
]

-- However the statements of concurrent requests interleave with the two statements of
-- `maybe_finalize`, a run keeps that a finished job has no open shard, that keys are distinct and
-- that each shard has its job: where no worker posts `pending`.
pub run_fleet-IsSettled :
    (es : List Event) (f : Fleet) → AllPosted es → IsSettled f → IsSettled (run_fleet es f)
unfolding run_fleet
run_fleet-IsSettled [] f p s = s
run_fleet-IsSettled (statement st ∷ es) f (p, ps) s =
    run_fleet-IsSettled es (step (statement st) f) ps (step-IsSettled (statement st) f (p, tt) s)
run_fleet-IsSettled (post job_id seed w state report duration ∷ es) f (p, ps) s =
    run_fleet-IsSettled es (step (post job_id seed w state report duration) f) ps
      (step-IsSettled (post job_id seed w state report duration) f (p, tt) s)
run_fleet-IsSettled (read_open job_id ∷ es) f p s =
    run_fleet-IsSettled es (step (read_open job_id) f) p (step-IsSettled (read_open job_id) f tt s)
run_fleet-IsSettled (finish now job_id ∷ es) f p s =
    run_fleet-IsSettled es (step (finish now job_id) f) p
      (step-IsSettled (finish now job_id) f tt s)
