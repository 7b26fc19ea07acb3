-- ===== src/Jobs/Queue.antt =====
-- src/db/tenant/jobs.rs: the queue of a tenant. Each statement of SQL is one function on the two
-- tables (src/db/schema.rs); PostgreSQL runs it atomically. A time stands as a number of
-- microseconds, a seed as the 32 bits of its column, and NULL as `none`.
pub mod Tests
pub mod Keys
pub mod Validity
pub mod Lifecycle
pub mod Completion
pub mod Finishing
pub mod Free
pub mod Kept
pub mod Claim
pub mod Snapshot
use reproit_cloud.Jobs.Spec.{pending, Job, ShardState, running, Shard, F64, clean, finding, error}
use reproit_cloud.Prelude.{
  ltb, ◌==◌, if◌then◌else◌, any, ℕ, suc, ◌+◌, Bool, true, false, not, ◌&&◌, ◌||◌, Option, none,
  some, List, [], ◌∷◌, ◌++◌, map,
}
use reproit_cloud.Text.{Text, text_eq}
use reproit_cloud.Text.Compare.{text_ord}
use reproit_cloud.Prelude.Order.{Ord, ord_pair, ord_of_rank}
use reproit_cloud.Prelude.Order.SortBy.{sort_by}

pub record JobRow : Type 0 where
  pub id : Text
  pub app_dir : Text
  pub budget : ℕ
  pub started_at : Text
  pub finished_at : Option Text
  pub map_states : ℕ
  pub map_transitions : ℕ

pub record ShardRow : Type 0 where
  pub job_id : Text
  pub seed : ℕ
  pub state : ShardState
  pub report : Option Text
  pub duration_s : F64
  pub backend : Text
  pub claimed_by : Option Text
  pub claimed_at : Option ℕ
  pub heartbeat_at : Option ℕ
  pub attempts : ℕ

pub record TenantDb : Type 0 where
  pub jobs : List JobRow
  pub shards : List ShardRow

abbrev pub empty_db : TenantDb
empty_db = record { jobs = []; shards = [] }

abbrev pub is_pending : ShardState → Bool
is_pending pending = true
is_pending running = false
is_pending clean = false
is_pending finding = false
is_pending error = false

abbrev pub is_running : ShardState → Bool
is_running pending = false
is_running running = true
is_running clean = false
is_running finding = false
is_running error = false

abbrev pub is_finding : ShardState → Bool
is_finding pending = false
is_finding running = false
is_finding clean = false
is_finding finding = true
is_finding error = false

-- `state IN ('pending','running')`
abbrev pub is_open : ShardState → Bool
is_open s = is_pending s || is_running s

abbrev pub has_key : Text → ℕ → ShardRow → Bool
has_key job_id seed r = text_eq r.job_id job_id && r.seed == seed

-- `SELECT COUNT(*) FROM shards WHERE …`
unfoldable pub count : (ShardRow → Bool) → List ShardRow → ℕ
count test [] = 0
count test (r ∷ rows) = let n = count test rows in if test r then suc n else n

-- `UPDATE shards SET … WHERE …`
unfoldable pub update : (ShardRow → Bool) → (ShardRow → ShardRow) → List ShardRow → List ShardRow
update test change [] = []
update test change (r ∷ rows) =
    let rest = update test change rows in if test r then change r ∷ rest else r ∷ rest

-- `SELECT … FROM shards WHERE …`
unfoldable pub where_rows : (ShardRow → Bool) → List ShardRow → List ShardRow
where_rows test [] = []
where_rows test (r ∷ rows) = let rest = where_rows test rows in if test r then r ∷ rest else rest

abbrev pub on_shards : TenantDb → List ShardRow → TenantDb
on_shards db rows = record db { shards = rows }

abbrev pub job_row : Job → JobRow
job_row job = record {
  id = job.id;
  app_dir = job.spec_app_dir;
  budget = job.budget;
  started_at = job.started_at;
  finished_at = none;
  map_states = 0;
  map_transitions = 0;
}

abbrev pub shard_row : Job → Shard → ShardRow
shard_row job shard = record {
  job_id = job.id;
  seed = shard.seed;
  state = pending;
  report = none;
  duration_s = 0;
  backend = job.backend;
  claimed_by = none;
  claimed_at = none;
  heartbeat_at = none;
  attempts = 0;
}

unfoldable pub job_exists : TenantDb → Text → Bool
job_exists db job_id = any (λ j. text_eq j.id job_id) db.jobs

abbrev pub with_job : TenantDb → Job → TenantDb
with_job db job = record {
  jobs = job_row job ∷ db.jobs;
  shards = map (shard_row job) job.shards ++ db.shards;
}

-- The key of the jobs table refuses a second row for an id, and the transaction is rolled back.
unfoldable pub insert_job : TenantDb → Job → Option TenantDb
unfolding job_exists
insert_job db job = if job_exists db job.id then none else some (with_job db job)

pub record ClaimedShard : Type 0 where
  pub job_id : Text
  pub seed : ℕ
  pub claimed_by : Text
  pub backend : Text
  pub app_dir : Text
  pub budget : ℕ

-- `$3::TEXT IS NULL OR s.job_id = $3`
abbrev pub matches_pin : Option Text → ShardRow → Bool
matches_pin none r = true
matches_pin (some job_id) r = text_eq r.job_id job_id

unfoldable pub is_claimable : List Text → Option Text → ShardRow → Bool
is_claimable capabilities pin r =
    is_pending r.state && any (text_eq r.backend) capabilities && matches_pin pin r

abbrev pub row_key : ShardRow → Text × ℕ
row_key r = (r.job_id, r.seed)

instance abbrev pub row_key_ord : Ord (Text × ℕ)
row_key_ord = ord_pair text_ord (ord_of_rank (λ seed. seed) (λ a b h. h))

abbrev pub first_row : List ShardRow → Option ShardRow
first_row [] = none
first_row (r ∷ _) = some r

-- The inner SELECT: the first claimable row in the order of the keys that no other transaction
-- holds (`FOR UPDATE SKIP LOCKED LIMIT 1`).
unfoldable pub next_row :
    (ShardRow → Bool) → List Text → Option Text → List ShardRow → Option ShardRow
unfolding where_rows is_claimable
next_row locked capabilities pin rows =
    first_row
      (sort_by row_key (where_rows (λ r. is_claimable capabilities pin r && not (locked r)) rows))

abbrev pub claim_row : Text → ℕ → ShardRow → ShardRow
claim_row worker_id now r = record r {
  state = running;
  claimed_by = some worker_id;
  claimed_at = some now;
  heartbeat_at = some now;
  attempts = r.attempts + 1;
}

-- The outer SELECT: the claimed row joined with its job.
abbrev pub join_job : Text → ShardRow → List JobRow → Option ClaimedShard
join_job worker_id r [] = none
join_job worker_id r (j ∷ jobs) =
    let rest = join_job worker_id r jobs in
    if text_eq j.id r.job_id
    then some (record {
      job_id = r.job_id;
      seed = r.seed;
      claimed_by = worker_id;
      backend = r.backend;
      app_dir = j.app_dir;
      budget = j.budget;
    })
    else rest

-- The UPDATE of the row that the inner SELECT found, if it found one.
abbrev pub claim_found : ℕ → TenantDb → Text → Option ShardRow → TenantDb × Option ClaimedShard
claim_found now db worker_id none = (db, none)
claim_found now db worker_id (some r) = (
  on_shards db (update (has_key r.job_id r.seed) (claim_row worker_id now) db.shards),
  join_job worker_id r db.jobs,
)

unfoldable pub claim_shard :
    (ShardRow → Bool)
    → ℕ
    → TenantDb
    → Text
    → List Text
    → Option Text
    → TenantDb × Option ClaimedShard
unfolding next_row update
claim_shard locked now db worker_id capabilities pin =
    claim_found now db worker_id (next_row locked capabilities pin db.shards)

-- `claimed_by=$3`, which is not true of NULL.
abbrev pub is_text : Text → Option Text → Bool
is_text worker_id none = false
is_text worker_id (some w) = text_eq w worker_id

abbrev pub is_claimed_by : Text → ShardRow → Bool
is_claimed_by worker_id r = is_text worker_id r.claimed_by

-- `job_id=$1 AND seed=$2 AND claimed_by=$3 AND state='running'`
unfoldable pub holds : Text → ℕ → Text → ShardRow → Bool
holds job_id seed worker_id r =
    has_key job_id seed r && is_claimed_by worker_id r && is_running r.state

unfoldable pub touch_shard : ℕ → TenantDb → Text → ℕ → Text → TenantDb × Bool
unfolding update holds count
touch_shard now db job_id seed worker_id = (
  on_shards db
      (update (holds job_id seed worker_id) (λ r. record r { heartbeat_at = some now }) db.shards),
  count (holds job_id seed worker_id) db.shards == 1,
)

unfoldable pub pending_shard_count : TenantDb → ℕ
unfolding count
pending_shard_count db = count (λ r. is_pending r.state) db.shards

-- `heartbeat_at IS NULL OR heartbeat_at < now() - make_interval(secs => $1)`
abbrev pub is_late : ℕ → ℕ → ShardRow → Bool
is_late now stale r = elim r.heartbeat_at [ none ↦ true | some at ↦ ltb (at + stale) now ]

unfoldable pub is_stranded : ℕ → ℕ → ShardRow → Bool
is_stranded now stale r = is_running r.state && is_late now stale r

abbrev pub requeue_row : ShardRow → ShardRow
requeue_row r = record r {
  state = pending;
  claimed_by = none;
  claimed_at = none;
  heartbeat_at = none;
}

unfoldable pub requeue_stranded : ℕ → TenantDb → ℕ → TenantDb × ℕ
unfolding update count is_stranded
requeue_stranded now db stale = (
  on_shards db (update (is_stranded now stale) requeue_row db.shards),
  count (is_stranded now stale) db.shards,
)

unfoldable pub job_incomplete : TenantDb → Text → Bool
unfolding count
job_incomplete db job_id = ltb 0 (count (λ r. text_eq r.job_id job_id && is_open r.state) db.shards)

abbrev pub set_row : ShardState → Option Text → F64 → ShardRow → ShardRow
set_row state report duration_s r = record r {
  state = state;
  report = report;
  duration_s = duration_s;
}

unfoldable pub set_shard :
    TenantDb → Text → ℕ → Text → ShardState → Option Text → F64 → TenantDb × Bool
unfolding update holds count
set_shard db job_id seed worker_id state report duration_s = (
  on_shards db (update (holds job_id seed worker_id) (set_row state report duration_s) db.shards),
  count (holds job_id seed worker_id) db.shards == 1,
)

abbrev pub finish_rows : Text → Text → ℕ → ℕ → List JobRow → List JobRow
finish_rows now job_id states transitions [] = []
finish_rows now job_id states transitions (j ∷ jobs) =
    let rest = finish_rows now job_id states transitions jobs in
    if text_eq j.id job_id
    then record j { finished_at = some now; map_states = states; map_transitions = transitions }
      ∷ rest
    else j ∷ rest

unfoldable pub finalize_job : Text → TenantDb → Text → ℕ → ℕ → TenantDb
finalize_job now db job_id states transitions = record db {
  jobs = finish_rows now job_id states transitions db.jobs;
}

unfoldable pub findings_count : TenantDb → Text → ℕ
unfolding count
findings_count db job_id = count (λ r. text_eq r.job_id job_id && is_finding r.state) db.shards
