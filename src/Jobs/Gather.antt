-- ===== src/Jobs/Gather.antt =====
-- `gather_candidates`, `claim_first` and `claim` of src/jobs/worker.rs, with the reads of
-- src/db/tenant/jobs.rs that they rest on. The clock and the parser of a start time are arguments.
pub mod Tests
pub mod Cleared
pub mod Aligned
use reproit_cloud.Jobs.Queue.{
  ShardRow, TenantDb, JobRow, count, is_running, is_pending, pending_shard_count, claim_shard,
  ClaimedShard,
}
use reproit_cloud.Jobs.Worker.{same_org, db_of, Tenants, put_db}
use reproit_cloud.Jobs.Scheduler.{
  tier, claim_order, Class, fair_share, deadline_unix, class_for, lane_cap, Candidate,
  SchedulerConfig, Tier,
}
use reproit_cloud.Text.Signed.{print_i64}
use reproit_cloud.Prelude.{
  ◌==◌, if◌then◌else◌, take, get_elem?, any, ℕ, ◌+◌, ◌%◌, ◌^◌, Bool, true, false, not, ◌&&◌, Option,
  none, some, List, [], ◌∷◌, ◌++◌, map,
}
use reproit_cloud.Prelude.Int.{ℤ}
use reproit_cloud.Prelude.Order.{Ord, ord_pair, contains}
use reproit_cloud.Prelude.Order.SortBy.{sort_by}
use reproit_cloud.Text.{Text, lit, text_eq}
use reproit_cloud.Text.Compare.{text_ord}

pub record PendingJob : Type 0 where
  pub job_id : Text
  pub backend : Text
  pub started_at : Text
  pub seeds : ℕ

instance abbrev pub text_pair_ord : Ord (Text × Text)
text_pair_ord = ord_pair text_ord text_ord

-- `as u32`
abbrev pub u32 : ℕ → ℕ
u32 n = n % 2 ^ 32

-- `SELECT DISTINCT job_id, backend FROM shards WHERE state='pending' AND backend = ANY($1)`
unfoldable pub pending_pairs : List Text → List ShardRow → List (Text × Text)
unfolding contains
pending_pairs capabilities [] = []
pending_pairs capabilities (r ∷ rows) =
    let rest = pending_pairs capabilities rows in
    let pair : Text × Text = (r.job_id, r.backend) in
    if is_pending r.state && any (text_eq r.backend) capabilities && not (contains rest pair)
    then pair ∷ rest
    else rest

unfoldable pub join_pending : List JobRow → List ShardRow → Text × Text → List PendingJob
unfolding count
join_pending [] shards (job_id, backend) = []
join_pending (j ∷ jobs) shards (job_id, backend) =
    let rest = join_pending jobs shards (job_id, backend) in
    if text_eq j.id job_id
    then record {
      job_id = job_id;
      backend = backend;
      started_at = j.started_at;
      seeds = u32 (count (λ t. text_eq t.job_id job_id) shards);
    }
      ∷ rest
    else rest

abbrev join_all : List JobRow → List ShardRow → List (Text × Text) → List PendingJob
join_all jobs shards [] = []
join_all jobs shards (p ∷ pairs) = join_pending jobs shards p ++ join_all jobs shards pairs

abbrev start_key : PendingJob → Text × Text
start_key j = (j.started_at, j.job_id)

unfoldable pub pending_jobs : TenantDb → List Text → List PendingJob
unfolding pending_pairs join_pending
pending_jobs db capabilities =
    take 256 (sort_by start_key (join_all db.jobs db.shards (pending_pairs capabilities db.shards)))

-- `SELECT backend, COUNT(*) FROM shards WHERE state='running' GROUP BY backend`
unfoldable pub running_backends : List ShardRow → List Text
unfolding contains
running_backends [] = []
running_backends (r ∷ rows) =
    let rest = running_backends rows in
    if is_running r.state && not (contains rest r.backend) then r.backend ∷ rest else rest

unfoldable pub running_by_backend : TenantDb → List (Text × ℕ)
unfolding running_backends count
running_by_backend db =
    map
      (λ backend. (backend, count (λ r. is_running r.state && text_eq r.backend backend) db.shards))
      (running_backends db.shards)

-- One count for each tier: `[u32; 2]` at `tier_index`.
pub record PerTier : Type 0 where
  pub elastic : ℕ
  pub mac : ℕ

abbrev pub at_tier : PerTier → Tier → ℕ
at_tier counts Tier.elastic = counts.elastic
at_tier counts Tier.mac = counts.mac

abbrev add_tier : PerTier → Tier → ℕ → PerTier
add_tier counts Tier.elastic n = record counts { elastic = u32 (counts.elastic + n) }
add_tier counts Tier.mac n = record counts { mac = u32 (counts.mac + n) }

unfoldable pub tier_running : List (Text × ℕ) → PerTier → PerTier
unfolding tier
tier_running [] counts = counts
tier_running ((backend, n) ∷ rows) counts =
    tier_running rows (add_tier counts (tier backend) (u32 n))

-- Which statements fail, for which tenant.
pub record GatherFaults : Type 0 where
  pub hint_fails : Bool
  pub resolve_fails : ℤ → Bool
  pub pending_jobs_fails : ℤ → Bool
  pub count_fails : ℤ → Bool
  pub clear_fails : ℤ → Bool
  pub running_fails : ℤ → Bool

pub record ClaimTarget : Type 0 where
  pub org_id : ℤ
  pub job_id : Text

-- The variables of the loop of `gather_candidates`, and the routing hint.
pub record Gathered : Type 0 where
  pub hint : List ℤ
  pub cands : List Candidate
  pub targets : List ClaimTarget
  pub running_total : PerTier
  pub tenants_active : ℕ

-- `DELETE FROM tenant_pending_shards WHERE org_id = $1`
unfoldable pub clear_tenant_pending : ℤ → List ℤ → List ℤ
clear_tenant_pending org_id [] = []
clear_tenant_pending org_id (o ∷ hint) =
    let rest = clear_tenant_pending org_id hint in if same_org o org_id then rest else o ∷ rest

abbrev class_of : PendingJob → Class
class_of job = class_for (lit "fuzz") job.seeds

abbrev or_now : ℤ → Option ℤ → ℤ
or_now now none = now
or_now now (some t) = t

-- The candidate of a job, with its fair share not yet filled.
unfoldable pub candidate :
    (Text → Option ℤ) → ℤ → SchedulerConfig → ℤ → PerTier → PendingJob → Candidate
unfolding deadline_unix class_for tier lane_cap print_i64
candidate parse_time now cfg org_id counts job = record {
  tenant = print_i64 org_id;
  tier = tier job.backend;
  class = class_of job;
  deadline_unix = deadline_unix (or_now now (parse_time job.started_at)) (class_of job);
  tenant_running = at_tier counts (tier job.backend);
  tenant_fair_share = 0;
  tenant_lane_cap = lane_cap cfg;
}

abbrev pub idle : PerTier
idle = record { elastic = 0; mac = 0 }

-- A tenant with jobs for the worker: they join the candidates.
unfoldable pub gather_jobs :
    (Text → Option ℤ)
    → ℤ
    → SchedulerConfig
    → GatherFaults
    → ℤ
    → TenantDb
    → List PendingJob
    → Gathered
    → Gathered
unfolding candidate running_by_backend tier_running
gather_jobs parse_time now cfg faults org_id db jobs g =
    let counts =
      if faults.running_fails org_id then idle else tier_running (running_by_backend db) idle in
    record g {
      cands = g.cands ++ map (candidate parse_time now cfg org_id counts) jobs;
      targets = g.targets ++ map (λ job. record { org_id = org_id; job_id = job.job_id }) jobs;
      running_total = record {
        elastic = u32 (g.running_total.elastic + counts.elastic);
        mac = u32 (g.running_total.mac + counts.mac);
      };
      tenants_active = u32 (g.tenants_active + 1);
    }

-- A tenant without: it leaves the hint when it has no pending shard at all.
unfoldable pub gather_none : GatherFaults → ℤ → TenantDb → Gathered → Gathered
unfolding pending_shard_count clear_tenant_pending
gather_none faults org_id db g =
    if not (faults.count_fails org_id)
      && pending_shard_count db == 0
      && not (faults.clear_fails org_id)
    then record g { hint = clear_tenant_pending org_id g.hint }
    else g

abbrev pub gather_found :
    (Text → Option ℤ)
    → ℤ
    → SchedulerConfig
    → GatherFaults
    → ℤ
    → TenantDb
    → List PendingJob
    → Gathered
    → Gathered
gather_found parse_time now cfg faults org_id db [] g = gather_none faults org_id db g
gather_found parse_time now cfg faults org_id db (job ∷ jobs) g =
    gather_jobs parse_time now cfg faults org_id db (job ∷ jobs) g

-- `let Some(store) = tenant_store(app, org_id).await else { continue; }`
abbrev pub gather_store :
    (Text → Option ℤ)
    → ℤ
    → SchedulerConfig
    → GatherFaults
    → List Text
    → ℤ
    → Option TenantDb
    → Gathered
    → Gathered
gather_store parse_time now cfg faults caps org_id none g = g
gather_store parse_time now cfg faults caps org_id (some db) g =
    if faults.pending_jobs_fails org_id
    then g
    else gather_found parse_time now cfg faults org_id db (pending_jobs db caps) g

unfoldable pub store_of : GatherFaults → Tenants → ℤ → Option TenantDb
unfolding db_of
store_of faults tenants org_id = if faults.resolve_fails org_id then none else db_of tenants org_id

unfoldable pub gather_loop :
    (Text → Option ℤ)
    → ℤ
    → SchedulerConfig
    → GatherFaults
    → List Text
    → Tenants
    → List ℤ
    → Gathered
    → Gathered
unfolding gather_none gather_jobs pending_jobs store_of
gather_loop parse_time now cfg faults caps tenants [] g = g
gather_loop parse_time now cfg faults caps tenants (org_id ∷ org_ids) g =
    gather_loop parse_time now cfg faults caps tenants org_ids
      (gather_store parse_time now cfg faults caps org_id (store_of faults tenants org_id) g)

abbrev pub fill_share : PerTier → ℕ → Candidate → Candidate
fill_share running_total tenants_active c = record c {
  tenant_fair_share = fair_share (at_tier running_total c.tier) tenants_active;
}

abbrev pub gathered_from : List ℤ → Gathered
gathered_from hint = record {
  hint = hint;
  cands = [];
  targets = [];
  running_total = idle;
  tenants_active = 0;
}

abbrev pub gather_result :
    Bool → List ℤ → Gathered → Option (List Candidate × List ClaimTarget) × List ℤ
gather_result true hint g = (none, hint)
gather_result false hint g =
    (some (map (fill_share g.running_total g.tenants_active) g.cands, g.targets), g.hint)

-- The candidates with their targets, and the hint that is left.
unfoldable pub gather_candidates :
    (Text → Option ℤ)
    → ℤ
    → SchedulerConfig
    → GatherFaults
    → List Text
    → Tenants
    → List ℤ
    → Option (List Candidate × List ClaimTarget) × List ℤ
unfolding gather_loop fair_share
gather_candidates parse_time now cfg faults caps tenants hint =
    gather_result faults.hint_fails hint
      (gather_loop parse_time now cfg faults caps tenants hint (gathered_from hint))

abbrev landed : {S T : Type 0} → Option T → S → S × Option T → S × Option T
landed none s rest = rest
landed (some t) s rest = (s, some t)

-- `claim_first`: the attempts in the policy's order, until one lands; each sees the tables that those
-- before it left.
unfoldable pub claim_first : {S T : Type 0} → List ℕ → (ℕ → S → S × Option T) → S → S × Option T
claim_first [] try_claim s = (s, none)
claim_first (i ∷ order) try_claim s =
    let tried = try_claim i s in landed tried.1 tried.0 (claim_first order try_claim tried.0)

abbrev put_claim :
    ℤ → Tenants → TenantDb × Option ClaimedShard → Tenants × Option (ℤ × ClaimedShard)
put_claim org_id tenants (db, none) = (put_db tenants org_id db, none)
put_claim org_id tenants (db, some shard) = (put_db tenants org_id db, some (org_id, shard))

abbrev attempt_db :
    (ShardRow → Bool)
    → ℕ
    → Bool
    → Text
    → List Text
    → ClaimTarget
    → Option TenantDb
    → Tenants
    → Tenants × Option (ℤ × ClaimedShard)
attempt_db locked now fails worker_id caps target none tenants = (tenants, none)
attempt_db locked now true worker_id caps target (some db) tenants = (tenants, none)
attempt_db locked now false worker_id caps target (some db) tenants =
    put_claim target.org_id tenants (claim_shard locked now db worker_id caps (some target.job_id))

-- One attempt: the claim of a shard of the target's job. A statement that fails is no claim.
abbrev attempt_at :
    (ShardRow → Bool)
    → ℕ
    → (ℤ → Bool)
    → Text
    → List Text
    → Option ClaimTarget
    → Tenants
    → Tenants × Option (ℤ × ClaimedShard)
attempt_at locked now fails worker_id caps none tenants = (tenants, none)
attempt_at locked now fails worker_id caps (some target) tenants =
    attempt_db locked now (fails target.org_id) worker_id caps target (db_of tenants target.org_id)
      tenants

abbrev across :
    (ℤ → ℤ)
    → (ShardRow → Bool)
    → ℕ
    → ℤ
    → (ℤ → Bool)
    → Text
    → List Text
    → Tenants
    → Option (List Candidate × List ClaimTarget) × List ℤ
    → (Tenants × List ℤ) × Option (ℤ × ClaimedShard)
across round locked now unix fails worker_id caps tenants (none, hint) = ((tenants, hint), none)
across round locked now unix fails worker_id caps tenants (some (cands, targets), hint) =
    let claimed =
      claim_first (claim_order round cands unix)
        (λ i ts. attempt_at locked now fails worker_id caps (get_elem? targets i) ts) tenants in
    ((claimed.0, hint), claimed.1)

-- The clock is read for the candidates, and again for their order.
unfoldable pub claim_across_tenants :
    (ℤ → ℤ)
    → (Text → Option ℤ)
    → ℤ
    → ℤ
    → (ShardRow → Bool)
    → ℕ
    → SchedulerConfig
    → GatherFaults
    → (ℤ → Bool)
    → Text
    → List Text
    → Tenants
    → List ℤ
    → (Tenants × List ℤ) × Option (ℤ × ClaimedShard)
unfolding gather_candidates claim_order claim_first claim_shard put_db
claim_across_tenants round parse_time unix later locked now cfg faults fails worker_id caps tenants
      hint =
    across round locked now later fails worker_id caps tenants
      (gather_candidates parse_time unix cfg faults caps tenants hint)
