-- ===== src/Jobs/Hint.antt =====
-- The routing hint of one tenant: `mark_tenant_pending` and `clear_tenant_pending` of
-- src/db/control/tenant_registry.rs, with their callers `submit_job` and the sweep of src/lib.rs,
-- `run_requeue` of src/operations.rs, and `gather_candidates` of src/jobs/worker.rs. The hint is in
-- another database than the shards, so each caller runs two statements, and other requests may run
-- between them.
pub mod Tests
pub mod Marks
use reproit_cloud.Jobs.Queue.Validity.{submit, claim, touch, requeue, set, apply, Statement}
use reproit_cloud.Jobs.Queue.{
  pending_shard_count, insert_job, TenantDb, is_pending, requeue_stranded,
}
use reproit_cloud.Jobs.Spec.{JobSpec, new_job}
use reproit_cloud.Prelude.{
  ltb, ◌==◌, if◌then◌else◌, ℕ, suc, ◌-◌, ◌*◌, ◌≡◌, ◌⊎◌, Bool, true, false, not, Option, none, some,
  List, [], ◌∷◌,
}
use reproit_cloud.Text.{Text}

pub record Routing : Type 0 where
  pub db : TenantDb
  -- The tenant has a row in `tenant_pending_shards`.
  pub marked : Bool
  -- Requests that moved shards to pending and have not come to their mark.
  pub owed : ℕ
  -- Claims that counted no pending shard and have not come to their clear.
  pub emptied : ℕ

pub data RoutingEvent : Type 0 where
  worker_statement : Statement → RoutingEvent
  insert : Text → Text → JobSpec → RoutingEvent
  sweep : ℕ → RoutingEvent
  mark mark_failed count_pending clear clear_at_once : RoutingEvent

abbrev pub stale_secs : ℕ
stale_secs = 120 * 1000000

abbrev pub or_rejected : Routing → Option TenantDb → Routing
or_rejected r none = r
or_rejected r (some db) = record r { db = db; owed = suc r.owed }

-- `Ok(n) if n >= 1` owes a mark.
abbrev swept : Routing → TenantDb × ℕ → Routing
swept r (db, n) = if ltb 0 n then record r { db = db; owed = suc r.owed } else record r { db = db }

-- `submit_job`: the job is inserted, and a mark is to follow.
abbrev pub submitted : Text → Text → JobSpec → Routing → Routing
submitted uuid now spec r = or_rejected r (insert_job r.db (new_job uuid now spec))

-- The sweep: stranded shards are requeued, and a mark is to follow if there were any.
abbrev pub swept_at : ℕ → Routing → Routing
swept_at now r = swept r (requeue_stranded now r.db stale_secs)

-- The statement of `mark_tenant_pending`, by a request that owes it.
abbrev pub marked_by : Routing → Routing
marked_by r = if ltb 0 r.owed then record r { marked = true; owed = r.owed - 1 } else r

-- The statement of `clear_tenant_pending`, by a claim that counted no pending shard.
abbrev pub cleared_by : Routing → Routing
cleared_by r = if ltb 0 r.emptied then record r { marked = false; emptied = r.emptied - 1 } else r

-- `Ok(0)` of the count in a claim is to be followed by a clear.
abbrev pub counted : Routing → Routing
counted r = if pending_shard_count r.db == 0 then record r { emptied = suc r.emptied } else r

-- The count and the clear of a claim with nothing between them.
abbrev pub cleared_at_once : Routing → Routing
cleared_at_once r = if pending_shard_count r.db == 0 then record r { marked = false } else r

-- A mark that fails is only logged.
abbrev pub mark_lost : Routing → Routing
mark_lost r = record r { owed = r.owed - 1 }

unfoldable pub route : RoutingEvent → Routing → Routing
unfolding apply insert_job requeue_stranded pending_shard_count
route (worker_statement st) r = record r { db = apply st r.db }
route (insert uuid now spec) r = submitted uuid now spec r
route (sweep now) r = swept_at now r
route mark r = marked_by r
route mark_failed r = mark_lost r
route count_pending r = counted r
route clear r = cleared_by r
route clear_at_once r = cleared_at_once r

unfoldable pub route_all : List RoutingEvent → Routing → Routing
unfolding route
route_all [] r = r
route_all (e ∷ es) r = route_all es (route e r)

-- What the schema asks of the hint: a tenant with a pending shard is marked, or will be.
abbrev pub IsRouted : Routing → Type 0
IsRouted r = ltb 0 (pending_shard_count r.db) ≡ true → (r.marked ≡ true) ⊎ (ltb 0 r.owed ≡ true)

-- Workers claim, touch and post results; no mark fails, and no request comes between the count and
-- the clear of a claim.
abbrev pub IsUndisturbed : RoutingEvent → Type 0
IsUndisturbed (worker_statement (submit uuid now spec)) = ⊥
IsUndisturbed (worker_statement (claim locked now w caps pin)) = Unit {0}
IsUndisturbed (worker_statement (touch now job_id seed w)) = Unit {0}
IsUndisturbed (worker_statement (requeue now stale)) = ⊥
IsUndisturbed (worker_statement (set job_id seed w state report duration)) =
    is_pending state ≡ false
IsUndisturbed (insert uuid now spec) = Unit {0}
IsUndisturbed (sweep now) = Unit {0}
IsUndisturbed mark = Unit {0}
IsUndisturbed mark_failed = ⊥
IsUndisturbed count_pending = ⊥
IsUndisturbed clear = ⊥
IsUndisturbed clear_at_once = Unit {0}
