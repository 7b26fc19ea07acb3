-- ===== src/Jobs/Worker.antt =====
-- src/jobs/worker.rs: the worker's protocol on the queues of the tenants. The database of a tenant
-- and its resolution may fail at any statement: `Faults` says which fail in a run of a handler. A
-- statement that fails changes nothing.
pub mod Tests
pub mod ShardId
pub mod Reply
use reproit_cloud.Jobs.Queue.{job_incomplete, set_shard, touch_shard, TenantDb, finalize_job}
use reproit_cloud.Prelude.Int.{le_int, ℤ}
use reproit_cloud.Text.Signed.{print_i64, parse_i64}
use reproit_cloud.Text.{is_ascii_alphanumeric, Text, lit, text_eq}
use reproit_cloud.Text.Decimal.{parse_u64, print_u64}
use reproit_cloud.Text.Once.{split_once, rsplit_once}
use reproit_cloud.Prelude.{
  ltb, leb, ◌==◌, if◌then◌else◌, Result, ok, err, ◌>>=◌, ok_or, is_empty, take, ℕ, ◌^◌, Bool, true,
  false, not, ◌&&◌, ◌||◌, Option, none, some, List, [], ◌∷◌, ◌++◌,
}
use reproit_cloud.Jobs.Spec.{F64, ShardState, clean, finding, error}

abbrev pub max_worker_id : ℕ
max_worker_id = 96

-- `matches!(c, '-' | '_' | '.')` or alphanumeric
unfoldable pub is_worker_char : ℕ → Bool
is_worker_char b = is_ascii_alphanumeric b || b == b'-' || b == b'_' || b == b'.'

-- One character for each of the text: `_` for one that is not allowed. A continuation byte of UTF-8
-- belongs to the character before it.
unfoldable pub clean_chars : Text → Text
unfolding is_worker_char
clean_chars [] = []
clean_chars (b ∷ bs) =
    let rest = clean_chars bs in
    if is_worker_char b then b ∷ rest else if leb 128 b && ltb b 192 then rest else b'_' ∷ rest

unfoldable pub sanitize_worker_id : Text → Text → Text
unfolding clean_chars
sanitize_worker_id minted id =
    let clean = take max_worker_id (clean_chars id) in if is_empty clean then minted else clean

-- The id of a claimed shard: `format!("{}:{}:{}:{}", org_id, job_id, seed, claimed_by)`.
unfoldable pub shard_id : ℤ → Text → ℕ → Text → Text
shard_id org_id job_id seed worker_id =
    print_i64 org_id ++ b':' ∷ ((job_id ++ b':' ∷ print_u64 seed) ++ b':' ∷ worker_id)

abbrev in_u32 : Option ℕ → Option ℕ
in_u32 none = none
in_u32 (some n) = if ltb n (2 ^ 32) then some n else none

-- `value.parse::<u32>()`
abbrev parse_u32 : Text → Option ℕ
parse_u32 s = in_u32 (parse_u64 s)

infixl 5 ◌>>=?◌
abbrev pub ◌>>=?◌ : {A B : Type 0} → Option A → (A → Option B) → Option B
none >>=? f = none
some a >>=? f = f a

abbrev pub guard : Bool → Option (Unit {0})
guard true = some tt
guard false = none

-- The address that a shard id carries.
pub record ShardAddress : Type 0 where
  pub org_id : ℤ
  pub job_id : Text
  pub seed : ℕ
  pub worker_id : Text

unfoldable pub parse_shard_id : Text → Option ShardAddress
unfolding split_once rsplit_once parse_i64 parse_u64
parse_shard_id id = split_once b':' id >>=? λ (org, rest). parse_i64 org >>=? λ org_id.
    rsplit_once b':' rest >>=? λ (rest, worker_id). guard (not (is_empty worker_id)) >>=? λ _.
    rsplit_once b':' rest >>=? λ (job, seed). guard (not (is_empty job)) >>=? λ _.
    parse_u32 seed >>=? λ seed.
    some (record { org_id = org_id; job_id = job; seed = seed; worker_id = worker_id })

unfoldable pub map_status : Text → Option ShardState
map_status status =
    if text_eq status (lit "clean")
    then some clean
    else if text_eq status (lit "finding")
    then some finding
    else if text_eq status (lit "timeout")
    then some error
    else if text_eq status (lit "error")
    then some error
    else none

pub record ResultReq : Type 0 where
  pub status : Text
  pub report : Option Text
  pub duration_s : Option F64

pub data Refusal : Type 0 where
  bad_request gone internal_server_error : Refusal

pub data StatusCode : Type 0 where
  ok_200 : StatusCode
  refused : Refusal → StatusCode

-- Which statements fail in a run of a handler.
pub record Faults : Type 0 where
  pub resolve_fails : Bool
  pub update_fails : Bool
  pub incomplete_fails : Bool
  pub finalize_fails : Bool

-- The databases of the tenants.
abbrev pub Tenants : Type 0
Tenants = List (ℤ × TenantDb)

abbrev pub same_org : ℤ → ℤ → Bool
same_org a b = le_int a b && le_int b a

unfoldable pub db_of : Tenants → ℤ → Option TenantDb
db_of [] org_id = none
db_of ((o, db) ∷ tenants) org_id =
    let rest = db_of tenants org_id in if same_org o org_id then some db else rest

unfoldable pub put_db : Tenants → ℤ → TenantDb → Tenants
put_db [] org_id changed = []
put_db ((o, db) ∷ tenants) org_id changed =
    let rest = put_db tenants org_id changed in
    if same_org o org_id then (o, changed) ∷ tenants else (o, db) ∷ rest

abbrev pub tenant_store : Faults → Tenants → ℤ → Option TenantDb
tenant_store faults tenants org_id = if faults.resolve_fails then none else db_of tenants org_id

-- What a handler replies, and the tables after it: an error leaves them as they were.
abbrev pub reply : Tenants → Result Refusal Tenants → StatusCode × Tenants
reply tenants (ok changed) = (ok_200, changed)
reply tenants (err code) = (refused code, tenants)

-- `Ok(true)`, `Ok(false)` and `Err(e)` of an UPDATE of one held shard.
unfoldable pub updated : Bool → TenantDb × Bool → Result Refusal TenantDb
updated true (db, hit) = err internal_server_error
updated false (db, true) = ok db
updated false (db, false) = err gone

unfoldable pub heartbeat : Faults → ℕ → Tenants → Text → StatusCode × Tenants
unfolding parse_shard_id touch_shard updated put_db
heartbeat faults now tenants id = reply tenants (
    ok_or (parse_shard_id id) bad_request >>= λ at.
    ok_or (tenant_store faults tenants at.org_id) gone >>= λ db.
    updated faults.update_fails (touch_shard now db at.job_id at.seed at.worker_id) >>= λ db.
    ok (put_db tenants at.org_id db))

unfoldable pub maybe_finalize : Faults → Text → TenantDb → Text → TenantDb
unfolding job_incomplete finalize_job
maybe_finalize faults now db job_id =
    if faults.incomplete_fails || job_incomplete db job_id || faults.finalize_fails
    then db
    else finalize_job now db job_id 0 0

abbrev duration_of : Option F64 → F64
duration_of none = 0
duration_of (some d) = d

-- The body of `result`, up to its replies.
unfoldable pub post_result : Faults → Text → Tenants → Text → ResultReq → Result Refusal Tenants
unfolding parse_shard_id map_status set_shard updated maybe_finalize put_db
post_result faults now tenants id res = ok_or (parse_shard_id id) bad_request >>= λ at.
    ok_or (map_status res.status) bad_request >>= λ state.
    ok_or (tenant_store faults tenants at.org_id) gone >>= λ db.
    updated faults.update_fails
      (set_shard db at.job_id at.seed at.worker_id state res.report (duration_of res.duration_s))
    >>= λ db. ok (put_db tenants at.org_id (maybe_finalize faults now db at.job_id))

unfoldable pub result : Faults → Text → Tenants → Text → ResultReq → StatusCode × Tenants
unfolding post_result
result faults now tenants id res = reply tenants (post_result faults now tenants id res)
