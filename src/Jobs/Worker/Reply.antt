-- ===== src/Jobs/Worker/Reply.antt =====
-- What the handlers of src/jobs/worker.rs reply, and what they leave alone.
use reproit_cloud.Jobs.Worker.{
  Tenants, result, Faults, reply, ResultReq, ok_200, updated, post_result, tenant_store,
  ShardAddress, Refusal, db_of, parse_shard_id, same_org, bad_request, map_status, gone,
}
use reproit_cloud.Jobs.Queue.{
  TenantDb, set_shard, ShardRow, holds, job_incomplete, has_key, is_claimed_by, is_running,
}
use reproit_cloud.Jobs.Queue.Validity.{IsValid}
use reproit_cloud.Jobs.Spec.{ShardState}
use reproit_cloud.Jobs.Queue.Keys.{holds-count, Has, All-Has}
use reproit_cloud.Text.{text_eq, Text}
use reproit_cloud.Jobs.Queue.Completion.{is_open_of, count-zero}
use reproit_cloud.Prelude.{
  ◌==◌, if◌then◌else◌, Bool-cases, &&-true, Result, ok, err, ◌>>=◌, ok_or, All, ◌≡◌, refl, sym, ap,
  ap₂, subst, ◌∙◌, ◌≢◌, ◌↔◌, ◌⊎◌, inl, inr, Bool, true, false, ◌&&◌, Option, none, some, [], ◌∷◌,
  arith, some_eq,
}
use reproit_cloud.Prelude.Int.{ℤ}

reply_unchanged :
    (tenants : Tenants) (r : Result Refusal Tenants)
    → (reply tenants r).0 ≢ ok_200
    → (reply tenants r).1 ≡ tenants
reply_unchanged tenants (ok changed) h = absurd (h refl)
reply_unchanged tenants (err code) h = refl

ok_or-bind :
    {E A B : Type 0} (o : Option A) (e : E) (f : A → Result E B) (b : B)
    → (ok_or o e >>= f) ≡ ok b
    → (a : A) × ((o ≡ some a) × (f a ≡ ok b))
ok_or-bind none e f b h = absurd (ground arith)
ok_or-bind (some a) e f b h = (a, (refl, h))

updated-bind :
    {B : Type 0} (fails : Bool) (o : TenantDb × Bool) (f : TenantDb → Result Refusal B) (b : B)
    → (updated fails o >>= f) ≡ ok b
    → (fails ≡ false) × ((o.1 ≡ true) × (f o.0 ≡ ok b))
unfolding updated
updated-bind true (db, hit) f b h = absurd (ground arith)
updated-bind false (db, true) f b h = (refl, (refl, h))
updated-bind false (db, false) f b h = absurd (ground arith)

reply_200 :
    (tenants : Tenants) (r : Result Refusal Tenants)
    → (reply tenants r).0 ≡ ok_200
    → r ≡ ok (reply tenants r).1
reply_200 tenants (ok changed) h = refl
reply_200 tenants (err code) h = absurd (ground arith)

ok-reply :
    (tenants changed : Tenants) (r : Result Refusal Tenants)
    → r ≡ ok changed
    → (reply tenants r).0 ≡ ok_200
ok-reply tenants changed r h = rw h refl

-- A reply other than 200 to a posted result leaves the tables of every tenant as they were.
pub result-unchanged :
    (faults : Faults) (now : Text) (tenants : Tenants) (id : Text) (res : ResultReq)
    → (result faults now tenants id res).0 ≢ ok_200
    → (result faults now tenants id res).1 ≡ tenants
unfolding result
result-unchanged faults now tenants id res h =
    reply_unchanged tenants (post_result faults now tenants id res) h

-- The id is that of a shard which the worker of the id holds in the table of the tenant, the status
-- is known, and the statement does not fail.
pub record IsAccepted (faults : Faults) (tenants : Tenants) (id : Text) (res : ResultReq)
    : Type 0 where
  pub at : ShardAddress
  pub state : ShardState
  pub db : TenantDb
  pub row : ShardRow
  pub parsed : parse_shard_id id ≡ some at
  pub known : map_status res.status ≡ some state
  pub stored : tenant_store faults tenants at.org_id ≡ some db
  pub works : faults.update_fails ≡ false
  pub held : Has row db.shards × (holds at.job_id at.seed at.worker_id row ≡ true)

abbrev pub AllValid : Tenants → Type 0
AllValid = All (λ t. IsValid t.1)

db_of-IsValid :
    (tenants : Tenants) (org_id : ℤ) (db : TenantDb)
    → AllValid tenants
    → db_of tenants org_id ≡ some db
    → IsValid db
unfolding db_of
db_of-IsValid [] org_id db v h = absurd (ground arith)
db_of-IsValid ((o, first) ∷ tenants) org_id db (v, vs) h = elim (Bool-cases (same_org o org_id)) [
  | inl e ↦
      subst IsValid
        (some_eq (subst (λ t. (if t then some first else db_of tenants org_id) ≡ some db) e h)) v
  | inr e ↦
      db_of-IsValid tenants org_id db vs
        (subst (λ t. (if t then some first else db_of tenants org_id) ≡ some db) e h)
]

tenant_store-IsValid :
    (faults : Faults) (tenants : Tenants) (org_id : ℤ) (db : TenantDb)
    → AllValid tenants
    → tenant_store faults tenants org_id ≡ some db
    → IsValid db
tenant_store-IsValid faults tenants org_id db v h = elim (Bool-cases faults.resolve_fails) [
  | inl e ↦
      let clash = subst (λ t. (if t then none else db_of tenants org_id) ≡ some db) e h in
      absurd (ground arith)
  | inr e ↦
      db_of-IsValid tenants org_id db v
        (subst (λ t. (if t then none else db_of tenants org_id) ≡ some db) e h)
]

result_sound :
    (faults : Faults) (now : Text) (tenants : Tenants) (id : Text) (res : ResultReq)
    (changed : Tenants)
    → AllValid tenants
    → post_result faults now tenants id res ≡ ok changed
    → IsAccepted faults tenants id res
unfolding post_result set_shard
result_sound faults now tenants id res changed v h =
    let (at, (parsed, h1)) = ok_or-bind (parse_shard_id id) bad_request _ changed h in
    let (state, (known, h2)) = ok_or-bind (map_status res.status) bad_request _ changed h1 in
    let (db, (stored, h3)) = ok_or-bind (tenant_store faults tenants at.org_id) gone _ changed h2 in
    let (works, (hit, _)) = updated-bind faults.update_fails _ _ changed h3 in
    let (row, held) =
      (holds-count at.job_id at.seed at.worker_id db.shards
          (tenant_store-IsValid faults tenants at.org_id db v stored).distinct).0
        hit in
    record {
      at = at;
      state = state;
      db = db;
      row = row;
      parsed = parsed;
      known = known;
      stored = stored;
      works = works;
      held = held;
    }

result_complete :
    (faults : Faults) (now : Text) (tenants : Tenants) (id : Text) (res : ResultReq)
    → AllValid tenants
    → IsAccepted faults tenants id res
    → (result faults now tenants id res).0 ≡ ok_200
unfolding result post_result set_shard updated
result_complete faults now tenants id res v a =
    let hit =
      (holds-count a.at.job_id a.at.seed a.at.worker_id a.db.shards
          (tenant_store-IsValid faults tenants a.at.org_id a.db v a.stored).distinct).1
        (a.row, a.held) in
    rw a.parsed (rw a.known (rw a.stored (rw a.works (rw hit refl))))

-- A posted result is answered 200 exactly when its id parses, its status is known, its tenant
-- resolves, the statement does not fail, and the worker of the id holds the shard: in tables with
-- distinct keys.
pub result_iff :
    (faults : Faults) (now : Text) (tenants : Tenants) (id : Text) (res : ResultReq)
    → AllValid tenants
    → ((result faults now tenants id res).0 ≡ ok_200) ↔ IsAccepted faults tenants id res
unfolding result
result_iff faults now tenants id res v = (
  (λ h.
      result_sound faults now tenants id res (result faults now tenants id res).1 v
        (reply_200 tenants (post_result faults now tenants id res) h)),
  result_complete faults now tenants id res v,
)

reply-cases :
    (tenants : Tenants) (r : Result Refusal Tenants)
    → ((changed : Tenants) × (r ≡ ok changed)) ⊎ ((reply tenants r).1 ≡ tenants)
reply-cases tenants (ok changed) = inl (changed, refl)
reply-cases tenants (err code) = inr refl

tenant_store-db_of :
    (faults : Faults) (tenants : Tenants) (org_id : ℤ) (db : TenantDb)
    → tenant_store faults tenants org_id ≡ some db
    → db_of tenants org_id ≡ some db
tenant_store-db_of faults tenants org_id db h = elim (Bool-cases faults.resolve_fails) [
  | inl e ↦
      let clash = subst (λ t. (if t then none else db_of tenants org_id) ≡ some db) e h in
      absurd (ground arith)
  | inr e ↦ subst (λ t. (if t then none else db_of tenants org_id) ≡ some db) e h
]

held-incomplete :
    (at : ShardAddress) (db : TenantDb) (row : ShardRow)
    → Has row db.shards
    → holds at.job_id at.seed at.worker_id row ≡ true
    → job_incomplete db at.job_id ≢ false
unfolding job_incomplete holds
held-incomplete at db row m h c =
    let (a, b) =
      &&-true (has_key at.job_id at.seed row && is_claimed_by at.worker_id row)
        (is_running row.state) h in
    let k =
      (&&-true (text_eq row.job_id at.job_id) (row.seed == at.seed)
        (&&-true (has_key at.job_id at.seed row) (is_claimed_by at.worker_id row) a).0).0 in
    let closed =
      All-Has (λ r. is_open_of at.job_id r ≡ false) row db.shards m
        ((count-zero (is_open_of at.job_id) db.shards).0 c) in
    ground (arith, k, b, closed)

-- A result posted for a job without an open shard changes no table: such a job is never finished by a
-- later result, when the statement that should have finished it failed.
pub result-job_incomplete :
    (faults : Faults) (now : Text) (tenants : Tenants) (id : Text) (res : ResultReq)
    (at : ShardAddress) (db : TenantDb)
    → AllValid tenants
    → parse_shard_id id ≡ some at
    → db_of tenants at.org_id ≡ some db
    → job_incomplete db at.job_id ≡ false
    → (result faults now tenants id res).1 ≡ tenants
unfolding result
result-job_incomplete faults now tenants id res at db v parsed stored done =
    elim (reply-cases tenants (post_result faults now tenants id res)) [
      | inr e ↦ e
      | inl (changed, e) ↦
          let a = result_sound faults now tenants id res changed v e in
          let same_at = some_eq (sym a.parsed ∙ parsed) in
          let found = tenant_store-db_of faults tenants a.at.org_id a.db a.stored in
          let same_db =
            some_eq
              (sym found ∙ (ap (λ (t : ShardAddress). db_of tenants t.org_id) same_at ∙ stored)) in
          absurd (
            held-incomplete a.at a.db a.row a.held.0 a.held.1
              (ap₂ (λ d (t : ShardAddress). job_incomplete d t.job_id) same_db same_at ∙ done))
    ]
