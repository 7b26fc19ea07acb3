-- ===== src/Jobs/Queue/Validity.antt =====
-- The statements that change the queue of src/db/tenant/jobs.rs, in any order, and what every run of
-- them keeps of the tables.
use reproit_cloud.Jobs.Spec.{JobSpec, shards_from, new_job, pending_shard, F64, ShardState, Job}
use reproit_cloud.Jobs.Queue.{
  update, TenantDb, job_exists, is_pending, ShardRow, insert_job, row_key, shard_row, claim_shard,
  on_shards, touch_shard, requeue_stranded, set_shard, job_row, next_row, JobRow, empty_db, holds,
  has_key, is_stranded, claim_row, requeue_row, set_row, claim_found,
}
use reproit_cloud.Jobs.Queue.Keys.{KeysDistinct, NoKey, update-KeysDistinct}
use reproit_cloud.Text.Compare.{text_eq_self}
use reproit_cloud.Prelude.{
  Bool-cases, Option-cases, All, any, ℕ, zero, suc, ◌<◌, ◌≡◌, refl, sym, ap, subst, ◌∙◌, inl, inr,
  Bool, true, false, Option, none, some, List, [], ◌∷◌, ◌++◌, map, arith,
}
use reproit_cloud.Text.{Text, text_eq}

-- The statements that change the queue.
pub data Statement : Type 0 where
  submit : Text → Text → JobSpec → Statement
  claim : (ShardRow → Bool) → ℕ → Text → List Text → Option Text → Statement
  touch : ℕ → Text → ℕ → Text → Statement
  requeue : ℕ → ℕ → Statement
  set : Text → ℕ → Text → ShardState → Option Text → F64 → Statement

abbrev pub actor : Statement → Option Text
actor (submit uuid now spec) = none
actor (claim locked now w caps pin) = some w
actor (touch now job_id seed w) = some w
actor (requeue now stale) = none
actor (set job_id seed w state report duration) = some w

-- No caller writes `pending` with `set_shard`.
abbrev pub IsPosted : Statement → Type 0
IsPosted (submit uuid now spec) = Unit {0}
IsPosted (claim locked now w caps pin) = Unit {0}
IsPosted (touch now job_id seed w) = Unit {0}
IsPosted (requeue now stale) = Unit {0}
IsPosted (set job_id seed w state report duration) = is_pending state ≡ false

abbrev pub or_same : TenantDb → Option TenantDb → TenantDb
or_same db none = db
or_same db (some changed) = changed

unfoldable pub apply : Statement → TenantDb → TenantDb
apply (submit uuid now spec) db = or_same db (insert_job db (new_job uuid now spec))
apply (claim locked now w caps pin) db = (claim_shard locked now db w caps pin).0
apply (touch now job_id seed w) db = (touch_shard now db job_id seed w).0
apply (requeue now stale) db = (requeue_stranded now db stale).0
apply (set job_id seed w state report duration) db =
    (set_shard db job_id seed w state report duration).0

unfoldable pub run : List Statement → TenantDb → TenantDb
unfolding apply
run [] db = db
run (st ∷ sts) db = run sts (apply st db)

-- No two shards have one key, and each belongs to a job of the table.
pub record IsValid (db : TenantDb) : Type 0 where
  pub distinct : KeysDistinct db.shards
  pub linked : All (λ r. job_exists db r.job_id ≡ true) db.shards

pub update-All :
    (P : ShardRow → Type 0) (test : ShardRow → Bool) (change : ShardRow → ShardRow)
    → ((r : ShardRow) → P r → P (change r))
    → (rows : List ShardRow) → All P rows
    → All P (update test change rows)
unfolding update
update-All P test change keep [] h = tt
update-All P test change keep (r ∷ rows) (h, hs) = elim (Bool-cases (test r)) [
  | inl e ↦ rw e (keep r h, update-All P test change keep rows hs)
  | inr e ↦ rw e (h, update-All P test change keep rows hs)
]

-- An update of the shards that leaves the keys alone.
update-IsValid :
    (test : ShardRow → Bool) (change : ShardRow → ShardRow) (db : TenantDb)
    → ((r : ShardRow) → row_key (change r) ≡ row_key r)
    → IsValid db
    → IsValid (on_shards db (update test change db.shards))
unfolding job_exists
update-IsValid test change db same v = record {
  distinct = update-KeysDistinct test change same db.shards v.distinct;
  linked =
      update-All (λ r. job_exists db r.job_id ≡ true) test change
        (λ r h. subst (λ k. job_exists db k ≡ true) (sym (ap (λ k. k.0) (same r))) h) db.shards
        v.linked;
}

shards_from-NoKey :
    (job : Job) (seed first n : ℕ) (rows : List ShardRow)
    → seed < first
    → NoKey (shard_row job (pending_shard seed)) rows
    → NoKey (shard_row job (pending_shard seed)) (map (shard_row job) (shards_from first n) ++ rows)
unfolding shards_from
shards_from-NoKey job seed first zero rows h hs = hs
shards_from-NoKey job seed first (suc n) rows h hs = (
  (λ same. let e = ap (λ k. k.1) same in absurd (omega arith)),
  shards_from-NoKey job seed (suc first) n rows (omega arith) hs,
)

new_job_NoKey :
    (job : Job) (seed : ℕ) (db : TenantDb)
    → job_exists db job.id ≡ false
    → (rows : List ShardRow) → All (λ r. job_exists db r.job_id ≡ true) rows
    → NoKey (shard_row job (pending_shard seed)) rows
new_job_NoKey job seed db absent [] hs = tt
new_job_NoKey job seed db absent (r ∷ rows) (h, hs) = (
  (λ same.
      let clash = sym h ∙ (ap (job_exists db) (sym (ap (λ k. k.0) same)) ∙ absent) in
      absurd (ground (arith, clash))),
  new_job_NoKey job seed db absent rows hs,
)

shards_from-KeysDistinct :
    (job : Job) (db : TenantDb) (first n : ℕ)
    → job_exists db job.id ≡ false
    → IsValid db
    → KeysDistinct (map (shard_row job) (shards_from first n) ++ db.shards)
unfolding shards_from
shards_from-KeysDistinct job db first zero absent v = v.distinct
shards_from-KeysDistinct job db first (suc n) absent v = (
  shards_from-NoKey job first (suc first) n db.shards (omega arith)
      (new_job_NoKey job first db absent db.shards v.linked),
  shards_from-KeysDistinct job db (suc first) n absent v,
)

shards_from-linked :
    (job : Job) (db : TenantDb) (jobs : List JobRow) (first n : ℕ)
    → any (λ j. text_eq j.id job.id) jobs ≡ true
    → All (λ r. any (λ j. text_eq j.id r.job_id) jobs ≡ true) db.shards
    → All
        (λ r. any (λ j. text_eq j.id r.job_id) jobs ≡ true)
        (map (shard_row job) (shards_from first n) ++ db.shards)
unfolding shards_from
shards_from-linked job db jobs first zero h hs = hs
shards_from-linked job db jobs first (suc n) h hs =
    (h, shards_from-linked job db jobs (suc first) n h hs)

more_jobs-linked :
    (j : JobRow) (jobs : List JobRow) (rows : List ShardRow)
    → All (λ r. any (λ j. text_eq j.id r.job_id) jobs ≡ true) rows
    → All (λ r. any (λ j. text_eq j.id r.job_id) (j ∷ jobs) ≡ true) rows
more_jobs-linked j jobs [] h = tt
more_jobs-linked j jobs (r ∷ rows) (h, hs) = (ground (arith, h), more_jobs-linked j jobs rows hs)

submit-IsValid :
    (uuid now : Text) (spec : JobSpec) (db : TenantDb)
    → IsValid db
    → IsValid (or_same db (insert_job db (new_job uuid now spec)))
unfolding insert_job job_exists new_job
submit-IsValid uuid now spec db v = elim (Bool-cases (job_exists db uuid)) [
  | inl e ↦ rw e v
  | inr e ↦ rw e (record {
    distinct = shards_from-KeysDistinct (new_job uuid now spec) db 1 spec.seeds e v;
    linked =
        shards_from-linked (new_job uuid now spec) db (job_row (new_job uuid now spec) ∷ db.jobs) 1
          spec.seeds (ground (arith, text_eq_self uuid))
          (more_jobs-linked (job_row (new_job uuid now spec)) db.jobs db.shards v.linked);
  })
]

pub claim-IsValid :
    (locked : ShardRow → Bool) (now : ℕ) (db : TenantDb) (w : Text) (caps : List Text)
    (pin : Option Text)
    → IsValid db
    → IsValid (claim_shard locked now db w caps pin).0
unfolding claim_shard
claim-IsValid locked now db w caps pin v =
    elim (Option-cases (next_row locked caps pin db.shards)) [
      | inl e ↦ subst (λ o. IsValid (claim_found now db w o).0) (sym e) v
      | inr (r, e) ↦
          subst (λ o. IsValid (claim_found now db w o).0) (sym e)
            (update-IsValid (has_key r.job_id r.seed) (claim_row w now) db (λ r. refl) v)
    ]

-- Every statement keeps the keys of the shards distinct and their jobs in the table.
pub apply-IsValid : (st : Statement) (db : TenantDb) → IsValid db → IsValid (apply st db)
unfolding apply touch_shard requeue_stranded set_shard
apply-IsValid (submit uuid now spec) db v = submit-IsValid uuid now spec db v
apply-IsValid (claim locked now w caps pin) db v = claim-IsValid locked now db w caps pin v
apply-IsValid (touch now job_id seed w) db v =
    update-IsValid (holds job_id seed w) (λ r. record r { heartbeat_at = some now }) db (λ r. refl)
      v
apply-IsValid (requeue now stale) db v =
    update-IsValid (is_stranded now stale) requeue_row db (λ r. refl) v
apply-IsValid (set job_id seed w state report duration) db v =
    update-IsValid (holds job_id seed w) (set_row state report duration) db (λ r. refl) v

pub run-IsValid : (sts : List Statement) (db : TenantDb) → IsValid db → IsValid (run sts db)
unfolding run
run-IsValid [] db v = v
run-IsValid (st ∷ sts) db v = run-IsValid sts (apply st db) (apply-IsValid st db v)

pub empty_db-IsValid : IsValid empty_db
empty_db-IsValid = record { distinct = tt; linked = tt }
