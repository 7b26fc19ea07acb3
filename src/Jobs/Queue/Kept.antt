-- ===== src/Jobs/Queue/Kept.antt =====
-- What the statements on the queue and `finalize_job` of src/db/tenant/jobs.rs keep of the jobs.
use reproit_cloud.Jobs.Queue.Validity.{
  submit, claim, touch, requeue, set, apply, IsPosted, Statement, IsValid,
}
use reproit_cloud.Jobs.Queue.{
  TenantDb, job_exists, insert_job, job_incomplete, JobRow, claim_shard, finalize_job, touch_shard,
  requeue_stranded, set_shard, job_row, next_row, claim_found, ShardRow, finish_rows, holds,
}
use reproit_cloud.Jobs.Queue.Completion.{apply_complete}
use reproit_cloud.Jobs.Spec.{new_job, ShardState, F64}
use reproit_cloud.Text.Compare.{text_eq_self, text_eq_iff}
use reproit_cloud.Jobs.Queue.Keys.{holds-count, has_key_iff, All-Has}
use reproit_cloud.Prelude.{
  Bool-cases, Option-cases, All, any, ℕ, ◌≡◌, refl, sym, ap, subst, ◌∙◌, ◌≢◌, ◌⊎◌, inl, inr, true,
  false, ◌||◌, Option, none, List, [], ◌∷◌, arith,
}
use reproit_cloud.Text.{Text, text_eq}

-- The job is in the table and none of its shards is open.
abbrev pub IsComplete : TenantDb → Text → Type 0
IsComplete db job_id = (job_exists db job_id ≡ true) × (job_incomplete db job_id ≡ false)

-- A finished job has no open shard.
abbrev pub NoOpenShard : TenantDb → JobRow → Type 0
NoOpenShard db j = j.finished_at ≢ none → job_incomplete db j.id ≡ false

-- A statement leaves the jobs alone, but for a new one, which is not finished.
pub apply-jobs :
    (st : Statement) (db : TenantDb)
    → ((apply st db).jobs ≡ db.jobs)
      ⊎ ((j : JobRow) × ((j.finished_at ≡ none) × ((apply st db).jobs ≡ j ∷ db.jobs)))
unfolding apply insert_job new_job claim_shard touch_shard requeue_stranded set_shard
apply-jobs (submit uuid now spec) db = elim (Bool-cases (job_exists db uuid)) [
  | inl e ↦ rw e (inl refl)
  | inr e ↦ rw e (inr (job_row (new_job uuid now spec), (refl, refl)))
]
apply-jobs (claim locked now w caps pin) db =
    elim (Option-cases (next_row locked caps pin db.shards)) [
      | inl e ↦ inl (ap (λ o. (claim_found now db w o).0.jobs) e)
      | inr (r, e) ↦ inl (ap (λ o. (claim_found now db w o).0.jobs) e)
    ]
apply-jobs (touch now job_id seed w) db = inl refl
apply-jobs (requeue now stale) db = inl refl
apply-jobs (set job_id seed w state report duration) db = inl refl

pub exists_lem :
    (job_id : Text) (db db' : TenantDb)
    → (db'.jobs ≡ db.jobs) ⊎ ((j : JobRow) × ((j.finished_at ≡ none) × (db'.jobs ≡ j ∷ db.jobs)))
    → job_exists db job_id ≡ true
    → job_exists db' job_id ≡ true
unfolding job_exists
exists_lem job_id db db' (inl e) h =
    subst (λ js. any (λ j. text_eq j.id job_id) js ≡ true) (sym e) h
exists_lem job_id db db' (inr (j, (_, e))) h =
    subst (λ js. any (λ j. text_eq j.id job_id) js ≡ true) (sym e) (ground (arith, h))

pub posted_exist :
    (st : Statement) (db : TenantDb) (posted : List Text)
    → All (λ j. job_exists db j ≡ true) posted
    → All (λ j. job_exists (apply st db) j ≡ true) posted
posted_exist st db [] h = tt
posted_exist st db (j ∷ posted) (e, es) =
    (exists_lem j db (apply st db) (apply-jobs st db) e, posted_exist st db posted es)

-- A shard that is set belongs to a job of the table.
pub set_shard-exists :
    (job_id : Text) (seed : ℕ) (w : Text) (state : ShardState) (report : Option Text)
    (duration : F64) (db : TenantDb)
    → IsValid db
    → (set_shard db job_id seed w state report duration).1 ≡ true
    → job_exists db job_id ≡ true
unfolding set_shard holds
set_shard-exists job_id seed w state report duration db v hit =
    let (row, (m, h)) = (holds-count job_id seed w db.shards v.distinct).0 hit in
    let key = (has_key_iff job_id seed row).0 (ground (arith, h)) in
    subst (λ j. job_exists db j ≡ true) (sym (ap (λ (k : Text × ℕ). k.0) key))
      (All-Has (λ r. job_exists db r.job_id ≡ true) row db.shards m v.linked)

pub apply_complete_all :
    (st : Statement) (db : TenantDb) (seen : List Text)
    → IsValid db
    → IsPosted st
    → All (IsComplete db) seen
    → All (IsComplete (apply st db)) seen
apply_complete_all st db [] v p h = tt
apply_complete_all st db (j ∷ seen) v p ((e, c), hs) = (
  (exists_lem j db (apply st db) (apply-jobs st db) e, apply_complete st db j v p e c),
  apply_complete_all st db seen v p hs,
)

rows_exist :
    (x : JobRow) (jobs js : List JobRow)
    → All (λ j. any (λ y. text_eq y.id j.id) jobs ≡ true) js
    → All (λ j. any (λ y. text_eq y.id j.id) (x ∷ jobs) ≡ true) js
rows_exist x jobs [] h = tt
rows_exist x jobs (j ∷ js) (h, hs) = (ground (arith, h), rows_exist x jobs js hs)

all_exist : (jobs : List JobRow) → All (λ j. any (λ y. text_eq y.id j.id) jobs ≡ true) jobs
all_exist [] = tt
all_exist (j ∷ jobs) = (ground (arith, text_eq_self j.id), rows_exist j jobs jobs (all_exist jobs))

apply-no_open :
    (st : Statement) (db : TenantDb) (js : List JobRow)
    → IsValid db
    → IsPosted st
    → All (λ j. any (λ y. text_eq y.id j.id) db.jobs ≡ true) js
    → All (NoOpenShard db) js
    → All (NoOpenShard (apply st db)) js
unfolding job_exists
apply-no_open st db [] v p e h = tt
apply-no_open st db (j ∷ js) v p (e, es) (h, hs) =
    ((λ f. apply_complete st db j.id v p e (h f)), apply-no_open st db js v p es hs)

pub apply-finished :
    (st : Statement) (db : TenantDb)
    → IsValid db
    → IsPosted st
    → All (NoOpenShard db) db.jobs
    → All (NoOpenShard (apply st db)) (apply st db).jobs
apply-finished st db v p h =
    let kept = apply-no_open st db db.jobs v p (all_exist db.jobs) h in
    elim (apply-jobs st db) [
      | inl e ↦ subst (All (NoOpenShard (apply st db))) (sym e) kept
      | inr (j, (f, e)) ↦
          subst (All (NoOpenShard (apply st db))) (sym e) ((λ g. absurd (g f)), kept)
    ]

finish_rows-exists :
    (now job_id other : Text) (jobs : List JobRow)
    → any (λ j. text_eq j.id other) (finish_rows now job_id 0 0 jobs)
      ≡ any (λ j. text_eq j.id other) jobs
finish_rows-exists now job_id other [] = refl
finish_rows-exists now job_id other (j ∷ jobs) = elim (Bool-cases (text_eq j.id job_id)) [
  | inl e ↦ rw e (ap (λ t. text_eq j.id other || t) (finish_rows-exists now job_id other jobs))
  | inr e ↦ rw e (ap (λ t. text_eq j.id other || t) (finish_rows-exists now job_id other jobs))
]

pub finish_rows-finished :
    (now job_id : Text) (db : TenantDb) (jobs : List JobRow)
    → job_incomplete db job_id ≡ false
    → All (NoOpenShard db) jobs
    → All (NoOpenShard db) (finish_rows now job_id 0 0 jobs)
finish_rows-finished now job_id db [] c h = tt
finish_rows-finished now job_id db (j ∷ jobs) c (h, hs) =
    let rest = finish_rows-finished now job_id db jobs c hs in
    elim (Bool-cases (text_eq j.id job_id)) [
      | inl e ↦ rw e (
        (λ _. subst (λ k. job_incomplete db k ≡ false) (sym ((text_eq_iff j.id job_id).0 e)) c),
        rest,
      )
      | inr e ↦ rw e (h, rest)
    ]

pub finalize-seen :
    (now job_id : Text) (db : TenantDb) (seen : List Text)
    → All (IsComplete db) seen
    → All (IsComplete (finalize_job now db job_id 0 0)) seen
unfolding job_exists finalize_job job_incomplete
finalize-seen now job_id db [] h = tt
finalize-seen now job_id db (x ∷ seen) ((e, c), hs) =
    ((finish_rows-exists now job_id x db.jobs ∙ e, c), finalize-seen now job_id db seen hs)

pub finalize-posted :
    (now job_id : Text) (db : TenantDb) (posted : List Text)
    → All (λ j. job_exists db j ≡ true) posted
    → All (λ j. job_exists (finalize_job now db job_id 0 0) j ≡ true) posted
unfolding job_exists finalize_job
finalize-posted now job_id db [] h = tt
finalize-posted now job_id db (j ∷ posted) (e, es) =
    (finish_rows-exists now job_id j db.jobs ∙ e, finalize-posted now job_id db posted es)

pub finalize-linked :
    (now job_id : Text) (db : TenantDb) (rows : List ShardRow)
    → All (λ r. job_exists db r.job_id ≡ true) rows
    → All (λ r. job_exists (finalize_job now db job_id 0 0) r.job_id ≡ true) rows
unfolding job_exists finalize_job
finalize-linked now job_id db [] h = tt
finalize-linked now job_id db (r ∷ rows) (e, hs) =
    (finish_rows-exists now job_id r.job_id db.jobs ∙ e, finalize-linked now job_id db rows hs)
