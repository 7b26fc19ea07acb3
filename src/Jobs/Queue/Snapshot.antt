-- ===== src/Jobs/Queue/Snapshot.antt =====
-- What `snapshot` and `list_jobs` of src/db/tenant/jobs.rs report of a job: the values that go into
-- their JSON.
use reproit_cloud.Jobs.Queue.{
  ShardRow, TenantDb, where_rows, count, job_incomplete, JobRow, is_finding, is_open, is_running,
}
use reproit_cloud.Jobs.Spec.{ShardState, Shard, pending, running, clean, finding, error}
use reproit_cloud.Prelude.Int.{pos_part, max_int, min_int, pos, ℤ, int_ord}
use reproit_cloud.Jobs.Queue.Finishing.{Fleet, IsSettled}
use reproit_cloud.Jobs.Queue.Completion.{is_open_of, count-zero}
use reproit_cloud.Jobs.Queue.Kept.{NoOpenShard}
use reproit_cloud.Prelude.Order.SortBy.{sort_by-All, sort_by}
use reproit_cloud.Text.Compare.{text_eq_iff, text_ord}
use reproit_cloud.Prelude.{
  if◌then◌else◌, Bool-cases, All, Within, length, take, ℕ, suc, ◌≡◌, refl, ap, subst, ◌≢◌, inl, inr,
  Bool, true, false, not, ◌&&◌, Option, none, some, List, [], ◌∷◌, map, arith,
}
use reproit_cloud.Prelude.Order.{Ord, ord_of_rank}
use reproit_cloud.Text.{Text, lit, text_eq, text_lt}

pub record JobSnapshot : Type 0 where
  pub id : Text
  pub app_dir : Text
  pub shards : ℕ
  pub done : ℕ
  pub complete : Bool
  pub started_at : Text
  pub finished_at : Option Text
  pub findings : ℕ
  pub map_states : ℕ
  pub map_transitions : ℕ
  pub shard_detail : List Shard

abbrev is_some : Option Text → Bool
is_some none = false
is_some (some t) = true

instance abbrev pub seed_ord : Ord ℕ
seed_ord = ord_of_rank (λ n. n) (λ a b h. h)

abbrev shard_of : ShardRow → Shard
shard_of r = record { seed = r.seed; state = r.state; report = r.report; duration_s = r.duration_s }

-- `WHERE job_id=$1 ORDER BY seed`
unfoldable pub rows_of : TenantDb → Text → List ShardRow
unfolding where_rows sort_by
rows_of db id = sort_by (λ r. r.seed) (where_rows (λ r. text_eq r.job_id id) db.shards)

abbrev is_done : ShardRow → Bool
is_done r = not (is_open r.state)

-- `SELECT … FROM jobs WHERE id=$1`
unfoldable pub job_row_of : Text → List JobRow → Option JobRow
job_row_of id [] = none
job_row_of id (j ∷ jobs) = let rest = job_row_of id jobs in if text_eq j.id id then some j else rest

abbrev snapshot_of : TenantDb → Text → JobRow → JobSnapshot
snapshot_of db id job = record {
  id = id;
  app_dir = job.app_dir;
  shards = length (rows_of db id);
  done = count is_done (rows_of db id);
  complete = is_some job.finished_at;
  started_at = job.started_at;
  finished_at = job.finished_at;
  findings = count (λ r. is_finding r.state) (rows_of db id);
  map_states = job.map_states;
  map_transitions = job.map_transitions;
  shard_detail = map shard_of (rows_of db id);
}

abbrev map_job : (JobRow → JobSnapshot) → Option JobRow → Option JobSnapshot
map_job f none = none
map_job f (some j) = some (f j)

unfoldable pub snapshot : TenantDb → Text → Option JobSnapshot
unfolding job_row_of rows_of count
snapshot db id = map_job (snapshot_of db id) (job_row_of id db.jobs)

pub record JobListing : Type 0 where
  pub id : Text
  pub app_dir : Text
  pub started_at : Text
  pub finished_at : Option Text
  pub complete : Bool
  pub backend : Text
  pub shards : ℕ
  pub done : ℕ
  pub findings : ℕ
  pub errors : ℕ
  pub running : ℕ
  pub clean : ℕ
  pub map_states : ℕ
  pub map_transitions : ℕ

abbrev is_error : ShardState → Bool
is_error pending = false
is_error running = false
is_error clean = false
is_error finding = false
is_error error = true

abbrev is_clean : ShardState → Bool
is_clean pending = false
is_clean running = false
is_clean clean = true
is_clean finding = false
is_clean error = false

-- `MIN(s.backend)` of the job's shards, or "web" where it has none.
unfoldable pub min_backend : List ShardRow → Option Text
min_backend [] = none
min_backend (r ∷ rows) = elim (min_backend rows) [
  | none ↦ some r.backend
  | some b ↦ if text_lt r.backend b then some r.backend else some b
]

abbrev or_web : Option Text → Text
or_web none = lit "web"
or_web (some b) = b

unfoldable pub listing_of : TenantDb → JobRow → JobListing
unfolding where_rows count min_backend
listing_of db j =
    let rows = where_rows (λ r. text_eq r.job_id j.id) db.shards in
    record {
      id = j.id;
      app_dir = j.app_dir;
      started_at = j.started_at;
      finished_at = j.finished_at;
      complete = is_some j.finished_at;
      backend = or_web (min_backend rows);
      shards = length rows;
      done = count is_done rows;
      findings = count (λ r. is_finding r.state) rows;
      errors = count (λ r. is_error r.state) rows;
      running = count (λ r. is_running r.state) rows;
      clean = count (λ r. is_clean r.state) rows;
      map_states = j.map_states;
      map_transitions = j.map_transitions;
    }

-- `ORDER BY j.started_at DESC`: the sort is of the reversed order.
abbrev flip_ord : Ord Text → Ord Text
flip_ord o = record {
  eq = o.eq;
  lt = λ a b. o.lt b a;
  eq_iff = o.eq_iff;
  lt_irrefl = o.lt_irrefl;
  lt_trans = λ a b c h k. o.lt_trans c b a k h;
  lt_total = λ a b h k. o.lt_total a b k h;
}

-- `limit.clamp(1, 100)`
abbrev clamped : ℤ → ℕ
clamped limit = pos_part (min_int (pos 100) (max_int (pos 1) limit))

unfoldable pub list_jobs : TenantDb → ℤ → List JobListing
unfolding listing_of sort_by max_int min_int
list_jobs db limit =
    take (clamped limit)
      (map (listing_of db) (sort_by ⦃o = flip_ord text_ord⦄ (λ j. j.started_at) db.jobs))

-- The rows of a job in which none is open are all done.
done-all :
    (rows : List ShardRow)
    → All (λ r. is_open r.state ≡ false) rows
    → count (λ r. not (is_open r.state)) rows ≡ length rows
unfolding count
done-all [] h = refl
done-all (r ∷ rows) (h, hs) = rw h (ap suc (done-all rows hs))

where-closed :
    (id : Text) (rows : List ShardRow)
    → All (λ r. is_open_of id r ≡ false) rows
    → All (λ r. is_open r.state ≡ false) (where_rows (λ r. text_eq r.job_id id) rows)
unfolding where_rows
where-closed id [] h = tt
where-closed id (r ∷ rows) (h, hs) = elim (Bool-cases (text_eq r.job_id id)) [
  | inl e ↦ rw e (subst (λ t. (t && is_open r.state) ≡ false) e h, where-closed id rows hs)
  | inr e ↦ rw e (where-closed id rows hs)
]

job_row-Within :
    (P : JobRow → Type 0) (id : Text) (jobs : List JobRow)
    → All P jobs
    → Within (λ j. (text_eq j.id id ≡ true) × P j) (job_row_of id jobs)
unfolding job_row_of
job_row-Within P id [] h = tt
job_row-Within P id (j ∷ jobs) (h, hs) = elim (Bool-cases (text_eq j.id id)) [
  | inl e ↦ rw e (e, h)
  | inr e ↦ rw e (job_row-Within P id jobs hs)
]

some_ne_none : (o : Option Text) → is_some o ≡ true → o ≢ none
some_ne_none none h = absurd (ground arith)
some_ne_none (some t) h = λ e. absurd (ground arith)

rows_of-done :
    (db : TenantDb) (id : Text)
    → job_incomplete db id ≡ false
    → count is_done (rows_of db id) ≡ length (rows_of db id)
unfolding rows_of job_incomplete
rows_of-done db id c =
    let rows = where_rows (λ r. text_eq r.job_id id) db.shards in
    done-all (sort_by (λ r. r.seed) rows) (
      sort_by-All (λ r. r.seed) (λ r. is_open r.state ≡ false) rows
        (where-closed id db.shards ((count-zero (is_open_of id) db.shards).0 c)))

snapshot_of-complete :
    (db : TenantDb) (id : Text) (o : Option JobRow)
    → Within (λ j. (text_eq j.id id ≡ true) × NoOpenShard db j) o
    → Within (λ s. s.complete ≡ true → s.done ≡ s.shards) (map_job (snapshot_of db id) o)
snapshot_of-complete db id none w = tt
snapshot_of-complete db id (some j) (same, closed) = λ c. rows_of-done db id (
    subst (λ k. job_incomplete db k ≡ false) ((text_eq_iff j.id id).0 same)
      (closed (some_ne_none j.finished_at c)))

-- A job that its snapshot calls complete has all its shards done, in the tables that the statements
-- and `maybe_finalize` leave.
pub snapshot-complete :
    (f : Fleet) (id : Text)
    → IsSettled f
    → Within (λ s. s.complete ≡ true → s.done ≡ s.shards) (snapshot f.db id)
unfolding snapshot
snapshot-complete f id s =
    snapshot_of-complete f.db id (job_row_of id f.db.jobs)
      (job_row-Within (NoOpenShard f.db) id f.db.jobs s.finished)
