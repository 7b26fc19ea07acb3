-- ===== src/Jobs/Queue/Lifecycle.antt =====
-- The life of one shard, as an abstract machine, and the statements of src/db/tenant/jobs.rs as its
-- moves.
use reproit_cloud.Jobs.Queue.{
  insert_job, is_pending, is_claimable, is_running, is_stranded, ShardRow, is_open, update, holds,
  is_claimed_by, has_key, row_key, requeue_row, shard_row, TenantDb, set_row, is_late, next_row,
  claim_row, matches_pin, touch_shard, is_text, requeue_stranded, job_exists, set_shard,
  claim_shard, claim_found,
}
use reproit_cloud.Jobs.Spec.{
  shards_from, new_job, JobSpec, F64, ShardState, pending, running, clean, finding, error, Job,
}
use reproit_cloud.Jobs.Queue.Validity.{
  IsValid, or_same, Statement, IsPosted, submit, claim, touch, requeue, set, actor, apply,
}
use reproit_cloud.Jobs.Queue.Keys.{next_row_sound, Has, same_row, has_key_iff, Has-all}
use reproit_cloud.Text.Compare.{text_eq_iff}
use reproit_cloud.Prelude.{
  Bool-cases, Option-cases, &&-true, All, any, ℕ, zero, suc, ◌≡◌, refl, sym, ap, subst, ◌∙◌, inl,
  inr, Bool, true, false, ◌&&◌, Option, none, some, List, [], ◌∷◌, ◌++◌, map, arith,
}
use reproit_cloud.Text.{Text, text_eq}

-- The abstract view of a row: who holds it, or what was reported.
pub data Phase : Type 0 where
  waiting : Phase
  held : Option Text → Phase
  done : ShardState → Option Text → Phase

abbrev pub phase_of : ShardState → Option Text → Option Text → Phase
phase_of pending holder report = waiting
phase_of running holder report = held holder
phase_of clean holder report = done clean report
phase_of finding holder report = done finding report
phase_of error holder report = done error report

abbrev pub phase : ShardRow → Phase
phase r = phase_of r.state r.claimed_by r.report

-- What a statement of the worker may do to one shard: it is taken by the worker that claims, let
-- go by the sweep, which no worker runs, and finished by the worker that holds it.
pub data Move (actor : Option Text) (p q : Phase) : Type 0 where
  stay : p ≡ q → Move actor p q
  taken : (w : Text) → actor ≡ some w → p ≡ waiting → q ≡ held (some w) → Move actor p q
  lost : (w : Option Text) → actor ≡ none → p ≡ held w → q ≡ waiting → Move actor p q
  finished :
      (w : Text) (s : ShardState) (report : Option Text)
      → actor ≡ some w
      → p ≡ held (some w)
      → is_open s ≡ false
      → q ≡ done s report
      → Move actor p q

-- The row keeps its key and its backend, and its phase moves.
abbrev pub RowMove : Option Text → ShardRow → ShardRow → Type 0
RowMove who r r' =
    (row_key r ≡ row_key r') × ((r.backend ≡ r'.backend) × Move who (phase r) (phase r'))

-- Each row moves, in place.
abbrev pub RowsMove : Option Text → List ShardRow → List ShardRow → Type 0
RowsMove who [] [] = Unit {0}
RowsMove who [] (_ ∷ _) = ⊥
RowsMove who (_ ∷ _) [] = ⊥
RowsMove who (r ∷ rows) (r' ∷ rows') = RowMove who r r' × RowsMove who rows rows'

-- The rows after a statement: those before, each moved, behind the new rows of a submission, which
-- wait and belong to a job that the table did not have.
abbrev pub Refines : Option Text → TenantDb → List ShardRow → Type 0
Refines who db after =
    (fresh : List ShardRow) × ((moved : List ShardRow) × ((after ≡ fresh ++ moved)
        × (All (λ r. (job_exists db r.job_id ≡ false) × (phase r ≡ waiting)) fresh
            × RowsMove who db.shards moved)))

RowsMove-refl : (who : Option Text) (rows : List ShardRow) → RowsMove who rows rows
RowsMove-refl who [] = tt
RowsMove-refl who (r ∷ rows) = ((refl, (refl, stay refl)), RowsMove-refl who rows)

update-RowsMove :
    (who : Option Text) (test : ShardRow → Bool) (change : ShardRow → ShardRow)
    (rows : List ShardRow)
    → All (λ r. test r ≡ true → RowMove who r (change r)) rows
    → RowsMove who rows (update test change rows)
unfolding update
update-RowsMove who test change [] h = tt
update-RowsMove who test change (r ∷ rows) (h, hs) = elim (Bool-cases (test r)) [
  | inl e ↦ rw e (h e, update-RowsMove who test change rows hs)
  | inr e ↦ rw e ((refl, (refl, stay refl)), update-RowsMove who test change rows hs)
]

All-intro : (P : ShardRow → Type 0) → ((r : ShardRow) → P r) → (rows : List ShardRow) → All P rows
All-intro P h [] = tt
All-intro P h (r ∷ rows) = (h r, All-intro P h rows)

All-map :
    (P Q : ShardRow → Type 0)
    → ((r : ShardRow) → P r → Q r)
    → (rows : List ShardRow) → All P rows
    → All Q rows
All-map P Q f [] h = tt
All-map P Q f (r ∷ rows) (h, hs) = (f r h, All-map P Q f rows hs)

in_place :
    (who : Option Text) (test : ShardRow → Bool) (change : ShardRow → ShardRow) (db : TenantDb)
    → All (λ r. test r ≡ true → RowMove who r (change r)) db.shards
    → Refines who db (update test change db.shards)
in_place who test change db h =
    ([], (update test change db.shards, (refl, (tt, update-RowsMove who test change db.shards h))))

pending_phase :
    (s : ShardState) (w report : Option Text) → is_pending s ≡ true → phase_of s w report ≡ waiting
pending_phase s w report h = ground arith

running_phase :
    (s : ShardState) (w report : Option Text) → is_running s ≡ true → phase_of s w report ≡ held w
running_phase s w report h = ground arith

is_text_sound : (w : Text) (o : Option Text) → is_text w o ≡ true → o ≡ some w
is_text_sound w none h = absurd (ground arith)
is_text_sound w (some x) h = ap some ((text_eq_iff x w).0 h)

-- What `set_shard` writes on a shard that the worker holds.
set_phase :
    (w : Text) (s : ShardState) (report : Option Text) (p : Phase)
    → is_pending s ≡ false
    → p ≡ held (some w)
    → Move (some w) p (phase_of s (some w) report)
set_phase w pending report p h e = absurd (ground arith)
set_phase w running report p h e = stay e
set_phase w clean report p h e = finished w clean report refl e refl refl
set_phase w finding report p h e = finished w finding report refl e refl refl
set_phase w error report p h e = finished w error report refl e refl refl

-- The rows that a worker holds, as `touch_shard` and `set_shard` find them.
holds-phase :
    (job_id : Text) (seed : ℕ) (w : Text) (r : ShardRow)
    → holds job_id seed w r ≡ true
    → (r.claimed_by ≡ some w) × (phase r ≡ held (some w))
unfolding holds
holds-phase job_id seed w r h =
    let (a, b) = &&-true (has_key job_id seed r && is_claimed_by w r) (is_running r.state) h in
    let c =
      is_text_sound w r.claimed_by (&&-true (has_key job_id seed r) (is_claimed_by w r) a).1 in
    (c, running_phase r.state r.claimed_by r.report b ∙ ap held c)

set-Refines :
    (job_id : Text) (seed : ℕ) (w : Text) (s : ShardState) (report : Option Text) (duration : F64)
    (db : TenantDb)
    → is_pending s ≡ false
    → Refines (some w) db (update (holds job_id seed w) (set_row s report duration) db.shards)
set-Refines job_id seed w s report duration db h =
    in_place (some w) (holds job_id seed w) (set_row s report duration) db (
      All-intro
        (λ r. holds job_id seed w r ≡ true → RowMove (some w) r (set_row s report duration r))
        (λ r e.
          let (c, p) = holds-phase job_id seed w r e in
          (
            refl,
            (
              refl,
              subst (λ k. Move (some w) (phase r) (phase_of s k report)) (sym c)
                  (set_phase w s report (phase r) h p),
            ),
          ))
        db.shards)

touch-Refines :
    (now : ℕ) (job_id : Text) (seed : ℕ) (w : Text) (db : TenantDb)
    → Refines
        (some w)
        db
        (update (holds job_id seed w) (λ r. record r { heartbeat_at = some now }) db.shards)
touch-Refines now job_id seed w db =
    in_place (some w) (holds job_id seed w) (λ r. record r { heartbeat_at = some now }) db
      (All-intro
        (λ r.
          holds job_id seed w r ≡ true → RowMove (some w) r (record r { heartbeat_at = some now }))
        (λ r e. (refl, (refl, stay refl))) db.shards)

requeue-Refines :
    (now stale : ℕ) (db : TenantDb)
    → Refines none db (update (is_stranded now stale) requeue_row db.shards)
unfolding is_stranded
requeue-Refines now stale db = in_place none (is_stranded now stale) requeue_row db (
    All-intro (λ r. is_stranded now stale r ≡ true → RowMove none r (requeue_row r))
      (λ r e.
        let h = (&&-true (is_running r.state) (is_late now stale r) e).0 in
        (refl, (refl, lost r.claimed_by refl (running_phase r.state r.claimed_by r.report h) refl)))
      db.shards)

claim-Refines :
    (locked : ShardRow → Bool) (now : ℕ) (db : TenantDb) (w : Text) (caps : List Text)
    (pin : Option Text) (r : ShardRow)
    → IsValid db
    → next_row locked caps pin db.shards ≡ some r
    → Refines (some w) db (update (has_key r.job_id r.seed) (claim_row w now) db.shards)
unfolding is_claimable
claim-Refines locked now db w caps pin r v e =
    let (m, (c, _)) = next_row_sound locked caps pin db.shards r e in
    let p =
      (&&-true (is_pending r.state) (any (text_eq r.backend) caps)
        (&&-true (is_pending r.state && any (text_eq r.backend) caps) (matches_pin pin r) c).0).0 in
    in_place (some w) (has_key r.job_id r.seed) (claim_row w now) db (
      All-map (λ x. Has x db.shards)
        (λ x. has_key r.job_id r.seed x ≡ true → RowMove (some w) x (claim_row w now x))
        (λ x m' k.
          let same = same_row r x db.shards v.distinct m m' ((has_key_iff r.job_id r.seed x).0 k) in
          (
            refl,
            (
              refl,
              taken w refl (ap phase (sym same) ∙ pending_phase r.state r.claimed_by r.report p)
                  refl,
            ),
          ))
        db.shards (Has-all db.shards))

shards_from-waiting :
    (job : Job) (db : TenantDb) (first n : ℕ)
    → job_exists db job.id ≡ false
    → All
        (λ r. (job_exists db r.job_id ≡ false) × (phase r ≡ waiting))
        (map (shard_row job) (shards_from first n))
unfolding shards_from
shards_from-waiting job db first zero h = tt
shards_from-waiting job db first (suc n) h = ((h, refl), shards_from-waiting job db (suc first) n h)

submit-Refines :
    (uuid now : Text) (spec : JobSpec) (db : TenantDb)
    → Refines none db (or_same db (insert_job db (new_job uuid now spec))).shards
unfolding insert_job new_job
submit-Refines uuid now spec db = elim (Bool-cases (job_exists db uuid)) [
  | inl e ↦ rw e ([], (db.shards, (refl, (tt, RowsMove-refl none db.shards))))
  | inr e ↦ rw e (
    map (shard_row (new_job uuid now spec)) (shards_from 1 spec.seeds),
    (
      db.shards,
      (
        refl,
        (
          shards_from-waiting (new_job uuid now spec) db 1 spec.seeds e,
          RowsMove-refl none db.shards,
        ),
      ),
    ),
  )
]

-- Every statement of the queue does to the shards what the machine allows its worker, and adds only
-- shards that wait: a shard is given to the worker that claims it, only the worker that holds it
-- finishes it, only the sweep takes it away, and a finished shard keeps its outcome.
pub apply-Refines :
    (st : Statement) (db : TenantDb)
    → IsValid db
    → IsPosted st
    → Refines (actor st) db (apply st db).shards
unfolding apply touch_shard requeue_stranded set_shard claim_shard
apply-Refines (submit uuid now spec) db v p = submit-Refines uuid now spec db
apply-Refines (claim locked now w caps pin) db v p =
    elim (Option-cases (next_row locked caps pin db.shards)) [
      | inl e ↦
          subst (λ o. Refines (some w) db (claim_found now db w o).0.shards) (sym e)
            ([], (db.shards, (refl, (tt, RowsMove-refl (some w) db.shards))))
      | inr (r, e) ↦
          subst (λ o. Refines (some w) db (claim_found now db w o).0.shards) (sym e)
            (claim-Refines locked now db w caps pin r v e)
    ]
apply-Refines (touch now job_id seed w) db v p = touch-Refines now job_id seed w db
apply-Refines (requeue now stale) db v p = requeue-Refines now stale db
apply-Refines (set job_id seed w state report duration) db v p =
    set-Refines job_id seed w state report duration db p
