-- ===== src/Jobs/Queue/Completion.antt =====
-- When a job is finished: `maybe_finalize` of src/jobs/worker.rs reads the shards and writes the job
-- in two statements, between which any statement of another request may run.
use reproit_cloud.Jobs.Spec.{ShardState}
use reproit_cloud.Jobs.Queue.{count, ShardRow, job_incomplete, TenantDb, job_exists, is_open}
use reproit_cloud.Jobs.Queue.Lifecycle.{
  Phase, RowsMove, phase_of, Move, RowMove, phase, waiting, apply-Refines, held, done, stay, taken,
  lost, finished,
}
use reproit_cloud.Jobs.Queue.Validity.{Statement, IsValid, IsPosted, actor, apply}
use reproit_cloud.Text.Compare.{text_eq_iff}
use reproit_cloud.Prelude.{
  ltb, Bool-cases, All, ◌≡◌, refl, sym, ap, subst, ◌∙◌, ◌↔◌, inl, inr, Bool, true, false, ◌&&◌,
  Option, List, [], ◌∷◌, ◌++◌, arith,
}
use reproit_cloud.Text.{Text, text_eq}

abbrev is_open_phase : Phase → Bool
is_open_phase waiting = true
is_open_phase (held w) = true
is_open_phase (done s report) = is_open s

is_open_phase_lem :
    (s : ShardState) (w report : Option Text) → is_open_phase (phase_of s w report) ≡ is_open s
is_open_phase_lem s w report = ground arith

Move-closed :
    (who : Option Text) (p q : Phase)
    → Move who p q
    → is_open_phase p ≡ false
    → is_open_phase q ≡ false
Move-closed who p q (stay e) h = ap is_open_phase (sym e) ∙ h
Move-closed who p q (taken w a e f) h =
    let clash = ap is_open_phase (sym e) ∙ h in absurd (ground arith)
Move-closed who p q (lost w a e f) h =
    let clash = ap is_open_phase (sym e) ∙ h in absurd (ground arith)
Move-closed who p q (finished w s report a e c f) h = ap is_open_phase f ∙ c

-- `job_id = $1 AND state IN ('pending','running')`
abbrev pub is_open_of : Text → ShardRow → Bool
is_open_of job_id r = text_eq r.job_id job_id && is_open r.state

and_false : (a b : Bool) → b ≡ false → (a && b) ≡ false
and_false a b h = ground arith

rowmove-closed :
    (who : Option Text) (job_id : Text) (r r' : ShardRow)
    → RowMove who r r'
    → is_open_of job_id r ≡ false
    → is_open_of job_id r' ≡ false
rowmove-closed who job_id r r' (k, (_, m)) h = elim (Bool-cases (text_eq r.job_id job_id)) [
  | inl e ↦
      let c =
        is_open_phase_lem r.state r.claimed_by r.report
        ∙ subst (λ t. (t && is_open r.state) ≡ false) e h in
      let d =
        sym (is_open_phase_lem r'.state r'.claimed_by r'.report)
        ∙ Move-closed who (phase r) (phase r') m c in
      and_false (text_eq r'.job_id job_id) (is_open r'.state) d
  | inr e ↦
      let other = ap (λ p. text_eq p.0 job_id) (sym k) ∙ e in
      subst (λ t. (t && is_open r'.state) ≡ false) (sym other) refl
]

-- No row of the table passes the test.
pub count-zero :
    (test : ShardRow → Bool) (rows : List ShardRow)
    → (ltb 0 (count test rows) ≡ false) ↔ All (λ r. test r ≡ false) rows
unfolding count
count-zero test [] = ((λ _. tt), λ _. refl)
count-zero test (r ∷ rows) =
    let (to, from) = count-zero test rows in
    elim (Bool-cases (test r)) [
      | inl e ↦ ((λ h. ground (arith, e)), λ (k, _). absurd (ground arith))
      | inr e ↦ ((λ h. (e, to (ground (arith, e)))), λ (_, k). let f = from k in ground (arith, e))
    ]

rows-closed :
    (who : Option Text) (job_id : Text) (rows rows' : List ShardRow)
    → RowsMove who rows rows'
    → All (λ r. is_open_of job_id r ≡ false) rows
    → All (λ r. is_open_of job_id r ≡ false) rows'
rows-closed who job_id [] [] m h = tt
rows-closed who job_id [] (_ ∷ _) m h = absurd m
rows-closed who job_id (_ ∷ _) [] m h = absurd m
rows-closed who job_id (r ∷ rows) (r' ∷ rows') (m, ms) (h, hs) =
    (rowmove-closed who job_id r r' m h, rows-closed who job_id rows rows' ms hs)

fresh-closed :
    (db : TenantDb) (job_id : Text) (fresh rows : List ShardRow)
    → job_exists db job_id ≡ true
    → All (λ r. (job_exists db r.job_id ≡ false) × (phase r ≡ waiting)) fresh
    → All (λ r. is_open_of job_id r ≡ false) rows
    → All (λ r. is_open_of job_id r ≡ false) (fresh ++ rows)
fresh-closed db job_id [] rows e f h = h
fresh-closed db job_id (r ∷ fresh) rows e ((new, _), f) h = (
  elim (Bool-cases (text_eq r.job_id job_id)) [
    | inl same ↦
        let clash = sym new ∙ (ap (job_exists db) ((text_eq_iff r.job_id job_id).0 same) ∙ e) in
        absurd (ground arith)
    | inr other ↦ rw other refl
  ],
  fresh-closed db job_id fresh rows e f h,
)

-- A job of the table without an open shard stays so under every statement: no shard is opened again.
pub apply_complete :
    (st : Statement) (db : TenantDb) (job_id : Text)
    → IsValid db
    → IsPosted st
    → job_exists db job_id ≡ true
    → job_incomplete db job_id ≡ false
    → job_incomplete (apply st db) job_id ≡ false
unfolding job_incomplete
apply_complete st db job_id v p e h =
    let (fresh, (moved, (same, (new, m)))) = apply-Refines st db v p in
    (count-zero (is_open_of job_id) (apply st db).shards).1 (
      subst (All (λ r. is_open_of job_id r ≡ false)) (sym same) (
        fresh-closed db job_id fresh moved e new (
          rows-closed (actor st) job_id db.shards moved m
            ((count-zero (is_open_of job_id) db.shards).0 h))))
