-- ===== src/Jobs/Hint/Marks.antt =====
-- When the routing hint of a tenant is right, and when it is not.
use reproit_cloud.Jobs.Queue.Validity.{
  submit, claim, touch, requeue, set, apply, Statement, update-All,
}
use reproit_cloud.Jobs.Queue.{
  claim_shard, ShardRow, pending_shard_count, is_pending, count, touch_shard, set_shard, TenantDb,
  update, next_row, requeue_stranded, claim_found, on_shards, insert_job, has_key, is_stranded,
  claim_row, requeue_row, holds, job_exists, set_row, is_running, shard_row, with_job,
}
use reproit_cloud.Jobs.Hint.{
  mark_failed, count_pending, clear_at_once, IsUndisturbed, worker_statement, route, insert, mark,
  clear, sweep, route_all, RoutingEvent, stale_secs, Routing, IsRouted, or_rejected,
}
use reproit_cloud.Jobs.Queue.Completion.{count-zero}
use reproit_cloud.Jobs.Spec.{validate, new_job, JobSpec, shards_from, Job}
use reproit_cloud.Prelude.{
  ltb, ◌==◌, if◌then◌else◌, Bool-cases, Option-cases, ok, All, ℕ, zero, suc, ◌-◌, ◌<◌, ◌≡◌, refl,
  sym, ap, subst, ◌∙◌, inl, inr, Bool, true, false, some, List, [], ◌∷◌, ◌++◌, map, arith,
}
use reproit_cloud.Text.{Text}

-- No statement of a worker makes a shard pending.
worker-none_pending :
    (st : Statement) (db : TenantDb)
    → IsUndisturbed (worker_statement st)
    → All (λ r. is_pending r.state ≡ false) db.shards
    → All (λ r. is_pending r.state ≡ false) (apply st db).shards
unfolding apply claim_shard touch_shard set_shard
worker-none_pending (submit uuid now spec) db u h = absurd u
worker-none_pending (claim locked now w caps pin) db u h =
    elim (Option-cases (next_row locked caps pin db.shards)) [
      | inl e ↦
          subst (λ o. All (λ r. is_pending r.state ≡ false) (claim_found now db w o).0.shards)
            (sym e) h
      | inr (r, e) ↦
          subst (λ o. All (λ r. is_pending r.state ≡ false) (claim_found now db w o).0.shards)
            (sym e)
            (update-All (λ r. is_pending r.state ≡ false) (has_key r.job_id r.seed)
              (claim_row w now) (λ x _. refl) db.shards h)
    ]
worker-none_pending (touch now job_id seed w) db u h =
    update-All (λ r. is_pending r.state ≡ false) (holds job_id seed w)
      (λ r. record r { heartbeat_at = some now }) (λ x k. k) db.shards h
worker-none_pending (requeue now stale) db u h = absurd u
worker-none_pending (set job_id seed w state report duration) db u h =
    update-All (λ r. is_pending r.state ≡ false) (holds job_id seed w)
      (set_row state report duration) (λ x k. u) db.shards h

worker-pending :
    (st : Statement) (db : TenantDb)
    → IsUndisturbed (worker_statement st)
    → ltb 0 (pending_shard_count (apply st db)) ≡ true
    → ltb 0 (pending_shard_count db) ≡ true
unfolding pending_shard_count
worker-pending st db u h = elim (Bool-cases (ltb 0 (count (λ r. is_pending r.state) db.shards))) [
  | inl e ↦ e
  | inr e ↦
      let after =
        (count-zero (λ r. is_pending r.state) (apply st db).shards).1
          (worker-none_pending st db u ((count-zero (λ r. is_pending r.state) db.shards).0 e)) in
      absurd (ground (arith, h, after))
]

-- A sweep that moves no shard leaves the pending count as it is.
update_same :
    (test : ShardRow → Bool) (change : ShardRow → ShardRow) (rows : List ShardRow)
    → All (λ r. test r ≡ false) rows
    → update test change rows ≡ rows
unfolding update
update_same test change [] h = refl
update_same test change (r ∷ rows) (h, hs) =
    rw h (ap (λ rs. r ∷ rs) (update_same test change rows hs))

-- A sweep that moves no shard leaves the shards as they are.
sweep_none :
    (now : ℕ) (db : TenantDb)
    → ltb 0 (requeue_stranded now db stale_secs).1 ≡ false
    → (requeue_stranded now db stale_secs).0 ≡ db
unfolding requeue_stranded
sweep_none now db h = ap (on_shards db) (
    update_same (is_stranded now stale_secs) requeue_row db.shards
      ((count-zero (is_stranded now stale_secs) db.shards).0 h))

ltb-suc : (n : ℕ) → ltb 0 (suc n) ≡ true
ltb-suc n = ground arith

route-IsRouted :
    (e : RoutingEvent) (r : Routing) → IsUndisturbed e → IsRouted r → IsRouted (route e r)
unfolding route
route-IsRouted (worker_statement st) r u h = λ p. h (worker-pending st r.db u p)
route-IsRouted (insert uuid now spec) r u h =
    elim (Option-cases (insert_job r.db (new_job uuid now spec))) [
      | inl e ↦ subst (λ o. IsRouted (or_rejected r o)) (sym e) h
      | inr (db, e) ↦ subst (λ o. IsRouted (or_rejected r o)) (sym e) (λ _. inr (ltb-suc r.owed))
    ]
route-IsRouted (sweep now) r u h =
    let moved = requeue_stranded now r.db stale_secs in
    elim (Bool-cases (ltb 0 moved.1)) [
      | inl e ↦
          subst
            (λ t. IsRouted (
              if t
              then record r { db = moved.0; owed = suc r.owed }
              else record r { db = moved.0 }))
            (sym e) (λ _. inr (ltb-suc r.owed))
      | inr e ↦
          subst
            (λ t. IsRouted (
              if t
              then record r { db = moved.0; owed = suc r.owed }
              else record r { db = moved.0 }))
            (sym e) (subst (λ d. IsRouted (record r { db = d })) (sym (sweep_none now r.db e)) h)
    ]
route-IsRouted mark r u h = elim (Bool-cases (ltb 0 r.owed)) [
  | inl e ↦ rw e (λ _. inl refl)
  | inr e ↦ rw e h
]
route-IsRouted mark_failed r u h = absurd u
route-IsRouted count_pending r u h = absurd u
route-IsRouted clear r u h = absurd u
route-IsRouted clear_at_once r u h = elim (Bool-cases (pending_shard_count r.db == 0)) [
  | inl e ↦ rw e (λ p. absurd (ground (arith, e, p)))
  | inr e ↦ rw e h
]

-- A tenant with a pending shard is marked, or a request is about to mark it, after any run in which no
-- mark fails and no request comes between the count and the clear of a claim.
pub route_all-IsRouted :
    (es : List RoutingEvent) (r : Routing)
    → All IsUndisturbed es
    → IsRouted r
    → IsRouted (route_all es r)
unfolding route_all
route_all-IsRouted [] r u h = h
route_all-IsRouted (e ∷ es) r (u, us) h =
    route_all-IsRouted es (route e r) us (route-IsRouted e r u h)

new_shards-pending :
    (job : Job) (n : ℕ) (rows : List ShardRow)
    → 0 < n
    → 0 < count (λ r. is_pending r.state) (map (shard_row job) (shards_from 1 n) ++ rows)
unfolding count shards_from
new_shards-pending job zero rows h = absurd (omega arith)
new_shards-pending job (suc n) rows h = omega arith

validate-seeds : (spec : JobSpec) → validate spec ≡ ok tt → 0 < spec.seeds
unfolding validate
validate-seeds spec h = ground (arith, h)

count_lem :
    (r : Routing)
    → pending_shard_count r.db ≡ 0
    → route count_pending r ≡ record r { emptied = suc r.emptied }
unfolding route
count_lem r h = rw h refl

insert_lem :
    (uuid now : Text) (spec : JobSpec) (r : Routing)
    → job_exists r.db uuid ≡ false
    → route (insert uuid now spec) r
      ≡ record r { db = with_job r.db (new_job uuid now spec); owed = suc r.owed }
unfolding route insert_job new_job
insert_lem uuid now spec r h = rw h refl

mark_lem :
    (r : Routing)
    → ltb 0 r.owed ≡ true
    → route mark r ≡ record r { marked = true; owed = r.owed - 1 }
unfolding route
mark_lem r h = rw h refl

clear_lem :
    (r : Routing)
    → ltb 0 r.emptied ≡ true
    → route clear r ≡ record r { marked = false; emptied = r.emptied - 1 }
unfolding route
clear_lem r h = rw h refl

-- A submission between the two statements of a claim that found nothing: the tenant then has pending
-- shards, is not marked, and no mark is owed, for any valid job with a new id, any tenant without a
-- pending shard.
pub clear_races :
    (uuid now : Text) (spec : JobSpec) (r : Routing)
    → validate spec ≡ ok tt
    → job_exists r.db uuid ≡ false
    → pending_shard_count r.db ≡ 0
    → r.owed ≡ 0
    → let after = route_all (count_pending ∷ insert uuid now spec ∷ mark ∷ clear ∷ []) r in
      (after.marked ≡ false) × ((after.owed ≡ 0) × (0 < pending_shard_count after.db))
unfolding route_all new_job pending_shard_count
clear_races uuid now spec r v fresh empty owed =
    let job = new_job uuid now spec in
    let inserted : Routing = record {
      db = with_job r.db job;
      marked = r.marked;
      owed = suc r.owed;
      emptied = suc r.emptied;
    } in
    let to_insert =
      ap (route (insert uuid now spec)) (count_lem r empty)
      ∙ insert_lem uuid now spec (record r { emptied = suc r.emptied }) fresh in
    let to_mark = ap (route mark) to_insert ∙ mark_lem inserted (ltb-suc r.owed) in
    let to_clear =
      ap (route clear) to_mark
      ∙ clear_lem (record inserted { marked = true; owed = suc r.owed - 1 }) (ltb-suc r.emptied) in
    subst
      (λ after.
        (after.marked ≡ false)
        × ((after.owed ≡ 0) × (0 < count (λ r. is_pending r.state) after.db.shards)))
      (sym to_clear)
      (refl, (omega arith, new_shards-pending job spec.seeds r.db.shards (validate-seeds spec v)))

-- What goes on without a new submission: workers, sweeps, and the claims' counts and clears.
abbrev pub IsRoutine : RoutingEvent → Type 0
IsRoutine (worker_statement st) = ⊥
IsRoutine (insert uuid now spec) = ⊥
IsRoutine (sweep now) = Unit {0}
IsRoutine mark = Unit {0}
IsRoutine mark_failed = Unit {0}
IsRoutine count_pending = Unit {0}
IsRoutine clear = Unit {0}
IsRoutine clear_at_once = Unit {0}

-- No shard runs, the tenant is not marked and no mark is owed.
abbrev pub IsForgotten : Routing → Type 0
IsForgotten r =
    All (λ x. is_running x.state ≡ false) r.db.shards × ((r.marked ≡ false) × (r.owed ≡ 0))

none_stranded :
    (now : ℕ) (rows : List ShardRow)
    → All (λ x. is_running x.state ≡ false) rows
    → All (λ x. is_stranded now stale_secs x ≡ false) rows
unfolding is_stranded
none_stranded now [] h = tt
none_stranded now (x ∷ rows) (h, hs) = (rw h refl, none_stranded now rows hs)

sweep-forgotten :
    (now : ℕ) (r : Routing)
    → All (λ x. is_running x.state ≡ false) r.db.shards
    → route (sweep now) r ≡ r
unfolding route requeue_stranded
sweep-forgotten now r h =
    let zero =
      (count-zero (is_stranded now stale_secs) r.db.shards).1 (none_stranded now r.db.shards h) in
    let same = sweep_none now r.db zero in
    subst
      (λ t.
        (if t
          then record r { db = (requeue_stranded now r.db stale_secs).0; owed = suc r.owed }
          else record r { db = (requeue_stranded now r.db stale_secs).0 })
        ≡ r)
      (sym zero) (ap (λ d. record r { db = d }) same)

IsForgotten-step :
    (e : RoutingEvent) (r : Routing)
    → IsRoutine e
    → IsForgotten r
    → IsForgotten (route e r) × ((route e r).db ≡ r.db)
unfolding route
IsForgotten-step (worker_statement st) r i f = absurd i
IsForgotten-step (insert uuid now spec) r i f = absurd i
IsForgotten-step (sweep now) r i f =
    subst (λ s. IsForgotten s × (s.db ≡ r.db)) (sym (sweep-forgotten now r f.0)) (f, refl)
IsForgotten-step mark r i (n, (m, o)) =
    let e : ltb 0 r.owed ≡ false = ground (arith, o) in rw e ((n, (m, o)), refl)
IsForgotten-step mark_failed r i (n, (m, o)) = ((n, (m, omega arith)), refl)
IsForgotten-step count_pending r i f = elim (Bool-cases (pending_shard_count r.db == 0)) [
  | inl e ↦ rw e (f, refl)
  | inr e ↦ rw e (f, refl)
]
IsForgotten-step clear r i (n, (m, o)) = elim (Bool-cases (ltb 0 r.emptied)) [
  | inl e ↦ rw e ((n, (refl, o)), refl)
  | inr e ↦ rw e ((n, (m, o)), refl)
]
IsForgotten-step clear_at_once r i (n, (m, o)) = elim (Bool-cases (pending_shard_count r.db == 0)) [
  | inl e ↦ rw e ((n, (refl, o)), refl)
  | inr e ↦ rw e ((n, (m, o)), refl)
]

-- A tenant that is not marked, of which no shard runs and no mark is owed, is not marked by any run of
-- sweeps, counts and clears, and its queue stays as it is: only another submission marks it.
pub forgotten_stays :
    (es : List RoutingEvent) (r : Routing)
    → All IsRoutine es
    → IsForgotten r
    → ((route_all es r).marked ≡ false) × ((route_all es r).db ≡ r.db)
unfolding route_all
forgotten_stays [] r i (n, (m, o)) = (m, refl)
forgotten_stays (e ∷ es) r (i, is) f =
    let (f', same) = IsForgotten-step e r i f in
    let (m, rest) = forgotten_stays es (route e r) is f' in (m, rest ∙ same)
