-- ===== src/Jobs/Gather/Cleared.antt =====
-- Which tenants `gather_candidates` of src/jobs/worker.rs takes off the routing hint.
use reproit_cloud.Jobs.Scheduler.{SchedulerConfig}
use reproit_cloud.Jobs.Worker.{same_org, Tenants}
use reproit_cloud.Jobs.Gather.{
  gather_none, clear_tenant_pending, GatherFaults, gather_jobs, gather_loop, gather_candidates,
  Gathered, store_of, PendingJob, gathered_from, gather_found, gather_store, gather_result,
  pending_jobs,
}
use reproit_cloud.Jobs.Queue.{TenantDb, pending_shard_count}
use reproit_cloud.Prelude.{
  ◌==◌, if◌then◌else◌, ==_iff, Bool-cases, &&-true, ||-false, any, ◌≡◌, refl, sym, subst, ◌∙◌, inl,
  inr, Bool, true, false, not, ◌&&◌, ◌||◌, Option, none, some, List, [], ◌∷◌, arith,
}
use reproit_cloud.Prelude.Int.{ℤ, eq_int_iff}
use reproit_cloud.Text.{Text}

abbrev pub in_hint : ℤ → List ℤ → Bool
in_hint org_id = any (λ o. same_org o org_id)

-- The tenant resolves, and its fresh count of pending shards is zero.
abbrev pub IsEmpty : GatherFaults → Tenants → ℤ → Type 0
IsEmpty faults tenants org_id =
    (db : TenantDb) × ((store_of faults tenants org_id ≡ some db) × (pending_shard_count db ≡ 0))

abbrev OnlyEmpty : GatherFaults → Tenants → List ℤ → List ℤ → Type 0
OnlyEmpty faults tenants hint hint' =
    (org_id : ℤ)
    → in_hint org_id hint ≡ true
    → in_hint org_id hint' ≡ false
    → IsEmpty faults tenants org_id

clear-in_hint :
    (org_id k : ℤ) (hint : List ℤ)
    → in_hint k hint ≡ true
    → in_hint k (clear_tenant_pending org_id hint) ≡ false
    → org_id ≡ k
unfolding clear_tenant_pending
clear-in_hint org_id k [] h c = absurd (ground arith)
clear-in_hint org_id k (o ∷ hint) h c = elim (Bool-cases (same_org o org_id)) [
  | inl e ↦ elim (Bool-cases (same_org o k)) [
    | inl f ↦ sym ((eq_int_iff o org_id).0 e) ∙ (eq_int_iff o k).0 f
    | inr f ↦ clear-in_hint org_id k hint (subst (λ t. (t || in_hint k hint) ≡ true) f h) (
        subst
          (λ t.
            in_hint k
              (if t then clear_tenant_pending org_id hint else o ∷ clear_tenant_pending org_id hint)
            ≡ false)
          e c)
  ]
  | inr e ↦
      let c' =
        subst
          (λ t.
            in_hint k
              (if t then clear_tenant_pending org_id hint else o ∷ clear_tenant_pending org_id hint)
            ≡ false)
          e c in
      let (f, g) = ||-false (same_org o k) (in_hint k (clear_tenant_pending org_id hint)) c' in
      clear-in_hint org_id k hint (subst (λ t. (t || in_hint k hint) ≡ true) f h) g
]

same-OnlyEmpty :
    (faults : GatherFaults) (tenants : Tenants) (hint : List ℤ) → OnlyEmpty faults tenants hint hint
same-OnlyEmpty faults tenants hint = λ org_id h c. absurd (ground (arith, h, c))

gather_none-OnlyEmpty :
    (faults : GatherFaults) (tenants : Tenants) (org_id : ℤ) (db : TenantDb) (g : Gathered)
    → store_of faults tenants org_id ≡ some db
    → OnlyEmpty faults tenants g.hint (gather_none faults org_id db g).hint
unfolding gather_none
gather_none-OnlyEmpty faults tenants org_id db g stored =
    let test =
      not (faults.count_fails org_id)
      && pending_shard_count db == 0
      && not (faults.clear_fails org_id) in
    elim (Bool-cases test) [
      | inr e ↦
          subst
            (λ t.
              OnlyEmpty faults tenants g.hint
                (if t then record g { hint = clear_tenant_pending org_id g.hint } else g).hint)
            (sym e) (same-OnlyEmpty faults tenants g.hint)
      | inl e ↦
          let zero = (==_iff (pending_shard_count db) 0).0 (
            (&&-true (not (faults.count_fails org_id)) (pending_shard_count db == 0)
              (&&-true (not (faults.count_fails org_id) && pending_shard_count db == 0)
                (not (faults.clear_fails org_id)) e).0).1) in
          subst
            (λ t.
              OnlyEmpty faults tenants g.hint
                (if t then record g { hint = clear_tenant_pending org_id g.hint } else g).hint)
            (sym e)
            (λ k h c.
              subst (IsEmpty faults tenants) (clear-in_hint org_id k g.hint h c)
                (db, (stored, zero)))
    ]

result-OnlyEmpty :
    (faults : GatherFaults) (tenants : Tenants) (fails : Bool) (hint : List ℤ) (g : Gathered)
    → OnlyEmpty faults tenants hint g.hint
    → OnlyEmpty faults tenants hint (gather_result fails hint g).1
result-OnlyEmpty faults tenants true hint g h = same-OnlyEmpty faults tenants hint
result-OnlyEmpty faults tenants false hint g h = h

-- Every argument of the loop but the tenants and the hint.
module _ (parse_time : Text → Option ℤ) (now : ℤ) (cfg : SchedulerConfig) (faults : GatherFaults)
    (caps : List Text) (tenants : Tenants) where
  found-OnlyEmpty :
      (org_id : ℤ) (db : TenantDb) (jobs : List PendingJob) (g : Gathered)
      → store_of faults tenants org_id ≡ some db
      → OnlyEmpty faults tenants g.hint
          (gather_found parse_time now cfg faults org_id db jobs g).hint
  unfolding gather_jobs
  found-OnlyEmpty org_id db [] g stored = gather_none-OnlyEmpty faults tenants org_id db g stored
  found-OnlyEmpty org_id db (job ∷ jobs) g stored = same-OnlyEmpty faults tenants g.hint

  store-OnlyEmpty :
      (org_id : ℤ) (o : Option TenantDb) (g : Gathered)
      → store_of faults tenants org_id ≡ o
      → OnlyEmpty faults tenants g.hint
          (gather_store parse_time now cfg faults caps org_id o g).hint
  store-OnlyEmpty org_id none g stored = same-OnlyEmpty faults tenants g.hint
  store-OnlyEmpty org_id (some db) g stored = elim (Bool-cases (faults.pending_jobs_fails org_id)) [
    | inl e ↦
        subst
          (λ t.
            OnlyEmpty faults tenants g.hint
              (if t
                then g
                else gather_found parse_time now cfg faults org_id db (pending_jobs db caps)
                    g).hint)
          (sym e) (same-OnlyEmpty faults tenants g.hint)
    | inr e ↦
        subst
          (λ t.
            OnlyEmpty faults tenants g.hint
              (if t
                then g
                else gather_found parse_time now cfg faults org_id db (pending_jobs db caps)
                    g).hint)
          (sym e) (found-OnlyEmpty org_id db (pending_jobs db caps) g stored)
  ]

  loop-OnlyEmpty :
      (org_ids : List ℤ) (g : Gathered)
      → OnlyEmpty faults tenants g.hint
          (gather_loop parse_time now cfg faults caps tenants org_ids g).hint
  unfolding gather_loop
  loop-OnlyEmpty [] g = same-OnlyEmpty faults tenants g.hint
  loop-OnlyEmpty (org_id ∷ org_ids) g = λ k h c.
      let g' =
        gather_store parse_time now cfg faults caps org_id (store_of faults tenants org_id) g in
      elim (Bool-cases (in_hint k g'.hint)) [
        | inl e ↦ loop-OnlyEmpty org_ids g' k e c
        | inr e ↦ store-OnlyEmpty org_id (store_of faults tenants org_id) g refl k h e
      ]

  -- A claim takes a tenant off the routing hint only if the tenant resolves and has no pending shard
  -- at all, even one that the worker could not serve, whichever statements fail.
  pub gather_candidates-clears :
      (hint : List ℤ) (org_id : ℤ)
      → in_hint org_id hint ≡ true
      → in_hint org_id (gather_candidates parse_time now cfg faults caps tenants hint).1 ≡ false
      → IsEmpty faults tenants org_id
  unfolding gather_candidates
  gather_candidates-clears hint org_id h c =
      result-OnlyEmpty faults tenants faults.hint_fails hint
        (gather_loop parse_time now cfg faults caps tenants hint (gathered_from hint))
        (loop-OnlyEmpty hint (gathered_from hint)) org_id h c
