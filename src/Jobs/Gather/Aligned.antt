-- ===== src/Jobs/Gather/Aligned.antt =====
-- The candidates and the targets of `gather_candidates` in src/jobs/worker.rs stand in parallel: the
-- scheduler orders indices of the one, and `claim_first` reads the other at them.
use reproit_cloud.Jobs.Gather.{
  PerTier, GatherFaults, ClaimTarget, gather_jobs, gather_candidates, gather_loop, gather_none,
  Gathered, store_of, PendingJob, candidate, fill_share, gathered_from, gather_result, gather_found,
  gather_store, pending_jobs, clear_tenant_pending, idle, tier_running, running_by_backend,
}
use reproit_cloud.Jobs.Scheduler.{SchedulerConfig, Candidate}
use reproit_cloud.Jobs.Worker.{Tenants}
use reproit_cloud.Text.Signed.{print_i64}
use reproit_cloud.Jobs.Queue.{TenantDb, pending_shard_count}
use reproit_cloud.Prelude.{
  ◌==◌, if◌then◌else◌, Bool-cases, ℕ, ◌≡◌, refl, sym, subst, inl, inr, Bool, true, false, not, ◌&&◌,
  Option, none, some, List, [], ◌∷◌, ◌++◌, map, arith, some_eq,
}
use reproit_cloud.Prelude.Int.{ℤ}
use reproit_cloud.Text.{Text}

-- Candidate by candidate, the target at the same index is of the candidate's tenant.
abbrev pub Aligned : List Candidate → List ClaimTarget → Type 0
Aligned [] [] = Unit {0}
Aligned [] (_ ∷ _) = ⊥
Aligned (_ ∷ _) [] = ⊥
Aligned (c ∷ cands) (t ∷ targets) = (c.tenant ≡ print_i64 t.org_id) × Aligned cands targets

append-Aligned :
    (cs ds : List Candidate) (ts us : List ClaimTarget)
    → Aligned cs ts
    → Aligned ds us
    → Aligned (cs ++ ds) (ts ++ us)
append-Aligned [] ds [] us h k = k
append-Aligned [] ds (_ ∷ _) us h k = absurd h
append-Aligned (_ ∷ _) ds [] us h k = absurd h
append-Aligned (c ∷ cs) ds (t ∷ ts) us (e, h) k = (e, append-Aligned cs ds ts us h k)

fill-Aligned :
    (total : PerTier) (n : ℕ) (cs : List Candidate) (ts : List ClaimTarget)
    → Aligned cs ts
    → Aligned (map (fill_share total n) cs) ts
fill-Aligned total n [] [] h = tt
fill-Aligned total n [] (_ ∷ _) h = absurd h
fill-Aligned total n (_ ∷ _) [] h = absurd h
fill-Aligned total n (c ∷ cs) (t ∷ ts) (e, h) = (e, fill-Aligned total n cs ts h)

result-Aligned :
    (fails : Bool) (hint : List ℤ) (g : Gathered)
    → Aligned g.cands g.targets
    → (cands : List Candidate) (targets : List ClaimTarget)
    → (gather_result fails hint g).0 ≡ some (cands, targets)
    → Aligned cands targets
result-Aligned true hint g a cands targets h = absurd (ground arith)
result-Aligned false hint g a cands targets h =
    let both = some_eq h in
    subst (λ (p : List Candidate × List ClaimTarget). Aligned p.0 p.1) both
      (fill-Aligned g.running_total g.tenants_active g.cands g.targets a)

module _ (parse_time : Text → Option ℤ) (now : ℤ) (cfg : SchedulerConfig) (faults : GatherFaults)
    (caps : List Text) (tenants : Tenants) where
  jobs-Aligned :
      (org_id : ℤ) (counts : PerTier) (jobs : List PendingJob)
      → Aligned
          (map (candidate parse_time now cfg org_id counts) jobs)
          (map (λ job. record { org_id = org_id; job_id = job.job_id }) jobs)
  unfolding candidate
  jobs-Aligned org_id counts [] = tt
  jobs-Aligned org_id counts (job ∷ jobs) = (refl, jobs-Aligned org_id counts jobs)

  found-Aligned :
      (org_id : ℤ) (db : TenantDb) (jobs : List PendingJob) (g : Gathered)
      → Aligned g.cands g.targets
      → let g' = gather_found parse_time now cfg faults org_id db jobs g in
        Aligned g'.cands g'.targets
  unfolding gather_jobs gather_none
  found-Aligned org_id db [] g h =
      let test =
        not (faults.count_fails org_id)
        && pending_shard_count db == 0
        && not (faults.clear_fails org_id) in
      elim (Bool-cases test) [
        | inl e ↦
            subst
              (λ t.
                let g' = if t then record g { hint = clear_tenant_pending org_id g.hint } else g in
                Aligned g'.cands g'.targets)
              (sym e) h
        | inr e ↦
            subst
              (λ t.
                let g' = if t then record g { hint = clear_tenant_pending org_id g.hint } else g in
                Aligned g'.cands g'.targets)
              (sym e) h
      ]
  found-Aligned org_id db (job ∷ jobs) g h = append-Aligned g.cands _ g.targets _ h (
      jobs-Aligned org_id
        (if faults.running_fails org_id then idle else tier_running (running_by_backend db) idle)
        (job ∷ jobs))

  store-Aligned :
      (org_id : ℤ) (o : Option TenantDb) (g : Gathered)
      → Aligned g.cands g.targets
      → let g' = gather_store parse_time now cfg faults caps org_id o g in
        Aligned g'.cands g'.targets
  store-Aligned org_id none g h = h
  store-Aligned org_id (some db) g h = elim (Bool-cases (faults.pending_jobs_fails org_id)) [
    | inl e ↦
        subst
          (λ t.
            let g' =
              if t
              then g
              else gather_found parse_time now cfg faults org_id db (pending_jobs db caps) g in
            Aligned g'.cands g'.targets)
          (sym e) h
    | inr e ↦
        subst
          (λ t.
            let g' =
              if t
              then g
              else gather_found parse_time now cfg faults org_id db (pending_jobs db caps) g in
            Aligned g'.cands g'.targets)
          (sym e) (found-Aligned org_id db (pending_jobs db caps) g h)
  ]

  loop-Aligned :
      (org_ids : List ℤ) (g : Gathered)
      → Aligned g.cands g.targets
      → let g' = gather_loop parse_time now cfg faults caps tenants org_ids g in
        Aligned g'.cands g'.targets
  unfolding gather_loop
  loop-Aligned [] g h = h
  loop-Aligned (org_id ∷ org_ids) g h =
      loop-Aligned org_ids _ (store-Aligned org_id (store_of faults tenants org_id) g h)

  -- The target at the index of a candidate is of the candidate's tenant, and there are as many targets
  -- as candidates, whichever statements fail.
  pub gather_candidates-Aligned :
      (hint : List ℤ) (cands : List Candidate) (targets : List ClaimTarget)
      → (gather_candidates parse_time now cfg faults caps tenants hint).0 ≡ some (cands, targets)
      → Aligned cands targets
  unfolding gather_candidates
  gather_candidates-Aligned hint cands targets h =
      result-Aligned faults.hint_fails hint
        (gather_loop parse_time now cfg faults caps tenants hint (gathered_from hint))
        (loop-Aligned hint (gathered_from hint) tt) cands targets h
