-- ===== src/Jobs/Gather/Tests.antt =====
-- The candidates that src/jobs/worker.rs gathers on concrete queues.
use reproit_cloud.Prelude.Order.SortBy.{sort_by}
use reproit_cloud.Jobs.Worker.{Tenants}
use reproit_cloud.Jobs.Gather.{GatherFaults, gather_candidates}
use reproit_cloud.Jobs.Queue.{TenantDb, empty_db, with_job}
use reproit_cloud.Jobs.Gather.Cleared.{IsEmpty, gather_candidates-clears}
use reproit_cloud.Jobs.Scheduler.{hosted}
use reproit_cloud.Jobs.Spec.{shards_from, new_job}
use reproit_cloud.Prelude.{◌≡◌, refl, false, none, List, [], ◌∷◌}
use reproit_cloud.Prelude.Int.{ℤ, pos}
use reproit_cloud.Text.{text_eq, Text, lit}
use reproit_cloud.Jobs.Queue.Tests.{two_seeds}

abbrev no_fault : GatherFaults
no_fault = record {
  hint_fails = false;
  resolve_fails = λ _. false;
  pending_jobs_fails = λ _. false;
  count_fails = λ _. false;
  clear_fails = λ _. false;
  running_fails = λ _. false;
}

abbrev waiting_db : TenantDb
waiting_db = with_job empty_db (new_job (lit "j1") (lit "t") two_seeds)

abbrev tenants : Tenants
tenants = (pos 7, waiting_db) ∷ (pos 8, empty_db) ∷ []

abbrev web : List Text
web = lit "web" ∷ []

abbrev hint : List ℤ
hint = pos 7 ∷ pos 8 ∷ []

-- The tenant with pending shards keeps its mark, the idle one loses it.
hint_test : (gather_candidates (λ _. none) (pos 0) hosted no_fault web tenants hint).1 ≡ pos 7 ∷ []
unfolding gather_candidates sort_by new_job shards_from text_eq
hint_test = refl

-- Pending work that the worker cannot serve keeps the mark.
other_backend_test :
    (gather_candidates (λ _. none) (pos 0) hosted no_fault (lit "ios" ∷ []) tenants hint).1
    ≡ pos 7 ∷ []
unfolding gather_candidates sort_by new_job shards_from text_eq
other_backend_test = refl

gather_candidates-clears_example : IsEmpty no_fault tenants (pos 8)
unfolding gather_candidates sort_by new_job shards_from text_eq
gather_candidates-clears_example =
    gather_candidates-clears (λ _. none) (pos 0) hosted no_fault web tenants hint (pos 8) refl refl
