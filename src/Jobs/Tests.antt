-- ===== src/Jobs/Tests.antt =====
-- The scheduler of src/jobs/scheduler.rs on concrete queues.
use mathlib.Core.List.{Perm}
use reproit_cloud.Prelude.Order.SortBy.{sort_by}
use reproit_cloud.Jobs.Scheduler.{
  key_ord, claim_score, claim_order, Candidate, Class, batch, interactive, mac, may_claim,
}
use reproit_cloud.Text.{Text, lit}
use reproit_cloud.Jobs.Scheduler.Order.{claim_order_lem, claimable, AreInOrder}
use reproit_cloud.Prelude.Int.{ℤ, ◌+ℤ◌, ◌-ℤ◌, pos}
use reproit_cloud.Prelude.{ℕ, ◌≡◌, refl, List, [], ◌∷◌, arith}

abbrev waiting : Text → Class → ℕ → ℕ → Candidate
waiting tenant class running cap = record {
  tenant = tenant;
  tier = mac;
  class = class;
  deadline_unix = pos 5000;
  tenant_running = running;
  tenant_fair_share = 1;
  tenant_lane_cap = cap;
}

abbrev queue : List Candidate
queue =
    waiting (lit "a") batch 0 4
    ∷ waiting (lit "b") interactive 4 4
    ∷ waiting (lit "c") interactive 2 4
    ∷ []

-- Small numbers are not rounded.
abbrev unrounded : ℤ → ℤ
unrounded z = z

-- The interactive run jumps ahead, and the tenant at its cap is left out.
order_test : claim_order unrounded queue (pos 1000) ≡ 2 ∷ 0 ∷ []
unfolding claim_order sort_by may_claim claim_score ◌+ℤ◌ ◌-ℤ◌
order_test = refl

claim_order_lem_example :
    Perm (claim_order unrounded queue (pos 1000)) (claimable 0 queue)
    × AreInOrder queue (claim_order unrounded queue (pos 1000))
claim_order_lem_example =
    claim_order_lem unrounded (λ z _. refl) queue (pos 1000)
      (
        record { near = omega arith; not_late = omega arith; running = omega arith },
        (
          record { near = omega arith; not_late = omega arith; running = omega arith },
          (record { near = omega arith; not_late = omega arith; running = omega arith }, tt),
        ),
      )
