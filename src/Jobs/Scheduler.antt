-- ===== src/Jobs/Scheduler.antt =====
-- src/jobs/scheduler.rs: which pending work a worker tries next. The scores of the source are `f64`
-- sums of whole numbers: integers here, and `round`, an argument, is the rounding of a whole number to
-- the nearest one that `f64` holds. The difference of two `i64` times wraps, as in a release build.
pub mod Urgency
pub mod Order
use reproit_cloud.Prelude.{
  ltb, leb, ◌==◌, if◌then◌else◌, ℕ, zero, suc, ◌+◌, ◌-◌, ◌*◌, ◌/◌, ◌%◌, ◌^◌, Bool, true, false, not,
  ◌||◌, Option, none, some, List, [], ◌∷◌, map,
}
use reproit_cloud.Prelude.Int.{ℤ, pos, negsuc, ◌+ℤ◌, ◌-ℤ◌, min_int, int_ord}
use reproit_cloud.Prelude.Order.{Ord, ord_pair}
use reproit_cloud.Prelude.Order.SortBy.{sort_by}
use reproit_cloud.Text.{Text, lit, text_eq}
use reproit_cloud.Text.Compare.{text_ord}

pub data Tier : Type 0 where
  elastic mac : Tier

unfoldable pub tier : Text → Tier
tier backend = if text_eq backend (lit "ios") then mac else elastic

pub data Class : Type 0 where
  interactive batch : Class

abbrev pub interactive_shard_max : ℕ
interactive_shard_max = 4

abbrev pub interactive_sla_s : ℤ
interactive_sla_s = pos 600

abbrev pub batch_sla_s : ℤ
batch_sla_s = pos (6 * 3600)

abbrev pub interactive_boost : ℤ
interactive_boost = pos 3600

abbrev pub fairness_penalty : ℕ
fairness_penalty = 30

abbrev pub default_lane_cap : ℕ
default_lane_cap = 4

abbrev pub u32_max : ℕ
u32_max = 2 ^ 32 - 1

abbrev pub i64_max : ℤ
i64_max = pos (2 ^ 63 - 1)

pub record SchedulerConfig : Type 0 where
  pub rationed : Bool
  pub default_lane_cap : ℕ

unfoldable pub hosted : SchedulerConfig
hosted = record { rationed = true; default_lane_cap = default_lane_cap }

unfoldable pub self_hosted : SchedulerConfig
self_hosted = record { rationed = false; default_lane_cap = u32_max }

-- `SchedulerConfig::resolve`, with the setting of the environment where it parses.
unfoldable pub resolve : Bool → Option ℕ → SchedulerConfig
unfolding hosted self_hosted
resolve true knob = self_hosted
resolve false none = hosted
resolve false (some n) = if ltb 0 n then record hosted { default_lane_cap = n } else hosted

unfoldable pub lane_cap : SchedulerConfig → ℕ
lane_cap config = if config.rationed then config.default_lane_cap else u32_max

unfoldable pub class_for : Text → ℕ → Class
class_for mode seeds =
    if text_eq mode (lit "reproduce") || leb seeds interactive_shard_max then interactive else batch

abbrev pub sla_of : Class → ℤ
sla_of interactive = interactive_sla_s
sla_of batch = batch_sla_s

-- `saturating_add` of an SLA, which is positive.
unfoldable pub deadline_unix : ℤ → Class → ℤ
deadline_unix enqueue_unix class = min_int (enqueue_unix +ℤ sla_of class) i64_max

unfoldable pub fair_share : ℕ → ℕ → ℕ
fair_share tier_running_total active_tenants =
    if active_tenants == 0 then 0 else tier_running_total / active_tenants

pub record Candidate : Type 0 where
  pub tenant : Text
  pub tier : Tier
  pub class : Class
  pub deadline_unix : ℤ
  pub tenant_running : ℕ
  pub tenant_fair_share : ℕ
  pub tenant_lane_cap : ℕ

abbrev pub is_mac : Tier → Bool
is_mac mac = true
is_mac elastic = false

-- `k * z`, before it is rounded.
abbrev pub times : ℕ → ℤ → ℤ
times k (pos n) = pos (k * n)
times zero (negsuc n) = pos 0
times (suc k) (negsuc n) = negsuc (suc k * suc n - 1)

unfoldable pub may_claim : Candidate → Bool
may_claim c = not (is_mac c.tier) || ltb c.tenant_running c.tenant_lane_cap

abbrev pub boost_of : Class → ℤ
boost_of interactive = interactive_boost
boost_of batch = pos 0

-- The value of an integer as an `i64`.
unfoldable pub wrap_i64 : ℤ → ℤ
wrap_i64 (pos n) = let m = n % 2 ^ 64 in if ltb m (2 ^ 63) then pos m else negsuc (2 ^ 64 - 1 - m)
wrap_i64 (negsuc n) =
    let m = n % 2 ^ 64 in if ltb m (2 ^ 63) then negsuc m else pos (2 ^ 64 - 1 - m)

unfoldable pub claim_score : (ℤ → ℤ) → Candidate → ℤ → ℤ
unfolding wrap_i64
claim_score round c now_unix =
    let slack = round (wrap_i64 (c.deadline_unix -ℤ now_unix)) in
    let over = round (pos (c.tenant_running - c.tenant_fair_share)) in
    round (round (slack -ℤ boost_of c.class) +ℤ round (times fairness_penalty over))

-- The indices from a number on, with their candidates, of the candidates that may claim.
unfoldable pub admissible : ℕ → List Candidate → List (ℕ × Candidate)
admissible i [] = []
admissible i (c ∷ cands) =
    let rest = admissible (i + 1) cands in if may_claim c then (i, c) ∷ rest else rest

abbrev pub Key : Type 0
Key = ℤ × (ℤ × Text)

instance abbrev pub key_ord : Ord Key
key_ord = ord_pair int_ord (ord_pair int_ord text_ord)

-- What the comparison of `claim_order` reads: score, deadline, tenant.
abbrev pub claim_key : (ℤ → ℤ) → ℤ → ℕ × Candidate → Key
claim_key round now_unix (i, c) = (claim_score round c now_unix, (c.deadline_unix, c.tenant))

abbrev pub indices : List (ℕ × Candidate) → List ℕ
indices = map (λ (entry : ℕ × Candidate). entry.0)

unfoldable pub claim_ranking : (ℤ → ℤ) → List Candidate → ℤ → List (ℕ × Candidate)
unfolding admissible
claim_ranking round cands now_unix = sort_by (claim_key round now_unix) (admissible 0 cands)

unfoldable pub claim_order : (ℤ → ℤ) → List Candidate → ℤ → List ℕ
unfolding claim_ranking
claim_order round cands now_unix = indices (claim_ranking round cands now_unix)
