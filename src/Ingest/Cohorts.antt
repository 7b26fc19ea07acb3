-- ===== src/Ingest/Cohorts.antt =====
-- src/ingest/cohorts.rs: which dimensions of a cohort are reported as discriminators. Floating-point
-- numbers are a parameter with the operations that the source uses. A context is the list of its
-- entries in the order of their keys, and a counter the list of its texts in their order, as in the
-- source's ordered maps.
pub mod Anonymity
pub mod Tests
use reproit_cloud.Prelude.{
  ltb, leb, if◌then◌else◌, each, length, ℕ, suc, ◌*◌, ◌/◌, max, Bool, true, false, not, ◌&&◌, ◌||◌,
  Option, none, some, List, [], ◌∷◌, ◌++◌,
}
use reproit_cloud.Prelude.Order.{set_insert}
use reproit_cloud.Text.{Text, text_eq, text_lt}
use reproit_cloud.Text.Compare.{text_ord}

pub record Floats : Type 1 where
  pub F : Type 0
  pub of_count : ℕ → F
  pub div : F → F → F
  pub at_least : F → F → Bool
  -- `partial_cmp` is `Less`
  pub less : F → F → Bool
  pub zero_f : F
  pub half : F
  pub one_and_half : F
  pub infinity : F
  -- `(x * 100.0).round() / 100.0`
  pub round2 : F → F

abbrev pub k_anon : ℕ
k_anon = 5

abbrev pub Counts : Type 0
Counts = List (Text × ℕ)

-- `*counts.entry(value).or_insert(0) += 1`
unfoldable pub count_value : Text → Counts → Counts
count_value value [] = (value, 1) ∷ []
count_value value ((v, n) ∷ counts) =
    let rest = count_value value counts in
    if text_lt value v
    then (value, 1) ∷ (v, n) ∷ counts
    else if text_eq value v
    then (v, suc n) ∷ counts
    else (v, n) ∷ rest

-- The count of a value, or 0.
unfoldable pub count_of : Text → Counts → ℕ
count_of value [] = 0
count_of value ((v, n) ∷ counts) =
    let rest = count_of value counts in if text_eq v value then n else rest

module _ (V : Type 0) where
  abbrev pub Context : Type 0
  Context = List (Text × V)

  -- `context.get(key)`
  unfoldable pub value_at : Text → Context → Option V
  value_at key [] = none
  value_at key ((k, v) ∷ context) =
      let rest = value_at key context in if text_eq k key then some v else rest

-- What a text of the counter is made of: `v` where it is a string, and else its JSON.
abbrev pub counted : {V : Type 0} → (V → Text) → Option V → Counts → Counts
counted render none counts = counts
counted render (some v) counts = count_value (render v) counts

unfoldable pub value_counts : {V : Type 0} → (V → Text) → Text → Counts → List (Context V) → Counts
unfolding count_value value_at
value_counts render key counts [] = counts
value_counts {V} render key counts (r ∷ rows) =
    value_counts render key (counted render (value_at V key r) counts) rows

unfoldable pub add_keys : {V : Type 0} → Context V → List Text → List Text
unfolding set_insert
add_keys [] keys = keys
add_keys ((k, v) ∷ context) keys = add_keys context (set_insert k keys)

unfoldable pub all_keys : {V : Type 0} → List (Context V) → List Text → List Text
unfolding add_keys
all_keys [] keys = keys
all_keys (c ∷ cohort) keys = all_keys cohort (add_keys c keys)

pub record Discriminator (N : Floats) : Type 0 where
  pub key : Text
  pub value : Text
  pub cohort_share : N.F
  pub baseline_share : N.F
  -- `none` is "inf"
  pub lift : Option N.F

-- A discriminator with what it is sorted by.
abbrev pub Ranked : Floats → Type 0
Ranked N = N.F × (N.F × Discriminator N)

module _ (N : Floats) where
  abbrev pub lift_of : N.F → N.F → N.F
  lift_of cohort_share base_share =
      if N.less N.zero_f base_share then N.div cohort_share base_share else N.infinity

  abbrev rounded_lift : N.F → N.F → Option N.F
  rounded_lift cohort_share base_share =
      if N.less N.zero_f base_share then some (N.round2 (N.div cohort_share base_share)) else none

  abbrev pub kept : Bool → Ranked N → Option (Ranked N)
  kept true r = some r
  kept false r = none

  -- One value of a key: whether it is reported.
  unfoldable pub judge : ℕ → ℕ → Text → Text → ℕ → ℕ → Option (Ranked N)
  judge cohort_n base_n key value count base_count =
      let cohort_share = N.div (N.of_count count) (N.of_count cohort_n) in
      let base_share = N.div (N.of_count base_count) (N.of_count (max base_n 1)) in
      kept
        (N.at_least cohort_share N.half
          && N.at_least (lift_of cohort_share base_share) N.one_and_half
          && leb k_anon count)
        (
          cohort_share,
          (
            lift_of cohort_share base_share,
            record {
              key = key;
              value = value;
              cohort_share = N.round2 cohort_share;
              baseline_share = N.round2 base_share;
              lift = rounded_lift cohort_share base_share;
            },
          ),
        )

  -- The comparison of `out.sort_by`: larger share first, then larger lift.
  abbrev pub after : Ranked N → Ranked N → Bool
  after (share, (lift, _)) (share', (lift', _)) =
      N.less share share' || not (N.less share' share) && N.less lift lift'

  unfoldable pub place : Ranked N → List (Ranked N) → List (Ranked N)
  place a [] = a ∷ []
  place a (b ∷ out) = let rest = place a out in if after a b then b ∷ rest else a ∷ b ∷ out

  unfoldable pub sort_ranked : List (Ranked N) → List (Ranked N)
  unfolding place
  sort_ranked [] = []
  sort_ranked (a ∷ out) = place a (sort_ranked out)

  abbrev pub reported : List (Ranked N) → List (Discriminator N)
  reported [] = []
  reported ((_, (_, d)) ∷ out) = d ∷ reported out

  abbrev pub push_some : Option (Ranked N) → List (Ranked N) → List (Ranked N)
  push_some none out = out
  push_some (some r) out = r ∷ out

  -- The values of one key, each with its count in the baseline.
  unfoldable pub judge_values : ℕ → ℕ → Text → Counts → Counts → List (Ranked N)
  unfolding judge count_of
  judge_values cohort_n base_n key [] base = []
  judge_values cohort_n base_n key ((value, n) ∷ counts) base =
      push_some (judge cohort_n base_n key value n (count_of value base))
        (judge_values cohort_n base_n key counts base)

  unfoldable pub judge_keys :
      {V : Type 0} → (V → Text) → List (Context V) → List (Context V) → List Text → List (Ranked N)
  unfolding judge_values value_counts
  judge_keys render cohort baseline [] = []
  judge_keys render cohort baseline (key ∷ keys) =
      judge_values (length cohort) (length baseline) key (value_counts render key [] cohort)
        (value_counts render key [] baseline)
      ++ judge_keys render cohort baseline keys

  unfoldable pub discriminators :
      {V : Type 0} → (V → Text) → List (Context V) → List (Context V) → List (Discriminator N)
  unfolding judge_keys sort_ranked all_keys
  discriminators render cohort baseline =
      if ltb (length cohort) k_anon
      then []
      else reported (sort_ranked (judge_keys render cohort baseline (all_keys cohort [])))

  -- `baseline.get(key)`, of counters that are stored for each key.
  unfoldable pub counts_at : Text → List (Text × Counts) → Counts
  counts_at key [] = []
  counts_at key ((k, c) ∷ counters) =
      let rest = counts_at key counters in if text_eq k key then c else rest

  unfoldable pub judge_counters :
      ℕ → ℕ → List (Text × Counts) → List (Text × Counts) → List (Ranked N)
  unfolding judge_values counts_at
  judge_counters cohort_n base_n [] baseline = []
  judge_counters cohort_n base_n ((key, counts) ∷ cohort) baseline =
      judge_values cohort_n base_n key counts (counts_at key baseline)
      ++ judge_counters cohort_n base_n cohort baseline

  unfoldable pub discriminators_from_counts :
      ℕ → List (Text × Counts) → ℕ → List (Text × Counts) → List (Discriminator N)
  unfolding judge_counters sort_ranked
  discriminators_from_counts cohort_n cohort baseline_n baseline =
      if ltb cohort_n k_anon
      then []
      else reported (sort_ranked (judge_counters cohort_n baseline_n cohort baseline))
