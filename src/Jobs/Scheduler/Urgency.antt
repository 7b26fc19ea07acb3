-- ===== src/Jobs/Scheduler/Urgency.antt =====
-- The scores of src/jobs/scheduler.rs as exact numbers, in which the present time cancels.
use reproit_cloud.Prelude.{ℕ, ◌+◌, ◌-◌, ◌*◌, ◌%◌, ◌^◌, ◌≤◌, ◌<◌, ◌≡◌, refl, arith}
use reproit_cloud.Prelude.Int.{
  ℤ, pos, negsuc, pos_part, neg_part, ◌+ℤ◌, ◌-ℤ◌, +ℤ_parts, -ℤ_parts, eq_of_parts, int_ord, le_int,
}
use reproit_cloud.Text.{Text}
use reproit_cloud.Jobs.Scheduler.{
  Key, key_ord, Candidate, Class, interactive, batch, claim_score, wrap_i64, boost_of,
}

-- The whole numbers that `f64` holds exactly.
abbrev pub IsSmall : ℤ → Type 0
IsSmall z = (pos_part z ≤ 2 ^ 53) × (neg_part z ≤ 2 ^ 53)

-- The time until the deadline is within 2 ^ 52 seconds, and the running shards are a `u32`.
pub record IsMeasured (now_unix : ℤ) (c : Candidate) : Type 0 where
  pub near :
      pos_part c.deadline_unix + neg_part now_unix
      ≤ pos_part now_unix + neg_part c.deadline_unix + 2 ^ 52
  pub not_late :
      pos_part now_unix + neg_part c.deadline_unix
      ≤ pos_part c.deadline_unix + neg_part now_unix + 2 ^ 52
  pub running : c.tenant_running < 2 ^ 32

-- How late a candidate may be tried: its deadline, an hour earlier for an interactive run, and half a
-- minute later for each shard that its tenant runs over its share. The present time has no part in it.
abbrev pub allowance : Class → ℕ
allowance interactive = 3600
allowance batch = 0

abbrev pub urgency : Candidate → ℤ
urgency c =
    c.deadline_unix
    +ℤ pos (30 * (c.tenant_running - c.tenant_fair_share))
    -ℤ pos (allowance c.class)

wrap_i64-small : (z : ℤ) → pos_part z < 2 ^ 63 → neg_part z < 2 ^ 63 → wrap_i64 z ≡ z
unfolding wrap_i64
wrap_i64-small (pos n) p q = let same : n % 2 ^ 64 ≡ n = omega arith in rw same (ground arith)
wrap_i64-small (negsuc n) p q = let same : n % 2 ^ 64 ≡ n = omega arith in rw same (ground arith)

sub_small :
    (a b : ℤ) (k : ℕ)
    → pos_part a + neg_part b ≤ pos_part b + neg_part a + k
    → pos_part b + neg_part a ≤ pos_part a + neg_part b + k
    → (pos_part (a -ℤ b) ≤ k) × (neg_part (a -ℤ b) ≤ k)
unfolding ◌-ℤ◌
sub_small a b k h h' = (ground arith, ground arith)

add_small :
    (a : ℤ) (n k : ℕ)
    → pos_part a ≤ k
    → neg_part a ≤ k
    → (pos_part (a +ℤ pos n) ≤ k + n) × (neg_part (a +ℤ pos n) ≤ k)
unfolding ◌+ℤ◌
add_small a n k h h' = (ground arith, ground arith)

sub_pos_small :
    (a : ℤ) (n k : ℕ)
    → pos_part a ≤ k
    → neg_part a ≤ k
    → (pos_part (a -ℤ pos n) ≤ k) × (neg_part (a -ℤ pos n) ≤ k + n)
unfolding ◌-ℤ◌
sub_pos_small a n k h h' = (ground arith, ground arith)

-- The present time may be taken off last.
now_last :
    (d now : ℤ) (over boost : ℕ)
    → d -ℤ now -ℤ pos boost +ℤ pos over ≡ d +ℤ pos over -ℤ pos boost -ℤ now
now_last d now over boost = eq_of_parts _ _ (
    omega (
      arith,
      -ℤ_parts d now,
      -ℤ_parts (d -ℤ now) (pos boost),
      +ℤ_parts (d -ℤ now -ℤ pos boost) (pos over),
      +ℤ_parts d (pos over),
      -ℤ_parts (d +ℤ pos over) (pos boost),
      -ℤ_parts (d +ℤ pos over -ℤ pos boost) now,
    ))

boost-allowance : (c : Class) → boost_of c ≡ pos (allowance c)
boost-allowance interactive = refl
boost-allowance batch = refl

allowance-le : (c : Class) → allowance c ≤ 3600
allowance-le interactive = omega arith
allowance-le batch = omega arith

module _ (round : ℤ → ℤ) (exact : (z : ℤ) → IsSmall z → round z ≡ z) (now_unix : ℤ) where
  -- Nothing is rounded, and the present time is a common offset of all scores.
  pub claim_score_lem :
      (c : Candidate) → IsMeasured now_unix c → claim_score round c now_unix ≡ urgency c -ℤ now_unix
  unfolding claim_score
  claim_score_lem c m =
      let over = c.tenant_running - c.tenant_fair_share in
      let d = c.deadline_unix -ℤ now_unix in
      let (dp, dn) =
        sub_small c.deadline_unix now_unix (2 ^ 52) (omega (arith, m.near))
          (omega (arith, m.not_late)) in
      let wrapped = wrap_i64-small d (omega arith) (omega arith) in
      let slack = exact d (omega arith, omega arith) in
      let counted = exact (pos over) (omega (arith, m.running), omega arith) in
      let small = allowance-le c.class in
      let (bp, bn) = sub_pos_small d (allowance c.class) (2 ^ 52) dp dn in
      let boosted = exact (d -ℤ pos (allowance c.class)) (omega arith, omega arith) in
      let fined = exact (pos (30 * over)) (omega (arith, m.running), omega arith) in
      let (sp, sn) =
        add_small (d -ℤ pos (allowance c.class)) (30 * over) (2 ^ 52 + 3600) (omega arith)
          (omega arith) in
      let summed =
        exact (d -ℤ pos (allowance c.class) +ℤ pos (30 * over))
          (omega (arith, m.running), omega (arith, m.running)) in
      rw (wrapped, slack, counted, boost-allowance c.class, boosted, fined, summed)
        (now_last c.deadline_unix now_unix (30 * over) (allowance c.class))

le_int-shift : (a b n : ℤ) → le_int (a -ℤ n) (b -ℤ n) ≡ le_int a b
le_int-shift a b n = ground (arith, -ℤ_parts a n, -ℤ_parts b n)

-- What decides between two candidates: urgency, then deadline, then the tenant's name.
abbrev pub urgency_key : Candidate → Key
urgency_key c = (urgency c, (c.deadline_unix, c.tenant))

pub key_lt-shift :
    (a b n : ℤ) (k l : ℤ × Text) → key_ord.lt (a -ℤ n, k) (b -ℤ n, l) ≡ key_ord.lt (a, k) (b, l)
key_lt-shift a b n k l = rw (le_int-shift a b n, le_int-shift b a n) refl
