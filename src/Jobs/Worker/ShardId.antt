-- ===== src/Jobs/Worker/ShardId.antt =====
-- The ids of src/jobs/worker.rs: what `claim` hands out, `heartbeat` and `result` read back.
use reproit_cloud.Jobs.Worker.{
  parse_shard_id, sanitize_worker_id, clean_chars, is_worker_char, max_worker_id, shard_id,
}
use reproit_cloud.Text.Split.{lacks}
use reproit_cloud.Text.Signed.{IsI64, print_i64, print_i64-lacks, parse_i64-print_i64}
use reproit_cloud.Text.Decimal.{
  digits-lacks_above, print_u64, print_u64-digits, parse_u64-print_u64,
}
use reproit_cloud.Text.Once.{split_once-append, rsplit_once-append}
use reproit_cloud.Prelude.{
  lt→ltb, Bool-cases, is_empty, take, ℕ, zero, suc, ◌^◌, ◌<◌, ◌≡◌, refl, inl, inr, true, false,
  some, [], ◌∷◌, ◌++◌, arith,
}
use reproit_cloud.Prelude.Int.{ℤ}
use reproit_cloud.Text.{Text}

clean_chars-lacks : (id : Text) → lacks b':' (clean_chars id) ≡ true
unfolding clean_chars is_worker_char
clean_chars-lacks [] = refl
clean_chars-lacks (b ∷ bs) = ground (arith, clean_chars-lacks bs)

take-lacks : (sep n : ℕ) (s : Text) → lacks sep s ≡ true → lacks sep (take n s) ≡ true
take-lacks sep zero s h = refl
take-lacks sep (suc n) [] h = refl
take-lacks sep (suc n) (b ∷ bs) h = ground (arith, take-lacks sep n bs)

-- A worker id that a claim is bound to: it has no `:` and is not empty.
abbrev pub IsWorkerId : Text → Type 0
IsWorkerId w = (lacks b':' w ≡ true) × (is_empty w ≡ false)

-- Whatever a worker calls itself, the id that the server binds to its claim has no `:` and is not
-- empty, where the minted id is such an id.
pub sanitize_worker_id-IsWorkerId :
    (minted id : Text) → IsWorkerId minted → IsWorkerId (sanitize_worker_id minted id)
unfolding sanitize_worker_id
sanitize_worker_id-IsWorkerId minted id h =
    let no_colon = take-lacks b':' max_worker_id (clean_chars id) (clean_chars-lacks id) in
    elim (Bool-cases (is_empty (take max_worker_id (clean_chars id)))) [
      | inl e ↦ rw e h
      | inr e ↦ rw e (no_colon, e)
    ]

-- Parsing the id of a shard that a sanitized worker claimed gives back the tenant, the job, the seed
-- and the worker, whatever the job's id contains, if it is not empty, for every organisation id of 64
-- bits and every seed of 32 bits, where the minted id has no `:` and is not empty.
pub parse_shard_id-shard_id :
    (minted raw job_id : Text) (org_id : ℤ) (seed : ℕ)
    → IsWorkerId minted
    → IsI64 org_id
    → is_empty job_id ≡ false
    → seed < 2 ^ 32
    → parse_shard_id (shard_id org_id job_id seed (sanitize_worker_id minted raw))
      ≡ some (record {
        org_id = org_id;
        job_id = job_id;
        seed = seed;
        worker_id = sanitize_worker_id minted raw;
      })
unfolding parse_shard_id shard_id
parse_shard_id-shard_id minted raw job_id org_id seed m o j s =
    let w = sanitize_worker_id minted raw in
    let (w_lacks, w_some) = sanitize_worker_id-IsWorkerId minted raw m in
    let seed_lacks =
      digits-lacks_above b':' (print_u64 seed) (omega arith)
        (print_u64-digits seed (omega arith)) in
    let small = lt→ltb seed (2 ^ 32) s in
    rw
      (split_once-append b':' (print_i64 org_id) ((job_id ++ b':' ∷ print_u64 seed) ++ b':' ∷ w)
        (print_i64-lacks org_id o))
      (rw (parse_i64-print_i64 org_id o) (
        rw (rsplit_once-append b':' (job_id ++ b':' ∷ print_u64 seed) w w_lacks) (
          rw w_some (
            rw (rsplit_once-append b':' job_id (print_u64 seed) seed_lacks)
              (rw j (rw (parse_u64-print_u64 seed (omega arith)) (rw small refl)))))))
