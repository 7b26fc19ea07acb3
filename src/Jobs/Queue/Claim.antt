-- ===== src/Jobs/Queue/Claim.antt =====
-- `claim_shard` of src/db/tenant/jobs.rs: when a claim comes back empty, and which shard it takes.
use reproit_cloud.Jobs.Queue.{
  row_key_ord, where_rows, claim_shard, ShardRow, next_row, update, count, TenantDb, is_pending,
  is_claimable, first_row, row_key, has_key, claim_row, ClaimedShard, matches_pin,
  pending_shard_count, claim_found,
}
use reproit_cloud.Prelude.Order.SortBy.{sort_by, sort_by-IsSortedBy, IsSortedBy, all_of_sort_by}
use reproit_cloud.Jobs.Queue.Keys.{KeysDistinct, NoKey, Has, has_key_iff, NoKey-Has, next_row_sound}
use reproit_cloud.Jobs.Queue.Validity.{IsValid}
use reproit_cloud.Jobs.Queue.Free.{
  IsFree, is_free, Tells, next_row-none, none-IsFree_iff, is_free_iff, found_some,
}
use reproit_cloud.Prelude.{
  if◌then◌else◌, Bool-cases, Option-cases, &&-true, All, any, ℕ, suc, ◌≡◌, refl, sym, ap, subst,
  ◌∙◌, ◌↔◌, inl, inr, Bool, true, false, ◌&&◌, Option, none, some, List, [], ◌∷◌, arith, some_eq,
}
use reproit_cloud.Text.{Text, text_eq}

claim_shard-none_free :
    (locked : ShardRow → Bool) (now : ℕ) (db : TenantDb) (w : Text) (caps : List Text)
    (pin : Option Text)
    → IsValid db
    → ((claim_shard locked now db w caps pin).1 ≡ none)
      ↔ All (λ r. is_free locked caps pin r ≡ false) db.shards
unfolding claim_shard
claim_shard-none_free locked now db w caps pin v =
    elim (Option-cases (next_row locked caps pin db.shards)) [
      | inl e ↦ (
        (λ _. (next_row-none locked caps pin db.shards).0 e),
        λ _. ap (λ o. (claim_found now db w o).1) e,
      )
      | inr (r, e) ↦
          let (c, (told, _)) = found_some locked db w caps pin r v e in
          (
            (λ h.
                let clash = sym h ∙ (ap (λ o. (claim_found now db w o).1) e ∙ told) in
                absurd (ground arith)),
            (λ h.
                let clash = sym ((next_row-none locked caps pin db.shards).1 h) ∙ e in
                absurd (ground arith)),
          )
    ]

-- A claim comes back empty exactly when no pending shard that the worker can serve, of the job it is
-- pinned to, is free of other transactions: in tables where each shard has its job.
pub claim_shard-none :
    (locked : ShardRow → Bool) (now : ℕ) (db : TenantDb) (w : Text) (caps : List Text)
    (pin : Option Text)
    → IsValid db
    → ((claim_shard locked now db w caps pin).1 ≡ none)
      ↔ All (λ r. ¬ IsFree locked caps pin r) db.shards
claim_shard-none locked now db w caps pin v =
    let (to, from) = claim_shard-none_free locked now db w caps pin v in
    let (there, back) = none-IsFree_iff locked caps pin db.shards in
    ((λ h. there (to h)), λ h. from (back h))

update-NoKey_same :
    (r : ShardRow) (change : ShardRow → ShardRow) (rows : List ShardRow)
    → NoKey r rows
    → update (has_key r.job_id r.seed) change rows ≡ rows
unfolding update
update-NoKey_same r change [] h = refl
update-NoKey_same r change (x ∷ rows) (h, hs) = elim (Bool-cases (has_key r.job_id r.seed x)) [
  | inl e ↦ absurd (h ((has_key_iff r.job_id r.seed x).0 e))
  | inr e ↦ rw e (ap (λ rs. x ∷ rs) (update-NoKey_same r change rows hs))
]

claim_count :
    (now : ℕ) (w : Text) (r : ShardRow) (rows : List ShardRow)
    → KeysDistinct rows
    → Has r rows
    → is_pending r.state ≡ true
    → suc
        (count (λ r. is_pending r.state) (update (has_key r.job_id r.seed) (claim_row w now) rows))
      ≡ count (λ r. is_pending r.state) rows
unfolding count update
claim_count now w r [] d m p = absurd m
claim_count now w r (x ∷ rows) (n, d) (inl same) p =
    let at = (has_key_iff r.job_id r.seed x).1 (ap row_key same) in
    let px = ap (λ y. is_pending y.state) (sym same) ∙ p in
    let rest =
      update-NoKey_same r (claim_row w now) rows (subst (λ y. NoKey y rows) (sym same) n) in
    rw at (rw rest (rw px refl))
claim_count now w r (x ∷ rows) (n, d) (inr m) p = elim (Bool-cases (has_key r.job_id r.seed x)) [
  | inl e ↦ absurd (NoKey-Has r x rows n m (sym ((has_key_iff r.job_id r.seed x).0 e)))
  | inr e ↦
      let rest = claim_count now w r rows d m p in
      elim (Bool-cases (is_pending x.state)) [
        | inl k ↦ rw e (rw k (ap suc rest))
        | inr k ↦ rw e (rw k rest)
      ]
]

claimable-pending :
    (caps : List Text) (pin : Option Text) (r : ShardRow)
    → is_claimable caps pin r ≡ true
    → is_pending r.state ≡ true
unfolding is_claimable
claimable-pending caps pin r c =
    (&&-true (is_pending r.state) (any (text_eq r.backend) caps)
      (&&-true (is_pending r.state && any (text_eq r.backend) caps) (matches_pin pin r) c).0).0

-- The first of the rows in the order of their keys is below no other.
first-least :
    (rows : List ShardRow) (r : ShardRow)
    → IsSortedBy row_key rows
    → first_row rows ≡ some r
    → All (λ x. row_key_ord.lt (row_key x) (row_key r) ≡ false) rows
first-least [] r s h = absurd (ground arith)
first-least (x ∷ rows) r (n, s) h =
    subst (λ y. All (λ z. row_key_ord.lt (row_key z) (row_key y) ≡ false) (x ∷ rows)) (some_eq h)
      (row_key_ord.lt_irrefl (row_key x), n)

of_where_rows :
    (P : ShardRow → Type 0) (test : ShardRow → Bool) (rows : List ShardRow)
    → All P (where_rows test rows)
    → All (λ r. test r ≡ true → P r) rows
unfolding where_rows
of_where_rows P test [] h = tt
of_where_rows P test (r ∷ rows) h = elim (Bool-cases (test r)) [
  | inl e ↦
      let (p, ps) =
        subst (λ t. All P (if t then r ∷ where_rows test rows else where_rows test rows)) e h in
      ((λ _. p), of_where_rows P test rows ps)
  | inr e ↦
      let ps =
        subst (λ t. All P (if t then r ∷ where_rows test rows else where_rows test rows)) e h in
      ((λ k. let clash = sym k ∙ e in absurd (ground arith)), of_where_rows P test rows ps)
]

-- No free shard has a smaller key.
abbrev pub IsLeast : (ShardRow → Bool) → List Text → Option Text → List ShardRow → ShardRow → Type 0
IsLeast locked caps pin rows r =
    All (λ x. IsFree locked caps pin x → row_key_ord.lt (row_key x) (row_key r) ≡ false) rows

free-IsLeast :
    (locked : ShardRow → Bool) (caps : List Text) (pin : Option Text) (r : ShardRow)
    (rows : List ShardRow)
    → All
        (λ x. is_free locked caps pin x ≡ true → row_key_ord.lt (row_key x) (row_key r) ≡ false)
        rows
    → IsLeast locked caps pin rows r
free-IsLeast locked caps pin r [] h = tt
free-IsLeast locked caps pin r (x ∷ rows) (h, hs) =
    ((λ f. h ((is_free_iff locked caps pin x).1 f)), free-IsLeast locked caps pin r rows hs)

next_row-IsLeast :
    (locked : ShardRow → Bool) (caps : List Text) (pin : Option Text) (rows : List ShardRow)
    (r : ShardRow)
    → next_row locked caps pin rows ≡ some r
    → IsLeast locked caps pin rows r
unfolding next_row
next_row-IsLeast locked caps pin rows r h =
    let free = where_rows (is_free locked caps pin) rows in
    let P = λ (x : ShardRow). row_key_ord.lt (row_key x) (row_key r) ≡ false in
    free-IsLeast locked caps pin r rows (
      of_where_rows P (is_free locked caps pin) rows (
        all_of_sort_by row_key P free
          (first-least (sort_by row_key free) r (sort_by-IsSortedBy row_key free) h)))

-- A claim that hands out a shard hands out a free one with the least key of them, job and seed in this
-- order, and exactly one shard fewer is pending: in tables with distinct keys where each shard has its
-- job.
pub claim_shard-takes :
    (locked : ShardRow → Bool) (now : ℕ) (db : TenantDb) (w : Text) (caps : List Text)
    (pin : Option Text) (c : ClaimedShard)
    → IsValid db
    → (claim_shard locked now db w caps pin).1 ≡ some c
    → (suc (pending_shard_count (claim_shard locked now db w caps pin).0) ≡ pending_shard_count db)
      × ((r : ShardRow) × (Has r db.shards
            × (IsFree locked caps pin r × (IsLeast locked caps pin db.shards r × Tells w r c))))
unfolding claim_shard pending_shard_count
claim_shard-takes locked now db w caps pin c v h =
    elim (Option-cases (next_row locked caps pin db.shards)) [
      | inl e ↦
          let clash = sym (ap (λ o. (claim_found now db w o).1) e) ∙ h in absurd (ground arith)
      | inr (r, e) ↦
          let (m, (free, unlocked)) = next_row_sound locked caps pin db.shards r e in
          let (c', (told, tells)) = found_some locked db w caps pin r v e in
          let same = some_eq (sym told ∙ (sym (ap (λ o. (claim_found now db w o).1) e) ∙ h)) in
          (
            ap (λ o. suc (count (λ r. is_pending r.state) (claim_found now db w o).0.shards)) e
                ∙ claim_count now w r db.shards v.distinct m (claimable-pending caps pin r free),
            (
              r,
              (
                m,
                (
                  (is_free_iff locked caps pin r).0 (rw free (rw unlocked refl)),
                  (next_row-IsLeast locked caps pin db.shards r e, subst (Tells w r) same tells),
                ),
              ),
            ),
          )
    ]
