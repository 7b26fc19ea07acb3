-- ===== src/Jobs/Queue/Free.antt =====
-- Which rows `claim_shard` of src/db/tenant/jobs.rs may take.
use reproit_cloud.Jobs.Queue.{
  row_key_ord, where_rows, ShardRow, next_row, JobRow, TenantDb, is_pending, is_claimable,
  first_row, row_key, join_job, ClaimedShard, matches_pin, job_exists,
}
use reproit_cloud.Prelude.Order.SortBy.{sort_by, all_of_sort_by}
use reproit_cloud.Jobs.Spec.{ShardState, pending, running, clean, finding, error}
use reproit_cloud.Text.Compare.{text_eq_iff}
use reproit_cloud.Jobs.Queue.Validity.{IsValid}
use reproit_cloud.Jobs.Queue.Keys.{next_row_sound, All-Has}
use reproit_cloud.Prelude.{
  if◌then◌else◌, Bool-cases, All, any, ◌≡◌, refl, sym, ap, subst, ◌∙◌, ◌↔◌, ◌⊎◌, inl, inr, Bool,
  true, false, not, ◌&&◌, ◌||◌, Option, none, some, List, [], ◌∷◌, arith,
}
use reproit_cloud.Text.{Text, text_eq}

where_rows-none :
    (test : ShardRow → Bool) (rows : List ShardRow)
    → where_rows test rows ≡ []
    → All (λ r. test r ≡ false) rows
unfolding where_rows
where_rows-none test [] h = tt
where_rows-none test (r ∷ rows) h = elim (Bool-cases (test r)) [
  | inl e ↦
      let clash =
        subst (λ t. (if t then r ∷ where_rows test rows else where_rows test rows) ≡ []) e h in
      absurd (ground arith)
  | inr e ↦ (
    e,
    where_rows-none test rows
        (subst (λ t. (if t then r ∷ where_rows test rows else where_rows test rows) ≡ []) e h),
  )
]

none-where_rows :
    (test : ShardRow → Bool) (rows : List ShardRow)
    → All (λ r. test r ≡ false) rows
    → where_rows test rows ≡ []
unfolding where_rows
none-where_rows test [] h = refl
none-where_rows test (r ∷ rows) (h, hs) = rw h (none-where_rows test rows hs)

nil_of_absurd : (rows : List ShardRow) → All (λ _. ⊥) rows → rows ≡ []
nil_of_absurd [] h = refl
nil_of_absurd (r ∷ rows) (h, _) = absurd h

sort_nil : (rows : List ShardRow) → first_row (sort_by row_key rows) ≡ none → rows ≡ []
sort_nil rows h =
    nil_of_absurd rows (all_of_sort_by row_key (λ _. ⊥) rows (go (sort_by row_key rows) h))
  where
    go : (rows : List ShardRow) → first_row rows ≡ none → All (λ _. ⊥) rows
    go [] h = tt
    go (r ∷ rows) h = absurd (ground arith)

-- The rows that a claim may take.
abbrev pub is_free : (ShardRow → Bool) → List Text → Option Text → ShardRow → Bool
is_free locked caps pin r = is_claimable caps pin r && not (locked r)

pub next_row-none :
    (locked : ShardRow → Bool) (caps : List Text) (pin : Option Text) (rows : List ShardRow)
    → (next_row locked caps pin rows ≡ none) ↔ All (λ r. is_free locked caps pin r ≡ false) rows
unfolding next_row sort_by
next_row-none locked caps pin rows = (
  (λ h.
      where_rows-none (is_free locked caps pin) rows
        (sort_nil (where_rows (is_free locked caps pin) rows) h)),
  (λ h.
      ap (λ rs. first_row (sort_by row_key rs)) (none-where_rows (is_free locked caps pin) rows h)),
)

-- What the claim of a row tells the worker.
abbrev pub Tells : Text → ShardRow → ClaimedShard → Type 0
Tells w r c = ((c.job_id, c.seed) ≡ row_key r) × ((c.claimed_by ≡ w) × (c.backend ≡ r.backend))

join_job-some :
    (w : Text) (r : ShardRow) (jobs : List JobRow)
    → any (λ j. text_eq j.id r.job_id) jobs ≡ true
    → (c : ClaimedShard) × ((join_job w r jobs ≡ some c) × Tells w r c)
join_job-some w r [] h = absurd (ground arith)
join_job-some w r (j ∷ jobs) h = elim (Bool-cases (text_eq j.id r.job_id)) [
  | inl k ↦ rw k (_, (refl, (refl, (refl, refl))))
  | inr k ↦ rw k (
      join_job-some w r jobs (subst (λ t. (t || any (λ j. text_eq j.id r.job_id) jobs) ≡ true) k h))
]

pub found_some :
    (locked : ShardRow → Bool) (db : TenantDb) (w : Text) (caps : List Text) (pin : Option Text)
    (r : ShardRow)
    → IsValid db
    → next_row locked caps pin db.shards ≡ some r
    → (c : ClaimedShard) × ((join_job w r db.jobs ≡ some c) × Tells w r c)
unfolding job_exists
found_some locked db w caps pin r v e =
    let (m, _) = next_row_sound locked caps pin db.shards r e in
    join_job-some w r db.jobs (All-Has (λ r. job_exists db r.job_id ≡ true) r db.shards m v.linked)

-- The worker lists the backend among what it can serve.
abbrev pub Serves : Text → List Text → Type 0
Serves backend [] = ⊥
Serves backend (cap ∷ caps) = (backend ≡ cap) ⊎ Serves backend caps

abbrev pub IsPinned : Option Text → ShardRow → Type 0
IsPinned none r = Unit {0}
IsPinned (some job_id) r = r.job_id ≡ job_id

-- The shard waits, the worker can serve it, it is of the job that the claim is pinned to, and no other
-- transaction holds its row.
pub record IsFree (locked : ShardRow → Bool) (caps : List Text) (pin : Option Text) (r : ShardRow)
    : Type 0 where
  pub waits : r.state ≡ pending
  pub served : Serves r.backend caps
  pub pinned : IsPinned pin r
  pub unlocked : locked r ≡ false

pending_eq : (state : ShardState) → (is_pending state ≡ true) ↔ (state ≡ pending)
pending_eq pending = ((λ _. refl), λ _. refl)
pending_eq running = ((λ h. absurd (ground arith)), λ h. absurd (ground arith))
pending_eq clean = ((λ h. absurd (ground arith)), λ h. absurd (ground arith))
pending_eq finding = ((λ h. absurd (ground arith)), λ h. absurd (ground arith))
pending_eq error = ((λ h. absurd (ground arith)), λ h. absurd (ground arith))

any-Serves :
    (backend : Text) (caps : List Text) → (any (text_eq backend) caps ≡ true) ↔ Serves backend caps
any-Serves backend [] = ((λ h. absurd (ground arith)), λ h. absurd h)
any-Serves backend (cap ∷ caps) =
    let (to, from) = any-Serves backend caps in
    let (same, same') = text_eq_iff backend cap in
    (
      (λ h. elim (Bool-cases (text_eq backend cap)) [
        | inl e ↦ inl (same e)
        | inr e ↦ inr (to (ground arith))
      ]),
      (λ h. elim h [ inl e ↦ ground (arith, same' e) | inr k ↦ ground (arith, from k) ]),
    )

matches_pin_iff : (pin : Option Text) (r : ShardRow) → (matches_pin pin r ≡ true) ↔ IsPinned pin r
matches_pin_iff none r = ((λ _. tt), λ _. refl)
matches_pin_iff (some job_id) r = text_eq_iff r.job_id job_id

pub is_free_iff :
    (locked : ShardRow → Bool) (caps : List Text) (pin : Option Text) (r : ShardRow)
    → (is_free locked caps pin r ≡ true) ↔ IsFree locked caps pin r
unfolding is_claimable
is_free_iff locked caps pin r =
    let (waits, waits') = pending_eq r.state in
    let (serves, serves') = any-Serves r.backend caps in
    let (pins, pins') = matches_pin_iff pin r in
    (
      (λ h. record {
        waits = waits (ground arith);
        served = serves (ground arith);
        pinned = pins (ground arith);
        unlocked = ground arith;
      }),
      (λ f. ground (arith, waits' f.waits, serves' f.served, pins' f.pinned, f.unlocked)),
    )

pub none-IsFree_iff :
    (locked : ShardRow → Bool) (caps : List Text) (pin : Option Text) (rows : List ShardRow)
    → All (λ r. is_free locked caps pin r ≡ false) rows ↔ All (λ r. ¬ IsFree locked caps pin r) rows
none-IsFree_iff locked caps pin [] = ((λ h. h), λ h. h)
none-IsFree_iff locked caps pin (r ∷ rows) =
    let (to, from) = none-IsFree_iff locked caps pin rows in
    let (is, is') = is_free_iff locked caps pin r in
    (
      (λ (h, hs). ((λ f. let clash = sym (is' f) ∙ h in absurd (ground arith)), to hs)),
      (λ (h, hs). (
        elim (Bool-cases (is_free locked caps pin r)) [ inl e ↦ absurd (h (is e)) | inr e ↦ e ],
        from hs,
      )),
    )
