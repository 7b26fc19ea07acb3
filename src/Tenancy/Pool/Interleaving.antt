-- ===== src/Tenancy/Pool/Interleaving.antt =====
-- The cache under concurrent callers. `get` enters the lock twice, and other callers may act in
-- between: each locked part is one step, and the steps come in any order.
use reproit_cloud.Tenancy.Pool.{
  entry_of, TenantPools, new_pools, get_hit, get_built, invalidate, sweep_idle, live,
}
use reproit_cloud.Prelude.{Option-cases, ℕ, ◌≤◌, ◌≡◌, refl, ◌∙◌, inl, inr, Option, some, arith}
use reproit_cloud.Tenancy.Pool.Invariant.{
  IsBounded, new_pools-IsBounded, get_hit-IsBounded, get_built-IsBounded, invalidate-IsBounded,
  sweep_idle-IsBounded,
}

pub data Step {P : Type 0} (s : TenantPools P) : TenantPools P → Type 0 where
  hit : {t : TenantPools P} (key now : ℕ) (pool : P) → get_hit s key now ≡ some (pool, t) → Step s t
  built : (key now : ℕ) (pool : P) → Step s (get_built s key now pool).1
  invalidated : (key : ℕ) → Step s (invalidate s key)
  swept : (now : ℕ) → Step s (sweep_idle s now).0

pub data Reach {P : Type 0} (s : TenantPools P) : TenantPools P → Type 0 where
  here : Reach s s
  next : {t u : TenantPools P} → Reach s t → Step t u → Reach s u

Step-IsBounded : {P : Type 0} {s t : TenantPools P} → IsBounded s → Step s t → IsBounded t
Step-IsBounded {s} v (hit key now pool e) = get_hit-IsBounded s key now v e
Step-IsBounded {s} v (built key now pool) = get_built-IsBounded s key now pool v
Step-IsBounded {s} v (invalidated key) = invalidate-IsBounded s key v
Step-IsBounded {s} v (swept now) = sweep_idle-IsBounded s now v

-- From a cache within its cap, with one entry for each key, every run of steps ends in such a
-- cache.
pub Reach-IsBounded : {P : Type 0} {s t : TenantPools P} → IsBounded s → Reach s t → IsBounded t
Reach-IsBounded v here = v
Reach-IsBounded v (next r st) = Step-IsBounded (Reach-IsBounded v r) st

get_hit-cap :
    {P : Type 0} (s : TenantPools P) (key now : ℕ) {pool : P} {t : TenantPools P}
    → get_hit s key now ≡ some (pool, t)
    → t.cap ≡ s.cap
unfolding get_hit
get_hit-cap s key now h = elim (Option-cases (entry_of key s.map)) [
  | inl e ↦ absurd (ground arith)
  | inr (e, found) ↦ ground arith
]

get_built-cap :
    {P : Type 0} (s : TenantPools P) (key now : ℕ) (pool : P)
    → (get_built s key now pool).1.cap ≡ s.cap
unfolding get_built
get_built-cap s key now pool = elim (Option-cases (entry_of key s.map)) [
  | inl e ↦ rw (e, get_built)
  | inr (e, found) ↦ rw (found, get_built)
]

Step-cap : {P : Type 0} {s t : TenantPools P} → Step s t → t.cap ≡ s.cap
unfolding invalidate sweep_idle
Step-cap {s} (hit key now pool e) = get_hit-cap s key now e
Step-cap {s} (built key now pool) = get_built-cap s key now pool
Step-cap (invalidated key) = refl
Step-cap (swept now) = refl

Reach-cap : {P : Type 0} {s t : TenantPools P} → Reach s t → t.cap ≡ s.cap
Reach-cap here = refl
Reach-cap (next r st) = Step-cap st ∙ Reach-cap r

-- However the callers interleave, the live pools stay within the configured cap.
pub live-le :
    {P : Type 0} (cap idle : Option ℕ) (t : TenantPools P)
    → Reach (new_pools cap idle) t
    → live t ≤ (new_pools {P = P} cap idle).cap
unfolding live
live-le cap idle t r =
    omega (arith, (Reach-IsBounded (new_pools-IsBounded cap idle) r).bounded, Reach-cap r)
