-- ===== src/Tenancy/Tests.antt =====
-- The pool cache of src/tenancy/pool.rs on concrete runs; a pool is its number.
use reproit_cloud.Text.{starts_with, text_eq, Text, lit}
use reproit_cloud.Tenancy.Pool.{live, TenantPools, get_built, new_pools, Map}
use reproit_cloud.Tenancy.Pool.Interleaving.{Reach, Reach-IsBounded, live-le, next, here, built}
use reproit_cloud.Tenancy.Pool.Invariant.{IsBounded, new_pools-IsBounded}
use reproit_cloud.Tenancy.Blob.{safe_scoped}
use reproit_cloud.Prelude.{ℕ, ◌≤◌, ◌≡◌, refl, none, some, [], ◌∷◌}

abbrev start : TenantPools ℕ
start = new_pools (some 1) none

-- Two organisations, one after the other, in a cache for one.
abbrev used : TenantPools ℕ
used = (get_built (get_built start 7 10 70).1 8 11 80).1

run : Reach start used
run = next (next here (built 7 10 70)) (built 8 11 80)

eviction_test : used.map ≡ (8, record { pool = 80; last_used = 11 }) ∷ []
unfolding get_built new_pools
eviction_test = refl

live-le_example : live used ≤ start.cap
live-le_example = live-le (some 1) none used run

Reach-IsBounded_example : IsBounded used
Reach-IsBounded_example = Reach-IsBounded (new_pools-IsBounded (some 1) none) run

abbrev recent : Map ℕ
recent = (8, record { pool = 80; last_used = 11 }) ∷ (7, record { pool = 70; last_used = 10 }) ∷ []

abbrev blob_key : Text
blob_key = lit "captures/c1/a.mov"

traversal_test : safe_scoped (lit "org-7") (lit "../org-8/a") ≡ none
unfolding safe_scoped starts_with text_eq
traversal_test = refl
