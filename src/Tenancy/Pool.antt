-- ===== src/Tenancy/Pool.antt =====
-- src/tenancy/pool.rs: the bounded cache of connection pools. A pool of `sqlx` is a type `P`; an
-- organisation's id is only compared, and stands as a number; the list order of the map stands for
-- the order in which a `HashMap` happens to be walked. Time is an argument.
pub mod Invariant
pub mod Interleaving
pub mod Recency
use reproit_cloud.Prelude.{
  ltb, ◌==◌, if◌then◌else◌, length, ℕ, zero, suc, ◌-◌, max, Option, none, some, List, [], ◌∷◌, map,
}

pub record Entry (P : Type 0) : Type 0 where
  pub pool : P
  pub last_used : ℕ

abbrev pub Map : Type 0 → Type 0
Map P = List (ℕ × Entry P)

pub record TenantPools (P : Type 0) : Type 0 where
  pub map : Map P
  pub cap : ℕ
  pub idle_ttl : ℕ

module _ {P : Type 0} where
  -- `TenantPools::new`, with the two settings of the environment.
  unfoldable pub new_pools : Option ℕ → Option ℕ → TenantPools P
  new_pools cap idle_secs = record {
    map = [];
    cap = max (elim cap [ none ↦ 256 | some n ↦ n ]) 1;
    idle_ttl = elim idle_secs [ none ↦ 300 | some n ↦ n ];
  }

  -- `map.get(key)`
  unfoldable pub entry_of : ℕ → Map P → Option (Entry P)
  entry_of key [] = none
  entry_of key ((k, e) ∷ entries) = if k == key then some e else entry_of key entries

  -- `e.last_used = Instant::now()`
  unfoldable pub touch : ℕ → ℕ → Map P → Map P
  touch key now [] = []
  touch key now ((k, e) ∷ entries) =
      (k, (if k == key then record e { last_used = now } else e)) ∷ touch key now entries

  -- `map.remove(key)`
  unfoldable pub remove : ℕ → Map P → Map P
  remove key [] = []
  remove key ((k, e) ∷ entries) =
      let rest = remove key entries in if k == key then rest else (k, e) ∷ rest

  -- `min_by_key` on the times, with the entry that is least so far.
  unfoldable pub least : ℕ → ℕ → Map P → ℕ
  least key time [] = key
  least key time ((k, e) ∷ entries) =
      least (if ltb e.last_used time then k else key)
        (if ltb e.last_used time then e.last_used else time) entries

  -- `evict_locked`: `while map.len() > self.cap`, on fuel.
  unfoldable pub evict : ℕ → ℕ → Map P → Map P
  unfolding least remove
  evict fuel cap [] = []
  evict zero cap (x ∷ entries) = x ∷ entries
  evict (suc fuel) cap ((k, e) ∷ entries) =
      let rest = evict fuel cap (remove (least k e.last_used entries) ((k, e) ∷ entries)) in
      if ltb cap (length ((k, e) ∷ entries)) then rest else (k, e) ∷ entries

  -- The first locked part of `get`: a live pool, and its recency.
  unfoldable pub get_hit : TenantPools P → ℕ → ℕ → Option (P × TenantPools P)
  unfolding entry_of touch
  get_hit pools key now = elim (entry_of key pools.map) [
    | none ↦ none
    | some e ↦ some (e.pool, record pools { map = touch key now pools.map })
  ]

  -- The second locked part of `get`, with the pool that was built between the two.
  unfoldable pub get_built : TenantPools P → ℕ → ℕ → P → P × TenantPools P
  unfolding entry_of touch evict
  get_built pools key now built =
      let map = (key, record { pool = built; last_used = now }) ∷ pools.map in
      elim (entry_of key pools.map) [
        | none ↦ (built, record pools { map = evict (length map) pools.cap map })
        | some e ↦ (e.pool, record pools { map = touch key now pools.map })
      ]

  unfoldable pub invalidate : TenantPools P → ℕ → TenantPools P
  unfolding remove
  invalidate pools key = record pools { map = remove key pools.map }

  -- The keys of the entries that were not used within the time to live.
  unfoldable pub stale_keys : ℕ → ℕ → Map P → List ℕ
  stale_keys ttl now [] = []
  stale_keys ttl now ((k, e) ∷ entries) =
      let rest = stale_keys ttl now entries in
      if ltb ttl (now - e.last_used) then k ∷ rest else rest

  unfoldable pub remove_all : List ℕ → Map P → Map P
  unfolding remove
  remove_all [] map = map
  remove_all (k ∷ ks) map = remove_all ks (remove k map)

  unfoldable pub sweep_idle : TenantPools P → ℕ → TenantPools P × ℕ
  unfolding stale_keys remove_all
  sweep_idle pools now =
      let stale = stale_keys pools.idle_ttl now pools.map in
      (record pools { map = remove_all stale pools.map }, length stale)

  unfoldable pub live : TenantPools P → ℕ
  live pools = length pools.map
