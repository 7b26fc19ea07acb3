-- ===== src/Tenancy/Pool/Invariant.antt =====
-- The cache stays within its bound and holds one pool for each organisation, whatever the order in
-- which concurrent callers enter the locked parts.
use reproit_cloud.Prelude.{
  ltb, ◌==◌, Bool-cases, Option-cases, length, ℕ, zero, suc, ◌≤◌, ◌≡◌, refl, ap, subst, ◌∙◌, ◌≢◌,
  ◌⊎◌, inl, inr, true, false, Option, none, some, List, [], ◌∷◌, map, arith, some_eq,
}
use reproit_cloud.Tenancy.Pool.{
  Entry, Map, TenantPools, new_pools, entry_of, touch, remove, least, evict, get_hit, get_built,
  invalidate, stale_keys, remove_all, sweep_idle,
}

module _ {P : Type 0} where
  -- The key has no entry.
  abbrev pub Absent : ℕ → Map P → Type 0
  Absent key [] = Unit {0}
  Absent key ((k, e) ∷ entries) = (k ≢ key) × Absent key entries

  abbrev pub Unique : Map P → Type 0
  Unique [] = Unit {0}
  Unique ((k, e) ∷ entries) = Absent k entries × Unique entries

  pub record IsBounded (pools : TenantPools P) : Type 0 where
    pub unique : Unique pools.map
    pub bounded : length pools.map ≤ pools.cap

  entry_of-Absent : (key : ℕ) (map : Map P) → entry_of key map ≡ none → Absent key map
  unfolding entry_of
  entry_of-Absent key [] h = tt
  entry_of-Absent key ((k, e) ∷ map) h =
      ((λ same. absurd (ground arith)), entry_of-Absent key map (ground arith))

  touch-Absent :
      (key now other : ℕ) (map : Map P) → Absent other map → Absent other (touch key now map)
  unfolding touch
  touch-Absent key now other [] h = tt
  touch-Absent key now other ((k, e) ∷ map) (h, hs) = (h, touch-Absent key now other map hs)

  touch-Unique : (key now : ℕ) (map : Map P) → Unique map → Unique (touch key now map)
  unfolding touch
  touch-Unique key now [] h = tt
  touch-Unique key now ((k, e) ∷ map) (h, hs) =
      (touch-Absent key now k map h, touch-Unique key now map hs)

  length-touch : (key now : ℕ) (map : Map P) → length (touch key now map) ≡ length map
  unfolding touch
  length-touch key now [] = refl
  length-touch key now ((k, e) ∷ map) = ap suc (length-touch key now map)

  remove-Absent : (key other : ℕ) (map : Map P) → Absent other map → Absent other (remove key map)
  unfolding remove
  remove-Absent key other [] h = tt
  remove-Absent key other ((k, e) ∷ map) (h, hs) = elim (Bool-cases (k == key)) [
    | inl e' ↦ rw e' (remove-Absent key other map hs)
    | inr e' ↦ rw e' (h, remove-Absent key other map hs)
  ]

  pub remove-Unique : (key : ℕ) (map : Map P) → Unique map → Unique (remove key map)
  unfolding remove
  remove-Unique key [] h = tt
  remove-Unique key ((k, e) ∷ map) (h, hs) = elim (Bool-cases (k == key)) [
    | inl e' ↦ rw e' (remove-Unique key map hs)
    | inr e' ↦ rw e' (remove-Absent key k map h, remove-Unique key map hs)
  ]

  length-remove-le : (key : ℕ) (map : Map P) → length (remove key map) ≤ length map
  unfolding remove
  length-remove-le key [] = omega arith
  length-remove-le key ((k, e) ∷ map) = ground (arith, length-remove-le key map)

  remove_same : (key : ℕ) (map : Map P) → Absent key map → remove key map ≡ map
  unfolding remove
  remove_same key [] h = refl
  remove_same key ((k, e) ∷ map) (h, hs) = ground (arith, h, remove_same key map hs)

  -- The key has an entry.
  abbrev Held : ℕ → Map P → Type 0
  Held key [] = ⊥
  Held key ((k, e) ∷ map) = (k ≡ key) ⊎ Held key map

  -- The victim is one of the keys, so that removing it shortens the map.
  least-Held :
      (key time : ℕ) (map : Map P) → (key ≡ least key time map) ⊎ Held (least key time map) map
  unfolding least
  least-Held key time [] = inl refl
  least-Held key time ((k, e) ∷ entries) = elim (Bool-cases (ltb e.last_used time)) [
    | inl lower ↦
        subst (λ v. (key ≡ v) ⊎ ((k ≡ v) ⊎ Held v entries)) (taken lower)
          (inr (least-Held k e.last_used entries))
    | inr higher ↦
        subst (λ v. (key ≡ v) ⊎ ((k ≡ v) ⊎ Held v entries)) (kept higher)
          (weaken (least-Held key time entries))
  ]
    where
      taken :
          ltb e.last_used time ≡ true
          → least k e.last_used entries ≡ least key time ((k, e) ∷ entries)
      taken h = rw h

      kept :
          ltb e.last_used time ≡ false → least key time entries ≡ least key time ((k, e) ∷ entries)
      kept h = rw h

      weaken : {v : ℕ} → (key ≡ v) ⊎ Held v entries → (key ≡ v) ⊎ ((k ≡ v) ⊎ Held v entries)
      weaken (inl h) = inl h
      weaken (inr h) = inr (inr h)

  length-remove-Held :
      (key : ℕ) (map : Map P) → Held key map → suc (length (remove key map)) ≤ length map
  unfolding remove
  length-remove-Held key [] h = absurd h
  length-remove-Held key ((k, e) ∷ map) (inl h) = ground (arith, length-remove-le key map)
  length-remove-Held key ((k, e) ∷ map) (inr h) = ground (arith, length-remove-Held key map h)

  length-evict :
      (fuel cap : ℕ) (map : Map P) → length map ≤ fuel → length (evict fuel cap map) ≤ cap
  unfolding evict
  length-evict fuel cap [] h = omega arith
  length-evict zero cap (x ∷ map) h = absurd (omega arith)
  length-evict (suc fuel) cap ((k, e) ∷ map) h =
      elim (Bool-cases (ltb cap (length ((k, e) ∷ map)))) [
        | inl over ↦ rw over (
            length-evict fuel cap _
              (omega (arith, length-remove-Held _ ((k, e) ∷ map) (least-Held k e.last_used map))))
        | inr within ↦ rw within (ground arith)
      ]

  evict-Unique : (fuel cap : ℕ) (map : Map P) → Unique map → Unique (evict fuel cap map)
  unfolding evict
  evict-Unique fuel cap [] h = tt
  evict-Unique zero cap (x ∷ map) h = h
  evict-Unique (suc fuel) cap ((k, e) ∷ map) h =
      elim (Bool-cases (ltb cap (length ((k, e) ∷ map)))) [
        | inl over ↦ rw over (evict-Unique fuel cap _ (remove-Unique _ ((k, e) ∷ map) h))
        | inr within ↦ rw within h
      ]

  pub new_pools-IsBounded : (cap idle : Option ℕ) → IsBounded (new_pools cap idle)
  unfolding new_pools
  new_pools-IsBounded cap idle = record { unique = tt; bounded = omega arith }

  pub get_hit-IsBounded :
      (pools : TenantPools P) (key now : ℕ) {r : P × TenantPools P}
      → IsBounded pools
      → get_hit pools key now ≡ some r
      → IsBounded r.1
  unfolding get_hit
  get_hit-IsBounded pools key now v h = elim (Option-cases (entry_of key pools.map)) [
    | inl e ↦ absurd (ground arith)
    | inr (e, found) ↦
        subst (λ (r : P × TenantPools P). IsBounded r.1) (some_eq (hit e found ∙ h))
          (record {
            unique = touch-Unique key now pools.map v.unique;
            bounded = omega (arith, length-touch key now pools.map, v.bounded);
          })
  ]
    where
      hit :
          (e : Entry P)
          → entry_of key pools.map ≡ some e
          → some (e.pool, record pools { map = touch key now pools.map }) ≡ get_hit pools key now
      hit e found = ground arith

  pub get_built-IsBounded :
      (pools : TenantPools P) (key now : ℕ) (built : P)
      → IsBounded pools
      → IsBounded (get_built pools key now built).1
  unfolding get_built
  get_built-IsBounded pools key now built v = elim (Option-cases (entry_of key pools.map)) [
    | inl e ↦
        rw (e, get_built)
          (record {
            unique =
                evict-Unique (length grown) pools.cap grown
                  (entry_of-Absent key pools.map e, v.unique);
            bounded = length-evict (length grown) pools.cap grown (omega arith);
          })
    | inr (e, found) ↦
        rw (found, get_built)
          (record {
            unique = touch-Unique key now pools.map v.unique;
            bounded = omega (arith, length-touch key now pools.map, v.bounded);
          })
  ]
    where
      grown : Map P
      grown = (key, record { pool = built; last_used = now }) ∷ pools.map

  pub invalidate-IsBounded :
      (pools : TenantPools P) (key : ℕ) → IsBounded pools → IsBounded (invalidate pools key)
  unfolding invalidate
  invalidate-IsBounded pools key v = record {
    unique = remove-Unique key pools.map v.unique;
    bounded = omega (arith, length-remove-le key pools.map, v.bounded);
  }

  remove_all-keeps :
      (keys : List ℕ) (map : Map P)
      → Unique map
      → Unique (remove_all keys map) × (length (remove_all keys map) ≤ length map)
  unfolding remove_all
  remove_all-keeps [] map h = (h, omega arith)
  remove_all-keeps (k ∷ ks) map h =
      let (unique, short) = remove_all-keeps ks (remove k map) (remove-Unique k map h) in
      (unique, omega (arith, short, length-remove-le k map))

  pub sweep_idle-IsBounded :
      (pools : TenantPools P) (now : ℕ) → IsBounded pools → IsBounded (sweep_idle pools now).0
  unfolding sweep_idle
  sweep_idle-IsBounded pools now v =
      let (unique, short) =
        remove_all-keeps (stale_keys pools.idle_ttl now pools.map) pools.map v.unique in
      record { unique = unique; bounded = omega (arith, short, v.bounded) }
