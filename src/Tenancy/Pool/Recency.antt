-- ===== src/Tenancy/Pool/Recency.antt =====
-- What an eviction takes: the entries that were used least recently.
use reproit_cloud.Tenancy.Pool.{remove, least, Entry, evict, Map}
use reproit_cloud.Tenancy.Pool.Invariant.{Unique, Absent, remove-Unique}
use reproit_cloud.Prelude.{
  ltb, ◌==◌, ltb→lt, ==_iff, Bool-cases, length, ℕ, zero, suc, ◌≤◌, ◌≡◌, refl, sym, ap, ap₂, subst,
  ◌∙◌, ◌≢◌, ◌⊎◌, inl, inr, true, false, [], ◌∷◌, map, arith,
}

module _ {P : Type 0} where
  -- The entry stands in the map under the key.
  abbrev pub Stands : ℕ → Entry P → Map P → Type 0
  Stands key entry [] = ⊥
  Stands key entry ((k, e) ∷ entries) = ((key ≡ k) × (entry ≡ e)) ⊎ Stands key entry entries

  Stands-Absent : (k : ℕ) (e : Entry P) (map : Map P) → Stands k e map → ¬ Absent k map
  Stands-Absent k e [] s a = absurd s
  Stands-Absent k e ((x, y) ∷ map) (inl (same, _)) (a, _) = a (sym same)
  Stands-Absent k e ((x, y) ∷ map) (inr s) (_, a) = Stands-Absent k e map s a

  Stands-eq :
      (k : ℕ) (e f : Entry P) (map : Map P) → Unique map → Stands k e map → Stands k f map → e ≡ f
  Stands-eq k e f [] u s t = absurd s
  Stands-eq k e f ((x, y) ∷ map) u (inl (_, a)) (inl (_, b)) = a ∙ sym b
  Stands-eq k e f ((x, y) ∷ map) (u, _) (inl (same, _)) (inr t) =
      absurd (Stands-Absent k f map t (subst (λ z. Absent z map) (sym same) u))
  Stands-eq k e f ((x, y) ∷ map) (u, _) (inr s) (inl (same, _)) =
      absurd (Stands-Absent k e map s (subst (λ z. Absent z map) (sym same) u))
  Stands-eq k e f ((x, y) ∷ map) (_, u) (inr s) (inr t) = Stands-eq k e f map u s t

  Stands-remove : (v k : ℕ) (e : Entry P) (map : Map P) → Stands k e (remove v map) → Stands k e map
  unfolding remove
  Stands-remove v k e [] s = absurd s
  Stands-remove v k e ((x, y) ∷ map) s = elim (Bool-cases (x == v)) [
    | inl h ↦ inr (Stands-remove v k e map (ground arith))
    | inr h ↦
        let s' : ((k ≡ x) × (e ≡ y)) ⊎ Stands k e (remove v map) = ground arith in
        elim s' [ inl a ↦ inl a | inr b ↦ inr (Stands-remove v k e map b) ]
  ]

  Stands-remove_other :
      (v k : ℕ) (e : Entry P) (map : Map P) → k ≢ v → Stands k e map → Stands k e (remove v map)
  unfolding remove
  Stands-remove_other v k e [] n s = absurd s
  Stands-remove_other v k e ((x, y) ∷ map) n s = elim (Bool-cases (x == v)) [
    | inl h ↦
        rw (h, remove)
          (elim s [
            | inl (a, _) ↦ absurd (n (a ∙ (==_iff x v).0 h))
            | inr t ↦ Stands-remove_other v k e map n t
          ])
    | inr h ↦
        rw (h, remove) (elim s [ inl a ↦ inl a | inr t ↦ inr (Stands-remove_other v k e map n t) ])
  ]

  Stands-evict :
      (fuel cap k : ℕ) (e : Entry P) (map : Map P)
      → Stands k e (evict fuel cap map)
      → Stands k e map
  unfolding evict
  Stands-evict fuel cap k e [] s = s
  Stands-evict zero cap k e (x ∷ map) s = s
  Stands-evict (suc fuel) cap k e ((x, y) ∷ map) s =
      elim (Bool-cases (ltb cap (length ((x, y) ∷ map)))) [
        | inl h ↦ Stands-remove (least x y.last_used map) k e ((x, y) ∷ map) (
            Stands-evict fuel cap k e (remove (least x y.last_used map) ((x, y) ∷ map))
              (ground arith))
        | inr h ↦ ground arith
      ]

  -- The key has an entry that was used no later than any.
  abbrev IsFirst : ℕ → Map P → Type 0
  IsFirst key map =
      (v : Entry P) × Stands key v map
      × ((x : ℕ) (y : Entry P) → Stands x y map → v.last_used ≤ y.last_used)

  least-earlier :
      (k l : ℕ) (e f : Entry P) (map : Map P)
      → ltb f.last_used e.last_used ≡ true
      → least k e.last_used ((l, f) ∷ map) ≡ least l f.last_used map
  unfolding least
  least-earlier k l e f map h = ap₂ (λ a b. least a b map) (ground arith) (ground arith)

  least-later :
      (k l : ℕ) (e f : Entry P) (map : Map P)
      → ltb f.last_used e.last_used ≡ false
      → least k e.last_used ((l, f) ∷ map) ≡ least k e.last_used map
  unfolding least
  least-later k l e f map h = ap₂ (λ a b. least a b map) (ground arith) (ground arith)

  least-IsFirst :
      (k : ℕ) (e : Entry P) (map : Map P) → IsFirst (least k e.last_used map) ((k, e) ∷ map)
  unfolding least
  least-IsFirst k e [] = (
    e,
    inl (refl, refl),
    λ x y s. elim s [
      | inl (_, a) ↦ omega (arith, ap (λ (z : Entry P). z.last_used) a)
      | inr t ↦ absurd t
    ],
  )
  least-IsFirst k e ((l, f) ∷ map) = elim (Bool-cases (ltb f.last_used e.last_used)) [
    | inl h ↦
        let (v, s, m) = least-IsFirst l f map in
        let before = m l f (inl (refl, refl)) in
        subst (λ n. IsFirst n ((k, e) ∷ (l, f) ∷ map)) (sym (least-earlier k l e f map h))
          (
            v,
            inr s,
            λ x y t. elim t [
              | inl (_, a) ↦
                  let used = ap (λ (z : Entry P). z.last_used) a in
                  omega (arith, before, used, ltb→lt f.last_used e.last_used h)
              | inr u ↦ m x y u
            ],
          )
    | inr h ↦
        let (v, s, m) = least-IsFirst k e map in
        let before = m k e (inl (refl, refl)) in
        let s' : Stands (least k e.last_used map) v ((k, e) ∷ (l, f) ∷ map) = elim s [
          | inl a ↦ inl a
          | inr b ↦ inr (inr b)
        ] in
        subst (λ n. IsFirst n ((k, e) ∷ (l, f) ∷ map)) (sym (least-later k l e f map h))
          (
            v,
            s',
            λ x y t. elim t [
              | inl a ↦ m x y (inl a)
              | inr (inl (_, a)) ↦
                  let used = ap (λ (z : Entry P). z.last_used) a in ground (arith, before, used)
              | inr (inr b) ↦ m x y (inr b)
            ],
          )
  ]

  -- In a map with distinct keys, an entry either survives an eviction or was used no later than
  -- every entry that survives it.
  pub evict_recency :
      (fuel cap : ℕ) (map : Map P) (k l : ℕ) (e f : Entry P)
      → Unique map
      → Stands k e map
      → Stands l f (evict fuel cap map)
      → Stands k e (evict fuel cap map) ⊎ (e.last_used ≤ f.last_used)
  unfolding evict
  evict_recency fuel cap [] k l e f u s t = inl s
  evict_recency zero cap (x ∷ map) k l e f u s t = inl s
  evict_recency (suc fuel) cap ((x, y) ∷ map) k l e f u s t =
      let victim = least x y.last_used map in
      let left = remove victim ((x, y) ∷ map) in
      elim (Bool-cases (ltb cap (length ((x, y) ∷ map)))) [
        | inl h ↦
            let t' : Stands l f (evict fuel cap left) = ground arith in
            elim (Bool-cases (k == victim)) [
              | inl same ↦
                  let (v, stands, first) = least-IsFirst x y map in
                  let kept =
                    Stands-remove victim l f ((x, y) ∷ map) (Stands-evict fuel cap l f left t') in
                  let is_v = Stands-eq k e v ((x, y) ∷ map) u s (
                    subst (λ z. Stands z v ((x, y) ∷ map)) (sym ((==_iff k victim).0 same))
                      stands) in
                  inr (omega (arith, first l f kept, ap (λ (z : Entry P). z.last_used) is_v))
              | inr other ↦
                  rw (h, evict)
                    (evict_recency fuel cap left k l e f (remove-Unique victim ((x, y) ∷ map) u)
                      (Stands-remove_other victim k e ((x, y) ∷ map)
                        (λ a. absurd (ground (arith, (==_iff k victim).1 a))) s)
                      t')
            ]
        | inr h ↦ inl (rw (h, evict) s)
      ]
