-- ===== src/Jobs/Scheduler/Order.antt =====
-- The ranking holds the candidates that may claim, each once, most urgent first.
use mathlib.Core.List.{Perm}
use mathlib.Core.List.Perm
use reproit_cloud.Jobs.Scheduler.Urgency.{
  IsMeasured, urgency_key, IsSmall, claim_score_lem, key_lt-shift, urgency,
}
use reproit_cloud.Prelude.{
  ltb, if◌then◌else◌, Bool-cases, All, get_elem?, ℕ, zero, suc, ◌+◌, ◌≡◌, refl, sym, ap₂, subst,
  ◌∙◌, inl, inr, false, some, List, [], ◌∷◌, arith, some_eq,
}
use reproit_cloud.Prelude.Int.{ℤ, int_ord}
use reproit_cloud.Prelude.Order.SortBy.{
  sort_by, sort_by-All, sort_by-perm, sort_by-IsSortedBy, IsSortedBy,
}
use reproit_cloud.Jobs.Scheduler.{
  key_ord, Candidate, elastic, mac, may_claim, admissible, claim_key, claim_ranking, claim_order,
  indices,
}

-- The indices of the candidates that may be tried, from a number on: any on the elastic tier, and on the
-- Mac tier those of tenants below their cap.
abbrev pub claimable : ℕ → List Candidate → List ℕ
claimable i [] = []
claimable i (c ∷ cands) =
    let rest = claimable (i + 1) cands in
    elim c.tier [
      | elastic ↦ i ∷ rest
      | mac ↦ if ltb c.tenant_running c.tenant_lane_cap then i ∷ rest else rest
    ]

claimable_lem : (i : ℕ) (cands : List Candidate) → indices (admissible i cands) ≡ claimable i cands
unfolding admissible may_claim
claimable_lem i [] = refl
claimable_lem i (c ∷ cands) = let rest = claimable_lem (i + 1) cands in ground (arith, rest)

All-get_elem? :
    (P : Candidate → Type 0) (cands : List Candidate) (n : ℕ) (c : Candidate)
    → All P cands
    → get_elem? cands n ≡ some c
    → P c
All-get_elem? P [] n c h e = absurd (ground arith)
All-get_elem? P (x ∷ cands) zero c (h, hs) e = subst P (some_eq e) h
All-get_elem? P (x ∷ cands) (suc n) c (h, hs) e = All-get_elem? P cands n c hs e

admissible-All :
    (Q : ℕ × Candidate → Type 0) (i : ℕ) (cands : List Candidate)
    → ((n : ℕ) (c : Candidate) → get_elem? cands n ≡ some c → Q (i + n, c))
    → All Q (admissible i cands)
unfolding admissible
admissible-All Q i [] h = tt
admissible-All Q i (c ∷ cands) h =
    let rest = admissible-All Q (i + 1) cands (λ n x e.
      let at : i + suc n ≡ i + 1 + n = omega arith in subst (λ k. Q (k, x)) at (h (suc n) x e)) in
    let here : i + 0 ≡ i = omega arith in
    elim (Bool-cases (may_claim c)) [
      | inl e ↦ rw e (subst (λ k. Q (k, c)) here (h 0 c refl), rest)
      | inr e ↦ rw e rest
    ]

-- The candidate at the second index is not to be tried before that at the first.
abbrev pub InOrder : List Candidate → ℕ → ℕ → Type 0
InOrder cands i j =
    (a b : Candidate)
    → get_elem? cands i ≡ some a
    → get_elem? cands j ≡ some b
    → key_ord.lt (urgency_key b) (urgency_key a) ≡ false

-- No candidate of a later index is to be tried before that of an earlier one.
abbrev pub AreInOrder : List Candidate → List ℕ → Type 0
AreInOrder cands [] = Unit {0}
AreInOrder cands (i ∷ is) = All (InOrder cands i) is × AreInOrder cands is

-- An entry of the ranking is a candidate under its own index.
record IsEntry (cands : List Candidate) (now_unix : ℤ) (entry : ℕ × Candidate) : Type 0 where
  pub stands : get_elem? cands entry.0 ≡ some entry.1
  pub measured : IsMeasured now_unix entry.1

module _ (round : ℤ → ℤ) (exact : (z : ℤ) → IsSmall z → round z ≡ z) (cands : List Candidate)
    (now_unix : ℤ) where
  key_lt_lem :
      (a b : Candidate) (i j : ℕ)
      → IsMeasured now_unix a
      → IsMeasured now_unix b
      → key_ord.lt (claim_key round now_unix (i, a)) (claim_key round now_unix (j, b))
        ≡ key_ord.lt (urgency_key a) (urgency_key b)
  key_lt_lem a b i j m n =
      rw (claim_score_lem round exact now_unix a m, claim_score_lem round exact now_unix b n)
        (key_lt-shift (urgency a) (urgency b) now_unix (a.deadline_unix, a.tenant)
          (b.deadline_unix, b.tenant))

  entry-InOrder :
      (x y : ℕ × Candidate)
      → IsEntry cands now_unix x
      → IsEntry cands now_unix y
      → key_ord.lt (claim_key round now_unix y) (claim_key round now_unix x) ≡ false
      → InOrder cands x.0 y.0
  entry-InOrder x y p q h a b e f =
      let same = some_eq (sym p.stands ∙ e) in
      let same' = some_eq (sym q.stands ∙ f) in
      let shifted = sym (key_lt_lem y.1 x.1 y.0 x.0 q.measured p.measured) ∙ h in
      ap₂ (λ u v. key_ord.lt (urgency_key u) (urgency_key v)) (sym same') (sym same) ∙ shifted

  entries-InOrder :
      (x : ℕ × Candidate) (es : List (ℕ × Candidate))
      → IsEntry cands now_unix x
      → All (IsEntry cands now_unix) es
      → All (λ y. key_ord.lt (claim_key round now_unix y) (claim_key round now_unix x) ≡ false) es
      → All (InOrder cands x.0) (indices es)
  entries-InOrder x [] p ps h = tt
  entries-InOrder x (y ∷ es) p (q, qs) (h, hs) =
      (entry-InOrder x y p q h, entries-InOrder x es p qs hs)

  ranking-AreInOrder :
      (es : List (ℕ × Candidate))
      → All (IsEntry cands now_unix) es
      → IsSortedBy (claim_key round now_unix) es
      → AreInOrder cands (indices es)
  ranking-AreInOrder [] ps s = tt
  ranking-AreInOrder (x ∷ es) (p, ps) (n, s) =
      (entries-InOrder x es p ps n, ranking-AreInOrder es ps s)

  -- The order holds the index of each candidate on the elastic tier, and of each on the Mac tier whose
  -- tenant is below its cap, once. A later one has no smaller urgency, deadline and tenant name,
  -- compared in this order, where urgency is the deadline, an hour earlier for an interactive run and
  -- half a minute later for each shard over the share, whatever the time is: if `round` keeps the whole
  -- numbers up to 2 ^ 53, as `f64` does, deadlines are within 2 ^ 52 seconds, and running counts are
  -- `u32`.
  pub claim_order_lem :
      All (IsMeasured now_unix) cands
      → Perm (claim_order round cands now_unix) (claimable 0 cands)
        × AreInOrder cands (claim_order round cands now_unix)
  unfolding claim_order claim_ranking
  claim_order_lem measured =
      let key = claim_key round now_unix in
      let entries = admissible-All (IsEntry cands now_unix) 0 cands (λ n c e. record {
        stands = (let at : n ≡ 0 + n = omega arith in subst (λ k. get_elem? cands k ≡ some c) at e);
        measured = All-get_elem? (IsMeasured now_unix) cands n c measured e;
      }) in
      (
        subst (Perm (indices (sort_by key (admissible 0 cands)))) (claimable_lem 0 cands)
            (Perm.map (λ (e : ℕ × Candidate). e.0) (sort_by-perm key (admissible 0 cands))),
        ranking-AreInOrder (sort_by key (admissible 0 cands))
            (sort_by-All key (IsEntry cands now_unix) (admissible 0 cands) entries)
            (sort_by-IsSortedBy key (admissible 0 cands)),
      )
