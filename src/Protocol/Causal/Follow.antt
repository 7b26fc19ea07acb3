-- ===== src/Protocol/Causal/Follow.antt =====
-- One round of the closure: what the edges of one pending id remove and make pending.
use reproit_cloud.Text.Compare.{text_ord, text_eq_iff, text_eq_self}
use reproit_cloud.Prelude.Order.Canonical.{contains-set_insert}
use reproit_cloud.Protocol.Causal.Types.{CausalEdge, carries_removal}
use reproit_cloud.Protocol.Causal.{follow}
use reproit_cloud.Text.{Text, text_eq}
use reproit_cloud.Prelude.Order.{contains, set_insert}
use reproit_cloud.Prelude.{
  if◌then◌else◌, Bool-cases, length, length-append, ℕ, suc, ◌+◌, ◌≤◌, ◌≡◌, refl, sym, ap, ◌∙◌, ◌⊎◌,
  inl, inr, true, false, not, ◌&&◌, ◌||◌, List, [], ◌∷◌, ◌++◌, arith,
}

-- The edge stands in the list.
abbrev pub EdgeIn : CausalEdge → List CausalEdge → Type 0
EdgeIn e [] = ⊥
EdgeIn e (x ∷ xs) = (e ≡ x) ⊎ EdgeIn e xs

-- What the edges that carry a removal lead to from an id is removed.
abbrev pub Followed : List CausalEdge → List Text → Text → Type 0
Followed edges removed id =
    (e : CausalEdge)
    → EdgeIn e edges
    → e.from ≡ id
    → carries_removal e.kind ≡ true
    → contains removed e.to ≡ true

-- The edges that may still add an id.
unfoldable pub open_edges : List CausalEdge → List Text → ℕ
open_edges [] removed = 0
open_edges (e ∷ es) removed =
    let rest = open_edges es removed in if contains removed e.to then rest else suc rest

abbrev pub Grows : List Text → List Text → Type 0
Grows xs ys = (x : Text) → contains xs x ≡ true → contains ys x ≡ true

Grows-set_insert : (x : Text) (xs : List Text) → Grows xs (set_insert x xs)
Grows-set_insert x xs y h = ground (arith, contains-set_insert x xs y)

open_edges-insert_le :
    (x : Text) (es : List CausalEdge) (removed : List Text)
    → open_edges es (set_insert x removed) ≤ open_edges es removed
unfolding open_edges
open_edges-insert_le x [] removed = omega arith
open_edges-insert_le x (e ∷ es) removed =
    ground (arith, open_edges-insert_le x es removed, Grows-set_insert x removed e.to)

open_edges-insert_lt :
    (e : CausalEdge) (es : List CausalEdge) (removed : List Text)
    → EdgeIn e es
    → contains removed e.to ≡ false
    → suc (open_edges es (set_insert e.to removed)) ≤ open_edges es removed
unfolding open_edges
open_edges-insert_lt e [] removed m h = absurd m
open_edges-insert_lt e (x ∷ es) removed (inl same) h = ground (
  arith,
  open_edges-insert_le e.to es removed,
  contains-set_insert e.to removed e.to,
  text_eq_self e.to,
  ap (λ (y : CausalEdge). contains removed y.to) same,
  ap (λ (y : CausalEdge). contains (set_insert e.to removed) y.to) same,
)
open_edges-insert_lt e (x ∷ es) removed (inr m) h =
    ground (arith, open_edges-insert_lt e es removed m h, Grows-set_insert e.to removed x.to)

pub contains-append :
    (xs ys : List Text) (a : Text) → contains (xs ++ ys) a ≡ (contains xs a || contains ys a)
unfolding contains
contains-append [] ys a = refl
contains-append (x ∷ xs) ys a = ground (arith, contains-append xs ys a)

-- What one pending id leaves behind, with the edges of the whole graph.
pub record FollowResult (all id_edges : List CausalEdge) (id : Text) (removed pending : List Text)
    (removed' pending' : List Text) : Type 0 where
  pub fuel : length pending' + open_edges all removed' ≤ length pending + open_edges all removed
  pub grows : Grows removed removed'
  pub keeps : Grows pending pending'
  pub fresh :
      (x : Text)
      → contains removed' x ≡ true
      → (contains removed x ≡ true) ⊎ (contains pending' x ≡ true)
  pub followed : Followed id_edges removed' id

-- An edge that is followed: its end is removed and pending from here on.
FollowResult-taken :
    (whole es : List CausalEdge) (e : CausalEdge) (id : Text)
    (removed pending removed' pending' : List Text)
    → EdgeIn e whole
    → contains removed e.to ≡ false
    → FollowResult whole es id (set_insert e.to removed) (pending ++ (e.to ∷ [])) removed' pending'
    → FollowResult whole (e ∷ es) id removed pending removed' pending'
FollowResult-taken whole es e id removed pending removed' pending' m out r = record {
  fuel =
      let smaller = open_edges-insert_lt e whole removed m out in
      omega (arith, r.fuel, smaller, length-append pending (e.to ∷ []));
  grows = λ x h. r.grows x (Grows-set_insert e.to removed x h);
  keeps = λ x h. r.keeps x (ground (arith, contains-append pending (e.to ∷ []) x));
  fresh = λ x h. elim (r.fresh x h) [
    | inl k ↦ elim (Bool-cases (contains removed x)) [
      | inl a ↦ inl a
      | inr a ↦ inr (
          r.keeps x (
            unfold contains in
            ground
              (arith, contains-append pending (e.to ∷ []) x, contains-set_insert e.to removed x)))
    ]
    | inr k ↦ inr k
  ];
  followed = λ x n f c. elim n [
    | inl same ↦
        ap (λ (y : CausalEdge). contains removed' y.to) same
        ∙ r.grows e.to (ground (arith, contains-set_insert e.to removed e.to, text_eq_self e.to))
    | inr k ↦ r.followed x k f c
  ];
}

-- An edge that is passed over: it leads elsewhere, orders only, or ends in a removed id.
FollowResult-skipped :
    (whole es : List CausalEdge) (e : CausalEdge) (id : Text)
    (removed pending removed' pending' : List Text)
    → (text_eq e.from id && carries_removal e.kind && not (contains removed e.to)) ≡ false
    → FollowResult whole es id removed pending removed' pending'
    → FollowResult whole (e ∷ es) id removed pending removed' pending'
FollowResult-skipped whole es e id removed pending removed' pending' old r = record {
  fuel = r.fuel;
  grows = r.grows;
  keeps = r.keeps;
  fresh = r.fresh;
  followed = λ x n f c. elim n [
    | inl same ↦
        let from = ap (λ (y : CausalEdge). y.from) (sym same) ∙ f in
        let kind = ap (λ (y : CausalEdge). carries_removal y.kind) (sym same) ∙ c in
        let there : contains removed e.to ≡ true =
          ground (arith, (text_eq_iff e.from id).1 from, kind) in
        ap (λ (y : CausalEdge). contains removed' y.to) same ∙ r.grows e.to there
    | inr k ↦ r.followed x k f c
  ];
}

pub follow_lem :
    (whole es : List CausalEdge) (id : Text) (removed pending : List Text)
    → ((e : CausalEdge) → EdgeIn e es → EdgeIn e whole)
    → FollowResult whole es id removed pending
        (follow id es removed pending).0
        (follow id es removed pending).1
unfolding follow
follow_lem whole [] id removed pending sub = record {
  fuel = omega arith;
  grows = λ x h. h;
  keeps = λ x h. h;
  fresh = λ x h. inl h;
  followed = λ e m. absurd m;
}
follow_lem whole (e ∷ es) id removed pending sub =
    elim (Bool-cases (text_eq e.from id && carries_removal e.kind && not (contains removed e.to))) [
      | inl new' ↦
          rw (new', follow)
            (FollowResult-taken whole es e id removed pending _ _ (sub e (inl refl)) (ground arith)
              (follow_lem whole es id (set_insert e.to removed) (pending ++ (e.to ∷ []))
                (λ x m. sub x (inr m))))
      | inr old ↦
          rw (old, follow)
            (FollowResult-skipped whole es e id removed pending _ _ old
              (follow_lem whole es id removed pending (λ x m. sub x (inr m))))
    ]
