-- ===== src/Protocol/Causal/Closure.antt =====
-- The closure of a removal: it always ends, keeps what is asked for, and leaves nothing behind that
-- depends on what it removes.
use reproit_cloud.Text.Compare.{text_ord, text_eq_iff}
use reproit_cloud.Prelude.Order.{contains}
use reproit_cloud.Protocol.Causal.{close, removal_closure, CausalGraph, follow}
use reproit_cloud.Protocol.Causal.Types.{CausalEdge}
use reproit_cloud.Protocol.Causal.Follow.{open_edges, Grows, Followed, follow_lem}
use reproit_cloud.Text.{Text, text_eq}
use reproit_cloud.Prelude.{
  Bool-cases, length, ℕ, zero, suc, ◌+◌, ◌≤◌, ◌≡◌, refl, sym, ◌∙◌, ◌⊎◌, inl, inr, true, some, List,
  [], ◌∷◌, arith,
}

-- Every removed id is pending, or what it leads to is removed.
abbrev Settled : List CausalEdge → List Text → List Text → Type 0
Settled edges removed pending =
    (x : Text) → contains removed x ≡ true → (contains pending x ≡ true) ⊎ Followed edges removed x

-- The removal of one pending id keeps every removed id settled.
Settled-follow :
    (edges : List CausalEdge) (id : Text) (removed pending : List Text)
    → Settled edges removed (id ∷ pending)
    → Settled edges (follow id edges removed pending).0 (follow id edges removed pending).1
unfolding contains
Settled-follow edges id removed pending s x h =
    let r = follow_lem edges edges id removed pending (λ e m. m) in
    elim (r.fresh x h) [
      | inr k ↦ inl k
      | inl old ↦ elim (s x old) [
        | inr f ↦ inr (λ e m g c. r.grows e.to (f e m g c))
        | inl p ↦ elim (Bool-cases (text_eq id x)) [
          | inl same ↦ inr (λ e m g c. r.followed e m (g ∙ sym ((text_eq_iff id x).0 same)) c)
          | inr other ↦ inl (r.keeps x (ground arith))
        ]
      ]
    ]

close_lem :
    (fuel : ℕ) (edges : List CausalEdge) (removed pending : List Text)
    → length pending + open_edges edges removed ≤ fuel
    → Settled edges removed pending
    → (r : List Text) × (close fuel edges removed pending ≡ some r)
      × Grows removed r
      × ((x : Text) → contains r x ≡ true → Followed edges r x)
unfolding close
close_lem fuel edges removed [] h s = (
  removed,
  refl,
  (λ x k. k),
  (λ x k. elim (s x k) [ inl p ↦ absurd (unfold contains in ground arith) | inr f ↦ f ]),
)
close_lem zero edges removed (id ∷ pending) h s = absurd (omega arith)
close_lem (suc fuel) edges removed (id ∷ pending) h s =
    let step = follow_lem edges edges id removed pending (λ e m. m) in
    let (r, e, g, f) =
      close_lem fuel edges (follow id edges removed pending).0 (follow id edges removed pending).1
        (omega (arith, step.fuel)) (Settled-follow edges id removed pending s) in
    (r, e, (λ x k. g x (step.grows x k)), f)

open_edges-le : (es : List CausalEdge) (removed : List Text) → open_edges es removed ≤ length es
unfolding open_edges
open_edges-le [] removed = omega arith
open_edges-le (e ∷ es) removed = ground (arith, open_edges-le es removed)

-- The closure of a removal always ends with a set that keeps what was requested and, with an id,
-- has every id that a dependency or a prerequisite edge leads to from it.
pub removal_closure_closed :
    (g : CausalGraph) (requested : List Text)
    → (r : List Text) × (removal_closure g requested ≡ some r)
      × ((x : Text) → contains requested x ≡ true → contains r x ≡ true)
      × ((x : Text) → contains r x ≡ true → Followed g.edges r x)
unfolding removal_closure
removal_closure_closed g requested =
    close_lem (length requested + length g.edges) g.edges requested requested
      (omega (arith, open_edges-le g.edges requested)) (λ x h. inl h)
