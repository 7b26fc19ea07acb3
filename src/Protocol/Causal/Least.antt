-- ===== src/Protocol/Causal/Least.antt =====
-- The closure of a removal takes nothing that it does not have to.
use reproit_cloud.Text.Compare.{text_ord, text_eq_self, text_eq_iff}
use reproit_cloud.Prelude.Order.Canonical.{contains-set_insert}
use reproit_cloud.Text.{Text, text_eq}
use reproit_cloud.Protocol.Causal.{removal_closure, CausalGraph, close, follow}
use reproit_cloud.Prelude.Order.{contains, set_insert}
use reproit_cloud.Protocol.Causal.Types.{CausalEdge, carries_removal}
use reproit_cloud.Protocol.Causal.Follow.{Followed, Grows, contains-append}
use reproit_cloud.Prelude.{
  Bool-cases, length, ℕ, zero, suc, ◌+◌, ◌≡◌, refl, sym, ap, subst, ◌∙◌, inl, inr, true, not, ◌&&◌,
  some, List, [], ◌∷◌, ◌++◌, arith, some_eq,
}

module _ (bound : List Text) where
  Grows-insert_within :
      (x : Text) (xs : List Text)
      → contains bound x ≡ true
      → Grows xs bound
      → Grows (set_insert x xs) bound
  Grows-insert_within x xs h g y k = elim (Bool-cases (text_eq x y)) [
    | inl same ↦ ap (contains bound) (sym ((text_eq_iff x y).0 same)) ∙ h
    | inr other ↦ g y (ground (arith, contains-set_insert x xs y))
  ]

  Grows-push_within :
      (x : Text) (xs : List Text)
      → contains bound x ≡ true
      → Grows xs bound
      → Grows (xs ++ (x ∷ [])) bound
  unfolding contains
  Grows-push_within x xs h g y k = elim (Bool-cases (text_eq x y)) [
    | inl same ↦ ap (contains bound) (sym ((text_eq_iff x y).0 same)) ∙ h
    | inr other ↦ g y (ground (arith, contains-append xs (x ∷ []) y))
  ]

  follow_within :
      (es : List CausalEdge) (id : Text) (removed pending : List Text)
      → Followed es bound id
      → Grows removed bound
      → Grows pending bound
      → Grows (follow id es removed pending).0 bound × Grows (follow id es removed pending).1 bound
  unfolding follow
  follow_within [] id removed pending f g h = (g, h)
  follow_within (e ∷ es) id removed pending f g h =
      elim (Bool-cases
        (text_eq e.from id && carries_removal e.kind && not (contains removed e.to))) [
          | inl new' ↦
              let there =
                f e (inl refl) ((text_eq_iff e.from id).0 (ground arith)) (ground arith) in
              rw (new', follow)
                (follow_within es id (set_insert e.to removed) (pending ++ (e.to ∷ []))
                  (λ x m. f x (inr m)) (Grows-insert_within e.to removed there g)
                  (Grows-push_within e.to pending there h))
          | inr old ↦
              rw (old, follow) (follow_within es id removed pending (λ x m. f x (inr m)) g h)
        ]

  close_within :
      (fuel : ℕ) (edges : List CausalEdge) (removed pending : List Text) {r : List Text}
      → ((x : Text) → contains bound x ≡ true → Followed edges bound x)
      → Grows removed bound
      → Grows pending bound
      → close fuel edges removed pending ≡ some r
      → Grows r bound
  unfolding close contains
  close_within fuel edges removed [] f g h e = subst (λ s. Grows s bound) (some_eq e) g
  close_within zero edges removed (id ∷ pending) f g h e = absurd (ground arith)
  close_within (suc fuel) edges removed (id ∷ pending) f g h e =
      let here = h id (ground (arith, text_eq_self id)) in
      let (g', h') =
        follow_within edges id removed pending (f id here) g (λ x k. h x (ground arith)) in
      close_within fuel edges (follow id edges removed pending).0
        (follow id edges removed pending).1 f g' h' e

-- The closure that is returned is the least set of its kind: each set that holds what was requested
-- and is closed under the edges that carry a removal holds all of it.
pub removal_closure_least :
    (g : CausalGraph) (requested bound : List Text) {r : List Text}
    → removal_closure g requested ≡ some r
    → ((x : Text) → contains requested x ≡ true → contains bound x ≡ true)
    → ((x : Text) → contains bound x ≡ true → Followed g.edges bound x)
    → (x : Text) → contains r x ≡ true
    → contains bound x ≡ true
unfolding removal_closure
removal_closure_least g requested bound e h f =
    close_within bound (length requested + length g.edges) g.edges requested requested f h h e
