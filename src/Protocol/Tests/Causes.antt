-- ===== src/Protocol/Tests/Causes.antt =====
-- The closure of a removal in a small causal graph.
use reproit_cloud.Text.Compare.{text_ord}
use reproit_cloud.Text.{text_eq, text_lt, Text, lit}
use reproit_cloud.Protocol.Causal.{removal_closure, CausalGraph}
use reproit_cloud.Prelude.Order.{set_insert, contains}
use reproit_cloud.Protocol.Causal.Types.{
  carries_removal, CausalEdgeKind, CausalEdge, happens_before, data_dependency, state_prerequisite,
}
use reproit_cloud.Protocol.Causal.Least.{removal_closure_least}
use reproit_cloud.Protocol.Causal.Closure.{removal_closure_closed}
use reproit_cloud.Protocol.Causal.Follow.{Followed}
use reproit_cloud.Prelude.{◌≡◌, refl, inl, inr, true, some, List, [], ◌∷◌, arith}

abbrev edge : Text → Text → CausalEdgeKind → CausalEdge
edge from to kind = record { from = from; to = to; kind = kind }

abbrev chain : CausalGraph
chain = record {
  version = 1;
  nodes = [];
  edges =
      edge (lit "a") (lit "b") data_dependency
      ∷ edge (lit "b") (lit "c") state_prerequisite
      ∷ edge (lit "c") (lit "d") happens_before
      ∷ [];
}

-- The edge that only orders is not followed.
closure_test : removal_closure chain (lit "a" ∷ []) ≡ some (lit "a" ∷ lit "b" ∷ lit "c" ∷ [])
unfolding removal_closure text_eq carries_removal contains set_insert text_lt
closure_test = refl

removal_closure_closed_example :
    (r : List Text) × (removal_closure chain (lit "a" ∷ []) ≡ some r)
    × ((x : Text) → contains (lit "a" ∷ []) x ≡ true → contains r x ≡ true)
    × ((x : Text) → contains r x ≡ true → Followed chain.edges r x)
removal_closure_closed_example = removal_closure_closed chain (lit "a" ∷ [])

abbrev short : CausalGraph
short = record { version = 1; nodes = []; edges = edge (lit "a") (lit "b") happens_before ∷ [] }

-- A set that holds the removed id, and which no edge leaves.
alone : (x : Text) → contains (lit "a" ∷ []) x ≡ true → Followed short.edges (lit "a" ∷ []) x
unfolding carries_removal
alone x h e (inl same) f c = absurd (ground arith)
alone x h e (inr m) f c = absurd m

removal_closure_least_example : contains (lit "a" ∷ []) (lit "a") ≡ true
unfolding removal_closure text_eq carries_removal contains
removal_closure_least_example =
    removal_closure_least short (lit "a" ∷ []) (lit "a" ∷ []) {r = lit "a" ∷ []} refl (λ x h. h)
      alone (lit "a") refl
