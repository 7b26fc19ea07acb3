-- ===== src/Protocol/Causal/Types.antt =====
-- protocol/src/causal.rs: nodes, targets and edges.
use reproit_cloud.Prelude.{ℕ, ◌≡◌, Bool, true, false, Option, none, some, arith}
use reproit_cloud.Prelude.Order.{Ord, ord_of_rank, ord_of_image, ord_pair}
use reproit_cloud.Text.{Text}
use reproit_cloud.Text.Compare.{text_ord}

pub data CausalNodeKind : Type 0 where
  action response timer state_write callback permission actor_event backend_event environment
        finding :
      CausalNodeKind

pub data CausalTarget : Type 0 where
  action : (actor : Text) (index : ℕ) → CausalTarget
  exchange : (actor : Text) (action_index ordinal : ℕ) (exchange_id : Text) → CausalTarget
  backend_event : (sequence : ℕ) (trace_id span_id : Text) → CausalTarget
  environment : (key : Text) → CausalTarget

pub record CausalNode : Type 0 where
  pub id : Text
  pub kind : CausalNodeKind
  pub label : Text
  pub actor : Option Text
  pub target : Option CausalTarget

pub data CausalEdgeKind : Type 0 where
  happens_before data_dependency state_prerequisite actor_ownership contract_scope : CausalEdgeKind

pub record CausalEdge : Type 0 where
  pub from : Text
  pub to : Text
  pub kind : CausalEdgeKind

-- The `matches!` of `validate_node`.
unfoldable pub target_fits : CausalNodeKind → Option CausalTarget → Bool
target_fits CausalNodeKind.action (some (CausalTarget.action actor index)) = true
target_fits response (some (exchange actor action_index ordinal exchange_id)) = true
target_fits timer (some (CausalTarget.environment key)) = true
target_fits permission (some (CausalTarget.environment key)) = true
target_fits CausalNodeKind.environment (some (CausalTarget.environment key)) = true
target_fits state_write none = true
target_fits state_write (some (CausalTarget.backend_event sequence trace_id span_id)) = true
target_fits callback (some (CausalTarget.backend_event sequence trace_id span_id)) = true
target_fits CausalNodeKind.backend_event
      (some (CausalTarget.backend_event sequence trace_id span_id)) =
    true
target_fits actor_event none = true
target_fits finding none = true
target_fits _ _ = false

-- The `matches!` of `reduction_nodes`.
unfoldable pub is_reduction_target : Option CausalTarget → Bool
is_reduction_target none = false
is_reduction_target (some (CausalTarget.action actor index)) = true
is_reduction_target (some (exchange actor action_index ordinal exchange_id)) = true
is_reduction_target (some (CausalTarget.backend_event sequence trace_id span_id)) = true
is_reduction_target (some (CausalTarget.environment key)) = false

-- The `matches!` of `removal_closure`.
unfoldable pub carries_removal : CausalEdgeKind → Bool
carries_removal happens_before = false
carries_removal data_dependency = true
carries_removal state_prerequisite = true
carries_removal actor_ownership = false
carries_removal contract_scope = false

abbrev pub edge_kind_rank : CausalEdgeKind → ℕ
edge_kind_rank happens_before = 0
edge_kind_rank data_dependency = 1
edge_kind_rank state_prerequisite = 2
edge_kind_rank actor_ownership = 3
edge_kind_rank contract_scope = 4

pub edge_kind_rank-injective : (a b : CausalEdgeKind) → edge_kind_rank a ≡ edge_kind_rank b → a ≡ b
edge_kind_rank-injective a b h = ground arith

abbrev pub edge_fields : CausalEdge → Text × (Text × CausalEdgeKind)
edge_fields e = (e.from, (e.to, e.kind))

pub edge_fields-injective : (a b : CausalEdge) → edge_fields a ≡ edge_fields b → a ≡ b
edge_fields-injective a b h = λ i. record { from = (h i).0; to = (h i).1.0; kind = (h i).1.1 }

-- The derived order of `CausalEdge`, field by field.
instance abbrev pub edge_ord : Ord CausalEdge
edge_ord =
    ord_of_image
      (ord_pair text_ord (ord_pair text_ord (ord_of_rank edge_kind_rank edge_kind_rank-injective)))
      edge_fields edge_fields-injective
