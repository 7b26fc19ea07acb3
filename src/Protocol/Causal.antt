-- ===== src/Protocol/Causal.antt =====
-- protocol/src/causal.rs: the causal graph, its validation by Kahn's algorithm, and the closure of
-- a removal.
pub mod Types
pub mod Maps
pub mod Follow
pub mod Closure
pub mod Least
use reproit_cloud.Text.Compare.{text_ord}
use reproit_cloud.Prelude.{
  ltb, ◌==◌, if◌then◌else◌, Result, ok, ◌>>=◌, ◌>>◌, reject, ok_or, map_err, length, ℕ, zero, suc,
  ◌+◌, ◌*◌, not, ◌&&◌, ◌||◌, Option, none, some, List, [], ◌∷◌, ◌++◌,
}
use reproit_cloud.Prelude.Order.{contains, set_insert}
use reproit_cloud.Text.{Text, text_eq}
use reproit_cloud.Protocol.Errors.{
  Checked, ProtocolError, new, unsupported_version, batch_too_large, invalid_event,
  invalid_sequence,
}
use reproit_cloud.Protocol.Validators.{validate_text, validate_token, validate_optional_token}
use Prim.Native.Nat.{pred}
use Types.{
  edge_ord, CausalTarget, CausalNode, CausalEdge, target_fits, is_reduction_target, carries_removal,
}
use Maps.{Degrees, Outgoing, adjust, degree_of, nexts_of, push_next}

abbrev pub causal_graph_version : ℕ
causal_graph_version = 1

abbrev pub max_causal_nodes : ℕ
max_causal_nodes = 16384

abbrev pub max_causal_edges : ℕ
max_causal_edges = 65536

abbrev pub max_causal_label_bytes : ℕ
max_causal_label_bytes = 16 * 1024

pub record CausalGraph : Type 0 where
  pub version : ℕ
  pub nodes : List CausalNode
  pub edges : List CausalEdge

-- `CausalGraph::default`
abbrev pub default_graph : CausalGraph
default_graph = record { version = causal_graph_version; nodes = []; edges = [] }

-- What ends a validation early: an error that is returned, or a panic.
pub data Fault : Type 0 where
  refused : ProtocolError → Fault
  panicked : Fault

-- The last `match` of `validate_node`.
unfoldable pub validate_target : Option CausalTarget → Checked
validate_target none = ok tt
validate_target (some (CausalTarget.action actor index)) = validate_token actor
validate_target (some (CausalTarget.exchange actor action_index ordinal exchange_id)) = do
  validate_token actor
  validate_text exchange_id max_causal_label_bytes
validate_target (some (CausalTarget.backend_event sequence trace_id span_id)) = do
  validate_token trace_id
  validate_token span_id
validate_target (some (CausalTarget.environment key)) = validate_text key max_causal_label_bytes

unfoldable pub validate_node : CausalNode → Checked
validate_node node = do
  validate_token node.id
  validate_text node.label max_causal_label_bytes
  validate_optional_token node.actor
  reject (not (target_fits node.kind node.target)) (new invalid_event)
  validate_target node.target

-- The loop over the nodes, with the ids so far.
unfoldable pub collect_ids : List Text → List CausalNode → Result ProtocolError (List Text)
collect_ids ids [] = ok ids
collect_ids ids (node ∷ nodes) =
    let rest = collect_ids (set_insert node.id ids) nodes in
    validate_node node >> reject (contains ids node.id) (new invalid_event) >>= λ _. rest

-- The conditions on one edge, with the ids and the edges so far.
unfoldable pub validate_edge : List Text → List CausalEdge → CausalEdge → Checked
validate_edge ids unique edge = do
  validate_token edge.from
  validate_token edge.to
  reject
      (text_eq edge.from edge.to
        || not (contains ids edge.from)
        || not (contains ids edge.to)
        || contains unique edge)
      (new invalid_event)

-- What the loop over the edges builds.
pub record Links : Type 0 where
  pub indegree : Degrees
  pub outgoing : Outgoing
  pub unique_edges : List CausalEdge

abbrev pub link : CausalEdge → Links → Links
link edge links = record {
  indegree = adjust suc edge.to links.indegree;
  outgoing = push_next edge.from edge.to links.outgoing;
  unique_edges = set_insert edge links.unique_edges;
}

unfoldable pub collect_edges : List Text → Links → List CausalEdge → Result ProtocolError Links
collect_edges ids links [] = ok links
collect_edges ids links (edge ∷ edges) =
    let rest = collect_edges ids (link edge links) edges in
    validate_edge ids links.unique_edges edge >>= λ _. rest

abbrev pub zero_degrees : List Text → Degrees
zero_degrees [] = []
zero_degrees (id ∷ ids) = (id, 0) ∷ zero_degrees ids

-- The ids without an incoming edge, in the order of the map.
abbrev pub ready_ids : Degrees → List Text
ready_ids [] = []
ready_ids ((id, degree) ∷ degrees) =
    let rest = ready_ids degrees in if degree == 0 then id ∷ rest else rest

-- `*degree -= 1; if *degree == 0 { ready.push_back(next) }`; `none` is the panic of a missing id
-- or of a degree below zero.
unfoldable pub release : Text → Degrees → List Text → Option (Degrees × List Text)
release next degrees ready = elim (degree_of next degrees) [
  | none ↦ none
  | some zero ↦ none
  | some (suc zero) ↦ some (adjust pred next degrees, ready ++ (next ∷ []))
  | some (suc (suc d)) ↦ some (adjust pred next degrees, ready)
]

abbrev then_release :
    (Degrees → List Text → Option (Degrees × List Text))
    → Option (Degrees × List Text)
    → Option (Degrees × List Text)
then_release k none = none
then_release k (some (degrees, ready)) = k degrees ready

unfoldable pub release_all : List Text → Degrees → List Text → Option (Degrees × List Text)
unfolding release
release_all [] degrees ready = some (degrees, ready)
release_all (next ∷ nexts) degrees ready =
    then_release (release_all nexts) (release next degrees ready)

abbrev then_visit : (Degrees → List Text → Option ℕ) → Option (Degrees × List Text) → Option ℕ
then_visit k none = none
then_visit k (some (degrees, ready)) = k degrees ready

-- `while let Some(id) = ready.pop_front()`, on fuel, with the count of the visits.
unfoldable pub visit : ℕ → Outgoing → ℕ → Degrees → List Text → Option ℕ
unfolding release_all
visit fuel outgoing visited degrees [] = some visited
visit zero outgoing visited degrees (id ∷ ready) = none
visit (suc fuel) outgoing visited degrees (id ∷ ready) =
    then_visit (visit fuel outgoing (suc visited))
      (release_all (nexts_of id outgoing) degrees ready)

unfoldable pub validate_graph : CausalGraph → Result Fault (Unit {0})
unfolding collect_ids collect_edges visit
validate_graph g = do
  reject (not (g.version == causal_graph_version)) (refused (new unsupported_version))
  reject (ltb max_causal_nodes (length g.nodes) || ltb max_causal_edges (length g.edges))
      (refused (new batch_too_large))
  ids ← map_err refused (collect_ids [] g.nodes)
  links ← map_err refused (
      collect_edges ids (record { indegree = zero_degrees ids; outgoing = []; unique_edges = [] })
        g.edges)
  visited ←
      ok_or (visit (length g.nodes) links.outgoing 0 links.indegree (ready_ids links.indegree))
        panicked
  reject (not (visited == length g.nodes)) (refused (new invalid_sequence))

-- The ids of the nodes that a reduction may remove.
unfoldable pub reduction_nodes : List CausalNode → List Text
reduction_nodes [] = []
reduction_nodes (node ∷ nodes) =
    let rest = reduction_nodes nodes in
    if is_reduction_target node.target then node.id ∷ rest else rest

-- The loop over the edges of one pending id.
unfoldable pub follow : Text → List CausalEdge → List Text → List Text → List Text × List Text
follow id [] removed pending = (removed, pending)
follow id (edge ∷ edges) removed pending =
    let new' =
      text_eq edge.from id && carries_removal edge.kind && not (contains removed edge.to) in
    follow id edges (if new' then set_insert edge.to removed else removed)
      (if new' then pending ++ (edge.to ∷ []) else pending)

-- `while let Some(id) = pending.pop_front()`, on fuel.
unfoldable pub close : ℕ → List CausalEdge → List Text → List Text → Option (List Text)
unfolding follow
close fuel edges removed [] = some removed
close zero edges removed (id ∷ pending) = none
close (suc fuel) edges removed (id ∷ pending) =
    let step = follow id edges removed pending in close fuel edges step.0 step.1

unfoldable pub removal_closure : CausalGraph → List Text → Option (List Text)
unfolding close
removal_closure g requested = close (length requested + length g.edges) g.edges requested requested
