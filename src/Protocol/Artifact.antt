-- ===== src/Protocol/Artifact.antt =====
-- protocol/src/lib.rs: artifact nodes, their content addresses, and the evidence graph.
pub mod Laws
pub mod Root
use reproit_cloud.Text.Compare.{text_ord}
use reproit_cloud.Prelude.{
  ltb, if◌then◌else◌, Result, ok, ◌>>=◌, ◌>>◌, reject, ok_or, map_err, each, length, is_empty, drop,
  all, find, Bool, true, false, not, ◌&&◌, ◌||◌, Option, none, some, List, [], ◌∷◌, ◌++◌,
}
use reproit_cloud.Prelude.Order.{contains, set_insert}
use reproit_cloud.Text.{Text, lit, text_eq, starts_with}
use reproit_cloud.Protocol.Errors.{ProtocolError, new, invalid_artifact}
use reproit_cloud.Protocol.Validators.{
  max_artifact_nodes, max_frame_bytes, valid_hash, validate_token, validate_value,
}
use reproit_cloud.Protocol.Event.{Serde}
use reproit_cloud.Protocol.Ledger.{ProofLedger, validate_ledger}
use reproit_cloud.Protocol.Environment.{EnvironmentProof, validate_proof}
use reproit_cloud.Protocol.Causal.{CausalGraph, Fault, refused, validate_graph}

pub data ArtifactKind : Type 0 where
  raw_capture normalized_trace evaluation replay minimized_trace causal_graph environment_envelope
        proof_ledger :
      ArtifactKind

unfoldable pub artifact_kind_as_str : ArtifactKind → Text
artifact_kind_as_str raw_capture = lit "raw-capture"
artifact_kind_as_str normalized_trace = lit "normalized-trace"
artifact_kind_as_str evaluation = lit "evaluation"
artifact_kind_as_str replay = lit "replay"
artifact_kind_as_str minimized_trace = lit "minimized-trace"
artifact_kind_as_str causal_graph = lit "causal-graph"
artifact_kind_as_str environment_envelope = lit "environment-envelope"
artifact_kind_as_str proof_ledger = lit "proof-ledger"

abbrev pub is_proof_ledger : ArtifactKind → Bool
is_proof_ledger proof_ledger = true
is_proof_ledger _ = false

pub record ArtifactNode (V : Type 0) : Type 0 where
  pub id : Text
  pub kind : ArtifactKind
  pub parents : List Text
  pub payload : V

pub record EvidenceGraph (V : Type 0) : Type 0 where
  pub run_id : Text
  pub root : Text
  pub nodes : List (ArtifactNode V)

-- What the artifacts use of `serde_json`, `sha2` and `hex`.
pub record Codec (serde : Serde) : Type 1 where
  -- `serde_json::to_vec(&(kind, parents, payload))`
  pub material_to_vec : ArtifactKind → List Text → serde.Value → Option Text
  -- `hex::encode(Sha256::digest(bytes))`
  pub sha256_hex : Text → Text
  -- `serde_json::from_value`, at each type
  pub graph_from_value : serde.Value → Option CausalGraph
  pub proof_from_value : serde.Value → Option EnvironmentProof
  pub ledger_from_value : serde.Value → Option ProofLedger

-- `parent.starts_with("sha256:") && valid_hash(&parent[7..], 64)`
unfoldable pub is_content_address : Text → Bool
is_content_address parent = starts_with parent (lit "sha256:") && valid_hash (drop 7 parent) 64

module _ (serde : Serde) (codec : Codec serde) where
  open serde use {Value, value_to_vec}
  open codec use {
    material_to_vec, sha256_hex, graph_from_value, proof_from_value, ledger_from_value,
  }

  unfoldable pub artifact_id : ArtifactKind → List Text → Value → Result ProtocolError Text
  artifact_id kind parents payload = do
    validate_value (value_to_vec payload) max_frame_bytes
    each (λ parent. reject (not (is_content_address parent)) (new invalid_artifact)) parents
    material ← ok_or (material_to_vec kind parents payload) (new invalid_artifact)
    ok (lit "sha256:" ++ sha256_hex material)

  -- `ArtifactNode::new`
  unfoldable pub new_node :
      ArtifactKind → List Text → Value → Result ProtocolError (ArtifactNode Value)
  new_node kind parents payload = do
    id ← artifact_id kind parents payload
    ok (record { id = id; kind = kind; parents = parents; payload = payload })

  -- The `match` of `ArtifactNode::validate`.
  unfoldable pub validate_payload : ArtifactKind → Value → Result Fault (Unit {0})
  validate_payload causal_graph payload = do
    graph ← ok_or (graph_from_value payload) (refused (new invalid_artifact))
    validate_graph graph
  validate_payload environment_envelope payload = do
    proof ← ok_or (proof_from_value payload) (refused (new invalid_artifact))
    map_err refused (validate_proof proof)
  validate_payload proof_ledger payload = do
    ledger ← ok_or (ledger_from_value payload) (refused (new invalid_artifact))
    map_err refused (validate_ledger ledger)
  validate_payload _ payload = ok tt

  unfoldable pub validate_artifact : ArtifactNode Value → Result Fault (Unit {0})
  validate_artifact node = do
    id ← map_err refused (artifact_id node.kind node.parents node.payload)
    reject (not (text_eq node.id id)) (refused (new invalid_artifact))
    validate_payload node.kind node.payload

  -- The loop over the nodes, with the ids of the nodes before.
  unfoldable pub validate_nodes : List Text → List (ArtifactNode Value) → Result Fault (List Text)
  validate_nodes prior [] = ok prior
  validate_nodes prior (node ∷ nodes) =
      let rest = validate_nodes (set_insert node.id prior) nodes in
      validate_artifact node
      >> reject (not (all (contains prior) node.parents)) (refused (new invalid_artifact))
      >> reject (contains prior node.id) (refused (new invalid_artifact))
      >>= λ _. rest

  unfoldable pub validate_evidence : EvidenceGraph Value → Result Fault (Unit {0})
  validate_evidence g = do
    map_err refused (validate_token g.run_id)
    reject (is_empty g.nodes || ltb max_artifact_nodes (length g.nodes))
        (refused (new invalid_artifact))
    prior ← validate_nodes [] g.nodes
    reject (not (contains prior g.root)) (refused (new invalid_artifact))

  -- `proof_ledger`
  unfoldable pub root_ledger : EvidenceGraph Value → Result Fault (Option ProofLedger)
  root_ledger g = do
    validate_evidence g
    root ← ok_or (find (λ node. text_eq node.id g.root) g.nodes) (refused (new invalid_artifact))
    let read = ok_or (ledger_from_value root.payload) (refused (new invalid_artifact))
    if not (is_proof_ledger root.kind) then ok none else (read >>= λ ledger. ok (some ledger))
