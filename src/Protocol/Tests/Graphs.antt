-- ===== src/Protocol/Tests/Graphs.antt =====
-- Evidence graphs and batches of protocol/src/lib.rs on concrete inputs.
use reproit_cloud.Protocol.Ledger.Order.{same_blockers}
use reproit_cloud.Text.{text_lt, starts_with, Text, lit, text_eq}
use reproit_cloud.Protocol.Validators.{validate_value, valid_hash, validate_token, validate_text}
use reproit_cloud.Text.Compare.{text_ord}
use reproit_cloud.Protocol.Event.{action}
use reproit_cloud.Prelude.Order.{contains, is_strictly_sorted, set_insert}
use reproit_cloud.Protocol.Artifact.{
  is_content_address, artifact_kind_as_str, raw_capture, artifact_id, validate_evidence,
  validate_artifact, EvidenceGraph, ArtifactNode, proof_ledger, validate_payload, validate_nodes,
}
use reproit_cloud.Protocol.Batch.{EventBatch, validate_batch}
use reproit_cloud.Protocol.Ledger.{derive_blockers, derive_promotion, validate_ledger}
use reproit_cloud.Protocol.Frame.{EventFrame}
use reproit_cloud.Protocol.Tests.{toy_serde, toy_codec, repeat}
use reproit_cloud.Protocol.Artifact.Laws.{IsEvidence, validate_evidence-IsOk}
use reproit_cloud.Protocol.Errors.{shared}
use reproit_cloud.Protocol.Batch.Laws.{IsBatch, validate_batch-IsOk}
use reproit_cloud.Prelude.{each, IsOk, ℕ, refl, ◌↔◌, none, [], ◌∷◌, ◌++◌}

-- The address of a text of some length with this digit at the end.
abbrev address : ℕ → Text
address digit = lit "sha256:" ++ repeat 64 digit

-- The material of the first node has 19 bytes, that of the second 18.
abbrev capture : ArtifactNode Text
capture = record { id = address b'9'; kind = raw_capture; parents = []; payload = lit "captured" }

abbrev proof : ArtifactNode Text
proof = record {
  id = address b'8';
  kind = proof_ledger;
  parents = address b'9' ∷ [];
  payload = lit "ledger";
}

abbrev graph : EvidenceGraph Text
graph = record { run_id = lit "run-1"; root = address b'8'; nodes = capture ∷ proof ∷ [] }

graph-IsOk : IsOk (validate_evidence toy_serde toy_codec graph)
unfolding validate_evidence validate_token validate_nodes validate_artifact artifact_id
    validate_value each text_eq repeat artifact_kind_as_str validate_payload contains
    is_content_address starts_with valid_hash validate_ledger validate_text is_strictly_sorted
    set_insert derive_promotion derive_blockers same_blockers text_lt
graph-IsOk = refl

validate_evidence-IsOk_example :
    IsOk (validate_evidence toy_serde toy_codec graph) ↔ IsEvidence toy_serde toy_codec graph
validate_evidence-IsOk_example = validate_evidence-IsOk toy_serde toy_codec graph

abbrev frame : EventFrame Text
frame = record {
  run_id = lit "run-1";
  sequence = 7;
  scope = shared;
  event = action none (lit "tap");
}

abbrev batch : EventBatch Text
batch = record {
  version = 1;
  batch_id = lit "b1";
  app_id = lit "a1";
  deployment = none;
  frames = frame ∷ [];
  evidence = graph ∷ [];
}

validate_batch-IsOk_example :
    IsOk (validate_batch toy_serde toy_codec batch) ↔ IsBatch toy_serde toy_codec batch
validate_batch-IsOk_example = validate_batch-IsOk toy_serde toy_codec batch
