-- ===== src/Protocol/Batch.antt =====
-- protocol/src/lib.rs: the deployment and the batch of events.
pub mod Laws
use reproit_cloud.Prelude.{
  ltb, leb, ◌==◌, Result, ok, ◌>>=◌, ◌>>◌, reject, map_err, each, length, is_empty, ℕ, Bool, true,
  false, not, ◌&&◌, Option, none, some, List, [], ◌∷◌,
}
use reproit_cloud.Text.{Text}
use reproit_cloud.Protocol.Errors.{
  Checked, new, unsupported_version, batch_too_large, invalid_event, invalid_sequence,
}
use reproit_cloud.Protocol.Validators.{
  version, max_batch_frames, max_batch_graphs, validate_token, validate_optional_token,
}
use reproit_cloud.Protocol.Event.{Serde}
use reproit_cloud.Protocol.Frame.{EventFrame, validate_frame}
use reproit_cloud.Protocol.Causal.{Fault, refused}
use reproit_cloud.Protocol.Artifact.{Codec, EvidenceGraph, validate_evidence}

pub record DeploymentIdentity : Type 0 where
  pub version : Option Text
  pub commit : Option Text

pub record EventBatch (V : Type 0) : Type 0 where
  pub version : ℕ
  pub batch_id : Text
  pub app_id : Text
  pub deployment : Option DeploymentIdentity
  pub frames : List (EventFrame V)
  pub evidence : List (EvidenceGraph V)

abbrev is_none : Option Text → Bool
is_none none = true
is_none (some v) = false

unfoldable pub validate_deployment : DeploymentIdentity → Checked
validate_deployment d = do
  reject (is_none d.version && is_none d.commit) (new invalid_event)
  validate_optional_token d.version
  validate_optional_token d.commit

-- `self.commit.as_deref().or(self.version.as_deref())`
abbrev or_else : Option Text → Option Text → Option Text
or_else none other = other
or_else (some v) other = some v

unfoldable pub deployment_key : DeploymentIdentity → Option Text
deployment_key d = or_else d.commit d.version

unfoldable pub validate_optional_deployment : Option DeploymentIdentity → Checked
validate_optional_deployment none = ok tt
validate_optional_deployment (some d) = validate_deployment d

-- `last_sequence.is_some_and(|last| frame.sequence <= last)`
abbrev pub not_after : ℕ → Option ℕ → Bool
not_after sequence none = false
not_after sequence (some last) = leb sequence last

module _ (serde : Serde) where
  open serde use {Value}

  -- The loop over the frames, with the sequence of the frame before.
  unfoldable pub validate_frames : Option ℕ → List (EventFrame Value) → Checked
  validate_frames last [] = ok tt
  validate_frames last (frame ∷ frames) =
      let rest = validate_frames (some frame.sequence) frames in
      validate_frame serde frame
      >> reject (not_after frame.sequence last) (new invalid_sequence)
      >>= λ _. rest

  unfoldable pub validate_batch : Codec serde → EventBatch Value → Result Fault (Unit {0})
  validate_batch codec b = do
    reject (not (b.version == version)) (refused (new unsupported_version))
    map_err refused (validate_token b.batch_id)
    map_err refused (validate_token b.app_id)
    map_err refused (validate_optional_deployment b.deployment)
    reject (ltb max_batch_frames (length b.frames)) (refused (new batch_too_large))
    reject (ltb max_batch_graphs (length b.evidence)) (refused (new batch_too_large))
    reject (is_empty b.frames && is_empty b.evidence) (refused (new invalid_event))
    map_err refused (validate_frames none b.frames)
    each (validate_evidence serde codec) b.evidence
