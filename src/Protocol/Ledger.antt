-- ===== src/Protocol/Ledger.antt =====
-- protocol/src/lib.rs: the proof ledger, and how the stages of a proof decide the promotion.
pub mod Order
pub mod Promotion
pub mod Canonical
use reproit_cloud.Text.Compare.{text_ord}
use reproit_cloud.Prelude.{
  ltb, if◌then◌else◌, Result, ok, ◌>>◌, reject, each, length, is_empty, Bool, true, false, not,
  ◌&&◌, ◌||◌, List, [],
}
use reproit_cloud.Prelude.Order.{set_insert, sort, dedup, is_strictly_sorted}
use reproit_cloud.Text.{Text}
use reproit_cloud.Protocol.Errors.{
  reason_code_ord, ReasonCode, ProtocolError, Checked, invalid_artifact, new,
}
use reproit_cloud.Protocol.Validators.{max_text_bytes, validate_text}
use Order.{
  blocker_ord, authority_ord, EvaluationStatus, satisfied, violation, abstain, AuthoritySource,
  ConfirmationStatus, MinimizationStatus, PromotionStatus, candidate, confirmed, PromotionBlocker,
  missing_authority, no_violation, evaluation_abstained, replay_not_reproduced,
  replay_identity_mismatch, minimization_not_preserved, is_reproduced, is_preserved, is_abstain,
  same_promotion, same_blockers,
}

pub record ProofLedger : Type 0 where
  pub finding_identities : List Text
  pub authority : List AuthoritySource
  pub evaluation : EvaluationStatus
  pub evaluation_reasons : List ReasonCode
  pub confirmation : ConfirmationStatus
  pub replay_identity_matched : Bool
  pub minimization : MinimizationStatus
  pub promotion : PromotionStatus
  pub blockers : List PromotionBlocker

-- `if condition { blockers.insert(blocker); }`
insert_if : Bool → PromotionBlocker → List PromotionBlocker → List PromotionBlocker
insert_if true blocker blockers = set_insert blocker blockers
insert_if false blocker blockers = blockers

evaluation_blockers : EvaluationStatus → List PromotionBlocker → List PromotionBlocker
evaluation_blockers violation blockers = blockers
evaluation_blockers satisfied blockers = set_insert no_violation blockers
evaluation_blockers abstain blockers = set_insert evaluation_abstained blockers

unfoldable pub derive_blockers :
    List AuthoritySource
    → EvaluationStatus
    → ConfirmationStatus
    → Bool
    → MinimizationStatus
    → List PromotionBlocker
unfolding insert_if evaluation_blockers set_insert
derive_blockers authority evaluation confirmation replay_identity_matched minimization =
    let blockers = insert_if (is_empty authority) missing_authority [] in
    let blockers = evaluation_blockers evaluation blockers in
    let blockers = insert_if (not (is_reproduced confirmation)) replay_not_reproduced blockers in
    let blockers = insert_if (not replay_identity_matched) replay_identity_mismatch blockers in
    insert_if (not (is_preserved minimization)) minimization_not_preserved blockers

unfoldable pub derive_promotion :
    List AuthoritySource
    → EvaluationStatus
    → ConfirmationStatus
    → Bool
    → MinimizationStatus
    → PromotionStatus × List PromotionBlocker
derive_promotion authority evaluation confirmation replay_identity_matched minimization =
    let blockers =
      derive_blockers authority evaluation confirmation replay_identity_matched minimization in
    (if is_empty blockers then confirmed else candidate, blockers)

unfoldable pub validate_ledger : ProofLedger → Checked
validate_ledger l = do
  reject (is_empty l.finding_identities || ltb 256 (length l.finding_identities))
      (new invalid_artifact)
  each (λ identity. validate_text identity max_text_bytes) l.finding_identities
  reject (ltb 8 (length l.authority) || ltb 256 (length l.evaluation_reasons))
      (new invalid_artifact)
  reject (is_abstain l.evaluation && is_empty l.evaluation_reasons) (new invalid_artifact)
  reject
      (not (is_strictly_sorted l.finding_identities)
        || not (is_strictly_sorted l.authority)
        || not (is_strictly_sorted l.evaluation_reasons))
      (new invalid_artifact)
  let expected =
      derive_promotion l.authority l.evaluation l.confirmation l.replay_identity_matched
        l.minimization
  reject (not (same_promotion l.promotion expected.0) || not (same_blockers l.blockers expected.1))
      (new invalid_artifact)

-- The ledger that `from_stages` builds before it validates it.
unfoldable pub ledger_of_stages :
    List Text
    → List AuthoritySource
    → EvaluationStatus
    → List ReasonCode
    → ConfirmationStatus
    → Bool
    → MinimizationStatus
    → ProofLedger
ledger_of_stages identities authority evaluation reasons confirmation matched minimization =
    let derived =
      derive_promotion (dedup (sort authority)) evaluation confirmation matched minimization in
    record {
      finding_identities = dedup (sort identities);
      authority = dedup (sort authority);
      evaluation = evaluation;
      evaluation_reasons = dedup (sort reasons);
      confirmation = confirmation;
      replay_identity_matched = matched;
      minimization = minimization;
      promotion = derived.0;
      blockers = derived.1;
    }

unfoldable pub from_stages :
    List Text
    → List AuthoritySource
    → EvaluationStatus
    → List ReasonCode
    → ConfirmationStatus
    → Bool
    → MinimizationStatus
    → Result ProtocolError ProofLedger
unfolding ledger_of_stages
from_stages identities authority evaluation reasons confirmation matched minimization = do
  let ledger =
      ledger_of_stages identities authority evaluation reasons confirmation matched minimization
  validate_ledger ledger
  ok ledger
