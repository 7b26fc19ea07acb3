-- ===== src/Protocol/Errors.antt =====
-- protocol/src/lib.rs: reason codes, scopes, errors and stream defects.
use reproit_cloud.Prelude.{
  ◌==◌, if◌then◌else◌, Result, ℕ, ◌≡◌, refl, sym, ap, ◌∙◌, Option, none, some,
}
use reproit_cloud.Prelude.Order.{Ord, ord_of_rank}
use reproit_cloud.Text.{Text, lit}

pub data ReasonCode : Type 0 where
  frame_too_large : ReasonCode
  batch_too_large : ReasonCode
  malformed_frame : ReasonCode
  unsupported_version : ReasonCode
  invalid_scope : ReasonCode
  invalid_sequence : ReasonCode
  invalid_event : ReasonCode
  incomplete_stream : ReasonCode
  no_observations : ReasonCode
  authority_unavailable : ReasonCode
  invalid_artifact : ReasonCode

unfoldable pub reason_code_as_str : ReasonCode → Text
reason_code_as_str frame_too_large = lit "frame-too-large"
reason_code_as_str batch_too_large = lit "batch-too-large"
reason_code_as_str malformed_frame = lit "malformed-frame"
reason_code_as_str unsupported_version = lit "unsupported-version"
reason_code_as_str invalid_scope = lit "invalid-scope"
reason_code_as_str invalid_sequence = lit "invalid-sequence"
reason_code_as_str invalid_event = lit "invalid-event"
reason_code_as_str incomplete_stream = lit "incomplete-stream"
reason_code_as_str no_observations = lit "no-observations"
reason_code_as_str authority_unavailable = lit "authority-unavailable"
reason_code_as_str invalid_artifact = lit "invalid-artifact"

-- The place in the declaration, which the derived `Ord` compares.
abbrev pub reason_code_rank : ReasonCode → ℕ
reason_code_rank frame_too_large = 0
reason_code_rank batch_too_large = 1
reason_code_rank malformed_frame = 2
reason_code_rank unsupported_version = 3
reason_code_rank invalid_scope = 4
reason_code_rank invalid_sequence = 5
reason_code_rank invalid_event = 6
reason_code_rank incomplete_stream = 7
reason_code_rank no_observations = 8
reason_code_rank authority_unavailable = 9
reason_code_rank invalid_artifact = 10

abbrev pub reason_code_of_rank : ℕ → ReasonCode
reason_code_of_rank n =
    if n == 0
    then frame_too_large
    else if n == 1
    then batch_too_large
    else if n == 2
    then malformed_frame
    else if n == 3
    then unsupported_version
    else if n == 4
    then invalid_scope
    else if n == 5
    then invalid_sequence
    else if n == 6
    then invalid_event
    else if n == 7
    then incomplete_stream
    else if n == 8
    then no_observations
    else if n == 9
    then authority_unavailable
    else invalid_artifact

pub reason_code_of_rank-rank : (r : ReasonCode) → reason_code_of_rank (reason_code_rank r) ≡ r
reason_code_of_rank-rank frame_too_large = refl
reason_code_of_rank-rank batch_too_large = refl
reason_code_of_rank-rank malformed_frame = refl
reason_code_of_rank-rank unsupported_version = refl
reason_code_of_rank-rank invalid_scope = refl
reason_code_of_rank-rank invalid_sequence = refl
reason_code_of_rank-rank invalid_event = refl
reason_code_of_rank-rank incomplete_stream = refl
reason_code_of_rank-rank no_observations = refl
reason_code_of_rank-rank authority_unavailable = refl
reason_code_of_rank-rank invalid_artifact = refl

pub reason_code_rank-injective :
    (a b : ReasonCode) → reason_code_rank a ≡ reason_code_rank b → a ≡ b
reason_code_rank-injective a b h =
    sym (reason_code_of_rank-rank a) ∙ ap reason_code_of_rank h ∙ reason_code_of_rank-rank b

instance abbrev pub reason_code_ord : Ord ReasonCode
reason_code_ord = ord_of_rank reason_code_rank reason_code_rank-injective

pub data EvidenceScope : Type 0 where
  shared : EvidenceScope
  backend : EvidenceScope
  contract : (contract_hash : Option Text) → EvidenceScope

pub record ProtocolError : Type 0 where
  pub reason : ReasonCode
  pub scope : Option EvidenceScope

-- `ProtocolError::new`
abbrev pub new : ReasonCode → ProtocolError
new reason = record { reason = reason; scope = none }

-- `ProtocolError::scoped`
abbrev pub scoped : ReasonCode → EvidenceScope → ProtocolError
scoped reason scope = record { reason = reason; scope = some scope }

pub record StreamDefect : Type 0 where
  pub reason : ReasonCode
  pub scope : EvidenceScope
  pub sequence : Option ℕ

-- `StreamDefect::shared`
abbrev pub shared_defect : ReasonCode → StreamDefect
shared_defect reason = record { reason = reason; scope = shared; sequence = none }

-- The result of a validator.
abbrev pub Checked : Type 0
Checked = Result ProtocolError (Unit {0})
